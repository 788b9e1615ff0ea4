-- ===== src/Tests/Simulation.antt =====
-- The whole simulation, with one CPU, two processes and the memories of the plan.
use assignment_os.Base.{
  ℕ, suc, zero, ◌+◌, ◌%◌, ◌<◌, ◌≤◌, ◌≡◌, ◌≢◌, refl, arith, true, false, Option, none, some, List,
  [], ◌∷◌, ◌++◌, length, if◌then◌else◌, get_elem?, replicate, word, done,
}
use assignment_os.Base.{node, null}
use assignment_os.Memphy.{Memphy, init_memphy, format}
use assignment_os.Process.{calc, Inst, Pcb}
use assignment_os.Os.{cpu_round}
use assignment_os.Ld.{ld_round, add_or_wait}
use assignment_os.Sched
use assignment_os.Stdio.{
  skip_space, take_digits, number, signed, scan_number, scan_numbers, take_word, scan_word,
}
use assignment_os.Stdio.Numbers.{digits}
use assignment_os.Loader.{get_opcode, scan_opcode, scan_inst, load_text, load, loaded}
use assignment_os.Syscall.{syscall_tbl}
use assignment_os.Sched.{Sched, init_scheduler}
use assignment_os.Stdio.{Bytes, codes, same_bytes, c_string}
use assignment_os.Loader.Print.{print_text, print_program}
use assignment_os.Config.{Entry}
use assignment_os.Config.Print.{print_plan, config}
use assignment_os.Timer.{
  ended, finished, Device, TimerAt, new_device, tell_done, attach_event, head, check, timer_step,
}
use assignment_os.System.{
  System, Fixed, SystemStep, timer_runs, SystemReachable, booted, later, World, zeroed_sched,
  attach_all, init_mswp, boot, threads, os_main, cpu_start, cpu_state, cpu_runs, ld_runs, fixed_of,
}
use assignment_os.System.Endless.{never_ends}
use assignment_os.System.Loading.{added_in_time}
use assignment_os.System.Inputs.{IsPrinted, HasPrograms, os_main_goes_on}
use assignment_os.Tests.Memory.{mm}
use assignment_os.Tests.Devices.{raw}
use assignment_os.Tests.Kernel.{junk, calc_inst, free_inst}
use assignment_os.Tests.Loading.{plan, plan-IsPlan, malloc, unset, item, later_item}

abbrev short : List Inst
short = calc_inst ∷ []

-- A disk with the configuration and two programs.
abbrev disk : Bytes → Option Bytes
disk path =
    if same_bytes path (codes "input/sched")
    then some (print_plan plan)
    else some (print_program 7 short)

abbrev world : World
world = record {
  disk = disk;
  unset = unset;
  malloc = λ i. malloc;
  malloc_mm = λ i. mm;
  malloc_pgd = λ i p. 0;
  mram = raw;
  mswp = raw ∷ raw ∷ raw ∷ raw ∷ [];
  table = syscall_tbl;
  junk = junk;
}

printed : (path : Bytes) → disk path ≡ some (print_program 7 short) → IsPrinted disk path
printed path found = record {
  priority = 7;
  text = short;
  priority_fits = omega arith;
  size_fits = omega arith;
  words = (_, _);
  printed = found;
}

programs : HasPrograms disk plan
unfolding same_bytes
programs zero it found =
    let eq : item ≡ it = ground arith in rw⁻¹ eq (omega arith, printed (codes "input/proc/s0") refl)
programs (suc zero) it found =
    let eq : later_item ≡ it = ground arith in
    rw⁻¹ eq (omega arith, printed (codes "input/proc/s1") refl)
programs (suc (suc i)) it found = absurd (ground arith)

config_found : disk (codes "input/" ++ c_string (codes "sched")) ≡ some (print_plan plan)
unfolding same_bytes c_string print_plan
config_found = refl

path_fits : length (codes "input/" ++ c_string (codes "sched")) < 100
unfolding c_string
path_fits = omega arith

os_main_example :
    (fixed : Fixed) × (s : System) × (os_main world (codes "sched" ∷ []) ≡ done (threads fixed s))
    × ((u : System) → SystemReachable fixed s u → (v : System) × SystemStep fixed u v)
os_main_example =
    os_main_goes_on world (codes "sched") plan config_found path_fits plan-IsPlan (omega arith)
      programs (omega arith)

-- What `boot` sets up: four frames of RAM, two of swap, and the slots of the queues.
abbrev ram : Memphy
ram = record {
  storage = replicate 1024 0;
  maxsz = 1024;
  rdmflg = true;
  cursor = 9;
  free_fp_list = node 0 (node 1 (node 2 (node 3 null)));
}

abbrev swp : Memphy
swp = record {
  storage = replicate 512 0;
  maxsz = 512;
  rdmflg = true;
  cursor = 9;
  free_fp_list = node 0 (node 1 null);
}

abbrev slots : ℕ → List ℕ
slots zero = []
slots (suc n) = suc n ∷ slots n

abbrev cleared : Sched
cleared = record zeroed_sched { slot = slots 140 }

abbrev fixed : Fixed
fixed = fixed_of world (config plan) ram swp

-- The simulation with the timer at `place`, the devices `l` of the loader and `c` of the CPU.
abbrev at : TimerAt → Device → Device → System
at place l c = record {
  timer = record {
    dev_list = l ∷ c ∷ [];
    time = 0;
    timer_started = true;
    timer_stop = false;
    place = place;
  };
  cpus = cpu_start ∷ [];
  ld_i = 0;
  ld_proc = none;
  avail_pid = 1;
  sched = cleared;
  all_loaded = false;
}

starts : boot world (config plan) ≡ done (fixed, at head new_device new_device)
unfolding boot attach_all attach_event init_mswp init_memphy format init_scheduler
starts = refl

-- The CPU's thread and the loader's thread have made a round, in which the first process was
-- loaded.
abbrev small : Pcb
small = record (loaded malloc 1 7 1 (record free_inst { opcode = calc } ∷ [])) { prio = 12 }

abbrev one_loaded : System
one_loaded = record (at (check 0 0 0) (tell_done new_device) (tell_done new_device)) {
  ld_proc = some small;
  avail_pid = 2;
}

reached : SystemReachable fixed (at head new_device new_device) one_loaded
unfolding timer_step cpu_round Sched.get_proc ld_round add_or_wait load load_text scan_opcode
    scan_word take_word scan_inst scan_numbers scan_number skip_space signed number take_digits
    get_opcode c_string same_bytes print_program print_text digits
reached =
    later
      (later (later booted (timer_runs _ refl))
        (cpu_runs 0 cpu_start new_device (cpu_state cpu_start cleared) refl refl refl refl))
      (ld_runs new_device (record { i = 0; proc = some small; avail_pid = 2; sched = cleared }) refl
        refl refl)

never_ends_example :
    (check 0 0 0 ≢ ended)
    × (false ≡ false)
    × (one_loaded.cpus ≡ cpu_start ∷ [])
    × ((k : ℕ) (d : Device)
        → get_elem? one_loaded.timer.dev_list (suc k) ≡ some d
        → d.place ≢ finished)
    × (one_loaded.sched ≡ cleared)
never_ends_example =
    never_ends world (config plan) fixed (at head new_device new_device) one_loaded starts
      (omega arith) reached

added_in_time_example :
    ((k : ℕ) (e : Entry) → k < 0 → get_elem? (config plan).processes k ≡ some e → e.start_time ≤ 0)
    × (2 ≡ (1 + 0 + 1) % word)
    × (false ≡ true → 2 ≤ 0)
added_in_time_example =
    added_in_time world (config plan) fixed (at head new_device new_device) one_loaded starts
      reached
