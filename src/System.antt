-- ===== src/System.antt =====
-- `main` of src/os.c, and the threads that it starts: the steps of the whole simulation, which put
-- together the timer, the loader thread, the CPU threads and the scheduler. A thread's round between
-- two calls of `next_slot` is one step; what it shares with other threads is the scheduler's state,
-- which is under a lock, the flag `done`, and the time, which stands still meanwhile. A round with
-- undefined behaviour or a call of `exit` has no step.
pub mod Threads
pub mod Rounds
pub mod Going
pub mod Endless
pub mod Progress
pub mod Loading
pub mod Inputs
use assignment_os.Base.{
  ℕ, zero, suc, ◌+◌, ◌++◌, Bool, true, false, ltb, if◌then◌else◌, ◌≡◌, Option, none, some, List, [],
  ◌∷◌, length, get_elem?, set, replicate, ℤ, pos, Run, done, fault, ◌>>=◌,
}
use assignment_os.Memphy.{Memphy, init_memphy}
use assignment_os.Process.{Mm, Pcb}
use assignment_os.Vm.{rounds}
use assignment_os.Syscall.{SyscallTable, Junk}
use assignment_os.Queue.{Queue}
use assignment_os.Sched.{Sched, max_prio, init_scheduler}
use assignment_os.Stdio.{Bytes, codes, c_string}
use assignment_os.Loader.{Malloc}
use assignment_os.Config.{Entry, Config, Unset, read_config}
use assignment_os.Ld.{LdArgs, Ld, LdRound, ld_slot, ld_done, ld_start, ld_round}
use assignment_os.Os.{mlq_scheduler, CpuState, Round, next_slot, stopped, Machine, cpu_round}
use assignment_os.Timer.{
  Device, working, waiting, finished, Timer, initial, attach_event, start_timer, stop_timer,
  tell_done, slot_begins, detach_event, timer_step,
}

-- The local variables of `cpu_routine`.
pub record Cpu : Type 0 where
  pub proc : Option Pcb
  pub time_left : ℤ

-- Device 0 is that of the loader thread, which was attached last; device `k + 1` is that of the
-- thread at `k` in `cpus`, which begins with the last CPU.
pub record System : Type 0 where
  pub timer : Timer
  pub cpus : List Cpu
  pub ld_i : ℕ
  pub ld_proc : Option Pcb
  pub avail_pid : ℕ
  pub sched : Sched
  pub all_loaded : Bool

-- What does not change while the threads run.
pub record Fixed : Type 0 where
  pub machine : Machine
  pub ld_args : LdArgs

-- The state that a thread works on.
abbrev pub cpu_state : Cpu → Sched → CpuState Sched
cpu_state c s = record { proc = c.proc; time_left = c.time_left; sched = s }

abbrev pub ld_state : System → Ld Sched
ld_state s = record { i = s.ld_i; proc = s.ld_proc; avail_pid = s.avail_pid; sched = s.sched }

-- The timer with another device at `i`.
abbrev pub at_device : Timer → (i : ℕ) → Device → Timer
at_device t i d = record t { dev_list = set t.dev_list i d }

-- The state after the rounds of a thread.
abbrev pub cpu_next : System → (k : ℕ) → Device → CpuState Sched → System
cpu_next s k d c = record s {
  timer = at_device s.timer (suc k) (tell_done d);
  cpus = set s.cpus k (record { proc = c.proc; time_left = c.time_left });
  sched = c.sched;
}

abbrev pub cpu_ends : System → (k : ℕ) → Device → Sched → System
cpu_ends s k d q = record s { timer = at_device s.timer (suc k) (detach_event d); sched = q }

abbrev pub ld_next : System → Device → Ld Sched → System
ld_next s d ld = record s {
  timer = at_device s.timer 0 (tell_done d);
  ld_i = ld.i;
  ld_proc = ld.proc;
  avail_pid = ld.avail_pid;
  sched = ld.sched;
}

abbrev pub ld_ends : System → Device → Sched → System
ld_ends s d q = record s {
  timer = at_device s.timer 0 (detach_event d);
  sched = q;
  all_loaded = true;
}

-- A step of the timer's thread, of a thread that returns from `next_slot`, of a CPU's or the
-- loader's thread, or of `main`, which waits for all of them and stops the timer.
pub data SystemStep (fixed : Fixed) (s : System) : System → Type 0 where
  timer_runs :
      (t : Timer) → timer_step s.timer ≡ some t → SystemStep fixed s (record s { timer = t })
  slot_returns :
      (i : ℕ) (d : Device)
      → get_elem? s.timer.dev_list i ≡ some d
      → d.place ≡ waiting
      → d.done ≡ false
      → SystemStep fixed s (record s { timer = at_device s.timer i (slot_begins d) })
  cpu_runs :
      (k : ℕ) (c : Cpu) (d : Device) (c' : CpuState Sched)
      → get_elem? s.cpus k ≡ some c
      → get_elem? s.timer.dev_list (suc k) ≡ some d
      → d.place ≡ working
      → cpu_round mlq_scheduler fixed.machine s.all_loaded (cpu_state c s.sched)
        ≡ done (next_slot c')
      → SystemStep fixed s (cpu_next s k d c')
  cpu_stops :
      (k : ℕ) (c : Cpu) (d : Device) (q : Sched)
      → get_elem? s.cpus k ≡ some c
      → get_elem? s.timer.dev_list (suc k) ≡ some d
      → d.place ≡ working
      → cpu_round mlq_scheduler fixed.machine s.all_loaded (cpu_state c s.sched) ≡ done (stopped q)
      → SystemStep fixed s (cpu_ends s k d q)
  ld_runs :
      (d : Device) (ld : Ld Sched)
      → get_elem? s.timer.dev_list 0 ≡ some d
      → d.place ≡ working
      → ld_round mlq_scheduler fixed.ld_args s.timer.time (ld_state s) ≡ done (some (ld_slot ld))
      → SystemStep fixed s (ld_next s d ld)
  ld_finishes :
      (d : Device) (q : Sched)
      → get_elem? s.timer.dev_list 0 ≡ some d
      → d.place ≡ working
      → ld_round mlq_scheduler fixed.ld_args s.timer.time (ld_state s) ≡ done (some (ld_done q))
      → SystemStep fixed s (ld_ends s d q)
  main_joins :
      ((j : ℕ) (d : Device) → get_elem? s.timer.dev_list j ≡ some d → d.place ≡ finished)
      → SystemStep fixed s (record s { timer = stop_timer s.timer })

-- What the steps can bring about from the state `s`.
pub data SystemReachable (fixed : Fixed) (s : System) : System → Type 0 where
  booted : SystemReachable fixed s s
  later :
      {t u : System} → SystemReachable fixed s t → SystemStep fixed t u → SystemReachable fixed s u

-- What `main` finds: the files, what unset memory holds, and the table of system calls.
pub record World : Type 0 where
  pub disk : Bytes → Option Bytes
  pub unset : Unset
  pub malloc : ℕ → Malloc
  pub malloc_mm : ℕ → Mm
  pub malloc_pgd : ℕ → (ℕ → ℕ)
  pub mram : Memphy
  pub mswp : List Memphy
  pub table : SyscallTable
  pub junk : Junk

-- `attach_event` as often; the NULL that it may return is used without a test.
unfoldable pub attach_all : ℕ → Timer → Run Timer
attach_all zero t = done t
attach_all (suc n) t = elim (attach_event t) [ none ↦ fault | some t' ↦ attach_all n t' ]

-- `init_memphy` of the swap devices.
unfoldable pub init_mswp : List Memphy → List ℤ → Run (List Memphy)
init_mswp [] sizes = done []
init_mswp (mp ∷ mps) [] = done (mp ∷ mps)
init_mswp (mp ∷ mps) (size ∷ sizes) = do
  mp' ← init_memphy mp size true
  rest ← init_mswp mps sizes
  done (mp' ∷ rest)

-- The static variables of src/sched.c, which are zero at first.
abbrev pub zeroed_queue : Queue
zeroed_queue = record { proc = []; size = 0 }

abbrev pub zeroed_sched : Sched
zeroed_sched = record {
  ready = zeroed_queue;
  run = zeroed_queue;
  running = zeroed_queue;
  mlq_ready = replicate max_prio zeroed_queue;
  slot = replicate max_prio 0;
}

-- The thread of a CPU as it starts.
abbrev pub cpu_start : Cpu
cpu_start = record { proc = none; time_left = pos 0 }

-- `&mswp[0]`
abbrev pub first_mswp : List Memphy → Run Memphy
first_mswp [] = fault
first_mswp (mp ∷ mps) = done mp

-- What `main` passes to its threads, and their state as they start.
abbrev pub fixed_of : World → Config → (mram active_mswp : Memphy) → Fixed
fixed_of world config mram active_mswp = record {
  machine = record { table = world.table; junk = world.junk; time_slot = config.time_slot };
  ld_args = record {
    disk = world.disk;
    malloc = world.malloc;
    malloc_mm = world.malloc_mm;
    malloc_pgd = world.malloc_pgd;
    ld_processes = config.processes;
    mram = mram;
    active_mswp = active_mswp;
  };
}

abbrev pub system_of : Config → Timer → Sched → System
system_of config timer sched = record {
  timer = start_timer timer;
  cpus = replicate (rounds config.num_cpus) cpu_start;
  ld_i = 0;
  ld_proc = none;
  avail_pid = 1;
  sched = sched;
  all_loaded = false;
}

-- `main` from the configuration on to where its threads run.
unfoldable pub boot : World → Config → Run (Fixed × System)
boot world config = do
  timer ← attach_all (rounds config.num_cpus + 1) initial
  mram ← init_memphy world.mram config.memramsz true
  mswp ← init_mswp world.mswp config.memswpsz
  active_mswp ← first_mswp mswp
  sched ← init_scheduler zeroed_sched
  done (fixed_of world config mram active_mswp, system_of config timer sched)

-- How `main` goes: `return 1` after the usage text, `exit(1)`, or the threads.
pub data MainResult : Type 0 where
  usage exited : MainResult
  threads : Fixed → System → MainResult

-- `main` on its arguments after the program's name; the path has 100 bytes.
unfoldable pub os_main : World → (argv : List Bytes) → Run MainResult
os_main world [] = done usage
os_main world (arg ∷ other ∷ more) = done usage
os_main world (arg ∷ []) =
    let path = codes "input/" ++ c_string arg in
    if ltb (length path) 100
    then (do
      config ← read_config world.disk world.unset path
      elim config [
        | none ↦ done exited
        | some c ↦ (do (fixed, s) ← boot world c; done (threads fixed s))
      ])
    else fault
