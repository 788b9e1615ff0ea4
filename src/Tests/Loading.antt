-- ===== src/Tests/Loading.antt =====
-- Files in the formats of input and input/proc, and what is read from them.
use assignment_os.Base.{
  ℕ, ◌+◌, ◌%◌, ◌≡◌, refl, sym, ap, arith, true, false, some, List, [], ◌∷◌, word, done,
}
use assignment_os.Process.{calc, syscall, write, Inst, Pcb}
use assignment_os.Stdio.{
  Bytes, codes, skip_space, take_digits, number, signed, scan_number, scan_numbers, take_word,
  scan_word, c_string, same_bytes,
}
use assignment_os.Stdio.Numbers.{digits}
use assignment_os.Loader.{get_opcode, Malloc, scan_opcode, scan_inst, load_text, load, loaded}
use assignment_os.Loader.Print.{print_text, print_program, SameInsts}
use assignment_os.Loader.RoundTrip.{load-print_program}
use assignment_os.Loader.Loads.{load_lem}
use assignment_os.Config.{Entry, Unset, read_config}
use assignment_os.Config.Print.{
  Item, Plan, blanks_before, print_items, print_plan, IsName, IsPlan, config,
}
use assignment_os.Config.RoundTrip.{read_config-print_plan}
use assignment_os.Ld.{LdArgs, ld_start, ld_done}
use assignment_os.Ld.Schedule.{LoadsFrom, to_add, ld_rounds, add_in_order, ld_rounds-end_time}
use assignment_os.Queue.{enqueue}
use assignment_os.Sched
use assignment_os.Sched.{put_mlq_proc}
use assignment_os.Os.{mlq_scheduler}
use assignment_os.Tests.Memory.{proc, mm, device}
use assignment_os.Tests.Kernel.{calc_inst, free_inst, sched}

abbrev write_inst : Inst
write_inst = record { opcode = write; arg_0 = 100; arg_1 = 1; arg_2 = 20; arg_3 = 0 }

abbrev call_inst : Inst
call_inst = record { opcode = syscall; arg_0 = 17; arg_1 = 4294967295; arg_2 = 3; arg_3 = 4 }

abbrev pub text : List Inst
text = calc_inst ∷ write_inst ∷ call_inst ∷ []

-- What `malloc` finds.
abbrev pub malloc : Malloc
malloc = record { pcb = proc; size = 0; text = λ i. free_inst }

-- The printed program is as in the files of input/proc.
print_program_example :
    print_program 7 text ≡ codes "7 3\ncalc\nwrite 100 1 20\nsyscall 17 4294967295 3 4\n"
unfolding print_program print_text digits
print_program_example = refl

load_example :
    (out : List Inst) × (load (λ path. some (print_program 7 text)) malloc 1 (codes "p0")
      ≡ done (some (loaded malloc 1 7 3 out, 2)))
    × SameInsts out text
load_example =
    load-print_program (λ path. some (print_program 7 text)) malloc 1 7 text (codes "p0") refl
      (omega arith) (omega arith)
      (
        _,
        (
          (omega arith, (omega arith, (omega arith, _))),
          ((omega arith, (omega arith, (omega arith, (omega arith, _)))), _),
        ),
      )

abbrev pub item : Item
item = record { name = codes "s0"; blanks = 0; start_time = 2; prio = 12 }

abbrev pub later_item : Item
later_item = record { name = codes "s1"; blanks = 1; start_time = 4; prio = 20 }

abbrev pub plan : Plan
plan = record {
  time_slot = 2;
  num_cpus = 1;
  blanks = 1;
  ram = 1024;
  swap_0 = 512;
  swap_1 = 0;
  swap_2 = 0;
  swap_3 = 0;
  items = item ∷ later_item ∷ [];
  last_newline = true;
}

abbrev pub unset : Unset
unset = record { prio = λ i. 0 }

print_plan_example : print_plan plan ≡ codes "2 1  2\n1024 512 0 0 0\n2 s0 12\n4 s1  20\n"
unfolding print_plan print_items blanks_before digits
print_plan_example = refl

-- The plan of input/os_syscall, and the text of that file.
abbrev shipped : Plan
shipped = record {
  time_slot = 2;
  num_cpus = 1;
  blanks = 0;
  ram = 2048;
  swap_0 = 16777216;
  swap_1 = 0;
  swap_2 = 0;
  swap_3 = 0;
  items = record { name = codes "sc2"; blanks = 1; start_time = 9; prio = 15 } ∷ [];
  last_newline = true;
}

shipped_text : print_plan shipped ≡ codes "2 1 1\n2048 16777216 0 0 0\n9 sc2  15\n"
unfolding print_plan print_items blanks_before digits
shipped_text = refl

-- The plan of input/os_0_mlq_paging, whose last line ends without a newline.
abbrev unended : Plan
unended = record {
  time_slot = 6;
  num_cpus = 2;
  blanks = 0;
  ram = 1048576;
  swap_0 = 16777216;
  swap_1 = 0;
  swap_2 = 0;
  swap_3 = 0;
  items =
      record { name = codes "p0s"; blanks = 0; start_time = 0; prio = 0 }
      ∷ record { name = codes "p1s"; blanks = 0; start_time = 2; prio = 15 }
      ∷ record { name = codes "p1s"; blanks = 0; start_time = 4; prio = 0 }
      ∷ record { name = codes "p1s"; blanks = 0; start_time = 6; prio = 0 }
      ∷ [];
  last_newline = false;
}

unended_text :
    print_plan unended ≡ codes "6 2 4\n1048576 16777216 0 0 0\n0 p0s 0\n2 p1s 15\n4 p1s 0\n6 p1s 0"
unfolding print_plan print_items blanks_before digits
unended_text = refl

s0_IsName : IsName (codes "s0")
s0_IsName = record {
  some_byte = omega arith;
  fits = omega arith;
  bytes = ((refl, omega arith), ((refl, omega arith), _));
}

s1_IsName : IsName (codes "s1")
s1_IsName = record {
  some_byte = omega arith;
  fits = omega arith;
  bytes = ((refl, omega arith), ((refl, omega arith), _));
}

pub plan-IsPlan : IsPlan plan
plan-IsPlan = record {
  sizes = (
    omega arith,
    (
      omega arith,
      (omega arith, (omega arith, (omega arith, (omega arith, (omega arith, (omega arith, _)))))),
    ),
  );
  items = (
    record { name = s0_IsName; start_time = omega arith; prio = omega arith },
    (record { name = s1_IsName; start_time = omega arith; prio = omega arith }, _),
  );
}

shipped-IsPlan : IsPlan shipped
shipped-IsPlan = record {
  sizes = (
    omega arith,
    (
      omega arith,
      (omega arith, (omega arith, (omega arith, (omega arith, (omega arith, (omega arith, _)))))),
    ),
  );
  items = (
    record {
      name = record {
        some_byte = omega arith;
        fits = omega arith;
        bytes = ((refl, omega arith), ((refl, omega arith), ((refl, omega arith), _)));
      };
      start_time = omega arith;
      prio = omega arith;
    },
    _,
  );
}

-- The file input/os_syscall is read.
read_config_example :
    read_config
      (λ path. some (codes "2 1 1\n2048 16777216 0 0 0\n9 sc2  15\n"))
      unset
      (codes "input/os_syscall")
    ≡ done (some (config shipped))
read_config_example =
    read_config-print_plan (λ path. some (codes "2 1 1\n2048 16777216 0 0 0\n9 sc2  15\n")) unset
      shipped (codes "input/os_syscall") (ap some (sym shipped_text)) shipped-IsPlan

-- The loader's thread with two processes, of one file each.
abbrev entries : List Entry
entries =
    record { path = codes "a"; start_time = 1; prio = 3 }
    ∷ record { path = codes "b"; start_time = 0; prio = 4 }
    ∷ []

abbrev pub ld_args : LdArgs
ld_args = record {
  disk = λ path. some (codes "1 1\ncalc\n");
  malloc = λ i. malloc;
  malloc_mm = λ i. mm;
  malloc_pgd = λ i p. 0;
  ld_processes = entries;
  mram = device;
  active_mswp = device;
}

abbrev small : Pcb
small = loaded malloc 0 1 1 (record free_inst { opcode = calc } ∷ [])

small_loads :
    (path : Bytes) (pid : ℕ)
    → load ld_args.disk malloc pid path ≡ done (some (record small { pid = pid }, (pid + 1) % word))
unfolding load load_text scan_opcode scan_word take_word scan_inst scan_numbers scan_number
    skip_space signed number take_digits get_opcode c_string same_bytes
small_loads path pid = refl

entries_load : LoadsFrom ld_args 0 entries (small ∷ small ∷ [])
entries_load = (small_loads (codes "a"), (small_loads (codes "b"), omega arith))

-- The scheduler of src/sched.c takes both.
both_added :
    add_in_order mlq_scheduler ld_args sched (to_add ld_args 0 1 entries (small ∷ small ∷ []))
    ≡ done sched
unfolding Sched.add_proc put_mlq_proc enqueue
both_added = refl

ld_rounds_example :
    ld_rounds mlq_scheduler ld_args 4 0 (ld_start sched) ≡ done (some (ld_done sched))
ld_rounds_example =
    ld_rounds-end_time mlq_scheduler ld_args (small ∷ small ∷ []) 4 0 sched sched entries_load
      (omega arith) both_added

load_lem_example : (◌≡◌ {A = ℕ} 5 5) × (◌≡◌ {A = ℕ} 0 0) × (◌≡◌ {A = ℕ} 1 1) × (6 ≡ (5 + 1) % word)
load_lem_example =
    load_lem ld_args.disk malloc 5 6 (codes "a") (record small { pid = 5 })
      (small_loads (codes "a") 5)
