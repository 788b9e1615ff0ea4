-- ===== src/Tests/Legal.antt =====
-- Programs that pass the test, and what runs them to their end.
use mathlib.Core.Path.{subst}
use assignment_os.Base.{
  zero, suc, ◌≡◌, ◌≢◌, refl, arith, true, false, ◌↔◌, fault, some, ℕ, List, [], ◌∷◌, get_elem?, pos,
  done,
}
use assignment_os.Process.{alloc, read, write, syscall, Inst, Pcb}
use assignment_os.Libmem.Ready.{HasMemory, Means, IsReady}
use assignment_os.Libmem.{libread, libwrite}
use assignment_os.Libmem.Total.{can_access}
use assignment_os.Libmem.Exact.{access_exact}
use assignment_os.Syscall.{syscall_tbl}
use assignment_os.Cpu.Program.{runs}
use assignment_os.Cpu.Legal.{is_legal_text, runs_to_end}
use assignment_os.Cpu.Runnable.{IsRunnable, Advanced}
use assignment_os.Shared.{Shared, turns}
use assignment_os.Shared.Orders.{AllRunnable, turns_of, turns_lem}
use assignment_os.Tests.Memory.{proc, mm, device}
use assignment_os.Tests.Kernel.{junk, calc_inst, free_inst}

abbrev pub means : Means
means = record { mapped = true; ram_size = 1024; swp_size = 1024 }

mm-HasMemory : HasMemory mm
mm-HasMemory = record {
  area = _;
  areas = _;
  mapped = refl;
  small = omega arith;
  free = λ bad. cc;
  symbols = refl;
  pages = λ bad. cc;
}

proc-IsReady : IsReady means proc
proc-IsReady = record {
  memory = λ _. mm-HasMemory;
  ram = λ _. (_, refl, record { random = refl; bytes = refl; fits = omega arith; frames = refl });
  swp = λ _. (_, refl, record { random = refl; bytes = refl; fits = omega arith; frames = refl });
}

-- Every kind of instruction: a region is assigned, written and read, a byte of the RAM is set by a
-- system call, and a page is swapped out by another.
abbrev instructions : List Inst
instructions =
    calc_inst
    ∷ record { opcode = alloc; arg_0 = 300; arg_1 = 2; arg_2 = 0; arg_3 = 0 }
    ∷ record { opcode = write; arg_0 = 100; arg_1 = 2; arg_2 = 20; arg_3 = 0 }
    ∷ record { opcode = read; arg_0 = 2; arg_1 = 20; arg_2 = 5; arg_3 = 0 }
    ∷ record { opcode = syscall; arg_0 = 17; arg_1 = 5; arg_2 = 1023; arg_3 = 8 }
    ∷ record { opcode = syscall; arg_0 = 17; arg_1 = 3; arg_2 = 3; arg_3 = 0 }
    ∷ free_inst
    ∷ []

instructions_legal : is_legal_text syscall_tbl means instructions ≡ true
instructions_legal = refl

-- Region 30 and system call 101 do not pass.
region_30_refused :
    is_legal_text syscall_tbl means
      (record { opcode = read; arg_0 = 30; arg_1 = 0; arg_2 = 0; arg_3 = 0 } ∷ [])
    ≡ false
region_30_refused = refl

killall_refused :
    is_legal_text syscall_tbl means
      (record { opcode = syscall; arg_0 = 101; arg_1 = 0; arg_2 = 0; arg_3 = 0 } ∷ [])
    ≡ false
killall_refused = refl

access_exact_example :
    ((libread proc 30 0 ≢ fault) ↔ (can_access (pos 30) ≡ true))
    × ((libwrite proc 7 30 0 ≢ fault) ↔ (can_access (pos 30) ≡ true))
access_exact_example = access_exact means proc 30 0 7 refl proc-IsReady

abbrev job : Pcb
job = record proc { code = record { text = instructions; size = 7 } }

job-IsReady : IsReady means job
job-IsReady = record {
  memory = proc-IsReady.memory;
  ram = proc-IsReady.ram;
  swp = proc-IsReady.swp;
}

runs_to_end_example :
    (q : Pcb) × (runs syscall_tbl junk 7 job ≡ done q)
    × (q.pc ≡ q.code.size)
    × (q.code ≡ job.code)
    × IsReady means q
runs_to_end_example =
    runs_to_end syscall_tbl means junk 7 job job-IsReady (omega arith) (omega arith) refl
      (omega arith)

job-IsRunnable : IsRunnable syscall_tbl means job
job-IsRunnable = record {
  memory = proc-IsReady.memory;
  fits = omega arith;
  there = omega arith;
  legal = refl;
  inside = omega arith;
}

-- A process that is at its second instruction.
abbrev other_job : Pcb
other_job = record job { pid = 2; pc = 1 }

other_job-IsRunnable : IsRunnable syscall_tbl means other_job
other_job-IsRunnable = record {
  memory = proc-IsReady.memory;
  fits = omega arith;
  there = omega arith;
  legal = refl;
  inside = omega arith;
}

abbrev shared : Shared
shared = record {
  devices = record { mram = some device; active_mswp = some device };
  procs = job ∷ other_job ∷ [];
}

shared-AllRunnable : AllRunnable syscall_tbl means shared
shared-AllRunnable = record {
  devices = record { ram = proc-IsReady.swp; swp = proc-IsReady.swp };
  procs = all_procs;
}
  where
    all_procs :
        (i : ℕ) (p : Pcb) → get_elem? shared.procs i ≡ some p → IsRunnable syscall_tbl means p
    all_procs zero p e =
        let same : job ≡ p = ground arith in
        subst (IsRunnable syscall_tbl means) same job-IsRunnable
    all_procs (suc zero) p e =
        let same : other_job ≡ p = ground arith in
        subst (IsRunnable syscall_tbl means) same other_job-IsRunnable
    all_procs (suc (suc i)) p e = absurd (ground arith)

turns_example :
    (s' : Shared) × (turns syscall_tbl junk (0 ∷ 1 ∷ 1 ∷ 0 ∷ 1 ∷ []) shared ≡ done s')
    × AllRunnable syscall_tbl means s'
    × ((j : ℕ) (p : Pcb)
        → get_elem? shared.procs j ≡ some p
        → (q : Pcb) × (get_elem? s'.procs j ≡ some q)
          × Advanced (turns_of j (0 ∷ 1 ∷ 1 ∷ 0 ∷ 1 ∷ [])) p q)
turns_example = turns_lem syscall_tbl means junk (0 ∷ 1 ∷ 1 ∷ 0 ∷ 1 ∷ []) shared shared-AllRunnable
