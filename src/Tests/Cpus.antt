-- ===== src/Tests/Cpus.antt =====
-- A CPU and the test driver with programs that pass the test.
use assignment_os.Base.{
  ◌≡◌, refl, arith, true, false, List, [], ◌∷◌, leb, if◌then◌else◌, some, done, fault,
}
use assignment_os.Process.{Inst, Pcb}
use assignment_os.Libmem.Ready.{Means, IsReady}
use assignment_os.Syscall.{syscall_tbl}
use assignment_os.Os.{mlq_scheduler, next_slot, stopped, cpu_round}
use assignment_os.Os.Idle.{cpu_rounds}
use assignment_os.Os.Slots.{running, slot_used_up, finishes_in_time}
use assignment_os.Loader.Print.{print_program}
use assignment_os.Mem.Ram.{dump}
use assignment_os.Driver.{Drive, Driven, driver_main}
use assignment_os.Driver.Ends.{HasRun, driver_main_lem}
use assignment_os.Tests.Memory.{one_page, one_page_stats, one_page_bytes}
use assignment_os.Tests.Kernel.{junk, sched, queues, machine, task, calc_inst, free_inst}
use assignment_os.Tests.Loading.{malloc}

-- What a process has in any memory: nothing is asked of its memory structure and its devices.
abbrev no_means : Means
no_means = record { mapped = false; ram_size = 0; swp_size = 0 }

any-IsReady : (p : Pcb) → IsReady no_means p
any-IsReady p = record {
  memory = λ h. absurd cc;
  ram = λ h. absurd (omega arith);
  swp = λ h. absurd (omega arith);
}

-- Two of three instructions.
slot_used_up_example :
    (q : Pcb) × (cpu_rounds mlq_scheduler machine
        (false ∷ true ∷ [])
        (running mlq_scheduler machine task 2 sched)
      ≡ done (next_slot (running mlq_scheduler machine q 0 sched)))
    × (q.pc ≡ 2)
    × (q.code ≡ task.code)
    × (cpu_round mlq_scheduler machine true (running mlq_scheduler machine q 0 sched)
        ≡ (if leb q.prio 140 then done (stopped sched) else fault))
slot_used_up_example =
    slot_used_up machine no_means (false ∷ true ∷ []) true task sched queues (any-IsReady task)
      (omega arith) (omega arith) refl (omega arith)

-- All three, with a round of time left over.
finishes_example :
    (q : Pcb) × (cpu_rounds mlq_scheduler machine
        (false ∷ true ∷ true ∷ [])
        (running mlq_scheduler machine task 4 sched)
      ≡ done (next_slot (running mlq_scheduler machine q 1 sched)))
    × (q.pc ≡ 3)
    × (q.code ≡ task.code)
    × (cpu_round mlq_scheduler machine true (running mlq_scheduler machine q 1 sched)
        ≡ done (stopped sched))
finishes_example =
    finishes_in_time machine no_means (false ∷ true ∷ true ∷ []) true task 4 sched
      (any-IsReady task) (omega arith) (omega arith) refl (omega arith) (omega arith)

abbrev text : List Inst
text = calc_inst ∷ free_inst ∷ calc_inst ∷ []

abbrev drive : Drive
drive = record {
  disk = λ path. some (print_program 7 text);
  malloc_ld = malloc;
  malloc_proc = malloc;
  table = syscall_tbl;
  junk = junk;
}

driver_main_example :
    (r : Driven) × (driver_main drive one_page ≡ done (some r))
    × (dump one_page ≡ done r.rows)
    × HasRun text r.proc
    × HasRun text r.ld
driver_main_example =
    driver_main_lem drive no_means one_page 7 text refl (omega arith) (omega arith)
      (_, ((omega arith, _), (_, _))) refl (any-IsReady malloc.pcb) (any-IsReady malloc.pcb)
      one_page_stats one_page_bytes
