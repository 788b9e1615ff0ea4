-- ===== src/Sched/Plain.antt =====
-- src/sched.c without MLQ_SCHED: the branch that include/os-cfg.h leaves out of the build. It uses
-- the ready queue and the run queue alone; the priorities and their queues are not there.
use assignment_os.Base.{Bool, Option, none, some, List, [], ◌∷◌, ◌≡◌, refl, pos, done}
use assignment_os.Process.{Pcb, ready_queue, running_list}
use assignment_os.Queue.{Queue, enqueue}
use assignment_os.Os.{Scheduler, CpuState, next_slot, Machine, cpu_round}
use assignment_os.Os.Idle.{cpu_rounds}

-- `ready_queue` and `run_queue`.
pub record PlainSched : Type 0 where
  pub ready : Queue
  pub run : Queue

unfoldable get_proc : PlainSched → Option Pcb × PlainSched
get_proc s = (none, s)

-- The process with its pointers to the queues.
abbrev linked : Pcb → Pcb
linked proc = record proc { ready_queue = some ready_queue; running_list = some running_list }

unfoldable put_proc : PlainSched → Pcb → Pcb × PlainSched
put_proc s proc = (linked proc, record s { run = enqueue s.run (linked proc) })

unfoldable add_proc : PlainSched → Pcb → Pcb × PlainSched
add_proc s proc = (linked proc, record s { ready = enqueue s.ready (linked proc) })

abbrev plain_scheduler : Scheduler
plain_scheduler = record {
  State = PlainSched;
  get_proc = get_proc;
  put_proc = λ s proc. done (put_proc s proc).1;
  add_proc = λ s proc. done (add_proc s proc).1;
}

-- Neither operation keeps the process, as with MLQ_SCHED; but no priority is outside an array here.
put_proc_loses :
    (s : PlainSched) (proc : Pcb) → ((put_proc s proc).1 ≡ s) × ((add_proc s proc).1 ≡ s)
unfolding put_proc add_proc enqueue
put_proc_loses s proc = (refl, refl)

-- With this scheduler, too, a CPU never gets a process and never stops.
cpu_rounds-plain_scheduler :
    (machine : Machine) (flags : List Bool) (s : PlainSched)
    → let start : CpuState PlainSched = record { proc = none; time_left = pos 0; sched = s } in
      cpu_rounds plain_scheduler machine flags start ≡ done (next_slot start)
unfolding cpu_round get_proc
cpu_rounds-plain_scheduler machine [] s = refl
cpu_rounds-plain_scheduler machine (flag ∷ flags) s = cpu_rounds-plain_scheduler machine flags s
