-- ===== src/Sched.antt =====
-- src/sched.c with MLQ_SCHED, which include/os-cfg.h defines. Each operation on a queue runs under
-- `queue_lock`, so it is one step.
pub mod Laws
pub mod Init
pub mod Plain
use assignment_os.Base.{
  ℕ, zero, suc, ◌+◌, ◌-◌, Bool, true, false, ◌&&◌, Option, none, some, List, get_elem?, set, length,
  ◌==◌, if◌then◌else◌, ℤ, pos, success, failure, Run, done, fault, ◌>>=◌,
}
use assignment_os.Process.{Pcb, ready_queue, running_list, mlq_ready_queue}
use assignment_os.Queue.{Queue, empty, enqueue}
use assignment_os.Vm.{is_zero}

abbrev pub max_prio : ℕ
max_prio = 140

-- The static variables.
pub record Sched : Type 0 where
  pub ready : Queue
  pub run : Queue
  pub running : Queue
  pub mlq_ready : List Queue
  pub slot : List ℕ

-- The loop of `queue_empty` from priority `prio` on.
mlq_loop : (left prio : ℕ) → Sched → Run ℤ
mlq_loop zero prio s = done (
    if is_zero (empty (some s.ready))
    then pos 0
    else if is_zero (empty (some s.run))
    then pos 0
    else pos 1)
mlq_loop (suc left) prio s = elim (get_elem? s.mlq_ready prio) [
  | none ↦ fault
  | some q ↦ elim (is_zero (empty (some q))) [
    | true ↦ done failure
    | false ↦ mlq_loop left (prio + 1) s
  ]
]

unfoldable pub queue_empty : Sched → Run ℤ
unfolding mlq_loop
queue_empty s = mlq_loop max_prio 0 s

-- The loop of `init_scheduler`.
init_loop : (left i : ℕ) → Sched → Run Sched
init_loop zero i s = done s
init_loop (suc left) i s = elim (get_elem? s.mlq_ready i) [
  | none ↦ fault
  | some q ↦ init_loop left (i + 1) (record s {
    mlq_ready = set s.mlq_ready i (record q { size = 0 });
    slot = set s.slot i (max_prio - i);
  })
]

unfoldable pub init_scheduler : Sched → Run Sched
unfolding init_loop
init_scheduler s = do
  s' ← init_loop max_prio 0 s
  done (record s' { ready = record (s'.ready) { size = 0 }; run = record (s'.run) { size = 0 } })

-- `get_mlq_proc`, and `get_proc`, which calls it.
unfoldable pub get_proc : Sched → Option Pcb × Sched
get_proc s = (none, s)

-- `put_mlq_proc` and `add_mlq_proc` have the same body. The element past the last one of the array
-- has an address too, at which `enqueue` does not look; beyond it there is none.
unfoldable pub put_mlq_proc : Sched → Pcb → Run Sched
put_mlq_proc s proc = elim (get_elem? s.mlq_ready proc.prio) [
  | none ↦ if proc.prio == length s.mlq_ready then done s else fault
  | some q ↦ done (record s { mlq_ready = set s.mlq_ready proc.prio (enqueue q proc) })
]

-- The process with its pointers to the queues.
abbrev pub linked : Pcb → Pcb
linked proc = record proc {
  ready_queue = some ready_queue;
  mlq_ready_queue = some mlq_ready_queue;
  running_list = some running_list;
}

unfoldable pub put_proc : Sched → Pcb → Run (Pcb × Sched)
put_proc s proc = do s' ← put_mlq_proc s (linked proc); done (linked proc, s')

unfoldable pub add_proc : Sched → Pcb → Run (Pcb × Sched)
add_proc s proc = do s' ← put_mlq_proc s (linked proc); done (linked proc, s')
