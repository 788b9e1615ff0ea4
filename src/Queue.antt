-- ===== src/Queue.antt =====
-- src/queue.c and include/queue.h. A pointer to a queue is an `Option`, `none` for NULL. `enqueue`
-- and `dequeue` have no statements but the `return` of the latter.
use assignment_os.Base.{ℕ, Option, none, some, List, ◌==◌, if◌then◌else◌, ℤ, pos}
use assignment_os.Process.{Pcb}

-- `struct queue_t`: the slots and the number of them in use.
pub record Queue : Type 0 where
  pub proc : List Pcb
  pub size : ℕ

unfoldable pub empty : Option Queue → ℤ
empty none = pos 1
empty (some q) = if q.size == 0 then pos 1 else pos 0

unfoldable pub enqueue : Queue → Pcb → Queue
enqueue q proc = q

unfoldable pub dequeue : Queue → Option Pcb × Queue
dequeue q = (none, q)
