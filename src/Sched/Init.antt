-- ===== src/Sched/Init.antt =====
-- The scheduler's queues and slots after `init_scheduler` of src/sched.c.
use native.Mathlib.Decide.{ℕ_discrete}
use assignment_os.Base.{
  ℕ, zero, suc, ◌+◌, ◌-◌, ◌<◌, ◌≤◌, ◌≡◌, refl, sym, ◌∙◌, arith, inl, inr, some, get_elem?,
  get_elem?-some, get_elem?-set_self, get_elem?-set_ne, inside_of, set, length, length-set, pos,
  done,
}
use assignment_os.Queue.{Queue}
use assignment_os.Sched.{Sched, max_prio, init_loop, init_scheduler, queue_empty}
use assignment_os.Sched.Laws.{queue_empty_lem}

-- The queues and slots from number `first` on are as they are to be; those before are as in `old`.
record Cleared (first : ℕ) (old s : Sched) : Type 0 where
  queues : length s.mlq_ready ≡ length old.mlq_ready
  slots : length s.slot ≡ length old.slot
  queue_at : (j : ℕ) (q : Queue) → first ≤ j → get_elem? s.mlq_ready j ≡ some q → q.size ≡ 0
  queue_before : (j : ℕ) → j < first → get_elem? s.mlq_ready j ≡ get_elem? old.mlq_ready j
  slot_at : (j : ℕ) → first ≤ j → j < length old.slot → get_elem? s.slot j ≡ some (max_prio - j)
  slot_before : (j : ℕ) → j < first → get_elem? s.slot j ≡ get_elem? old.slot j

init_loop-Cleared :
    (left i : ℕ) (s : Sched)
    → i + left ≡ length s.mlq_ready
    → length s.slot ≡ length s.mlq_ready
    → (s' : Sched) × (init_loop left i s ≡ done s') × Cleared i s s'
unfolding init_loop
init_loop-Cleared zero i s e same = (
  s,
  refl,
  record {
    queues = refl;
    slots = refl;
    queue_at = λ j q le found. absurd (omega (arith, inside_of s.mlq_ready j q found));
    queue_before = λ j lt. refl;
    slot_at = λ j le lt. absurd (omega arith);
    slot_before = λ j lt. refl;
  },
)
init_loop-Cleared (suc left) i s e same =
    let (q, found) = get_elem?-some s.mlq_ready i (omega arith) in
    let q' : Queue = record q { size = 0 } in
    let s1 : Sched = record s {
      mlq_ready = set s.mlq_ready i q';
      slot = set s.slot i (max_prio - i);
    } in
    let lengths = length-set s.mlq_ready i q' in
    let slots = length-set s.slot i (max_prio - i) in
    let (s2, run, cleared) = init_loop-Cleared left (i + 1) s1 (omega arith) (omega arith) in
    (
      s2,
      rw (found, init_loop) run,
      record {
        queues = cleared.queues ∙ lengths;
        slots = cleared.slots ∙ slots;
        queue_at = λ j r le there. elim (ℕ_discrete i j) [
          | yes here ↦
              let self = get_elem?-set_self s.mlq_ready i q' (omega arith) in
              let kept = cleared.queue_before i (omega arith) in ground (arith, self, kept)
          | no differ ↦ cleared.queue_at j r (omega arith) there
        ];
        queue_before = λ j lt.
            cleared.queue_before j (omega arith)
            ∙ get_elem?-set_ne s.mlq_ready i j q' (λ x. omega (arith, x));
        slot_at = λ j le lt. elim (ℕ_discrete i j) [
          | yes here ↦
              let self = get_elem?-set_self s.slot i (max_prio - i) (omega arith) in
              let kept = cleared.slot_before i (omega arith) in ground (arith, self, kept)
          | no differ ↦ cleared.slot_at j (omega arith) (omega arith)
        ];
        slot_before = λ j lt.
            cleared.slot_before j (omega arith)
            ∙ get_elem?-set_ne s.slot i j (max_prio - i) (λ x. omega (arith, x));
      },
    )

-- For as many queues and slots as there are priorities: after `init_scheduler` there are as many
-- queues as before, `queue_empty` finds all queues empty, and the slot of priority `j` is 140 - `j`.
pub init_scheduler-queue_empty :
    (s : Sched)
    → length s.mlq_ready ≡ max_prio
    → length s.slot ≡ max_prio
    → (s' : Sched) × (init_scheduler s ≡ done s')
      × (length s'.mlq_ready ≡ max_prio)
      × (queue_empty s' ≡ done (pos 1))
      × ((j : ℕ) → j < max_prio → get_elem? s'.slot j ≡ some (max_prio - j))
unfolding init_scheduler
init_scheduler-queue_empty s queues slots =
    let (s1, run, cleared) = init_loop-Cleared max_prio 0 s (omega arith) queues' in
    let s2 : Sched = record s1 {
      ready = record (s1.ready) { size = 0 };
      run = record (s1.run) { size = 0 };
    } in
    let same : length s2.mlq_ready ≡ max_prio = cleared.queues ∙ queues in
    (
      s2,
      rw run,
      same,
      no_process s2 same cleared.queue_at refl refl,
      λ j lt. cleared.slot_at j (omega arith) (omega arith),
    )
  where
    queues' : length s.slot ≡ length s.mlq_ready
    queues' = slots ∙ sym queues

    no_process :
        (t : Sched)
        → length t.mlq_ready ≡ max_prio
        → ((j : ℕ) (q : Queue) → 0 ≤ j → get_elem? t.mlq_ready j ≡ some q → q.size ≡ 0)
        → t.ready.size ≡ 0
        → t.run.size ≡ 0
        → queue_empty t ≡ done (pos 1)
    no_process t same all r0 r1 = elim (queue_empty_lem t same) [
      | inl (code, (j, q, le, there, busy)) ↦ absurd (busy (all j q le there))
      | inr (code, rest) ↦ code ∙ ground arith
    ]
