-- ===== src/Sched/Laws.antt =====
-- What the scheduler's queues hold.
use native.Mathlib.Decide.{ℕ_discrete}
use assignment_os.Base.{
  set_same, ℕ, zero, suc, ◌+◌, ◌<◌, ◌≤◌, ◌≡◌, ◌≢◌, sym, get_elem?-none, ap, arith, Bool-cases, inl,
  inr, ◌⊎◌, some, List, [], ◌∷◌, get_elem?, get_elem?-some, length, ◌==◌, ltb, leb, if◌then◌else◌,
  Bool, true, false, ℤ, pos, failure, Run, done, fault, ◌>>=◌,
}
use assignment_os.Process.{Pcb}
use assignment_os.Queue.{Queue, empty, enqueue}
use assignment_os.Sched.{
  Sched, max_prio, mlq_loop, queue_empty, put_mlq_proc, linked, put_proc, add_proc,
}

put_mlq_proc_keeps :
    (s : Sched) (proc : Pcb) → proc.prio < length s.mlq_ready → put_mlq_proc s proc ≡ done s
unfolding put_mlq_proc enqueue
put_mlq_proc_keeps s proc h =
    let (q, found) = get_elem?-some s.mlq_ready proc.prio h in
    rw (found, put_mlq_proc)
      (ap (λ (qs : List Queue). done (record s { mlq_ready = qs }))
        (set_same s.mlq_ready proc.prio q found))

put_mlq_proc_end :
    (s : Sched) (proc : Pcb) → proc.prio ≡ length s.mlq_ready → put_mlq_proc s proc ≡ done s
unfolding put_mlq_proc
put_mlq_proc_end s proc h =
    let lost = get_elem?-none s.mlq_ready proc.prio (omega arith) in
    let at_end : (proc.prio == length s.mlq_ready) ≡ true = ground arith in
    rw (lost, put_mlq_proc, at_end)

put_mlq_proc_outside :
    (s : Sched) (proc : Pcb) → length s.mlq_ready < proc.prio → put_mlq_proc s proc ≡ fault
unfolding put_mlq_proc
put_mlq_proc_outside s proc h =
    let lost = get_elem?-none s.mlq_ready proc.prio (omega arith) in
    let past : (proc.prio == length s.mlq_ready) ≡ false = ground arith in
    rw (lost, put_mlq_proc, past)

put_mlq_proc_within :
    (s : Sched) (proc : Pcb) → proc.prio ≤ length s.mlq_ready → put_mlq_proc s proc ≡ done s
put_mlq_proc_within s proc h = elim (Bool-cases (ltb proc.prio (length s.mlq_ready))) [
  | inl inside ↦ put_mlq_proc_keeps s proc (ground arith)
  | inr outside ↦ put_mlq_proc_end s proc (ground arith)
]

-- Neither `add_proc` nor `put_proc` keeps a process: for each priority up to MAX_PRIO the queues are
-- as before, and the process has only been given its pointers to them. For any other priority the
-- queue lies outside the array.
pub put_proc_loses :
    (s : Sched) (proc : Pcb)
    → length s.mlq_ready ≡ max_prio
    → (add_proc s proc ≡ (if leb proc.prio max_prio then done (linked proc, s) else fault))
      × (put_proc s proc ≡ (if leb proc.prio max_prio then done (linked proc, s) else fault))
unfolding add_proc put_proc
put_proc_loses s proc h = elim (Bool-cases (leb proc.prio max_prio)) [
  | inl inside ↦
      let kept = put_mlq_proc_within s (linked proc) (ground arith) in
      (rw (kept, inside), rw (kept, inside))
  | inr outside ↦
      let lost = put_mlq_proc_outside s (linked proc) (ground arith) in
      (rw (lost, outside), rw (lost, outside))
]

-- `put_proc`, where the flag is set, or `add_proc`, for one process after the other: the processes
-- as the calls leave them, and the queues.
abbrev pub hand_over : Sched → List (Bool × Pcb) → Run (List Pcb × Sched)
hand_over s [] = done ([], s)
hand_over s ((again, proc) ∷ calls) = do
  (proc', s') ← if again then put_proc s proc else add_proc s proc
  (procs, s'') ← hand_over s' calls
  done (proc' ∷ procs, s'')

-- The queue for priority `j` is there and has no process.
abbrev pub IsEmptyAt : Sched → ℕ → Type 0
IsEmptyAt s j = (q : Queue) × (get_elem? s.mlq_ready j ≡ some q) × (q.size ≡ 0)

-- A queue in the array, for priority `first` or later, has a process.
abbrev pub HasProcess : Sched → (first : ℕ) → Type 0
HasProcess s first =
    (j : ℕ) × (q : Queue) × (first ≤ j) × (get_elem? s.mlq_ready j ≡ some q) × (q.size ≢ 0)

-- What `queue_empty` returns when the multi-level queues are empty: whether the two legacy queues
-- are.
abbrev pub legacy_code : Sched → ℤ
legacy_code s = if s.ready.size == 0 then if s.run.size == 0 then pos 1 else pos 0 else pos 0

mlq_loop_lem :
    (left prio : ℕ) (s : Sched)
    → prio + left ≡ length s.mlq_ready
    → ((mlq_loop left prio s ≡ done failure) × HasProcess s prio)
      ⊎ ((mlq_loop left prio s ≡ done (legacy_code s))
          × ((j : ℕ) → prio ≤ j → j < length s.mlq_ready → IsEmptyAt s j))
unfolding mlq_loop empty
mlq_loop_lem zero prio s e = inr (ground arith, λ j le lt. absurd (omega arith))
mlq_loop_lem (suc left) prio s e =
    let (q, found) = get_elem?-some s.mlq_ready prio (omega arith) in
    elim (Bool-cases (q.size == 0)) [
      | inl none_here ↦ elim (mlq_loop_lem left (prio + 1) s (omega arith)) [
        | inl (code, (j, r, le, there, some_there)) ↦
            inl (rw (found, mlq_loop, none_here) code, (j, r, omega arith, there, some_there))
        | inr (code, others) ↦ inr (
          rw (found, mlq_loop, none_here) code,
          λ j le lt. elim (ℕ_discrete prio j) [
            | yes same ↦ (q, rw (sym same) found, ground arith)
            | no differ ↦ others j (omega arith) lt
          ],
        )
      ]
      | inr some_here ↦
          inl (rw (found, mlq_loop, some_here), (prio, q, omega arith, found, ground arith))
    ]

-- `queue_empty` returns -1, which a condition reads as true, exactly when one of the multi-level
-- queues has a process; otherwise it says whether the two legacy queues are empty.
pub queue_empty_lem :
    (s : Sched)
    → length s.mlq_ready ≡ max_prio
    → ((queue_empty s ≡ done failure) × HasProcess s 0)
      ⊎ ((queue_empty s ≡ done (legacy_code s)) × ((j : ℕ) → j < max_prio → IsEmptyAt s j))
unfolding queue_empty
queue_empty_lem s h = elim (mlq_loop_lem max_prio 0 s (omega arith)) [
  | inl some_process ↦ inl some_process
  | inr (code, all_empty) ↦ inr (code, λ j lt. all_empty j (omega arith) (omega arith))
]
