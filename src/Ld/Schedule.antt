-- ===== src/Ld/Schedule.antt =====
-- When `ld_routine` of src/os.c adds which process.
use assignment_os.Base.{
  ℕ, zero, suc, ◌+◌, ◌-◌, ◌%◌, ◌<◌, ◌≤◌, ◌≡◌, refl, ap, ◌∙◌, arith, Bool-cases, Option-cases, inl,
  inr, true, false, ltb, Option, none, some, List, [], ◌∷◌, get_elem?, drop, drop-none, drop-some,
  word, max, Run, done, ◌>>=◌, Run-cases,
}
use assignment_os.Process.{Pcb}
use assignment_os.Loader.{load}
use assignment_os.Config.{Entry}
use assignment_os.Os.{Scheduler}
use assignment_os.Ld.{
  LdArgs, Ld, ld_start, LdRound, ld_slot, ld_done, with_memory, next_process, add_or_wait, ld_round,
}

-- The program of each entry from number `i` on can be loaded, and gives a process in the list, up
-- to its number.
abbrev pub LoadsFrom : LdArgs → (i : ℕ) → List Entry → List Pcb → Type 0
LoadsFrom args i [] [] = 0 ≤ 0
LoadsFrom args i [] (p ∷ ps) = 1 ≤ 0
LoadsFrom args i (e ∷ es) [] = 1 ≤ 0
LoadsFrom args i (e ∷ es) (p ∷ ps) =
    ((pid : ℕ)
      → load args.disk (args.malloc i) pid e.path
        ≡ done (some (record p { pid = pid }, (pid + 1) % word)))
    × LoadsFrom args (i + 1) es ps

-- The processes as they are added, with consecutive numbers.
abbrev pub to_add : LdArgs → (i pid : ℕ) → List Entry → List Pcb → List Pcb
to_add args i pid [] ps = []
to_add args i pid (e ∷ es) [] = []
to_add args i pid (e ∷ es) (p ∷ ps) =
    with_memory args i (record p { pid = pid; prio = e.prio % word })
    ∷ to_add args (i + 1) ((pid + 1) % word) es ps

-- The time at which the thread ends: a process takes a slot, from its start time on or later.
abbrev pub end_time : (time : ℕ) → List Entry → ℕ
end_time time [] = time
end_time time (e ∷ es) = end_time (max time e.start_time + 1) es

end_time_le : (time : ℕ) (es : List Entry) → time ≤ end_time time es
end_time_le time [] = omega arith
end_time_le time (e ∷ es) = let later = end_time_le (max time e.start_time + 1) es in omega arith

at_drop :
    (i : ℕ) (es : List Entry) (e : Entry) (rest : List Entry)
    → drop i es ≡ e ∷ rest
    → (get_elem? es i ≡ some e) × (drop (i + 1) es ≡ rest)
at_drop i es e rest h = elim (Option-cases (get_elem? es i)) [
  | inl out ↦ absurd (ground (arith, h, drop-none es i out))
  | inr (a, found) ↦
      let next : drop (i + 1) es ≡ drop (suc i) es =
        ap (λ (k : ℕ). drop k es) {y = suc i} (omega arith) in
      (
        ground (arith, found, h, drop-some es i a found),
        ground (arith, next, h, drop-some es i a found),
      )
]

end_of_drop : (i : ℕ) (es : List Entry) → drop i es ≡ [] → get_elem? es i ≡ none
end_of_drop i es h = elim (Option-cases (get_elem? es i)) [
  | inl out ↦ out
  | inr (a, found) ↦ absurd (ground (arith, h, drop-some es i a found))
]

module _ (scheduler : Scheduler) (args : LdArgs) where
  open scheduler use {State, add_proc}

  abbrev pub add_in_order : State → List Pcb → Run State
  add_in_order s [] = done s
  add_in_order s (p ∷ ps) = do s' ← add_proc s p; add_in_order s' ps

  abbrev next_rounds :
      (Ld State → Run (Option (LdRound State)))
      → Option (LdRound State)
      → Run (Option (LdRound State))
  next_rounds next none = done none
  next_rounds next (some (ld_slot ld)) = next ld
  next_rounds next (some (ld_done s)) = done (some (ld_done s))

  -- `ld_routine` for at most `n` rounds, from time `time` on.
  unfoldable pub ld_rounds : (n time : ℕ) → Ld State → Run (Option (LdRound State))
  ld_rounds zero time ld = done (some (ld_slot ld))
  ld_rounds (suc n) time ld = do
    r ← ld_round scheduler args time ld
    next_rounds (ld_rounds n (time + 1)) r

  waits_round :
      (time : ℕ) (e : Entry) (p : Pcb) (ld : Ld State)
      → get_elem? args.ld_processes ld.i ≡ some e
      → ld.proc ≡ some p
      → time < e.start_time
      → ld_round scheduler args time ld ≡ done (some (ld_slot ld))
  unfolding ld_round add_or_wait
  waits_round time e p ld found held h =
      let early : ltb time e.start_time ≡ true = ground arith in rw (found, ld_round, held, early)

  waits :
      (k n m time at : ℕ) (e : Entry) (p : Pcb) (ld : Ld State)
      → get_elem? args.ld_processes ld.i ≡ some e
      → ld.proc ≡ some p
      → m ≡ k + n
      → at ≡ time + k
      → at ≤ e.start_time
      → ld_rounds m time ld ≡ ld_rounds n at ld
  unfolding ld_rounds
  waits zero n m time at e p ld found held eq later h =
      let same : m ≡ n = omega arith in let now : time ≡ at = omega arith in rw (same, now)
  waits (suc k) n m time at e p ld found held eq later h =
      let split : m ≡ suc (k + n) = omega arith in
      rw (split, waits_round time e p ld found held (omega arith))
        (waits k n (k + n) (time + 1) at e p ld found held refl (omega arith) h)

  -- A round, and those that follow, in which a process is added.
  abbrev adds_and : (n time : ℕ) → Pcb → Ld State → Run (Option (LdRound State))
  adds_and n time p ld = do
    s ← add_proc ld.sched (with_memory args ld.i p)
    ld_rounds n (time + 1) (next_process ld s)

  adds :
      (n time : ℕ) (e : Entry) (p : Pcb) (ld : Ld State)
      → get_elem? args.ld_processes ld.i ≡ some e
      → e.start_time ≤ time
      → ld.proc ≡ some p
      → ld_rounds (suc n) time ld ≡ adds_and n time p ld
  unfolding ld_rounds ld_round add_or_wait
  adds n time e p ld found late held =
      let on_time : ltb time e.start_time ≡ false = ground arith in
      elim (Run-cases (add_proc ld.sched (with_memory args ld.i p))) [
        | inl lost ↦ ground (arith, found, held, on_time, lost)
        | inr (s, added) ↦ ground (arith, found, held, on_time, added)
      ]

  -- The process that is loaded for an entry, and the state that holds it.
  abbrev held : Entry → Pcb → Ld State → Pcb
  held e p ld = record p { pid = ld.avail_pid; prio = e.prio % word }

  abbrev holds : Entry → Pcb → Ld State → Ld State
  holds e p ld = record ld { proc = some (held e p ld); avail_pid = (ld.avail_pid + 1) % word }

  loads_round :
      (time : ℕ) (e : Entry) (p : Pcb) (ld : Ld State)
      → get_elem? args.ld_processes ld.i ≡ some e
      → ld.proc ≡ none
      → load args.disk (args.malloc ld.i) ld.avail_pid e.path
        ≡ done (some (record p { pid = ld.avail_pid }, (ld.avail_pid + 1) % word))
      → ld_round scheduler args time ld ≡ ld_round scheduler args time (holds e p ld)
  unfolding ld_round add_or_wait
  loads_round time e p ld found free_now read = ground (arith, found, free_now, read)

  added_in_time :
      (n m time : ℕ) (e : Entry) (p : Pcb) (ld : Ld State)
      → get_elem? args.ld_processes ld.i ≡ some e
      → ld.proc ≡ none
      → load args.disk (args.malloc ld.i) ld.avail_pid e.path
        ≡ done (some (record p { pid = ld.avail_pid }, (ld.avail_pid + 1) % word))
      → time + m ≡ suc (max time e.start_time) + n
      → ld_rounds m time ld ≡ adds_and n (max time e.start_time) (held e p ld) (holds e p ld)
  unfolding ld_rounds
  added_in_time n zero time e p ld found free_now read eq = absurd (omega arith)
  added_in_time n (suc m) time e p ld found free_now read eq =
      let at : ℕ = max time e.start_time in
      let same_round = loads_round time e p ld found free_now read in
      let first : ld_rounds (suc m) time ld ≡ ld_rounds (suc m) time (holds e p ld) =
        ap (λ r. r >>= next_rounds (ld_rounds m (time + 1))) same_round in
      elim (Bool-cases (ltb time e.start_time)) [
        | inl early ↦
            first
            ∙ (waits (at - time) (suc n) (suc m) time at e (held e p ld) (holds e p ld) found refl
                  (ground arith) (ground arith) (ground arith)
                ∙ adds n at e (held e p ld) (holds e p ld) found (ground arith) refl)
        | inr late ↦
            let now : at ≡ time = ground arith in
            let rest : m ≡ n = omega arith in
            first
            ∙ rw (now, rest) (adds n time e (held e p ld) (holds e p ld) found (ground arith) refl)
      ]

  -- From the entry at hand on: the entries' processes are added, and the thread ends.
  ends_from :
      (es : List Entry) (ps : List Pcb) (m time : ℕ) (ld : Ld State)
      → drop ld.i args.ld_processes ≡ es
      → LoadsFrom args ld.i es ps
      → ld.proc ≡ none
      → end_time time es < time + m
      → ld_rounds m time ld ≡ (do
        s ← add_in_order ld.sched (to_add args ld.i ld.avail_pid es ps)
        done (some (ld_done s)))
  unfolding ld_rounds ld_round
  ends_from [] [] zero time ld at loads free_now enough = absurd (omega arith)
  ends_from [] [] (suc m) time ld at loads free_now enough =
      ground (arith, end_of_drop ld.i args.ld_processes at)
  ends_from [] (p ∷ ps) m time ld at loads free_now enough = absurd (omega arith)
  ends_from (e ∷ es) [] m time ld at loads free_now enough = absurd (omega arith)
  ends_from (e ∷ es) (p ∷ ps) m time ld at (read, loads) free_now enough =
      let (found, at_next) = at_drop ld.i args.ld_processes e es at in
      let t : ℕ = max time e.start_time in
      let later = end_time_le (t + 1) es in
      let n : ℕ = time + m - suc t in
      let next : State → Ld State = λ s. next_process (holds e p ld) s in
      added_in_time n m time e p ld found free_now (read ld.avail_pid) (omega arith)
      ∙ elim (Run-cases (add_proc ld.sched (with_memory args ld.i (held e p ld)))) [
        | inl lost ↦ rw lost
        | inr (s, added) ↦
            rw added (ends_from es ps n (t + 1) (next s) at_next loads refl (omega arith))
      ]

  -- If the programs of all entries can be loaded and the scheduler takes their processes one after
  -- the other, the loader thread ends, with any number of rounds that goes past the end time: that
  -- counts, from the thread's start, one slot for each process and those in which a start time is
  -- waited for. By then it has added the processes of all entries in the order of the configuration,
  -- with consecutive numbers from 1 on, the priority of their entry and memory of their own, and
  -- nothing else.
  pub ld_rounds-end_time :
      (ps : List Pcb) (m time : ℕ) (s s' : State)
      → LoadsFrom args 0 args.ld_processes ps
      → end_time time args.ld_processes < time + m
      → add_in_order s (to_add args 0 1 args.ld_processes ps) ≡ done s'
      → ld_rounds m time (ld_start s) ≡ done (some (ld_done s'))
  ld_rounds-end_time ps m time s s' loads enough added =
      let ended = ends_from args.ld_processes ps m time (ld_start s) refl loads refl enough in
      ended ∙ rw added
