-- ===== src/Ld/Rounds.antt =====
-- What a round of `ld_routine` of src/os.c does, with any scheduler.
use assignment_os.Base.{
  ℕ, ◌+◌, ◌%◌, ◌≤◌, ◌≡◌, refl, ap, ◌∙◌, arith, Bool-cases, Option-cases, Run-cases, inl, inr, ◌⊎◌,
  Option, none, some, get_elem?, ltb, word, done,
}
use mathlib.Core.Path.{subst}
use assignment_os.Process.{Pcb}
use assignment_os.Loader.{load}
use assignment_os.Loader.Loads.{load_lem}
use assignment_os.Config.{Entry}
use assignment_os.Os.{Scheduler}
use assignment_os.Ld.{
  LdArgs, Ld, LdRound, ld_slot, ld_done, add_or_wait, with_memory, next_process, ld_round,
}

-- The process that is loaded but not added yet.
abbrev pub held : Option Pcb → ℕ
held none = 0
held (some p) = 1

-- Each process that was loaded has taken one number.
abbrev pub PidsOk : (avail_pid i : ℕ) → Option Pcb → Type 0
PidsOk avail_pid i proc = avail_pid ≡ (1 + i + held proc) % word

-- What a round does: it waits, or adds a process whose start time has come, or all are added.
abbrev pub RoundLoads : LdArgs → (time : ℕ) → {S : Type 0} → Ld S → LdRound S → Type 0
RoundLoads args time ld (ld_slot ld') =
    (e : Entry) × (get_elem? args.ld_processes ld.i ≡ some e)
    × ((ld'.i ≡ ld.i) ⊎ ((ld'.i ≡ ld.i + 1) × (e.start_time ≤ time)))
    × PidsOk ld'.avail_pid ld'.i ld'.proc
RoundLoads args time ld (ld_done s) = get_elem? args.ld_processes ld.i ≡ none

module _ (scheduler : Scheduler) (args : LdArgs) where
  open scheduler use {State, add_proc}

  add_or_wait_loads :
      (time : ℕ) (e : Entry) (p : Pcb) (ld : Ld State) (r : LdRound State)
      → get_elem? args.ld_processes ld.i ≡ some e
      → ld.avail_pid ≡ (1 + ld.i + 1) % word
      → add_or_wait scheduler args time e p ld ≡ done r
      → RoundLoads args time ld r
  unfolding add_or_wait
  add_or_wait_loads time e p ld r found pids h = elim (Bool-cases (ltb time e.start_time)) [
    | inl early ↦
        let eq : ld_slot (record ld { proc = some p }) ≡ r = ground arith in
        subst (RoundLoads args time ld) eq (e, found, inl refl, pids)
    | inr on_time ↦ elim (Run-cases (add_proc ld.sched (with_memory args ld.i p))) [
      | inl bad ↦ absurd (ground arith)
      | inr (s, added) ↦
          let eq : ld_slot (next_process ld s) ≡ r = ground arith in
          subst (RoundLoads args time ld) eq (e, found, inr (refl, ground arith), ground arith)
    ]
  ]

  pub ld_round_loads :
      (time : ℕ) (ld : Ld State) (r : LdRound State)
      → PidsOk ld.avail_pid ld.i ld.proc
      → ld_round scheduler args time ld ≡ done (some r)
      → RoundLoads args time ld r
  unfolding ld_round
  ld_round_loads time ld r pids h = elim (Option-cases (get_elem? args.ld_processes ld.i)) [
    | inl over ↦
        let eq : ld_done ld.sched ≡ r = ground arith in subst (RoundLoads args time ld) eq over
    | inr (e, found) ↦ elim (Option-cases ld.proc) [
      | inr (p, has) ↦
          let taken : ld.avail_pid ≡ (1 + ld.i + 1) % word =
            pids ∙ ap (λ (q : Option Pcb). (1 + ld.i + held q) % word) has in
          elim (Run-cases (add_or_wait scheduler args time e p ld)) [
            | inl bad ↦ absurd (ground arith)
            | inr (r', ok) ↦
                let eq : r' ≡ r = ground arith in
                subst (RoundLoads args time ld) eq (add_or_wait_loads time e p ld r' found taken ok)
          ]
      | inl fresh ↦ elim (Run-cases (load args.disk (args.malloc ld.i) ld.avail_pid e.path)) [
        | inl bad ↦ absurd (ground arith)
        | inr (none, read) ↦ absurd (ground arith)
        | inr (some (p, next), read) ↦
            let q : Pcb = record p { prio = e.prio % word } in
            let ld' : Ld State = record ld { avail_pid = next } in
            let (_, _, _, up) =
              load_lem args.disk (args.malloc ld.i) ld.avail_pid next e.path p read in
            let now : ld.avail_pid ≡ (1 + ld.i + 0) % word =
              pids ∙ ap (λ (q : Option Pcb). (1 + ld.i + held q) % word) fresh in
            let taken : next ≡ (1 + ld.i + 1) % word = omega arith in
            elim (Run-cases (add_or_wait scheduler args time e q ld')) [
              | inl bad ↦ absurd (ground arith)
              | inr (r', ok) ↦
                  let eq : r' ≡ r = ground arith in
                  subst (RoundLoads args time ld) eq
                    (add_or_wait_loads time e q ld' r' found taken ok)
            ]
      ]
    ]
  ]
