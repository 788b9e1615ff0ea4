-- ===== src/System/Rounds.antt =====
-- What a round of a CPU's and of the loader's thread of src/os.c does to the scheduler of src/sched.c.
use assignment_os.Base.{
  ℕ, ◌≡◌, refl, arith, Bool, Bool-cases, Option-cases, Run-cases, inl, inr, ◌%◌, word, none, some,
  length, get_elem?, leb, ltb, done,
}
use assignment_os.Process.{Pcb}
use assignment_os.Loader.{load}
use assignment_os.Config.{Entry}
use assignment_os.Sched
use assignment_os.Sched.{Sched, max_prio}
use assignment_os.Sched.Laws.{put_proc_loses}
use assignment_os.Os.{mlq_scheduler, Machine, next_slot, cpu_round}
use assignment_os.Ld.{
  LdArgs, Ld, LdRound, ld_slot, ld_done, add_or_wait, with_memory, next_process, ld_round,
}
use assignment_os.System.{cpu_state, cpu_start}

pub idle_round :
    (machine : Machine) (flag : Bool) (q : Sched)
    → cpu_round mlq_scheduler machine flag (cpu_state cpu_start q)
      ≡ done (next_slot (cpu_state cpu_start q))
unfolding cpu_round Sched.get_proc
idle_round machine flag q = refl

add_keeps :
    (q q' : Sched) (p : Pcb)
    → length q.mlq_ready ≡ max_prio
    → mlq_scheduler.add_proc q p ≡ done q'
    → q' ≡ q
add_keeps q q' p queues h = elim (Bool-cases (leb p.prio max_prio)) [
  | inl inside ↦ ground (arith, (put_proc_loses q p queues).0)
  | inr outside ↦ absurd (ground (arith, (put_proc_loses q p queues).0))
]

abbrev pub sched_of : LdRound Sched → Sched
sched_of (ld_slot ld) = ld.sched
sched_of (ld_done q) = q

add_or_wait_keeps :
    (args : LdArgs) (time : ℕ) (e : Entry) (p : Pcb) (ld : Ld Sched) (r : LdRound Sched)
    → length ld.sched.mlq_ready ≡ max_prio
    → add_or_wait mlq_scheduler args time e p ld ≡ done r
    → sched_of r ≡ ld.sched
unfolding add_or_wait
add_or_wait_keeps args time e p ld r queues h = elim (Bool-cases (ltb time e.start_time)) [
  | inl early ↦ ground arith
  | inr on_time ↦ elim (Run-cases (mlq_scheduler.add_proc ld.sched (with_memory args ld.i p))) [
    | inl bad ↦ absurd (ground arith)
    | inr (q, added) ↦
        let same = add_keeps ld.sched q (with_memory args ld.i p) queues added in
        let eq : ld_slot (next_process ld q) ≡ r = ground arith in rw⁻¹ eq same
  ]
]

-- A round of the loader's thread leaves the scheduler's state alone.
pub ld_round_keeps :
    (args : LdArgs) (time : ℕ) (ld : Ld Sched) (r : LdRound Sched)
    → length ld.sched.mlq_ready ≡ max_prio
    → ld_round mlq_scheduler args time ld ≡ done (some r)
    → sched_of r ≡ ld.sched
unfolding ld_round
ld_round_keeps args time ld r queues h = elim (Option-cases (get_elem? args.ld_processes ld.i)) [
  | inl over ↦ ground arith
  | inr (e, found) ↦ elim (Option-cases ld.proc) [
    | inl fresh ↦ elim (Run-cases (load args.disk (args.malloc ld.i) ld.avail_pid e.path)) [
      | inl bad ↦ absurd (ground arith)
      | inr (none, read) ↦ absurd (ground arith)
      | inr (some (p, avail_pid), read) ↦
          let q : Pcb = record p { prio = e.prio % word } in
          let ld' : Ld Sched = record ld { avail_pid = avail_pid } in
          elim (Run-cases (add_or_wait mlq_scheduler args time e q ld')) [
            | inl bad ↦ absurd (ground arith)
            | inr (r', ok) ↦
                let same = add_or_wait_keeps args time e q ld' r' queues ok in
                let eq : r' ≡ r = ground arith in rw⁻¹ eq same
          ]
    ]
    | inr (p, held) ↦ elim (Run-cases (add_or_wait mlq_scheduler args time e p ld)) [
      | inl bad ↦ absurd (ground arith)
      | inr (r', ok) ↦
          let same = add_or_wait_keeps args time e p ld r' queues ok in
          let eq : r' ≡ r = ground arith in rw⁻¹ eq same
    ]
  ]
]
