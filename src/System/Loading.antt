-- ===== src/System/Loading.antt =====
-- What the loader's thread of src/os.c has done in each state of the simulation.
use assignment_os.Base.{
  ℕ, ◌+◌, ◌%◌, ◌<◌, ◌≤◌, ◌≡◌, refl, sym, ◌∙◌, arith, true, ◌||◌, Bool-cases, Option-cases, inl, inr,
  none, some, length, outside_of, get_elem?, word, done,
}
use native.Mathlib.Decide.{ℕ_discrete}
use assignment_os.Config.{Entry, Config}
use assignment_os.Sched.{Sched}
use assignment_os.Os.{mlq_scheduler}
use assignment_os.Ld.{LdArgs, Ld, ld_slot, ld_done}
use assignment_os.Timer.{Timer, TimerAt, idle, head, ended, check, release, Device, timer_step}
use assignment_os.System.{
  System, Fixed, ld_state, ld_next, SystemStep, timer_runs, slot_returns, cpu_runs, cpu_stops,
  ld_runs, ld_finishes, main_joins, SystemReachable, booted, later, World, boot,
}
use assignment_os.System.Threads.{Booted, boot-Booted}
use assignment_os.Ld.Rounds.{held, PidsOk, RoundLoads, ld_round_loads}

time_le : (t t' : Timer) → timer_step t ≡ some t' → t.time ≤ t'.time
unfolding timer_step
time_le t t' h = by_place t.place refl
  where
    by_place : (p : TimerAt) → t.place ≡ p → t.time ≤ t'.time
    by_place idle e = absurd (ground arith)
    by_place ended e = absurd (ground arith)
    by_place head e = ground arith
    by_place (check i fsh event) e = elim (Option-cases (get_elem? t.dev_list i)) [
      | inl end_of ↦ ground arith
      | inr (d, there) ↦ elim (Bool-cases (d.done || d.fsh)) [
        | inl told ↦ ground arith
        | inr not_told ↦ absurd (ground arith)
      ]
    ]
    by_place (release i fsh event) e = elim (Option-cases (get_elem? t.dev_list i)) [
      | inl end_of ↦ ground arith
      | inr (d, there) ↦ ground arith
    ]

-- The processes that were added have started, the numbers are given out one by one, and the flag
-- says that none is left.
pub record LoaderInv (args : LdArgs) (s : System) : Type 0 where
  pub started :
      (k : ℕ) (e : Entry)
      → k < s.ld_i
      → get_elem? args.ld_processes k ≡ some e
      → e.start_time ≤ s.timer.time
  pub pids : PidsOk s.avail_pid s.ld_i s.ld_proc
  pub none_left : s.all_loaded ≡ true → get_elem? args.ld_processes s.ld_i ≡ none

-- The invariant looks at no device.
same_loader :
    (args : LdArgs) (s u : System)
    → (u.ld_i ≡ s.ld_i)
      × (u.avail_pid ≡ s.avail_pid)
      × (u.ld_proc ≡ s.ld_proc)
      × (u.all_loaded ≡ s.all_loaded)
    → s.timer.time ≤ u.timer.time
    → LoaderInv args s
    → LoaderInv args u
same_loader args s u (same_i, same_pid, same_proc, same_all) time_on inv = record {
  started = λ k e lt found. let had = inv.started k e (omega arith) found in omega arith;
  pids = rw (same_i, same_pid, same_proc) inv.pids;
  none_left = λ all. rw same_i (inv.none_left (sym same_all ∙ all));
}

ld_runs-LoaderInv :
    (fixed : Fixed) (s : System) (d : Device) (ld : Ld Sched)
    → LoaderInv fixed.ld_args s
    → RoundLoads fixed.ld_args s.timer.time (ld_state s) (ld_slot ld)
    → LoaderInv fixed.ld_args (ld_next s d ld)
ld_runs-LoaderInv fixed s d ld inv (e, found, moved, pids) = record {
  started = λ k e' lt found'. elim moved [
    | inl same ↦ inv.started k e' (omega arith) found'
    | inr (up, late) ↦ elim (ℕ_discrete k s.ld_i) [
      | yes here ↦ ground (arith, found, found')
      | no differ ↦ inv.started k e' (ground arith) found'
    ]
  ];
  pids = pids;
  none_left = λ all. absurd (ground (arith, found, inv.none_left all));
}

SystemStep-LoaderInv :
    (fixed : Fixed) (s u : System)
    → LoaderInv fixed.ld_args s
    → SystemStep fixed s u
    → LoaderInv fixed.ld_args u
SystemStep-LoaderInv fixed s u inv (timer_runs t step) =
    same_loader fixed.ld_args s u (refl, refl, refl, refl) (time_le s.timer t step) inv
SystemStep-LoaderInv fixed s u inv (slot_returns i d there waits released) =
    same_loader fixed.ld_args s u (refl, refl, refl, refl) (omega arith) inv
SystemStep-LoaderInv fixed s u inv (cpu_runs k c d c' has there at_work round) =
    same_loader fixed.ld_args s u (refl, refl, refl, refl) (omega arith) inv
SystemStep-LoaderInv fixed s u inv (cpu_stops k c d q has there at_work round) =
    same_loader fixed.ld_args s u (refl, refl, refl, refl) (omega arith) inv
SystemStep-LoaderInv fixed s u inv (ld_runs d ld there at_work round) =
    ld_runs-LoaderInv fixed s d ld inv (
      ld_round_loads mlq_scheduler fixed.ld_args s.timer.time (ld_state s) (ld_slot ld) inv.pids
        round)
SystemStep-LoaderInv fixed s u inv (ld_finishes d q there at_work round) = record {
  started = inv.started;
  pids = inv.pids;
  none_left = λ all.
      ld_round_loads mlq_scheduler fixed.ld_args s.timer.time (ld_state s) (ld_done q) inv.pids
        round;
}
SystemStep-LoaderInv fixed s u inv (main_joins all) =
    same_loader fixed.ld_args s u (refl, refl, refl, refl) (omega arith) inv

reachable-LoaderInv :
    (fixed : Fixed) (s u : System)
    → LoaderInv fixed.ld_args s
    → SystemReachable fixed s u
    → LoaderInv fixed.ld_args u
reachable-LoaderInv fixed s u inv booted = inv
reachable-LoaderInv fixed s u inv (later {t = t} before step) =
    SystemStep-LoaderInv fixed t u (reachable-LoaderInv fixed s t inv before) step

Booted-LoaderInv :
    (world : World) (config : Config) (fixed : Fixed) (s : System)
    → Booted world config fixed s
    → LoaderInv fixed.ld_args s
Booted-LoaderInv world config fixed s b =
    let none_held = b.ld_proc in
    let first = b.ld_i in
    let pid = b.avail_pid in
    record {
      started = λ k e lt found. absurd (omega arith);
      pids = rw (pid, first, none_held) (omega arith);
      none_left = λ all. absurd (ground (arith, all, b.not_loaded));
    }

-- In every state of the simulation the time has reached the start time of each process that was
-- added, the numbers given out, from 1 on, are as many as the processes loaded, and once `done` is
-- set all processes of the configuration have been added.
pub added_in_time :
    (world : World) (config : Config) (fixed : Fixed) (s u : System)
    → boot world config ≡ done (fixed, s)
    → SystemReachable fixed s u
    → ((k : ℕ) (e : Entry)
        → k < u.ld_i
        → get_elem? config.processes k ≡ some e
        → e.start_time ≤ u.timer.time)
      × (u.avail_pid ≡ (1 + u.ld_i + held u.ld_proc) % word)
      × (u.all_loaded ≡ true → length config.processes ≤ u.ld_i)
added_in_time world config fixed s u h reached =
    let b = boot-Booted world config fixed s h in
    let inv = reachable-LoaderInv fixed s u (Booted-LoaderInv world config fixed s b) reached in
    let same = b.processes in
    (
      λ k e lt found. inv.started k e lt (rw same found),
      inv.pids,
      λ all. rw⁻¹ same (outside_of fixed.ld_args.ld_processes u.ld_i (inv.none_left all)),
    )
