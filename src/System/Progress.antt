-- ===== src/System/Progress.antt =====
-- The simulation of src/os.c always goes on if every process can be loaded.
use assignment_os.Base.{
  ℕ, zero, suc, ◌%◌, ◌<◌, ◌≤◌, ◌≡◌, ap, ◌∙◌, arith, Bool-cases, Option-cases, inl, inr, Option,
  some, List, length, length-replicate, get_elem?, get_elem?-some, inside_of, ltb, leb, ltb, true,
  word, done,
}
use mathlib.Core.Path.{subst}
use assignment_os.Process.{Pcb}
use assignment_os.Vm.{rounds}
use assignment_os.Loader.{load}
use assignment_os.Config.{Entry, Config}
use assignment_os.Sched.{Sched, max_prio}
use assignment_os.Sched.Laws.{put_proc_loses}
use assignment_os.Os.{mlq_scheduler, cpu_round}
use assignment_os.Ld.{
  LdArgs, Ld, LdRound, ld_slot, ld_done, add_or_wait, with_memory, next_process, ld_round,
}
use assignment_os.Timer.{Device, working}
use assignment_os.Timer.Barrier.{no_deadlock}
use assignment_os.System.{
  Cpu, System, Fixed, cpu_state, ld_state, cpu_start, cpu_next, ld_next, ld_ends, SystemStep,
  timer_runs, slot_returns, cpu_runs, cpu_stops, ld_runs, ld_finishes, main_joins, SystemReachable,
  booted, later, World, boot,
}
use assignment_os.System.Threads.{boot-Booted, SystemReachable-Reachable}
use assignment_os.System.Rounds.{idle_round}
use assignment_os.System.Endless.{Endless, Booted-Endless, reachable-Endless, cpu_at, never_ends}

-- Every process of the configuration has a priority below 140 and a program that can be loaded.
abbrev pub IsLoadable : LdArgs → Type 0
IsLoadable args =
    (i : ℕ) (e : Entry)
    → get_elem? args.ld_processes i ≡ some e
    → (e.prio % word < max_prio)
      × ((pid : ℕ)
          → (p : Pcb) × (next : ℕ) × (load args.disk (args.malloc i) pid e.path
              ≡ done (some (p, next))))

-- The process that waits for its start time has a queue.
abbrev pub HasQueue : Option Pcb → Type 0
HasQueue proc = (p : Pcb) → proc ≡ some p → p.prio < max_prio

-- After a round the same holds.
abbrev RoundOk : LdRound Sched → Type 0
RoundOk (ld_slot ld) = HasQueue ld.proc
RoundOk (ld_done q) = 0 ≤ 0

add_or_wait_ok :
    (args : LdArgs) (time : ℕ) (e : Entry) (p : Pcb) (ld : Ld Sched)
    → length ld.sched.mlq_ready ≡ max_prio
    → p.prio < max_prio
    → (r : LdRound Sched) × (add_or_wait mlq_scheduler args time e p ld ≡ done r) × RoundOk r
unfolding add_or_wait
add_or_wait_ok args time e p ld queues h = elim (Bool-cases (ltb time e.start_time)) [
  | inl early ↦ (
    ld_slot (record ld { proc = some p }),
    rw (early, add_or_wait),
    λ q same. let eq : p ≡ q = ground arith in rw⁻¹ eq h,
  )
  | inr on_time ↦
      let q : Pcb = with_memory args ld.i p in
      let inside : leb p.prio max_prio ≡ true = ground arith in
      let added = (put_proc_loses ld.sched q queues).0 in
      (
        ld_slot (next_process ld ld.sched),
        ground (arith, on_time, inside, added),
        λ p' same. absurd (ground arith),
      )
]

ld_round_ok :
    (args : LdArgs) (time : ℕ) (ld : Ld Sched)
    → IsLoadable args
    → length ld.sched.mlq_ready ≡ max_prio
    → HasQueue ld.proc
    → (r : LdRound Sched) × (ld_round mlq_scheduler args time ld ≡ done (some r)) × RoundOk r
unfolding ld_round
ld_round_ok args time ld loadable queues h =
    elim (Option-cases (get_elem? args.ld_processes ld.i)) [
      | inl over ↦ (ld_done ld.sched, ground arith, omega arith)
      | inr (e, found) ↦
          let (low, loads) = loadable ld.i e found in
          elim (Option-cases ld.proc) [
            | inr (p, held) ↦
                let (r, ran, ok) = add_or_wait_ok args time e p ld queues (h p held) in
                (r, ground arith, ok)
            | inl fresh ↦
                let (p, next, read) = loads ld.avail_pid in
                let (r, ran, ok) =
                  add_or_wait_ok args time e (record p { prio = e.prio % word })
                    (record ld { avail_pid = next }) queues low in
                (r, ground (arith, found, fresh, read, ran), ok)
          ]
    ]

-- The loader's thread keeps its process within the queues.
ld_keeps :
    (fixed : Fixed) (s : System) (ld : Ld Sched)
    → IsLoadable fixed.ld_args
    → length s.sched.mlq_ready ≡ max_prio
    → HasQueue s.ld_proc
    → ld_round mlq_scheduler fixed.ld_args s.timer.time (ld_state s) ≡ done (some (ld_slot ld))
    → HasQueue ld.proc
ld_keeps fixed s ld loadable queues h round =
    let (r, ran, ok) = ld_round_ok fixed.ld_args s.timer.time (ld_state s) loadable queues h in
    let eq : r ≡ ld_slot ld = ground (arith, ran, round) in subst RoundOk eq ok

step_HasQueue :
    (fixed : Fixed) (s u : System)
    → length s.sched.mlq_ready ≡ max_prio
    → IsLoadable fixed.ld_args
    → HasQueue s.ld_proc
    → SystemStep fixed s u
    → HasQueue u.ld_proc
step_HasQueue fixed s u queues loadable h (timer_runs t next) = h
step_HasQueue fixed s u queues loadable h (slot_returns i d there waits released) = h
step_HasQueue fixed s u queues loadable h (cpu_runs k c d c' has there at_work round) = h
step_HasQueue fixed s u queues loadable h (cpu_stops k c d q has there at_work round) = h
step_HasQueue fixed s u queues loadable h (ld_runs d ld there at_work round) =
    ld_keeps fixed s ld loadable queues h round
step_HasQueue fixed s u queues loadable h (ld_finishes d q there at_work round) = h
step_HasQueue fixed s u queues loadable h (main_joins all) = h

reachable_HasQueue :
    (n : ℕ) (q : Sched) (fixed : Fixed) (s u : System)
    → 0 < n
    → length q.mlq_ready ≡ max_prio
    → Endless n q s
    → IsLoadable fixed.ld_args
    → HasQueue s.ld_proc
    → SystemReachable fixed s u
    → HasQueue u.ld_proc
reachable_HasQueue n q fixed s u some_cpu queues h loadable start booted = start
reachable_HasQueue n q fixed s u some_cpu queues h loadable start (later {t = t} before step) =
    let same = (reachable-Endless n q fixed s t some_cpu queues h before).sched in
    step_HasQueue fixed t u (rw same queues) loadable
      (reachable_HasQueue n q fixed s t some_cpu queues h loadable start before) step

-- A thread that is at work can go on to its next wait.
device_goes_on :
    (n : ℕ) (q : Sched) (fixed : Fixed) (s : System) (j : ℕ) (d : Device)
    → length q.mlq_ready ≡ max_prio
    → Endless n q s
    → IsLoadable fixed.ld_args
    → HasQueue s.ld_proc
    → get_elem? s.timer.dev_list j ≡ some d
    → d.place ≡ working
    → (v : System) × SystemStep fixed s v
device_goes_on n q fixed s zero d queues h loadable ok there at_work =
    let same = h.sched in
    let (r, ran, fine) =
      ld_round_ok fixed.ld_args s.timer.time (ld_state s) loadable (rw same queues) ok in
    by_round r ran
  where
    by_round :
        (r : LdRound Sched)
        → ld_round mlq_scheduler fixed.ld_args s.timer.time (ld_state s) ≡ done (some r)
        → (v : System) × SystemStep fixed s v
    by_round (ld_slot ld) ran = (ld_next s d ld, ld_runs d ld there at_work ran)
    by_round (ld_done q') ran = (ld_ends s d q', ld_finishes d q' there at_work ran)
device_goes_on n q fixed s (suc k) d queues h loadable ok there at_work =
    let below = inside_of s.timer.dev_list (suc k) d there in
    let count = ap (λ (cs : List Cpu). length cs) h.cpus ∙ length-replicate n cpu_start in
    let (c, has) = get_elem?-some s.cpus k (omega (arith, h.going.devices)) in
    let start = cpu_at n q s k c h has in
    let ran =
      ap (λ (x : Cpu). cpu_round mlq_scheduler fixed.machine s.all_loaded (cpu_state x s.sched))
        start
      ∙ idle_round fixed.machine s.all_loaded s.sched in
    (
      cpu_next s k d (cpu_state cpu_start s.sched),
      cpu_runs k c d (cpu_state cpu_start s.sched) has there at_work ran,
    )

-- With at least one CPU, and programs that can be loaded for all processes, with priorities below
-- 140, the simulation never stops: from every state that it can reach there is a step, of the
-- timer or of a thread.
pub never_stuck :
    (world : World) (config : Config) (fixed : Fixed) (s u : System)
    → boot world config ≡ done (fixed, s)
    → 0 < rounds config.num_cpus
    → IsLoadable fixed.ld_args
    → SystemReachable fixed s u
    → (v : System) × SystemStep fixed u v
never_stuck world config fixed s u h some_cpu loadable reached =
    let b = boot-Booted world config fixed s h in
    let n : ℕ = rounds config.num_cpus in
    let start = Booted-Endless world config fixed s b in
    let now = reachable-Endless n s.sched fixed s u some_cpu b.queues start reached in
    let ok =
      reachable_HasQueue n s.sched fixed s u some_cpu b.queues start loadable
        (λ p held. absurd (ground (arith, held, b.ld_proc))) reached in
    let timer = SystemReachable-Reachable world config fixed s u h reached in
    let (on, _, _, _, _) = never_ends world config fixed s u h some_cpu reached in
    elim (no_deadlock u.timer timer now.going.started on) [
      | inl (t', next) ↦ (record u { timer = t' }, timer_runs t' next)
      | inr (j, d, there, inl at_work) ↦
          device_goes_on n s.sched fixed u j d b.queues now loadable ok there at_work
      | inr (j, d, there, inr (waits, released)) ↦ (_, slot_returns j d there waits released)
    ]
