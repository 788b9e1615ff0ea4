-- ===== src/System/Threads.antt =====
-- The timer of the simulation of src/os.c is used as src/timer.c wants it.
use assignment_os.Base.{
  ℕ, zero, suc, ◌+◌, ◌≡◌, refl, sym, ap, ◌∙◌, arith, true, false, Run-cases, inl, inr, none, some,
  ◌∷◌, length, get_elem?, replicate, pos, done,
}
use mathlib.Core.Path.{subst}
use assignment_os.Vm.{rounds}
use assignment_os.Config.{Config}
use assignment_os.Timer.{
  Device, working, head, Timer, initial, new_device, attach_event, Step, timer_steps, attaches,
  starts, stops, tells, returns, detaches, Reachable, at_start, after,
}
use assignment_os.System.{
  Fixed, System, SystemStep, timer_runs, slot_returns, cpu_runs, cpu_stops, ld_runs, ld_finishes,
  main_joins, SystemReachable, booted, later, World, attach_all, init_mswp, first_mswp,
  zeroed_sched, cpu_start, fixed_of, system_of, boot,
}
use assignment_os.Memphy.{Memphy, init_memphy}
use assignment_os.Sched.{Sched, max_prio, queue_empty}
use assignment_os.Sched.Init.{init_scheduler-queue_empty}

-- Each step of the simulation is one step of the timer and its devices.
SystemStep-Step : (fixed : Fixed) (s u : System) → SystemStep fixed s u → Step s.timer u.timer
SystemStep-Step fixed s u (timer_runs t h) = timer_steps t h
SystemStep-Step fixed s u (slot_returns i d there waits released) = returns i d there waits released
SystemStep-Step fixed s u (cpu_runs k c d c' has there at_work round) =
    tells (suc k) d there at_work
SystemStep-Step fixed s u (cpu_stops k c d q has there at_work round) =
    detaches (suc k) d there at_work
SystemStep-Step fixed s u (ld_runs d ld there at_work round) = tells 0 d there at_work
SystemStep-Step fixed s u (ld_finishes d q there at_work round) = detaches 0 d there at_work
SystemStep-Step fixed s u (main_joins all) = stops

-- The timer before it starts, with `n` devices attached that are at work.
pub record Attached (n : ℕ) (t : Timer) : Type 0 where
  pub reached : Reachable t
  pub fresh : t.timer_started ≡ false
  pub going : t.timer_stop ≡ false
  pub count : length t.dev_list ≡ n
  pub at_work : (j : ℕ) (d : Device) → get_elem? t.dev_list j ≡ some d → d.place ≡ working

attach_event-Attached :
    (n : ℕ) (t : Timer)
    → Attached n t
    → (t' : Timer) × (attach_event t ≡ some t') × Attached (suc n) t'
unfolding attach_event
attach_event-Attached n t h =
    let fresh = h.fresh in
    let t' : Timer = record t { dev_list = new_device ∷ t.dev_list } in
    let attached : attach_event t ≡ some t' = rw (fresh, attach_event) in
    (
      t',
      attached,
      record {
        reached = after h.reached (attaches t' attached);
        fresh = fresh;
        going = h.going;
        count = ap suc h.count;
        at_work = by_index;
      },
    )
  where
    by_index :
        (j : ℕ) (d : Device) → get_elem? (new_device ∷ t.dev_list) j ≡ some d → d.place ≡ working
    by_index zero d found = ground arith
    by_index (suc j) d found = h.at_work j d found

pub attach_all-Attached :
    (n m k : ℕ) (t : Timer)
    → k ≡ n + m
    → Attached m t
    → (t' : Timer) × (attach_all n t ≡ done t') × Attached k t'
unfolding attach_all
attach_all-Attached zero m k t e h = let same : k ≡ m = omega arith in (t, refl, rw same h)
attach_all-Attached (suc n) m k t e h =
    let (t1, attached, h1) = attach_event-Attached m t h in
    let (t2, all, h2) = attach_all-Attached n (suc m) k t1 (omega arith) h1 in
    (t2, rw (attach_all, attached) all, h2)

pub initial-Attached : Attached 0 initial
initial-Attached = record {
  reached = at_start;
  fresh = refl;
  going = refl;
  count = refl;
  at_work = λ j d found. absurd (ground arith);
}

done_inj {ℓ} : {A : Type ℓ} {a b : A} → done a ≡ done b → a ≡ b
done_inj h = cc

-- What `main` has set up when its threads start.
pub record Booted (world : World) (config : Config) (fixed : Fixed) (s : System) : Type 0 where
  pub reached : Reachable s.timer
  pub at_head : s.timer.place ≡ head
  pub going : s.timer.timer_stop ≡ false
  pub devices : length s.timer.dev_list ≡ suc (rounds config.num_cpus)
  pub at_work : (j : ℕ) (d : Device) → get_elem? s.timer.dev_list j ≡ some d → d.place ≡ working
  pub cpus : s.cpus ≡ replicate (rounds config.num_cpus) cpu_start
  pub queues : length s.sched.mlq_ready ≡ max_prio
  pub no_process : queue_empty s.sched ≡ done (pos 1)
  pub ld_i : s.ld_i ≡ 0
  pub ld_proc : s.ld_proc ≡ none
  pub avail_pid : s.avail_pid ≡ 1
  pub not_loaded : s.all_loaded ≡ false
  pub disk : fixed.ld_args.disk ≡ world.disk
  pub processes : fixed.ld_args.ld_processes ≡ config.processes

system_of-Booted :
    (world : World) (config : Config) (t : Timer) (q : Sched) (mram active : Memphy)
    → Attached (suc (rounds config.num_cpus)) t
    → length q.mlq_ready ≡ max_prio
    → queue_empty q ≡ done (pos 1)
    → Booted world config (fixed_of world config mram active) (system_of config t q)
system_of-Booted world config t q mram active ok queues no_process = record {
  reached = after ok.reached (starts ok.fresh);
  at_head = refl;
  going = ok.going;
  devices = ok.count;
  at_work = ok.at_work;
  cpus = refl;
  queues = queues;
  no_process = no_process;
  ld_i = refl;
  ld_proc = refl;
  avail_pid = refl;
  not_loaded = refl;
  disk = refl;
  processes = refl;
}

-- Where `boot` returns, all of this holds.
pub boot-Booted :
    (world : World) (config : Config) (fixed : Fixed) (s : System)
    → boot world config ≡ done (fixed, s)
    → Booted world config fixed s
unfolding boot
boot-Booted world config fixed s h =
    let n : ℕ = rounds config.num_cpus in
    let (t, attached, ok) =
      attach_all-Attached (n + 1) 0 (suc n) initial (omega arith) initial-Attached in
    let (q, cleared, queues, no_process, slots) =
      init_scheduler-queue_empty zeroed_sched refl refl in
    elim (Run-cases (init_memphy world.mram config.memramsz true)) [
      | inl bad ↦ absurd (ground (arith, attached, bad))
      | inr (mram, ram) ↦ elim (Run-cases (init_mswp world.mswp config.memswpsz)) [
        | inl bad ↦ absurd (ground (arith, attached, ram, bad))
        | inr (mswp, swaps) ↦ elim (Run-cases (first_mswp mswp)) [
          | inl bad ↦ absurd (ground (arith, attached, ram, swaps, bad))
          | inr (active, first) ↦
              let there : boot world config
                  ≡ done (fixed_of world config mram active, system_of config t q) =
                rw (boot, attached, ram, swaps, first, cleared) in
              let same : (fixed_of world config mram active, system_of config t q) ≡ (fixed, s) =
                done_inj (sym there ∙ h) in
              subst (λ (r : Fixed × System). Booted world config r.0 r.1) same
                (system_of-Booted world config t q mram active ok queues no_process)
        ]
      ]
    ]

timer_reached :
    (fixed : Fixed) (s u : System)
    → Reachable s.timer
    → SystemReachable fixed s u
    → Reachable u.timer
timer_reached fixed s u start booted = start
timer_reached fixed s u start (later {t = t} before step) =
    after (timer_reached fixed s t start before) (SystemStep-Step fixed t u step)

-- In every state that the simulation can reach from where `main` starts its threads, the timer and
-- its devices are in a state that the steps of src/timer.c can reach: `main`, the CPU threads and
-- the loader thread use the timer as it wants to be used.
pub SystemReachable-Reachable :
    (world : World) (config : Config) (fixed : Fixed) (s u : System)
    → boot world config ≡ done (fixed, s)
    → SystemReachable fixed s u
    → Reachable u.timer
SystemReachable-Reachable world config fixed s u h reached =
    timer_reached fixed s u (boot-Booted world config fixed s h).reached reached
