-- ===== src/System/Endless.antt =====
-- The simulation of src/os.c never ends once it has a CPU.
use assignment_os.Base.{
  ℕ, suc, ◌<◌, ◌≡◌, ◌≢◌, refl, sym, ap, ◌∙◌, arith, false, inl, inr, ◌⊎◌, some, length, length-set,
  length-replicate, get_elem?, get_elem?-some, get_elem?-replicate, inside_of, set, set_same,
  replicate, done,
}
use assignment_os.Vm.{rounds}
use assignment_os.Config.{Config}
use assignment_os.Sched.{Sched, max_prio}
use assignment_os.Os.{mlq_scheduler, CpuState, Round, next_slot, stopped, cpu_round}
use assignment_os.Ld.{ld_slot, ld_done}
use assignment_os.Timer.{Device, finished, ended, Timer, tell_done, slot_begins, detach_event}
use assignment_os.Timer.Ends.{ended_finished}
use assignment_os.System.{
  Cpu, System, Fixed, cpu_state, ld_state, at_device, cpu_start, SystemStep, timer_runs,
  slot_returns, cpu_runs, cpu_stops, ld_runs, ld_finishes, main_joins, SystemReachable, booted,
  later, World, boot,
}
use assignment_os.System.Going.{CpusOn-set, Going, timer_step-Going}
use assignment_os.System.Threads.{Booted, boot-Booted, SystemReachable-Reachable}
use assignment_os.System.Rounds.{idle_round, ld_round_keeps}

-- All is as at the start: the CPUs have no process, the scheduler is in state `q`, and the timer
-- goes on.
pub record Endless (n : ℕ) (q : Sched) (s : System) : Type 0 where
  pub going : Going n s.timer
  pub cpus : s.cpus ≡ replicate n cpu_start
  pub sched : s.sched ≡ q

at_device-Going :
    (n : ℕ) (t : Timer) (i : ℕ) (d : Device)
    → Going n t
    → (i ≡ 0) ⊎ (d.place ≢ finished)
    → Going n (at_device t i d)
at_device-Going n t i d going ok = record {
  started = going.started;
  not_stopped = going.not_stopped;
  devices = length-set t.dev_list i d ∙ going.devices;
  cpus_on = CpusOn-set t.dev_list i d ok going.cpus_on;
}

-- The thread of a CPU is as it started, and so is what its round leaves behind.
pub cpu_at :
    (n : ℕ) (q : Sched) (s : System) (k : ℕ) (c : Cpu)
    → Endless n q s
    → get_elem? s.cpus k ≡ some c
    → c ≡ cpu_start
cpu_at n q s k c h found =
    let cpus = h.cpus in
    let there : get_elem? (replicate n cpu_start) k ≡ some c = rw⁻¹ cpus found in
    let inside = inside_of (replicate n cpu_start) k c there in
    let self = get_elem?-replicate n k cpu_start (omega (arith, length-replicate n cpu_start)) in
    ground (arith, there, self)

cpu_runs-Endless :
    (n : ℕ) (q : Sched) (fixed : Fixed) (s : System) (k : ℕ) (c : Cpu) (d : Device)
    (r : Round Sched)
    → Endless n q s
    → get_elem? s.cpus k ≡ some c
    → cpu_round mlq_scheduler fixed.machine s.all_loaded (cpu_state c s.sched) ≡ done r
    → r ≡ next_slot (cpu_state c s.sched)
cpu_runs-Endless n q fixed s k c d r h found round =
    let start = cpu_at n q s k c h found in
    let idle =
      ap (λ (x : Cpu). cpu_round mlq_scheduler fixed.machine s.all_loaded (cpu_state x s.sched))
        start
      ∙ (idle_round fixed.machine s.all_loaded s.sched
          ∙ sym (ap (λ (x : Cpu). done (next_slot (cpu_state x s.sched))) start)) in
    ground (arith, idle, round)

SystemStep-Endless :
    (n : ℕ) (q : Sched) (fixed : Fixed) (s u : System)
    → 0 < n
    → length q.mlq_ready ≡ max_prio
    → Endless n q s
    → SystemStep fixed s u
    → Endless n q u
SystemStep-Endless n q fixed s u some_cpu queues h (timer_runs t step) = record {
  going = timer_step-Going n s.timer t h.going step;
  cpus = h.cpus;
  sched = h.sched;
}
SystemStep-Endless n q fixed s u some_cpu queues h (slot_returns i d there waits released) =
    record {
      going =
          at_device-Going n s.timer i (slot_begins d) h.going (inr (λ fin. ground (arith, fin)));
      cpus = h.cpus;
      sched = h.sched;
    }
SystemStep-Endless n q fixed s u some_cpu queues h (cpu_runs k c d c' has there at_work round) =
    let same : c' ≡ cpu_state c s.sched =
      ground (arith, cpu_runs-Endless n q fixed s k c d (next_slot c') h has round) in
    let kept : set s.cpus k c ≡ s.cpus = set_same s.cpus k c has in
    record {
      going =
          at_device-Going n s.timer (suc k) (tell_done d) h.going
            (inr (λ fin. ground (arith, fin)));
      cpus =
          ap
            (λ (x : CpuState Sched).
              set s.cpus k (record { proc = x.proc; time_left = x.time_left }))
            same
          ∙ (kept ∙ h.cpus);
      sched = ap (λ (x : CpuState Sched). x.sched) same ∙ h.sched;
    }
SystemStep-Endless n q fixed s u some_cpu queues h (cpu_stops k c d q' has there at_work round) =
    absurd (ground (arith, cpu_runs-Endless n q fixed s k c d (stopped q') h has round))
SystemStep-Endless n q fixed s u some_cpu queues h (ld_runs d ld there at_work round) =
    let sched = h.sched in
    let all : length s.sched.mlq_ready ≡ max_prio = rw sched queues in
    record {
      going = at_device-Going n s.timer 0 (tell_done d) h.going (inl refl);
      cpus = h.cpus;
      sched = ld_round_keeps fixed.ld_args s.timer.time (ld_state s) (ld_slot ld) all round ∙ sched;
    }
SystemStep-Endless n q fixed s u some_cpu queues h (ld_finishes d q' there at_work round) =
    let sched = h.sched in
    let all : length s.sched.mlq_ready ≡ max_prio = rw sched queues in
    record {
      going = at_device-Going n s.timer 0 (detach_event d) h.going (inl refl);
      cpus = h.cpus;
      sched = ld_round_keeps fixed.ld_args s.timer.time (ld_state s) (ld_done q') all round ∙ sched;
    }
SystemStep-Endless n q fixed s u some_cpu queues h (main_joins all) =
    let (d, there) = get_elem?-some s.timer.dev_list 1 (omega (arith, h.going.devices)) in
    absurd (h.going.cpus_on 0 d there (all 1 d there))

pub reachable-Endless :
    (n : ℕ) (q : Sched) (fixed : Fixed) (s u : System)
    → 0 < n
    → length q.mlq_ready ≡ max_prio
    → Endless n q s
    → SystemReachable fixed s u
    → Endless n q u
reachable-Endless n q fixed s u some_cpu queues h booted = h
reachable-Endless n q fixed s u some_cpu queues h (later {t = t} before step) =
    SystemStep-Endless n q fixed t u some_cpu queues
      (reachable-Endless n q fixed s t some_cpu queues h before) step

pub Booted-Endless :
    (world : World) (config : Config) (fixed : Fixed) (s : System)
    → Booted world config fixed s
    → Endless (rounds config.num_cpus) s.sched s
Booted-Endless world config fixed s b = record {
  going = record {
    started = λ e. ground (arith, e, b.at_head);
    not_stopped = b.going;
    devices = b.devices;
    cpus_on = λ k d found fin. ground (arith, fin, b.at_work (suc k) d found);
  };
  cpus = b.cpus;
  sched = refl;
}

-- With at least one CPU the simulation never comes to its end: in every state that it can reach the
-- timer has neither ended nor been stopped, every CPU has no process, as at the start, and its
-- thread has not finished, and the scheduler's queues are as `init_scheduler` left them.
pub never_ends :
    (world : World) (config : Config) (fixed : Fixed) (s u : System)
    → boot world config ≡ done (fixed, s)
    → 0 < rounds config.num_cpus
    → SystemReachable fixed s u
    → (u.timer.place ≢ ended)
      × (u.timer.timer_stop ≡ false)
      × (u.cpus ≡ replicate (rounds config.num_cpus) cpu_start)
      × ((k : ℕ) (d : Device) → get_elem? u.timer.dev_list (suc k) ≡ some d → d.place ≢ finished)
      × (u.sched ≡ s.sched)
never_ends world config fixed s u h some_cpu reached =
    let b = boot-Booted world config fixed s h in
    let n : ℕ = rounds config.num_cpus in
    let now =
      reachable-Endless n s.sched fixed s u some_cpu b.queues
        (Booted-Endless world config fixed s b) reached in
    let timer = SystemReachable-Reachable world config fixed s u h reached in
    let (d, there) = get_elem?-some u.timer.dev_list 1 (omega (arith, now.going.devices)) in
    (
      λ at_end.
          now.going.cpus_on 0 d there
            (ended_finished u.timer 1 d timer at_end now.going.not_stopped there),
      now.going.not_stopped,
      now.cpus,
      now.going.cpus_on,
      now.sched,
    )
