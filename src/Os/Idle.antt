-- ===== src/Os/Idle.antt =====
-- When the thread of a CPU stops, and when it never does.
use assignment_os.Base.{
  ◌≡◌, refl, arith, Bool-cases, Option-cases, inl, inr, ◌⊎◌, Bool, true, Option, none, some, List,
  [], ◌∷◌, ◌==◌, ℤ, pos, Run, done, ◌>>=◌, Run-cases,
}
use assignment_os.Process.{Pcb}
use assignment_os.Vm.{is_zero}
use assignment_os.Sched
use assignment_os.Sched.{Sched}
use assignment_os.Os.{
  Scheduler, mlq_scheduler, CpuState, Round, next_slot, stopped, Machine, run_slot, recheck,
  cpu_round,
}

-- `cpu_routine` for as many rounds as flags are given, unless it stops before.
abbrev pub cpu_rounds :
    (scheduler : Scheduler)
    → Machine
    → List Bool
    → CpuState (Scheduler.State scheduler)
    → Run (Round (Scheduler.State scheduler))
cpu_rounds scheduler machine [] cpu = done (next_slot cpu)
cpu_rounds scheduler machine (flag ∷ flags) cpu = do
  r ← cpu_round scheduler machine flag cpu
  elim r [ next_slot cpu' ↦ cpu_rounds scheduler machine flags cpu' | stopped s ↦ done (stopped s) ]

-- With the scheduler of src/sched.c a CPU never gets a process and never stops: after any number of
-- rounds it is in the state in which it started, whenever the loader finishes.
cpu_rounds-mlq_scheduler :
    (machine : Machine) (flags : List Bool) (s : Sched)
    → let start : CpuState Sched = record { proc = none; time_left = pos 0; sched = s } in
      cpu_rounds mlq_scheduler machine flags start ≡ done (next_slot start)
unfolding cpu_round Sched.get_proc
cpu_rounds-mlq_scheduler machine [] s = refl
cpu_rounds-mlq_scheduler machine (flag ∷ flags) s = cpu_rounds-mlq_scheduler machine flags s

module _ (scheduler : Scheduler) (machine : Machine) where
  open scheduler use {State, get_proc, put_proc}

  recheck_stops :
      (all_loaded : Bool) (found : Option Pcb) (time_left : ℤ) (s s' : State)
      → recheck scheduler machine all_loaded found time_left s ≡ done (stopped s')
      → (all_loaded ≡ true) × (found ≡ none)
  unfolding recheck run_slot
  recheck_stops all_loaded none time_left s s' h = ground arith
  recheck_stops all_loaded (some proc) time_left s s' h = absurd (ground arith)

  -- A CPU thread stops in a round only if the loader is done and the CPU had a process, which has
  -- finished or used up its time. A CPU that had no process goes on, loader done or not.
  pub cpu_round-stopped :
      (all_loaded : Bool) (cpu : CpuState State) (s : State)
      → cpu_round scheduler machine all_loaded cpu ≡ done (stopped s)
      → (all_loaded ≡ true)
        × (proc : Pcb) × (cpu.proc ≡ some proc)
        × ((proc.pc ≡ proc.code.size) ⊎ (is_zero cpu.time_left ≡ true))
  unfolding cpu_round
  cpu_round-stopped all_loaded cpu s h = elim (Option-cases cpu.proc) [
    | inl idle ↦ elim (Option-cases (get_proc cpu.sched).0) [
      | inl lost ↦ absurd (ground arith)
      | inr (p, found) ↦
          absurd (
            ground
              (arith, recheck_stops all_loaded (some p) cpu.time_left (get_proc cpu.sched).1 s))
    ]
    | inr (proc, busy) ↦ elim (Bool-cases (proc.pc == proc.code.size)) [
      | inl finished ↦
          ground (
            arith,
            recheck_stops all_loaded (get_proc cpu.sched).0 (pos 0) (get_proc cpu.sched).1 s,
          )
      | inr running ↦ elim (Bool-cases (is_zero cpu.time_left)) [
        | inl spent ↦ elim (Run-cases (put_proc cpu.sched proc)) [
          | inl lost ↦ absurd (ground arith)
          | inr (s1, kept) ↦
              ground
                (arith, recheck_stops all_loaded (get_proc s1).0 cpu.time_left (get_proc s1).1 s)
        ]
        | inr left ↦
            absurd (ground (arith, recheck_stops all_loaded (some proc) cpu.time_left cpu.sched s))
      ]
    ]
  ]
