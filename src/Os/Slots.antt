-- ===== src/Os/Slots.antt =====
-- The time slots for which a CPU of src/os.c keeps a process, and what becomes of it then with the
-- scheduler of src/sched.c.
use assignment_os.Base.{
  ℕ, zero, suc, ◌+◌, ◌-◌, ◌<◌, ◌≤◌, ◌≡◌, refl, ap, ◌∙◌, arith, Bool, true, false, inl, inr,
  Bool-cases, none, some, List, [], ◌∷◌, length, ◌==◌, leb, if◌then◌else◌, pos, word, done, fault,
  ◌>>=◌, Run-cases,
}
use assignment_os.Process.{CodeSeg, Pcb}
use assignment_os.Syscall.{SyscallTable, Junk}
use assignment_os.Libmem.Ready.{Means, IsReady}
use assignment_os.Cpu.{run}
use assignment_os.Cpu.Program.{run_step, runs}
use assignment_os.Cpu.Legal.{is_legal_text, run-IsReady}
use assignment_os.Sched
use assignment_os.Sched.{Sched, max_prio}
use assignment_os.Sched.Laws.{put_proc_loses}
use assignment_os.Os.{
  Scheduler, mlq_scheduler, CpuState, next_slot, stopped, Machine, decrement, run_slot, recheck,
  cpu_round,
}
use assignment_os.Os.Idle.{cpu_rounds}

module _ (scheduler : Scheduler) (machine : Machine) where
  open scheduler use {State, get_proc, put_proc}

  -- A CPU that has process `p`, with `t` time slots left, and the scheduler in state `s`.
  abbrev pub running : Pcb → ℕ → State → CpuState State
  running p t s = record { proc = some p; time_left = pos t; sched = s }

  run_slot_lem :
      (p : Pcb) (t : ℕ) (s : State)
      → run_slot scheduler machine p (pos (suc t)) s
        ≡ (do (code, p') ← run machine.table machine.junk p; done (next_slot (running p' t s)))
  unfolding run_slot decrement
  run_slot_lem p t s = refl

  busy_round :
      (flag : Bool) (p : Pcb) (t : ℕ) (s : State)
      → p.pc < p.code.size
      → cpu_round scheduler machine flag (running p (suc t) s)
        ≡ run_slot scheduler machine p (pos (suc t)) s
  unfolding cpu_round recheck
  busy_round flag p t s h =
      let running_on : (p.pc == p.code.size) ≡ false = ground arith in rw running_on

  -- While a CPU has a process with time and instructions left, each of its rounds runs one
  -- instruction of the process, takes a slot off its time, and leaves the scheduler alone.
  busy_rounds :
      (flags : List Bool) (p : Pcb) (left t : ℕ) (s : State)
      → p.code.size < word
      → p.pc + length flags ≤ p.code.size
      → left ≡ length flags + t
      → cpu_rounds scheduler machine flags (running p left s) ≡ (do
        q ← runs machine.table machine.junk (length flags) p
        done (next_slot (running q t s)))
  busy_rounds [] p left t s fits enough e =
      ap (λ (n : ℕ). done (next_slot (running p n s))) (omega arith)
  busy_rounds (flag ∷ flags) p left t s fits enough e =
      let split : left ≡ suc (length flags + t) = omega arith in
      let start =
        busy_round flag p (length flags + t) s (omega arith)
        ∙ run_slot_lem p (length flags + t) s in
      rw (split, start)
        (elim (Run-cases (run machine.table machine.junk p)) [
          | inl undefined ↦ rw undefined
          | inr ((code, p'), ran) ↦
              let (at_next, same_code, _) =
                run_step machine.table machine.junk p p' code fits (omega arith) ran in
              let same_size : p'.code.size ≡ p.code.size = ap (λ (c : CodeSeg). c.size) same_code in
              rw ran (busy_rounds flags p' (length flags + t) t s (omega arith) (omega arith) refl)
        ])

-- A process that is ready, with a program that passes the test, runs as many instructions as it has
-- left, or fewer.
runs_on :
    (table : SyscallTable) (means : Means) (junk : Junk) (n : ℕ) (p : Pcb)
    → IsReady means p
    → p.code.size < word
    → p.code.size ≤ length p.code.text
    → is_legal_text table means p.code.text ≡ true
    → p.pc + n ≤ p.code.size
    → (q : Pcb) × (runs table junk n p ≡ done q) × (q.pc ≡ p.pc + n) × (q.code ≡ p.code)
runs_on table means junk zero p ready fits there ok h = (p, refl, omega arith, refl)
runs_on table means junk (suc n) p ready fits there ok h =
    let (code, p', ran, ready') = run-IsReady table means junk p ready there ok in
    let (next, same, _) = run_step table junk p p' code fits (omega arith) ran in
    let (q, finished, at, still) =
      runs_on table means junk n p' ready' (rw same fits) (rw same there) (rw same ok)
        (rw (next, same) (omega arith)) in
    (q, rw ran finished, omega (arith, at, next), still ∙ same)

-- A round of a CPU whose process has no time left.
time_up :
    (machine : Machine) (flag : Bool) (q : Pcb) (s : Sched)
    → length s.mlq_ready ≡ max_prio
    → q.pc < q.code.size
    → cpu_round mlq_scheduler machine flag (running mlq_scheduler machine q 0 s) ≡ (
        if leb q.prio max_prio
        then done (
            if flag
            then stopped s
            else next_slot (record { proc = none; time_left = pos 0; sched = s }))
        else fault)
unfolding cpu_round recheck Sched.get_proc
time_up machine flag q s queues h =
    let running_on : (q.pc == q.code.size) ≡ false = ground arith in
    let put = (put_proc_loses s q queues).1 in
    elim (Bool-cases (leb q.prio max_prio)) [
      | inl inside ↦ rw (running_on, put, inside)
      | inr outside ↦ rw (running_on, put, outside)
    ]

-- A CPU that has a process which has what it needs, with a program that passes the test and more
-- instructions left than the CPU has time left for it: in as many rounds as there is time, whatever
-- the loader does meanwhile, it runs as many instructions of the process, all of which return, and
-- no time is left. In the next round it gives the process to `put_proc`, which is undefined for a
-- priority above MAX_PRIO and otherwise loses it: the CPU is left without a process, and its thread
-- ends if the loader has finished.
pub slot_used_up :
    (machine : Machine) (means : Means) (flags : List Bool) (flag : Bool) (p : Pcb) (s : Sched)
    → length s.mlq_ready ≡ max_prio
    → IsReady means p
    → p.code.size < word
    → p.code.size ≤ length p.code.text
    → is_legal_text machine.table means p.code.text ≡ true
    → p.pc + length flags < p.code.size
    → (q : Pcb) × (cpu_rounds mlq_scheduler machine flags
          (running mlq_scheduler machine p (length flags) s)
        ≡ done (next_slot (running mlq_scheduler machine q 0 s)))
      × (q.pc ≡ p.pc + length flags)
      × (q.code ≡ p.code)
      × (cpu_round mlq_scheduler machine flag (running mlq_scheduler machine q 0 s) ≡ (
          if leb q.prio max_prio
          then done (
              if flag
              then stopped s
              else next_slot (record { proc = none; time_left = pos 0; sched = s }))
          else fault))
slot_used_up machine means flags flag p s queues ready fits there ok h =
    let (q, ran, at, same) =
      runs_on machine.table means machine.junk (length flags) p ready fits there ok (omega arith) in
    let size : q.code.size ≡ p.code.size = ap (λ (c : CodeSeg). c.size) same in
    let busy =
      busy_rounds mlq_scheduler machine flags p (length flags) 0 s fits (omega arith)
        (omega arith) in
    (q, busy ∙ rw ran, at, same, time_up machine flag q s queues (omega arith))

-- A round of a CPU whose process is at its end.
finished_round :
    (machine : Machine) (flag : Bool) (q : Pcb) (t : ℕ) (s : Sched)
    → q.pc ≡ q.code.size
    → cpu_round mlq_scheduler machine flag (running mlq_scheduler machine q t s)
      ≡ done (
          if flag
          then stopped s
          else next_slot (record { proc = none; time_left = pos 0; sched = s }))
unfolding cpu_round recheck Sched.get_proc
finished_round machine flag q t s h =
    let at_end : (q.pc == q.code.size) ≡ true = ground arith in rw at_end

-- A CPU that has a process which has what it needs, with a program that passes the test and at least
-- as much time left for it as the process has instructions left: in as many rounds as instructions
-- are left, whatever the loader does meanwhile, it runs them all and the process comes to the end of
-- its program. In the next round the CPU is left without a process, and its thread ends if the
-- loader has finished.
pub finishes_in_time :
    (machine : Machine) (means : Means) (flags : List Bool) (flag : Bool) (p : Pcb) (left : ℕ)
    (s : Sched)
    → IsReady means p
    → p.code.size < word
    → p.code.size ≤ length p.code.text
    → is_legal_text machine.table means p.code.text ≡ true
    → p.pc + length flags ≡ p.code.size
    → length flags ≤ left
    → (q : Pcb) × (cpu_rounds mlq_scheduler machine flags (running mlq_scheduler machine p left s)
        ≡ done (next_slot (running mlq_scheduler machine q (left - length flags) s)))
      × (q.pc ≡ p.code.size)
      × (q.code ≡ p.code)
      × (cpu_round mlq_scheduler machine flag
            (running mlq_scheduler machine q (left - length flags) s)
          ≡ done (
              if flag
              then stopped s
              else next_slot (record { proc = none; time_left = pos 0; sched = s })))
finishes_in_time machine means flags flag p left s ready fits there ok h enough =
    let (q, ran, at, same) =
      runs_on machine.table means machine.junk (length flags) p ready fits there ok (omega arith) in
    let size : q.code.size ≡ p.code.size = ap (λ (c : CodeSeg). c.size) same in
    let busy =
      busy_rounds mlq_scheduler machine flags p left (left - length flags) s fits (omega arith)
        (omega arith) in
    (
      q,
      busy ∙ rw ran,
      at ∙ h,
      same,
      finished_round machine flag q (left - length flags) s (omega (arith, at, size)),
    )
