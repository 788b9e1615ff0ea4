-- ===== src/Os.antt =====
-- `cpu_routine` of src/os.c: the thread of one CPU, a round of its loop at a time. The scheduler is
-- an interface, of which src/sched.c is one implementation; the flag `done`, which the loader
-- thread sets, is an argument of each round. What is printed is left out.
pub mod Slots
pub mod Idle
use assignment_os.Base.{
  ℕ, zero, suc, ◌+◌, ◌-◌, ◌^◌, Bool, Option, none, some, ◌==◌, ltb, if◌then◌else◌, ℤ, pos, negsuc,
  Run, done, fault, ◌>>=◌,
}
use assignment_os.Process.{Pcb}
use assignment_os.Vm.{is_zero}
use assignment_os.Syscall.{SyscallTable, Junk}
use assignment_os.Cpu.{run}
use assignment_os.Sched
use assignment_os.Sched.{Sched}

-- `get_proc`, `put_proc` and `add_proc`, over the state they keep.
pub record Scheduler : Type 1 where
  pub State : Type 0
  pub get_proc : State → Option Pcb × State
  pub put_proc : State → Pcb → Run State
  pub add_proc : State → Pcb → Run State

-- The scheduler of src/sched.c.
abbrev pub mlq_scheduler : Scheduler
mlq_scheduler = record {
  State = Sched;
  get_proc = Sched.get_proc;
  put_proc = λ s proc. (do (proc', s') ← Sched.put_proc s proc; done s');
  add_proc = λ s proc. (do (proc', s') ← Sched.add_proc s proc; done s');
}

-- `time_left--`, whose overflow is undefined.
unfoldable pub decrement : ℤ → Run ℤ
decrement (pos zero) = done (negsuc 0)
decrement (pos (suc n)) = done (pos n)
decrement (negsuc n) = if ltb n (2 ^ 31 - 1) then done (negsuc (n + 1)) else fault

-- The local variables of `cpu_routine`, and the scheduler's state.
pub record CpuState (S : Type 0) : Type 0 where
  pub proc : Option Pcb
  pub time_left : ℤ
  pub sched : S

-- How a round ends: with `next_slot` and the next round, or with the thread.
pub data Round (S : Type 0) : Type 0 where
  next_slot : CpuState S → Round S
  stopped : S → Round S

-- What `cpu_routine` and the code it calls do not change.
pub record Machine : Type 0 where
  pub table : SyscallTable
  pub junk : Junk
  pub time_slot : ℤ

module _ (scheduler : Scheduler) (machine : Machine) where
  open scheduler use {State, get_proc, put_proc}

  -- One instruction of the process, and the end of the slot.
  unfoldable pub run_slot : Pcb → ℤ → State → Run (Round State)
  run_slot proc time_left s = do
    (code, proc') ← run machine.table machine.junk proc
    time_left' ← decrement time_left
    done (next_slot (record { proc = some proc'; time_left = time_left'; sched = s }))

  -- The second half of the loop's body: `Recheck process status after loading new process`.
  unfoldable pub recheck : (all_loaded : Bool) → Option Pcb → ℤ → State → Run (Round State)
  recheck all_loaded none time_left s = done (
      if all_loaded
      then stopped s
      else next_slot (record { proc = none; time_left = time_left; sched = s }))
  recheck all_loaded (some proc) time_left s =
      run_slot proc (if is_zero time_left then machine.time_slot else time_left) s

  -- The loop's body with no process at hand.
  unfoldable pub round_idle : (all_loaded : Bool) → Option Pcb → ℤ → State → Run (Round State)
  round_idle all_loaded none time_left s =
      done (next_slot (record { proc = none; time_left = time_left; sched = s }))
  round_idle all_loaded (some proc) time_left s = recheck all_loaded (some proc) time_left s

  -- The loop's body.
  unfoldable pub cpu_round : (all_loaded : Bool) → CpuState State → Run (Round State)
  unfolding recheck round_idle
  cpu_round all_loaded cpu = elim cpu.proc [
    | none ↦ let (proc, s) = get_proc cpu.sched in round_idle all_loaded proc cpu.time_left s
    | some proc ↦
        if proc.pc == proc.code.size
        then (let (proc', s) = get_proc cpu.sched in recheck all_loaded proc' (pos 0) s)
        else if is_zero cpu.time_left
        then (do
          s ← put_proc cpu.sched proc
          recheck all_loaded (get_proc s).0 cpu.time_left (get_proc s).1)
        else recheck all_loaded (some proc) cpu.time_left cpu.sched
  ]
