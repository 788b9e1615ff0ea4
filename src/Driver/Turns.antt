-- ===== src/Driver/Turns.antt =====
-- Two processes that are run in turn by src/paging.c.
use assignment_os.Base.{ℕ, zero, suc, ◌≡◌, refl, inl, inr, done, ◌>>=◌, Run-cases}
use assignment_os.Process.{Pcb}
use assignment_os.Syscall.{SyscallTable, Junk}
use assignment_os.Cpu.{run}
use assignment_os.Cpu.Program.{runs}
use assignment_os.Driver.{driver_loop}

-- The two processes do not meet: running them in turn, for any number of instructions, comes to the
-- same as running the first for as many instructions and then the second, undefined behaviour
-- included.
pub driver_loop-runs :
    (table : SyscallTable) (junk : Junk) (left : ℕ) (proc ld : Pcb)
    → driver_loop table junk left proc ld
      ≡ (do proc' ← runs table junk left proc; ld' ← runs table junk left ld; done (proc', ld'))
unfolding driver_loop
driver_loop-runs table junk zero proc ld = refl
driver_loop-runs table junk (suc left) proc ld = elim (Run-cases (run table junk proc)) [
  | inl bad ↦ rw bad
  | inr ((code, proc'), first) ↦ elim (Run-cases (run table junk ld)) [
    | inl bad ↦ elim (Run-cases (runs table junk left proc')) [
      | inl lost ↦ rw (first, bad, lost)
      | inr (p, ran) ↦ rw (first, bad, ran)
    ]
    | inr ((code', ld'), second) ↦ rw (first, second) (driver_loop-runs table junk left proc' ld')
  ]
]
