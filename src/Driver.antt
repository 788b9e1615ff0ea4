-- ===== src/Driver.antt =====
-- src/paging.c: a driver that runs two processes of one program in turn, and dumps the memory. The
-- code that `run` returns is dropped, as there.
pub mod Turns
pub mod Ends
use assignment_os.Base.{ℕ, zero, suc, Option, none, some, List, Run, done, fault, ◌>>=◌}
use assignment_os.Process.{Pcb}
use assignment_os.Syscall.{SyscallTable, Junk}
use assignment_os.Cpu.{run}
use assignment_os.Stdio.{Bytes, codes}
use assignment_os.Loader.{Malloc, load}
use assignment_os.Mem.Ram.{MemState, DumpRow, dump}

-- The loop of `main`: the program's length is that of `proc`.
unfoldable pub driver_loop : SyscallTable → Junk → (left : ℕ) → (proc ld : Pcb) → Run (Pcb × Pcb)
driver_loop table junk zero proc ld = done (proc, ld)
driver_loop table junk (suc left) proc ld = do
  (code, proc') ← run table junk proc
  (code', ld') ← run table junk ld
  driver_loop table junk left proc' ld'

-- What the two calls of `malloc` for processes find.
pub record Drive : Type 0 where
  pub disk : Bytes → Option Bytes
  pub malloc_ld : Malloc
  pub malloc_proc : Malloc
  pub table : SyscallTable
  pub junk : Junk

-- How `main` ends: what is dumped, and the two processes as they are then.
pub record Driven : Type 0 where
  pub rows : List DumpRow
  pub proc : Pcb
  pub ld : Pcb

-- The loop and the dump.
abbrev pub drive : Drive → MemState → (ld proc : Pcb) → Run (Option Driven)
drive d m ld proc = do
  (proc', ld') ← driver_loop d.table d.junk proc.code.size proc ld
  rows ← dump m
  done (some (record { rows = rows; proc = proc'; ld = ld' }))

-- `main` on the memory `m`, or `none` where `load` calls `exit`.
unfoldable pub driver_main : Drive → MemState → Run (Option Driven)
driver_main d m = do
  first ← load d.disk d.malloc_ld 1 (codes "input/p0")
  elim first [
    | none ↦ done none
    | some (ld, avail_pid) ↦ (do
      second ← load d.disk d.malloc_proc avail_pid (codes "input/p0")
      elim second [ none ↦ done none | some (proc, next) ↦ drive d m ld proc ])
  ]
