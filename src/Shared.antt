-- ===== src/Shared.antt =====
-- Processes that share their devices, as src/os.c makes them do: `ld_routine` gives every process a
-- pointer to one RAM and one active swap device, and the CPUs `run` the processes in any order. A
-- turn is one call of `run`; what two CPUs do at the same time is taken to be two turns.
pub mod Orders
use assignment_os.Base.{ℕ, Option, none, some, List, [], ◌∷◌, get_elem?, set, Run, done, ◌>>=◌}
use assignment_os.Memphy.{Memphy}
use assignment_os.Process.{Pcb}
use assignment_os.Syscall.{SyscallTable, Junk}
use assignment_os.Cpu.{run}

-- `mram`, and the active one of `mswp`, of `main`.
pub record Devices : Type 0 where
  pub mram : Option Memphy
  pub active_mswp : Option Memphy

-- `proc->mram` and `proc->active_mswp` of `ld_routine`: the process with the shared devices.
abbrev pub lend : Devices → Pcb → Pcb
lend d p = record p { mram = d.mram; active_mswp = d.active_mswp }

-- The devices as a process that had them leaves them.
abbrev pub give_back : Pcb → Devices
give_back p = record { mram = p.mram; active_mswp = p.active_mswp }

-- The devices, and the processes, whose own copies of the devices count for nothing.
pub record Shared : Type 0 where
  pub devices : Devices
  pub procs : List Pcb

-- `run` of the process with number `i`, if there is one.
unfoldable pub turn : SyscallTable → Junk → Shared → (i : ℕ) → Run Shared
turn table junk s i = elim (get_elem? s.procs i) [
  | none ↦ done s
  | some p ↦ (do
    (code, p') ← run table junk (lend s.devices p)
    done (record { devices = give_back p'; procs = set s.procs i p' }))
]

-- Turns of these processes, one after the other.
unfoldable pub turns : SyscallTable → Junk → List ℕ → Shared → Run Shared
turns table junk [] s = done s
turns table junk (i ∷ order) s = do s' ← turn table junk s i; turns table junk order s'
