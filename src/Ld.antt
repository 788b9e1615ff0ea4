-- ===== src/Ld.antt =====
-- `ld_routine` of src/os.c: the thread that loads the processes, a round between two calls of
-- `next_slot` at a time. `exit(1)`, which `load` may call, is the result `none`. The configuration
-- is read before, by `read_config`, and has an entry for each number below `num_processes`.
pub mod Schedule
pub mod Rounds
use assignment_os.Base.{
  ℕ, suc, ◌+◌, ◌%◌, ltb, if◌then◌else◌, Option, none, some, List, get_elem?, word, Run, done, ◌>>=◌,
}
use assignment_os.Memphy.{Memphy}
use assignment_os.Process.{Mm, Pcb}
use assignment_os.Vm.{init_mm}
use assignment_os.Stdio.{Bytes}
use assignment_os.Loader.{Malloc, load}
use assignment_os.Config.{Entry}
use assignment_os.Os.{Scheduler}

-- What `ld_routine` and the code it calls do not change: the files, what `malloc` finds for each
-- process, in its own memory, its `mm` and its page table, `ld_processes`, and the devices.
pub record LdArgs : Type 0 where
  pub disk : Bytes → Option Bytes
  pub malloc : ℕ → Malloc
  pub malloc_mm : ℕ → Mm
  pub malloc_pgd : ℕ → (ℕ → ℕ)
  pub ld_processes : List Entry
  pub mram : Memphy
  pub active_mswp : Memphy

-- The local variables, `proc` once it is loaded and waits for its start time, the static variable
-- `avail_pid` of src/loader.c, and the scheduler's state.
pub record Ld (S : Type 0) : Type 0 where
  pub i : ℕ
  pub proc : Option Pcb
  pub avail_pid : ℕ
  pub sched : S

-- How a round ends: with `next_slot`, or with `done = 1` and the thread.
pub data LdRound (S : Type 0) : Type 0 where
  ld_slot : Ld S → LdRound S
  ld_done : S → LdRound S

-- The process with its memory.
abbrev pub with_memory : LdArgs → (i : ℕ) → Pcb → Pcb
with_memory args i proc = record proc {
  mm = (init_mm (args.malloc_mm i) (args.malloc_pgd i)).0;
  mram = some args.mram;
  active_mswp = some args.active_mswp;
}

-- The state after an addition.
abbrev pub next_process : {S : Type 0} → Ld S → S → Ld S
next_process ld s = record ld { i = ld.i + 1; proc = none; sched = s }

module _ (scheduler : Scheduler) (args : LdArgs) where
  open scheduler use {State, add_proc}

  -- The inner loop up to its next wait, or the process' way into the scheduler.
  unfoldable pub add_or_wait : (time : ℕ) → Entry → Pcb → Ld State → Run (LdRound State)
  add_or_wait time entry proc ld =
      if ltb time entry.start_time then done (ld_slot (record ld { proc = some proc })) else (do
        s ← add_proc ld.sched (with_memory args ld.i proc)
        done (ld_slot (next_process ld s)))

  -- The process that was loaded.
  abbrev pub load_read :
      (time : ℕ) → Entry → Ld State → Option (Pcb × ℕ) → Run (Option (LdRound State))
  load_read time entry ld none = done none
  load_read time entry ld (some (proc, avail_pid)) = do
    r ←
        add_or_wait time entry (record proc { prio = entry.prio % word })
          (record ld { avail_pid = avail_pid })
    done (some r)

  -- The way from one `next_slot` to the next, at the time that the timer counts.
  unfoldable pub ld_round : (time : ℕ) → Ld State → Run (Option (LdRound State))
  ld_round time ld = elim (get_elem? args.ld_processes ld.i) [
    | none ↦ done (some (ld_done ld.sched))
    | some entry ↦ elim ld.proc [
      | some proc ↦ (do r ← add_or_wait time entry proc ld; done (some r))
      | none ↦ (do
        loaded ← load args.disk (args.malloc ld.i) ld.avail_pid entry.path
        load_read time entry ld loaded)
    ]
  ]

-- The thread as it starts.
abbrev pub ld_start : {S : Type 0} → S → Ld S
ld_start s = record { i = 0; proc = none; avail_pid = 1; sched = s }
