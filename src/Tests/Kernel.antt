-- ===== src/Tests/Kernel.antt =====
-- System calls, the CPU, the scheduler and the thread of a CPU.
use assignment_os.Base.{
  ℕ, ◌+◌, ◌-◌, get_elem?, ◌<◌, ◌≡◌, ◌⊎◌, refl, arith, true, false, Option, none, some, [], ◌∷◌,
  length, replicate, pos, success, failure, done,
}
use assignment_os.Process.{CodeSeg, calc, free, Inst, Pcb}
use assignment_os.Syscall.{ScRegs, Junk, syscall_tbl, listsyscall}
use assignment_os.Syscall.Laws.{listsyscall_lem}
use assignment_os.Stdio.{codes}
use assignment_os.Stdio.Numbers.{digits}
use assignment_os.Cpu.{run, execute}
use assignment_os.Cpu.Program.{run_step}
use assignment_os.Queue.{Queue}
use assignment_os.Sched.{Sched, max_prio, queue_empty, init_scheduler, get_proc}
use assignment_os.Sched.Laws.{HasProcess, IsEmptyAt, queue_empty_lem}
use assignment_os.Sched.Init.{init_scheduler-queue_empty}
use assignment_os.Os.{Scheduler, CpuState, stopped, Machine, cpu_round}
use assignment_os.Os.Idle.{cpu_round-stopped}
use assignment_os.Tests.Memory.{proc}

abbrev regs : ScRegs
regs = record { a1 = 1; a2 = 2; a3 = 3 }

abbrev pub junk : Junk
junk = record { byte = 0; region = record { rg_start = 0; rg_end = 0 } }

abbrev pub calc_inst : Inst
calc_inst = record { opcode = calc; arg_0 = 0; arg_1 = 0; arg_2 = 0; arg_3 = 0 }

abbrev pub free_inst : Inst
free_inst = record { opcode = free; arg_0 = 4; arg_1 = 0; arg_2 = 0; arg_3 = 0 }

abbrev program : CodeSeg
program = record { text = calc_inst ∷ free_inst ∷ calc_inst ∷ []; size = 3 }

-- A process of three instructions.
abbrev pub task : Pcb
task = record proc { code = program }

abbrev task_next : Pcb
task_next = record task { pc = 1 }

abbrev no_queue : Queue
no_queue = record { proc = []; size = 0 }

abbrev pub sched : Sched
sched = record {
  ready = no_queue;
  run = no_queue;
  running = no_queue;
  mlq_ready = replicate 140 no_queue;
  slot = replicate 140 0;
}

pub queues : length sched.mlq_ready ≡ max_prio
queues = refl

-- A scheduler that hands out the last process put, for the theorems on any scheduler.
abbrev one_process : Scheduler
one_process = record {
  State = Option Pcb;
  get_proc = λ s. (s, none);
  put_proc = λ s p. done (some p);
  add_proc = λ s p. done (some p);
}

abbrev pub machine : Machine
machine = record { table = syscall_tbl; junk = junk; time_slot = pos 2 }

task_runs : run syscall_tbl junk task ≡ done (success, task_next)
unfolding run execute
task_runs = refl

run_step_example :
    (task_next.pc ≡ task.pc + 1) × (task_next.code ≡ task.code) × (task_next.pid ≡ task.pid)
run_step_example =
    run_step syscall_tbl junk task task_next success (omega arith) (omega arith) task_runs

queue_empty_example :
    ((queue_empty sched ≡ done failure) × HasProcess sched 0)
    ⊎ ((queue_empty sched ≡ done (pos 1)) × ((j : ℕ) → j < max_prio → IsEmptyAt sched j))
queue_empty_example = queue_empty_lem sched queues

-- A CPU whose process has finished.
abbrev finished : CpuState (Option Pcb)
finished = record { proc = some (record task { pc = 3 }); time_left = pos 1; sched = none }

stops : cpu_round one_process machine true finished ≡ done (stopped none)
unfolding cpu_round
stops = refl

stopped_example :
    (true ≡ true) × (p : Pcb) × (finished.proc ≡ some p) × ((p.pc ≡ p.code.size) ⊎ (false ≡ true))
stopped_example = cpu_round-stopped one_process machine true finished none stops

-- From queues that say that they hold something, and slots that were never set.
abbrev used_sched : Sched
used_sched = record sched { mlq_ready = replicate 140 (record no_queue { size = 3 }) }

init_scheduler_example :
    (s' : Sched) × (init_scheduler used_sched ≡ done s')
    × (length s'.mlq_ready ≡ 140)
    × (queue_empty s' ≡ done (pos 1))
    × ((j : ℕ) → j < max_prio → get_elem? s'.slot j ≡ some (max_prio - j))
init_scheduler_example = init_scheduler-queue_empty used_sched refl refl

-- With the rows of src/syscall.tbl.
listsyscall_text :
    listsyscall syscall_tbl
    ≡ (success, codes "0-sys_listsyscall" ∷ codes "17-sys_memmap" ∷ codes "101-sys_killall" ∷ [])
unfolding digits
listsyscall_text = listsyscall_lem syscall_tbl
