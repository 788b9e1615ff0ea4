-- ===== src/Lib.antt =====
-- AssignmentOS: a small operating system that is simulated by threads. Processes are lists of
-- instructions; CPU threads take them from a scheduler and run them; each process has a paged
-- memory over simulated devices for RAM and swap; system calls reach the memory devices.
--
-- The modules and the code they model (paths from the repository's root):
--   Base      shared names: lists, integers, results, chains of pointers
--   Bits      binary digits of a number, the specification of every mask and shift
--   Bitops    include/bitops.h: BIT, GENMASK, NBITS, EXTRACT_NBITS
--   Paging    include/mm.h: page sizes, masks and fields of addresses and page table entries
--   Pte       src/mm.c: init_pte, pte_set_swap, pte_set_fpn
--   Memphy    src/mm-memphy.c: the devices (MEMPHY_read and so on are `read` and so on), and
--             `swap_cp_page`, which is __swap_cp_page of src/mm.c
--   Process   include/common.h and include/os-mm.h: the structures
--   Vm        src/mm-vm.c and the mapping part of src/mm.c
--   Libmem    src/libmem.c: `alloc_region`, `free_region`, `read_region` and `write_region` are
--             __alloc, __free, __read and __write; the others keep their names
--   Syscall   src/syscall.c, src/libstd.c, src/sys_mem.c, src/sys_killall.c,
--             src/sys_listsyscall.c, and the rows of src/syscall.tbl
--   Cpu       src/cpu.c: `run`
--   Queue     src/queue.c
--   Sched     src/sched.c with MLQ_SCHED, and in Sched/Plain the branch without it
--   Timer     src/timer.c: the timer thread and the devices that wait for it, as a step relation
--   Os        src/os.c: the rounds of cpu_routine, over an interface for the scheduler
--   Stdio     what src/loader.c and src/os.c use of C's input functions, on lists of bytes
--   Loader    src/loader.c: `load` and what it reads
--   Config    src/os.c: read_config
--   Ld        src/os.c: the rounds of ld_routine, over the same interface
--   System    src/os.c: main, and the steps of all its threads together
--   Listing   src/mm.c: print_list_fp, print_list_rg, print_list_vma, print_list_pgn
--   Mem       src/mem.c, and alloc, free_data, read and write of src/cpu.c, for builds without
--             MM_PAGING
--   Driver    src/paging.c: two processes run in turn, and a dump of the memory
--   Shared    processes that share the devices, as src/os.c makes them do: `run` in any order
--   Tests     the theorems at concrete inputs
--
-- How they interact: a round of a CPU (Os) asks the scheduler (Sched) for a process and calls `run`
-- (Cpu), which hands memory instructions to Libmem and system calls to Syscall; both work on the
-- page table and lists of the process (Vm, Pte, Paging) and on its devices (Memphy). Between two
-- rounds a CPU waits for the next time slot (Timer). The loader's thread (Ld) loads the processes
-- of the configuration (Config) from their files (Loader, Stdio), gives them memory (Vm) and adds
-- them to the scheduler when their time has come. System boots all of these as main does, and steps
-- them: a round of a thread between two calls of next_slot is one step.
--
-- State is passed explicitly: an operation takes the device, process or scheduler and returns it
-- changed. A `Run` is `done` with a result or `fault`, which stands for behaviour that C leaves
-- undefined: an access outside an array, through a null or dangling pointer, an overflow of an
-- `int`. Error codes are values: `success` is 0 and `failure` is -1. A linked list is a `Chain`,
-- which ends in `null` or in `wild`, a pointer that was never initialised or was freed. Numbers are
-- natural numbers; `uint32_t` keeps its remainder modulo 2 ^ 32 and `int` is an integer with the
-- conversions of the build's compiler written out. The time that the timer counts, a `uint64_t`, is
-- a natural number: what is said of it holds for the first 2 ^ 64 slots, before the counter wraps.
--
-- The devices are shared by all processes of the program. In most modules a process holds the
-- devices that it reaches, and the theorems about memory are about one process at a time; Shared
-- keeps the devices apart from the processes and lends them to the one that runs.
--
-- Libmem/Ready says what a process needs (`IsReady`): its memory structure in order, and devices of
-- given sizes. Cpu/Legal has a test of programs for a process with that (`is_legal_text`): it refuses
-- what may be undefined, such as region 30, killall, or an address outside the RAM. The
-- modules named Total are about the calls that pass it. `init_mm` does not set up a memory structure
-- that is in order, so programs with memory instructions pass only for a process whose memory was
-- set up in another way; CALC, FREE and calls of a number that is not in the table pass for any
-- process. The queues of src/sched.c drop every process, so in the simulation no process reaches a
-- CPU: what Shared, Cpu and Os/Slots say of a process that runs is said of the code of these
-- functions, whatever hands them the process.
--
-- A file is the list of its bytes, and the disk a function from paths to files. The input functions
-- of the C library are not part of the repository: Stdio writes down the conversions that the code
-- uses as the GNU C library documents them. What malloc finds in fresh memory is an argument, since
-- the code reads some of it. A call of exit is a result of its own.
--
-- Loops count down the rounds that are left. Only the loop of MEMPHY_mv_csr has fuel: `maxsz + 1`,
-- one round more than it can make. That of __sys_killall has the room left in its buffer, past which
-- the behaviour is undefined. The loader's thread is run for a number of rounds, and the end time of
-- its configuration says how many are enough.
--
-- Not modelled: the parts of src/os.c for builds without MM_PAGING, or with MM_FIXED_MEMSZ, which
-- include/os-cfg.h rules out; printed text, but for the rows of dump, of listsyscall and of the
-- printers of tables and lists; allocation failure; the memory accesses of two CPUs within one
-- instruction, which are taken to follow one another. The table that the build generates from
-- src/syscall.tbl is an argument of the system calls. A lock makes the operation that it guards one
-- step.
pub mod Base
pub mod Bits
pub mod Bitops
pub mod Paging
pub mod Pte
pub mod Memphy
pub mod Process
pub mod Vm
pub mod Libmem
pub mod Syscall
pub mod Cpu
pub mod Queue
pub mod Sched
pub mod Timer
pub mod Os
pub mod Stdio
pub mod Loader
pub mod Config
pub mod Ld
pub mod System
pub mod Listing
pub mod Mem
pub mod Driver
pub mod Shared
pub mod Tests
