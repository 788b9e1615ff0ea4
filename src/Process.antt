-- ===== src/Process.antt =====
-- The structures of include/common.h and include/os-mm.h. A linked list is the chain that its first
-- pointer reaches; other pointers that are always valid are the values they point to. Not kept:
-- `path`, `mswp` and `active_mswp_id`, which nothing reads, and the contents of the legacy
-- translation tables, which nothing fills in.
use assignment_os.Base.{ℕ, Option, List, Chain, ◌≡◌, refl, ◌∙◌}
use assignment_os.Memphy.{Memphy}

-- `struct vm_rg_struct`, its link left to the chain it is in.
pub record VmRg : Type 0 where
  pub rg_start : ℕ
  pub rg_end : ℕ

-- `struct vm_area_struct`, its link left to the chain it is in.
pub record VmArea : Type 0 where
  pub vm_id : ℕ
  pub vm_start : ℕ
  pub vm_end : ℕ
  pub sbrk : ℕ
  pub vm_freerg_list : Chain VmRg

-- `struct mm_struct`. `pgd` is the page table by page number.
pub record Mm : Type 0 where
  pub pgd : ℕ → ℕ
  pub mmap : Chain VmArea
  pub symrgtbl : List VmRg
  pub fifo_pgn : Chain ℕ

-- `enum ins_opcode_t`
pub data Opcode : Type 0 where
  calc alloc free read write syscall : Opcode

-- `struct inst_t`
pub record Inst : Type 0 where
  pub opcode : Opcode
  pub arg_0 : ℕ
  pub arg_1 : ℕ
  pub arg_2 : ℕ
  pub arg_3 : ℕ

-- `struct code_seg_t`
pub record CodeSeg : Type 0 where
  pub text : List Inst
  pub size : ℕ

-- The queues of src/sched.c that a process may point to.
pub data QueueRef : Type 0 where
  ready_queue running_list mlq_ready_queue : QueueRef

-- `struct pcb_t`
pub record Pcb : Type 0 where
  pub pid : ℕ
  pub priority : ℕ
  pub code : CodeSeg
  pub regs : List ℕ
  pub pc : ℕ
  pub ready_queue : Option QueueRef
  pub running_list : Option QueueRef
  pub mlq_ready_queue : Option QueueRef
  pub prio : ℕ
  pub mm : Mm
  pub mram : Option Memphy
  pub active_mswp : Option Memphy
  pub page_table_size : ℕ
  pub bp : ℕ

-- `symrgtbl` has PAGING_MAX_SYMTBL_SZ entries.
abbrev pub paging_max_symtbl_sz : ℕ
paging_max_symtbl_sz = 30

-- The second process stands at the same point of the same program.
pub record SameProgram (p q : Pcb) : Type 0 where
  pub pc : q.pc ≡ p.pc
  pub code : q.code ≡ p.code
  pub pid : q.pid ≡ p.pid

SameProgram-refl : (p : Pcb) → SameProgram p p
SameProgram-refl p = record { pc = refl; code = refl; pid = refl }

SameProgram-trans : {p q r : Pcb} → SameProgram p q → SameProgram q r → SameProgram p r
SameProgram-trans a b = record { pc = b.pc ∙ a.pc; code = b.code ∙ a.code; pid = b.pid ∙ a.pid }
