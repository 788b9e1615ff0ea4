-- ===== src/Tests/Memory.antt =====
-- The memory of a process: areas, regions, the page table and the FIFO of pages.
use assignment_os.Mem.Ram.{num_pages, ram_size, PageStat, MemState, clear, DumpRow, byte_row, dump}
use assignment_os.Mem.Dump.{pages_of, used, RowOk, IsVisible, Shown, length-clear, dump_lem}
use assignment_os.Base.{
  ℕ, ◌∙◌, List, set, length-set, failure, ◌≡◌, ◌⊎◌, refl, arith, ◌==◌, if◌then◌else◌, true, none,
  some, [], ◌∷◌, All, length, replicate, pos, success, done, fault, Chain, null, wild, node,
  chain_of,
}
use assignment_os.Bits.{bit}
use assignment_os.Paging.{
  paging_max_pgn, paging_pgn, paging_page_present, paging_fpn, paging_pte_swp,
}
use assignment_os.Paging.Laws.{paging_page_present-bit}
use assignment_os.Pte.{pte_set_fpn, pte_set_swap}
use assignment_os.Memphy.{Memphy}
use assignment_os.Process.{VmRg, VmArea, Mm, Pcb}
use assignment_os.Vm.{get_vma_by_num, init_mm, inc_vma_limit}
use assignment_os.Vm.Areas.{NumberedBelow, FirstFrom, get_vma_by_num-FirstFrom}
use assignment_os.Vm.Mapping.{inc_vma_limit_lem}
use assignment_os.Libmem.{liballoc, libread, libwrite, pg_getpage, free_pcb_memph}
use assignment_os.Libmem.Alloc.{assign, liballoc_lem, init_mm_unusable}
use assignment_os.Libmem.Access.{accesses, with_lists, pg_getpage-pte_set_fpn, accesses_absent}
use assignment_os.Libmem.Release.{collected, absent, with_devices, free_pcb_memph_lem}

abbrev region : VmRg
region = record { rg_start = 0; rg_end = 256 }

abbrev area : VmArea
area = record {
  vm_id = 0;
  vm_start = 0;
  vm_end = 512;
  sbrk = 512;
  vm_freerg_list = node region null;
}

abbrev pub mm : Mm
mm = record {
  pgd = λ pgn. if pgn == 1 then pte_set_fpn 0 9 else if pgn == 2 then pte_set_swap 0 1 3 else 0;
  mmap = node area null;
  symrgtbl = replicate 30 (record { rg_start = 0; rg_end = 0 });
  fifo_pgn = node 6 null;
}

-- A device with two free frames.
abbrev pub device : Memphy
device = record {
  storage = replicate 1024 0;
  maxsz = 1024;
  rdmflg = true;
  cursor = 0;
  free_fp_list = node 4 (node 5 null);
}

-- A device with none.
abbrev full : Memphy
full = record device { free_fp_list = null }

abbrev pub proc : Pcb
proc = record {
  pid = 1;
  priority = 2;
  code = record { text = []; size = 0 };
  regs = replicate 10 0;
  pc = 0;
  ready_queue = none;
  running_list = none;
  mlq_ready_queue = none;
  prio = 3;
  mm = mm;
  mram = some full;
  active_mswp = some device;
  page_table_size = 0;
  bp = 256;
}

-- The same with area list `areas`.
abbrev with_areas : Chain VmArea → Pcb
with_areas areas = record proc { mm = record mm { mmap = areas } }

table_length : length mm.symrgtbl ≡ 30
table_length = refl

get_vma_example :
    FirstFrom (pos 0) (node area null) (get_vma_by_num mm (pos 0))
    ⊎ ((get_vma_by_num mm (pos 0) ≡ fault) × All (NumberedBelow (pos 0)) (area ∷ []))
get_vma_example = get_vma_by_num-FirstFrom mm (pos 0) (λ e. ground (arith, e))

inc_vma_example :
    inc_vma_limit region proc (pos 0) (pos 300)
    ≡ done
        (success, record proc { mm = record mm { fifo_pgn = node (paging_pgn 512) (node 6 null) } })
inc_vma_example =
    inc_vma_limit_lem region proc full area null 300 refl refl (omega arith) (omega arith)
      (omega arith)

liballoc_example : liballoc proc 100 4 ≡ done (success, assign proc 4)
liballoc_example =
    liballoc_lem proc area null 100 4 refl (omega arith) (omega (arith, table_length)) (omega arith)

abbrev started : Pcb
started = record proc { mm = (init_mm (record mm { mmap = wild }) (λ pgn. 0)).0 }

init_mm_example :
    (liballoc started 1 2 ≡ fault)
    × (libread started 1 2 ≡ fault)
    × (libwrite started 3 1 2 ≡ fault)
init_mm_example = init_mm_unusable started (record mm { mmap = wild }) (λ pgn. 0) 1 2 3 refl refl

pg_getpage_example : pg_getpage proc 1 ≡ done (success, 9, proc)
unfolding paging_max_pgn
pg_getpage_example = pg_getpage-pte_set_fpn proc 1 0 9 (omega arith) (omega arith) refl

accesses_example :
    accesses 2 (with_lists proc device (node 6 null) (4 ∷ 5 ∷ [])) 0
    ≡ done (with_lists proc device (node 0 wild) [])
unfolding paging_max_pgn bit
accesses_example =
    accesses_absent 1 0 6 proc device null (4 ∷ 5 ∷ []) (omega arith)
      (ground (arith, paging_page_present-bit 0))

free_pcb_example :
    free_pcb_memph (with_devices proc full device null (node 4 null))
    ≡ done (
      success,
      with_devices proc full device
          (chain_of (collected absent paging_fpn mm.pgd paging_max_pgn) null)
          (chain_of
            (collected paging_page_present paging_pte_swp mm.pgd paging_max_pgn)
            (node 4 null)),
    )
free_pcb_example = free_pcb_memph_lem proc full device null (node 4 null)

-- The memory after `init_mem`, but for a page that a process uses and a byte in it.
abbrev cleared : MemState
cleared = clear ram_size num_pages (record { ram = []; mem_stat = [] })

abbrev used_page : PageStat
used_page = record { proc = 7; index = pos 0; next = failure }

abbrev pub one_page : MemState
one_page = record cleared {
  mem_stat = set cleared.mem_stat 3 used_page;
  ram = set cleared.ram 3074 65;
}

pub one_page_stats : length one_page.mem_stat ≡ num_pages
one_page_stats =
    length-set cleared.mem_stat 3 used_page
    ∙ (length-clear ram_size num_pages (record { ram = []; mem_stat = [] })).1

pub one_page_bytes : length one_page.ram ≡ ram_size
one_page_bytes =
    length-set cleared.ram 3074 65
    ∙ (length-clear ram_size num_pages (record { ram = []; mem_stat = [] })).0

dump_example :
    (rows : List DumpRow) × (dump one_page ≡ done rows)
    × (pages_of rows ≡ used 0 one_page.mem_stat)
    × All (RowOk one_page) rows
    × ((j byte : ℕ) → IsVisible one_page j byte → Shown (byte_row j byte) rows)
dump_example = dump_lem one_page one_page_stats one_page_bytes
