-- ===== src/Vm.antt =====
-- Virtual memory: src/mm-vm.c, and the part of src/mm.c that maps pages and sets up a process's
-- memory. What `malloc` returns holds arbitrary values, which are arguments here.
pub mod Areas
pub mod Mapping
pub mod Program
use assignment_os.Base.{
  ℕ, zero, suc, ◌+◌, ◌-◌, ◌*◌, ◌/◌, ◌%◌, ◌^◌, ◌<◌, Bool, true, false, Option, none, some, List, ltb,
  leb, ltb_ℤ, if◌then◌else◌, ℤ, pos, negsuc, success, failure, to_u32, to_ulong, long_to_int, Run,
  done, fault, ◌>>=◌, Chain, null, wild, node,
}
use assignment_os.Paging.{paging_pagesz, paging_pgn}
use assignment_os.Memphy.{Memphy, get_freefp, swap_cp_page}
use assignment_os.Process.{VmRg, VmArea, Mm, Pcb}

-- `ret == 0`
abbrev pub is_zero : ℤ → Bool
is_zero (pos zero) = true
is_zero (pos (suc n)) = false
is_zero (negsuc n) = false

-- The loop of `get_vma_by_num` at an area. Its test for NULL comes before the step to the next
-- area, which is read in any case.
walk : Chain VmArea → (vmaid : ℤ) → Run (Chain VmArea)
walk null vmaid = fault
walk wild vmaid = fault
walk (node area rest) vmaid =
    if ltb_ℤ (long_to_int area.vm_id) vmaid then walk rest vmaid else done (node area rest)

-- `get_vma_by_num`: the pointer returned, with what it reaches.
unfoldable pub get_vma_by_num : Mm → (vmaid : ℤ) → Run (Chain VmArea)
unfolding walk
get_vma_by_num mm vmaid = elim mm.mmap [
  | null ↦ done null
  | wild ↦ fault
  | node area rest ↦ walk (node area rest) vmaid
]

-- `pvma->field`, undefined on NULL.
abbrev pub deref : Chain VmArea → Run VmArea
deref null = fault
deref wild = fault
deref (node area rest) = done area

-- `__mm_swap_page`: the victim frame of the RAM is copied to the active swap device.
unfoldable pub mm_swap_page : (junk : ℕ) → Pcb → (vicfpn swpfpn : ℤ) → Run (ℤ × Pcb)
mm_swap_page junk caller vicfpn swpfpn = do
  (mram, mswp) ← swap_cp_page junk caller.mram vicfpn caller.active_mswp swpfpn
  done (success, record caller { mram = mram; active_mswp = mswp })

-- `validate_overlap_vm_area`
unfoldable pub validate_overlap_vm_area : Pcb → (vmaid vmastart vmaend : ℤ) → ℤ
validate_overlap_vm_area caller vmaid vmastart vmaend = success

-- `get_vm_area_node_at_brk`: a region with the contents that `malloc` found.
unfoldable pub get_vm_area_node_at_brk : VmRg → Pcb → (vmaid size alignedsz : ℤ) → VmRg
get_vm_area_node_at_brk junk caller vmaid size alignedsz = junk

-- `init_vm_rg`, without its link, which is NULL.
unfoldable pub init_vm_rg : (rg_start rg_end : ℤ) → VmRg
init_vm_rg rg_start rg_end = record { rg_start = to_ulong rg_start; rg_end = to_ulong rg_end }

unfoldable pub enlist_vm_rg_node : Chain VmRg → VmRg → Chain VmRg
enlist_vm_rg_node rglist rgnode = node rgnode rglist

unfoldable pub enlist_pgn_node : Chain ℕ → (pgn : ℕ) → Chain ℕ
enlist_pgn_node plist pgn = node pgn plist

-- `init_mm` on memory that holds `old`, with a page table as `malloc` returns it. The new area is
-- the second part: no pointer to it is kept.
unfoldable pub init_mm : (old : Mm) (pgd : ℕ → ℕ) → Mm × VmArea
unfolding init_vm_rg enlist_vm_rg_node
init_mm old pgd = (
  record old { pgd = pgd },
  record {
    vm_id = 0;
    vm_start = 0;
    vm_end = 0;
    sbrk = 0;
    vm_freerg_list = enlist_vm_rg_node wild (init_vm_rg (pos 0) (pos 0));
  },
)

-- `vmap_page_range`
unfoldable pub vmap_page_range : Pcb → (addr pgnum : ℤ) → ℤ × Pcb
unfolding enlist_pgn_node
vmap_page_range caller addr pgnum =
    let pgit : ℕ = 0 in
    let pgn = paging_pgn (to_u32 addr) in
    let fifo = enlist_pgn_node caller.mm.fifo_pgn (pgn + pgit) in
    (success, record caller { mm = record (caller.mm) { fifo_pgn = fifo } })

-- The loop of `alloc_pages_range`, with `left` pages to go. A frame that is obtained is stored
-- through `newfp_str`, which is NULL.
alloc_loop : (left : ℕ) → Pcb → Run Pcb
alloc_loop zero caller = done caller
alloc_loop (suc left) caller = do
  (code, mram, fpn) ← get_freefp caller.mram
  if is_zero code then fault else alloc_loop left (record caller { mram = mram })

-- A counter from 0 below an `int` makes this many rounds.
abbrev pub rounds : ℤ → ℕ
rounds (pos n) = n
rounds (negsuc n) = 0

unfoldable pub alloc_pages_range : Pcb → (req_pgnum : ℤ) → Run (ℤ × Pcb)
unfolding alloc_loop
alloc_pages_range caller req_pgnum = do
  caller' ← alloc_loop (rounds req_pgnum) caller
  done (success, caller')

-- `vm_map_ram`: its two tests, for -3000 and for any other negative code, both return -1.
unfoldable pub vm_map_ram : Pcb → (astart aend mapstart incpgnum : ℤ) → Run (ℤ × Pcb)
vm_map_ram caller astart aend mapstart incpgnum = do
  (ret_alloc, caller') ← alloc_pages_range caller incpgnum
  if ltb_ℤ ret_alloc (pos 0)
      then done (failure, caller')
      else done (success, (vmap_page_range caller' mapstart incpgnum).1)

-- -n
abbrev pub negate : ℕ → ℤ
negate zero = pos 0
negate (suc n) = negsuc n

-- `PAGING_PAGE_ALIGNSZ` of an `int`: the sum may overflow, and the division goes towards 0.
unfoldable pub page_align : ℤ → Run ℤ
page_align (pos sz) =
    if ltb (sz + 256) (2 ^ 31)
    then done (pos ((sz + 255) / paging_pagesz * paging_pagesz))
    else fault
page_align (negsuc n) = done (negate ((n + 1 - 255) / paging_pagesz * paging_pagesz))

-- `inc_amt / PAGING_PAGESZ`
abbrev pub pages_of : ℤ → ℤ
pages_of (pos n) = pos (n / paging_pagesz)
pages_of (negsuc n) = negate ((n + 1) / paging_pagesz)

-- `inc_vma_limit`; `junk` is what `malloc` finds in the new region.
unfoldable pub inc_vma_limit : VmRg → Pcb → (vmaid inc_sz : ℤ) → Run (ℤ × Pcb)
inc_vma_limit junk caller vmaid inc_sz = do
  inc_amt ← page_align inc_sz
  let incnumpage = pages_of inc_amt
  let area = get_vm_area_node_at_brk junk caller vmaid inc_sz inc_amt
  cur_vma ← get_vma_by_num caller.mm vmaid
  vma ← deref cur_vma
  let old_end = long_to_int vma.vm_end
  let astart = long_to_int area.rg_start
  let aend = long_to_int area.rg_end
  if ltb_ℤ (validate_overlap_vm_area caller vmaid astart aend) (pos 0)
      then done (failure, caller)
      else (do
        (code, caller') ← vm_map_ram caller astart aend old_end incnumpage
        done (if ltb_ℤ code (pos 0) then failure else success, caller'))
