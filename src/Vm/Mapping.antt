-- ===== src/Vm/Mapping.antt =====
-- What growing an area does: alignment to pages, the frames asked for, and the FIFO of pages.
use native.Mathlib.Nat.{add-zero}
use assignment_os.Base.{
  lt→ltb, ℕ, zero, suc, ◌+◌, ◌-◌, ◌*◌, ◌/◌, ◌%◌, ◌^◌, ◌<◌, ◌≤◌, ◌≡◌, refl, arith, Bool, true, false,
  none, some, ℤ, pos, negsuc, success, failure, long_to_int, to_u32, Run, done, fault, Chain, null,
  wild, node,
}
use assignment_os.Paging.{paging_pagesz, paging_pgn}
use assignment_os.Memphy.{Memphy, get_freefp}
use assignment_os.Process.{VmArea, VmRg, Pcb}
use assignment_os.Vm.{
  rounds, negate, pages_of, get_vma_by_num, alloc_loop, alloc_pages_range, vm_map_ram,
  vmap_page_range, validate_overlap_vm_area, page_align, inc_vma_limit,
}
use assignment_os.Vm.Areas.{get_vma_by_num-zero}

-- A size that is not negative is rounded up to whole pages: to the least multiple of the page size
-- that is not below it, unless the sum in the macro overflows, which is undefined.
page_align_pos :
    (sz a : ℕ)
    → page_align (pos sz) ≡ done (pos a)
    → (sz ≤ a) × (a < sz + paging_pagesz) × (a % paging_pagesz ≡ 0)
unfolding page_align
page_align_pos sz a h = ground arith

get_freefp_null :
    (caller : Pcb) (mp : Memphy)
    → caller.mram ≡ some mp
    → mp.free_fp_list ≡ null
    → get_freefp caller.mram ≡ done (failure, caller.mram, none)
unfolding get_freefp
get_freefp_null caller mp ram e = ground arith

alloc_loop_null :
    (caller : Pcb) (mp : Memphy) (n : ℕ)
    → caller.mram ≡ some mp
    → mp.free_fp_list ≡ null
    → alloc_loop n caller ≡ done caller
unfolding alloc_loop
alloc_loop_null caller mp zero ram e = refl
alloc_loop_null caller mp (suc n) ram e =
    rw (get_freefp_null caller mp ram e) (alloc_loop_null caller mp n ram e)

alloc_loop_node :
    (caller : Pcb) (mp : Memphy) (n fpn : ℕ) (rest : Chain ℕ)
    → caller.mram ≡ some mp
    → mp.free_fp_list ≡ node fpn rest
    → alloc_loop (suc n) caller ≡ fault
unfolding alloc_loop get_freefp
alloc_loop_node caller mp n fpn rest ram e = ground arith

alloc_loop_wild :
    (caller : Pcb) (mp : Memphy) (n : ℕ)
    → caller.mram ≡ some mp
    → mp.free_fp_list ≡ wild
    → alloc_loop (suc n) caller ≡ fault
unfolding alloc_loop get_freefp
alloc_loop_wild caller mp n ram e = ground arith

-- `r` if the device has no free frame, and undefined if it has one.
abbrev pub if_none_free {ℓ} : {A : Type ℓ} → Memphy → Run A → Run A
if_none_free mp r = elim mp.free_fp_list [ null ↦ r | wild ↦ fault | node fpn rest ↦ fault ]

-- `alloc_pages_range` never obtains a frame. With a free frame at hand the first request writes
-- through a null pointer; with none left every request fails, and the call returns 0 all the same.
alloc_pages_range_lem :
    (caller : Pcb) (mp : Memphy) (n : ℕ)
    → caller.mram ≡ some mp
    → alloc_pages_range caller (pos (suc n)) ≡ if_none_free mp (done (success, caller))
unfolding alloc_pages_range
alloc_pages_range_lem caller mp n ram = by_list mp.free_fp_list refl
  where
    by_list :
        (free : Chain ℕ)
        → mp.free_fp_list ≡ free
        → alloc_pages_range caller (pos (suc n)) ≡ if_none_free mp (done (success, caller))
    by_list null e = rw (alloc_loop_null caller mp (suc n) ram e, e)
    by_list wild e = rw (alloc_loop_wild caller mp n ram e, e)
    by_list (node fpn rest) e = rw (alloc_loop_node caller mp n fpn rest ram e, e)

page_align_pages :
    (sz k : ℕ)
    → sz + 256 < 2 ^ 31
    → (sz + 255) / paging_pagesz ≡ suc k
    → page_align (pos sz) ≡ done (pos (suc k * paging_pagesz))
unfolding page_align
page_align_pages sz k fits e = rw (lt→ltb (sz + 256) (2 ^ 31) fits, e)

-- The process with the page at the end of the area in front of its FIFO.
abbrev pub end_enlisted : Pcb → VmArea → Pcb
end_enlisted caller area = record caller {
  mm = record (caller.mm) {
    fifo_pgn = node (paging_pgn (to_u32 (long_to_int area.vm_end))) caller.mm.fifo_pgn;
  };
}

-- `inc_vma_limit` on area 0, for a size that needs pages and does not overflow. With a free frame
-- at hand its behaviour is undefined. With none left it returns 0, and its only effect is that the
-- page at the old end of the area enters the FIFO: the area does not grow.
pub inc_vma_limit_lem :
    (junk : VmRg) (caller : Pcb) (mp : Memphy) (area : VmArea) (areas : Chain VmArea) (sz : ℕ)
    → caller.mram ≡ some mp
    → caller.mm.mmap ≡ node area areas
    → area.vm_id < 2 ^ 31
    → 0 < sz
    → sz + 256 < 2 ^ 31
    → inc_vma_limit junk caller (pos 0) (pos sz)
      ≡ if_none_free mp (done (success, end_enlisted caller area))
unfolding inc_vma_limit vm_map_ram vmap_page_range validate_overlap_vm_area
inc_vma_limit_lem junk caller mp area areas sz ram mapped small some_size fits =
    by_list mp.free_fp_list refl
  where
    n : ℕ
    n = (sz + 255) / paging_pagesz - 1

    aligned : page_align (pos sz) ≡ done (pos (suc n * paging_pagesz))
    aligned = page_align_pages sz n fits (omega arith)

    pages : suc n * paging_pagesz / paging_pagesz ≡ suc n
    pages = omega arith

    found : get_vma_by_num caller.mm (pos 0) ≡ done (node area areas)
    found = get_vma_by_num-zero caller.mm area areas mapped small

    by_list :
        (free : Chain ℕ)
        → mp.free_fp_list ≡ free
        → inc_vma_limit junk caller (pos 0) (pos sz)
          ≡ if_none_free mp (done (success, end_enlisted caller area))
    by_list null e = rw (aligned, found, pages, alloc_pages_range_lem caller mp n ram, e, add-zero)
    by_list wild e = rw (aligned, found, pages, alloc_pages_range_lem caller mp n ram, e)
    by_list (node fpn rest) e = rw (aligned, found, pages, alloc_pages_range_lem caller mp n ram, e)

-- An increment that asks for no page: 0, or a negative one.
abbrev pub is_no_growth : ℤ → Bool
is_no_growth (pos zero) = true
is_no_growth (pos (suc n)) = false
is_no_growth (negsuc n) = true

rounds-negate : (n : ℕ) → rounds (negate n) ≡ 0
rounds-negate zero = refl
rounds-negate (suc n) = refl

rounds-pages_of : (n : ℕ) → rounds (pages_of (negate n)) ≡ 0
rounds-pages_of zero = refl
rounds-pages_of (suc n) = rounds-negate ((n + 1) / paging_pagesz)

page_align_no_growth :
    (sz : ℤ)
    → is_no_growth sz ≡ true
    → (amount : ℤ) × (page_align sz ≡ done amount) × (rounds (pages_of amount) ≡ 0)
unfolding page_align
page_align_no_growth (pos zero) h = (pos 0, refl, refl)
page_align_no_growth (pos (suc n)) h = absurd cc
page_align_no_growth (negsuc n) h =
    let aligned = (n + 1 - 255) / paging_pagesz * paging_pagesz in
    (negate aligned, refl, rounds-pages_of aligned)

alloc_pages_range_none :
    (caller : Pcb) (n : ℤ) → rounds n ≡ 0 → alloc_pages_range caller n ≡ done (success, caller)
unfolding alloc_pages_range alloc_loop
alloc_pages_range_none caller n e = rw e

-- Growing area 0 by nothing or by a negative size returns 0, and the page at the end of the area
-- enters the FIFO.
pub inc_vma_limit_no_growth :
    (junk : VmRg) (caller : Pcb) (area : VmArea) (areas : Chain VmArea) (sz : ℤ)
    → caller.mm.mmap ≡ node area areas
    → area.vm_id < 2 ^ 31
    → is_no_growth sz ≡ true
    → inc_vma_limit junk caller (pos 0) sz ≡ done (success, end_enlisted caller area)
unfolding inc_vma_limit vm_map_ram vmap_page_range validate_overlap_vm_area
inc_vma_limit_no_growth junk caller area areas sz mapped small none_asked =
    let found = get_vma_by_num-zero caller.mm area areas mapped small in
    let (amount, aligned, no_pages) = page_align_no_growth sz none_asked in
    rw (aligned, found, alloc_pages_range_none caller (pages_of amount) no_pages, add-zero)
