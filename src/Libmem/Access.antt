-- ===== src/Libmem/Access.antt =====
-- Which page an access through a region brings in, and at what cost.
use assignment_os.Base.{
  ℕ, zero, suc, ◌+◌, ◌*◌, ◌%◌, ◌^◌, ◌<◌, ◌≡◌, false, none, some, List, [], ◌∷◌, drop, lt→ltb, ℤ,
  pos, success, failure, word, Run, done, ◌>>=◌, Chain, null, wild, node, chain_of,
}
use assignment_os.Paging.{paging_max_pgn, paging_page_present, paging_fpn}
use assignment_os.Pte.{pte_set_fpn, pte_set_swap}
use assignment_os.Pte.Laws.{pte_set_present, paging_fpn-pte_set_fpn, paging_fpn-pte_set_swap}
use assignment_os.Memphy.{Memphy, get_freefp}
use assignment_os.Process.{VmArea, Pcb}
use assignment_os.Vm.{enlist_pgn_node}
use assignment_os.Vm.Areas.{get_vma_by_num-zero}
use assignment_os.Libmem.{get_symrg_byid, find_victim_page, pg_getpage, read_region, write_region}

-- A page that `pte_set_fpn` put into memory is found at the frame given there (its low 13 digits),
-- and nothing changes.
pub pg_getpage-pte_set_fpn :
    (caller : Pcb) (pgn pte fpn : ℕ)
    → pgn < paging_max_pgn
    → pte < word
    → caller.mm.pgd pgn ≡ pte_set_fpn pte fpn
    → pg_getpage caller pgn ≡ done (success, fpn % 2 ^ 13, caller)
unfolding pg_getpage
pg_getpage-pte_set_fpn caller pgn pte fpn inside fits e = rw (
  lt→ltb pgn paging_max_pgn inside,
  e,
  (pte_set_present pte fpn 0 0 fits).0,
  paging_fpn-pte_set_fpn pte fpn fits,
)

-- A page that `pte_set_swap` marked as swapped out is not brought in: it is taken to be in memory,
-- at a frame made up from its swap type and swap offset.
pg_getpage-pte_set_swap :
    (caller : Pcb) (pgn pte swptyp swpoff : ℕ)
    → pgn < paging_max_pgn
    → pte < word
    → caller.mm.pgd pgn ≡ pte_set_swap pte swptyp swpoff
    → pg_getpage caller pgn ≡ done (success, swptyp % 32 + swpoff % 256 * 32, caller)
unfolding pg_getpage
pg_getpage-pte_set_swap caller pgn pte swptyp swpoff inside fits e = rw (
  lt→ltb pgn paging_max_pgn inside,
  e,
  (pte_set_present pte 0 swptyp swpoff fits).1,
  paging_fpn-pte_set_swap pte swptyp swpoff fits,
)

-- `k` accesses to page `pgn` in a row.
abbrev pub accesses : ℕ → Pcb → ℕ → Run Pcb
accesses zero caller pgn = done caller
accesses (suc k) caller pgn = do
  (code, fpn, caller') ← pg_getpage caller pgn
  accesses k caller' pgn

-- The process with this FIFO of pages, and these frames free on the swap device `mp`.
abbrev pub with_lists : Pcb → Memphy → Chain ℕ → List ℕ → Pcb
with_lists caller mp fifo frames = record caller {
  mm = record (caller.mm) { fifo_pgn = fifo };
  active_mswp = some (record mp { free_fp_list = chain_of frames null });
}

module _ (pgn : ℕ) (caller : Pcb) (mp : Memphy) (inside : pgn < paging_max_pgn)
    (absent : paging_page_present (caller.mm.pgd pgn) ≡ false) where
  access_absent :
      (p : ℕ) (fifo : Chain ℕ) (frames : List ℕ)
      → pg_getpage (with_lists caller mp (node p fifo) frames) pgn
        ≡ done (
          success,
          paging_fpn (caller.mm.pgd pgn),
          with_lists caller mp (node pgn wild) (drop 1 frames),
        )
  unfolding pg_getpage find_victim_page get_freefp enlist_pgn_node
  access_absent p fifo [] = rw (lt→ltb pgn paging_max_pgn inside, absent)
  access_absent p fifo (f ∷ frames) = rw (lt→ltb pgn paging_max_pgn inside, absent)

  more_accesses :
      (k p : ℕ) (fifo : Chain ℕ) (frames : List ℕ)
      → accesses (suc k) (with_lists caller mp (node p fifo) frames) pgn
        ≡ done (with_lists caller mp (node pgn wild) (drop (suc k) frames))
  more_accesses zero p fifo frames = rw (access_absent p fifo frames)
  more_accesses (suc k) p fifo [] = rw (access_absent p fifo []) (more_accesses k pgn wild [])
  more_accesses (suc k) p fifo (f ∷ frames) =
      rw (access_absent p fifo (f ∷ frames)) (more_accesses k pgn wild frames)

-- Each access to a page that is not present takes a frame of the swap device off its list, while
-- there is one, and the page stays absent, so that the next access does so again. The FIFO is left
-- with the page in front of a node that was freed.
pub accesses_absent :
    (k pgn p : ℕ) (caller : Pcb) (mp : Memphy) (fifo : Chain ℕ) (frames : List ℕ)
    → pgn < paging_max_pgn
    → paging_page_present (caller.mm.pgd pgn) ≡ false
    → accesses (suc k) (with_lists caller mp (node p fifo) frames) pgn
      ≡ done (with_lists caller mp (node pgn wild) (drop (suc k) frames))
accesses_absent k pgn p caller mp fifo frames inside absent =
    more_accesses pgn caller mp inside absent k p fifo frames

-- A region number outside the table's check makes a read and a write return -1 and change nothing,
-- whatever the offset and the value.
access_bad_region :
    (caller : Pcb) (area : VmArea) (areas : Chain VmArea) (rgid offset : ℤ) (value : ℕ)
    → caller.mm.mmap ≡ node area areas
    → area.vm_id < 2 ^ 31
    → get_symrg_byid rgid ≡ none
    → (read_region caller (pos 0) rgid offset ≡ done (failure, caller))
      × (write_region caller (pos 0) rgid offset value ≡ done (failure, caller))
unfolding read_region write_region
access_bad_region caller area areas rgid offset value mapped small bad =
    let found = get_vma_by_num-zero caller.mm area areas mapped small in
    (rw (found, bad), rw (found, bad))
