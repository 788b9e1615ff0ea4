-- ===== src/Libmem/Alloc.antt =====
-- What `liballoc` does, and what a process can do after `init_mm`.
use native.Mathlib.Decide.{dec_lt}
use assignment_os.Base.{
  ℕ, ◌-◌, ◌^◌, ◌<◌, ◌≤◌, ◌≡◌, ◌≢◌, ◌↔◌, arith, some, lt→ltb, length, set, get_elem?-some,
  get_elem?-none, length-set, get_elem?-set_self, get_elem?-set_ne, ℤ, pos, success, failure,
  to_int, done, fault, ◌>>=◌, Chain, null, wild, node, refl,
}
use assignment_os.Process.{VmArea, VmRg, Mm, Pcb, paging_max_symtbl_sz}
use assignment_os.Vm.{get_vma_by_num, init_mm}
use assignment_os.Vm.Areas.{get_vma_by_num-zero}
use assignment_os.Libmem.{
  get_symrg_byid, symrg, get_free_vmrg_area, alloc_region, liballoc, libread, libwrite, read_region,
  print_pgtbl,
}

-- The region that every allocation assigns: from -1 to -1, as `unsigned long`.
abbrev pub no_region : VmRg
no_region = record { rg_start = 2 ^ 64 - 1; rg_end = 2 ^ 64 - 1 }

-- The process with region `i` of its table assigned.
abbrev pub assign : Pcb → ℕ → Pcb
assign proc i = record proc {
  mm = record (proc.mm) { symrgtbl = set proc.mm.symrgtbl i no_region };
}

free_area :
    (proc : Pcb) (area : VmArea) (areas : Chain VmArea) (r : VmRg) (c : Chain VmRg) (size : ℤ)
    → proc.mm.mmap ≡ node area areas
    → area.vm_id < 2 ^ 31
    → area.vm_freerg_list ≡ node r c
    → get_free_vmrg_area proc (pos 0) size ≡ done (success, no_region)
unfolding get_free_vmrg_area
free_area proc area areas r c size mapped small free =
    rw (get_vma_by_num-zero proc.mm area areas mapped small) (ground arith)

no_free_area :
    (proc : Pcb) (area : VmArea) (areas : Chain VmArea) (size : ℤ)
    → proc.mm.mmap ≡ node area areas
    → area.vm_id < 2 ^ 31
    → area.vm_freerg_list ≡ null
    → get_free_vmrg_area proc (pos 0) size ≡ done (failure, no_region)
unfolding get_free_vmrg_area
no_free_area proc area areas size mapped small free =
    rw (get_vma_by_num-zero proc.mm area areas mapped small) (ground arith)

wild_area :
    (proc : Pcb) (area : VmArea) (areas : Chain VmArea) (size : ℤ)
    → proc.mm.mmap ≡ node area areas
    → area.vm_id < 2 ^ 31
    → area.vm_freerg_list ≡ wild
    → get_free_vmrg_area proc (pos 0) size ≡ fault
unfolding get_free_vmrg_area
wild_area proc area areas size mapped small bad =
    rw (get_vma_by_num-zero proc.mm area areas mapped small) (ground arith)

-- With a free region in area 0 `liballoc` returns 0 for every size, and sets the region with the
-- given number, which the table has, to the empty region at -1; it changes nothing else. With no
-- free region it returns 0 too, and changes nothing.
pub liballoc_lem :
    (proc : Pcb) (area : VmArea) (areas : Chain VmArea) (size i : ℕ)
    → proc.mm.mmap ≡ node area areas
    → area.vm_id < 2 ^ 31
    → i < length proc.mm.symrgtbl
    → i < 2 ^ 31
    → liballoc proc size i ≡ (elim area.vm_freerg_list [
      | null ↦ done (success, proc)
      | wild ↦ fault
      | node r c ↦ done (success, assign proc i)
    ])
unfolding liballoc alloc_region
liballoc_lem proc area areas size i mapped small inside int = by_list area.vm_freerg_list refl
  where
    by_list :
        (free : Chain VmRg)
        → area.vm_freerg_list ≡ free
        → liballoc proc size i ≡ (elim free [
          | null ↦ done (success, proc)
          | wild ↦ fault
          | node r c ↦ done (success, assign proc i)
        ])
    by_list null e = rw (no_free_area proc area areas (to_int size) mapped small e)
    by_list wild e = rw (wild_area proc area areas (to_int size) mapped small e)
    by_list (node r c) e =
        rw (free_area proc area areas r c (to_int size) mapped small e, lt→ltb i (2 ^ 31) int)
          (ground arith)

liballoc_free :
    (proc : Pcb) (area : VmArea) (areas : Chain VmArea) (r : VmRg) (c : Chain VmRg) (size i : ℕ)
    → proc.mm.mmap ≡ node area areas
    → area.vm_id < 2 ^ 31
    → area.vm_freerg_list ≡ node r c
    → i < length proc.mm.symrgtbl
    → i < 2 ^ 31
    → liballoc proc size i ≡ done (success, assign proc i)
liballoc_free proc area areas r c size i mapped small free inside int =
    let e = liballoc_lem proc area areas size i mapped small inside int in rw e (rw free)

symrg-assign :
    (proc : Pcb) (i : ℕ) → i < length proc.mm.symrgtbl → symrg (assign proc i).mm i ≡ done no_region
symrg-assign proc i h = ground (arith, get_elem?-set_self proc.mm.symrgtbl i no_region)

symrg-assign_other :
    (proc : Pcb) (i j : ℕ)
    → symrg proc.mm j ≡ done no_region
    → i < length proc.mm.symrgtbl
    → symrg (assign proc i).mm j ≡ done no_region
symrg-assign_other proc i j e h = ground (
  arith,
  get_elem?-set_self proc.mm.symrgtbl i no_region,
  get_elem?-set_ne proc.mm.symrgtbl i j no_region,
)

-- Two allocations in a row, of whatever sizes, both succeed and give their two symbols one and the
-- same region, so the same addresses.
liballoc_same_region :
    (proc : Pcb) (area : VmArea) (areas : Chain VmArea) (r : VmRg) (c : Chain VmRg)
    (size1 size2 i j : ℕ)
    → proc.mm.mmap ≡ node area areas
    → area.vm_id < 2 ^ 31
    → area.vm_freerg_list ≡ node r c
    → i < length proc.mm.symrgtbl
    → j < length proc.mm.symrgtbl
    → length proc.mm.symrgtbl < 2 ^ 31
    → (last : Pcb) × ((do (code, proc') ← liballoc proc size1 i; liballoc proc' size2 j)
        ≡ done (success, last))
      × (symrg last.mm i ≡ done no_region)
      × (symrg last.mm j ≡ done no_region)
liballoc_same_region proc area areas r c size1 size2 i j mapped small free hi hj int =
    let first = assign proc i in
    let len : length first.mm.symrgtbl ≡ length proc.mm.symrgtbl =
      length-set proc.mm.symrgtbl i no_region in
    let hj' : j < length first.mm.symrgtbl = omega arith in
    (
      assign first j,
      rw (liballoc_free proc area areas r c size1 i mapped small free hi (omega arith))
          (liballoc_free first area areas r c size2 j mapped small free hj' (omega arith)),
      symrg-assign_other first j i (symrg-assign proc i hi) hj',
      symrg-assign first j hj',
    )

-- With a table of PAGING_MAX_SYMTBL_SZ entries `get_symrg_byid` returns a pointer for every number
-- from 0 up to that size, while the table can be read only below it.
get_symrg_byid_iff :
    (mm : Mm) (i : ℕ)
    → length mm.symrgtbl ≡ paging_max_symtbl_sz
    → ((get_symrg_byid (pos i) ≡ some i) ↔ (i ≤ paging_max_symtbl_sz))
      × ((symrg mm i ≢ fault) ↔ (i < paging_max_symtbl_sz))
unfolding get_symrg_byid
get_symrg_byid_iff mm i h = (ground arith, readable (dec_lt i (length mm.symrgtbl)))
  where
    readable : Dec (i < length mm.symrgtbl) → (symrg mm i ≢ fault) ↔ (i < paging_max_symtbl_sz)
    readable (yes inside) =
        let found = get_elem?-some mm.symrgtbl i inside in (λ _. omega arith, λ _. ground arith)
    readable (no outside) =
        let lost = get_elem?-none mm.symrgtbl i (omega arith) in
        (λ defined. absurd (defined (ground arith)), λ below. absurd (omega arith))

-- After `init_mm` on fresh memory, whose list of areas is an uninitialised pointer, the first
-- allocation, read or write of a process has undefined behaviour.
pub init_mm_unusable :
    (proc : Pcb) (old : Mm) (pgd : ℕ → ℕ) (a b v : ℕ)
    → old.mmap ≡ wild
    → proc.mm ≡ (init_mm old pgd).0
    → (liballoc proc a b ≡ fault) × (libread proc a b ≡ fault) × (libwrite proc v a b ≡ fault)
unfolding init_mm liballoc alloc_region get_free_vmrg_area libread libwrite read_region print_pgtbl
    get_vma_by_num
init_mm_unusable proc old pgd a b v fresh set_up = (ground arith, ground arith, ground arith)
