-- ===== src/Libmem/Total.antt =====
-- The memory library returns for a process that has what it needs.
use assignment_os.Base.{
  ℕ, zero, suc, ◌+◌, ◌-◌, ◌*◌, ◌%◌, Bool, ltb, ◌==◌, if◌then◌else◌, ◌≤◌, ◌<◌, ◌≡◌, refl, ◌∙◌, arith,
  true, false, some, inl, inr, Option-cases, length-set, get_elem?-some, ℤ, pos, negsuc, success,
  failure, to_int, to_u32, word, lt→ltb, List, [], ◌∷◌, done, Chain-cases,
}
use assignment_os.Paging.{paging_pgn, paging_max_pgn}
use assignment_os.Process.{VmRg, Mm, Pcb, paging_max_symtbl_sz}
use assignment_os.Vm.{is_zero}
use assignment_os.Vm.Areas.{get_vma_by_num-zero}
use assignment_os.Libmem.{
  symrg, get_symrg_byid, region_addr, liballoc, pg_getval, pg_setval, read_region, write_region,
  pgtbl_rows, print_pgtbl, libread, libwrite,
}
use assignment_os.Libmem.Alloc.{no_region, assign, liballoc_lem}
use assignment_os.Libmem.Ready.{
  has_memory, Means, IsReady, Returns, paging_pgn-inside, pg_getpage-IsReady,
}

-- A region number with which an access has defined behaviour: any but 30, which passes the test and
-- is one past the end of the table.
abbrev pub can_access : (rgid : ℤ) → Bool
can_access (pos i) = if i == paging_max_symtbl_sz then false else true
can_access (negsuc i) = true

-- A region number that can be assigned: an index of the table.
abbrev pub can_assign : (rgid : ℤ) → Bool
can_assign (pos i) = ltb i paging_max_symtbl_sz
can_assign (negsuc i) = false

pgtbl_rows-returns :
    (left pgit : ℕ) (mm : Mm)
    → pgit + left ≤ paging_max_pgn
    → (rows : List (ℕ × ℕ)) × (pgtbl_rows left pgit mm ≡ done rows)
unfolding pgtbl_rows
pgtbl_rows-returns zero pgit mm h = ([], refl)
pgtbl_rows-returns (suc left) pgit mm h =
    let (rows, rest) = pgtbl_rows-returns left (pgit + 1) mm (omega arith) in
    ((pgit * 4, mm.pgd pgit) ∷ rows, rw (lt→ltb pgit paging_max_pgn (omega arith), rest))

symbol_inside :
    (rgid : ℤ) (i : ℕ)
    → can_access rgid ≡ true
    → get_symrg_byid rgid ≡ some i
    → i < paging_max_symtbl_sz
unfolding get_symrg_byid
symbol_inside (pos j) i ok e = ground arith
symbol_inside (negsuc j) i ok e = absurd cc

-- A register that can be assigned is an index of the table that an `int` holds.
assign_inside : (i : ℕ) → can_assign (to_int i) ≡ true → i < paging_max_symtbl_sz
assign_inside i ok = ground arith

module _ (means : Means) (p : Pcb) (uses : has_memory means ≡ true) (ready : IsReady means p) where
  -- The whole page table can be printed.
  pub print_pgtbl-returns : (rows : List (ℕ × ℕ)) × (print_pgtbl p 0 (word - 1) ≡ done rows)
  unfolding print_pgtbl
  print_pgtbl-returns =
      let memory = ready.memory (ground arith) in
      let last : ℕ = memory.area.vm_end % word in
      let (rows, printed) =
        pgtbl_rows-returns (paging_pgn last - paging_pgn 0) (paging_pgn 0) p.mm
          (omega (arith, paging_pgn-inside last, paging_pgn-inside 0)) in
      (
        rows,
        rw (get_vma_by_num-zero p.mm memory.area memory.areas memory.mapped memory.small, printed),
      )

  pg_getval-IsReady : (addr : ℤ) → Returns means (pg_getval p addr)
  unfolding pg_getval
  pg_getval-IsReady addr =
      let pgn = paging_pgn (to_u32 addr) in
      let (code, fpn, q, got, after) =
        pg_getpage-IsReady means p pgn uses (paging_pgn-inside (to_u32 addr)) ready in
      (if is_zero code then success else failure, q, rw got, after)

  pg_setval-IsReady : (addr : ℤ) (value : ℕ) → Returns means (pg_setval p addr value)
  unfolding pg_setval
  pg_setval-IsReady addr value =
      let pgn = paging_pgn (to_u32 addr) in
      let (code, fpn, q, got, after) =
        pg_getpage-IsReady means p pgn uses (paging_pgn-inside (to_u32 addr)) ready in
      (if is_zero code then success else failure, q, rw got, after)

  symrg-returns :
      (rgid : ℤ) (i : ℕ)
      → can_access rgid ≡ true
      → get_symrg_byid rgid ≡ some i
      → (rg : VmRg) × (symrg p.mm i ≡ done rg)
  symrg-returns rgid i ok named =
      let memory = ready.memory (ground arith) in
      let inside = symbol_inside rgid i ok named in
      let (rg, there) = get_elem?-some p.mm.symrgtbl i (omega (arith, memory.symbols)) in
      (rg, rw (symrg, there))

  read_region-IsReady :
      (rgid offset : ℤ) → can_access rgid ≡ true → Returns means (read_region p (pos 0) rgid offset)
  unfolding read_region
  read_region-IsReady rgid offset ok =
      let memory = ready.memory (ground arith) in
      let found = get_vma_by_num-zero p.mm memory.area memory.areas memory.mapped memory.small in
      elim (Option-cases (get_symrg_byid rgid)) [
        | inl refused ↦ (failure, p, rw (found, refused), ready)
        | inr (i, named) ↦
            let (rg, there) = symrg-returns rgid i ok named in
            let (code, q, got, after) = pg_getval-IsReady (region_addr rg offset) in
            (success, q, rw (found, named, there, got), after)
      ]

  write_region-IsReady :
      (rgid offset : ℤ) (value : ℕ)
      → can_access rgid ≡ true
      → Returns means (write_region p (pos 0) rgid offset value)
  unfolding write_region
  write_region-IsReady rgid offset value ok =
      let memory = ready.memory (ground arith) in
      let found = get_vma_by_num-zero p.mm memory.area memory.areas memory.mapped memory.small in
      elim (Option-cases (get_symrg_byid rgid)) [
        | inl refused ↦ (failure, p, rw (found, refused), ready)
        | inr (i, named) ↦
            let (rg, there) = symrg-returns rgid i ok named in
            let (code, q, got, after) = pg_setval-IsReady (region_addr rg offset) value in
            (success, q, rw (found, named, there, got), after)
      ]

  pub liballoc-IsReady :
      (size i : ℕ) → can_assign (to_int i) ≡ true → Returns means (liballoc p size i)
  liballoc-IsReady size i ok =
      let memory = ready.memory (ground arith) in
      let inside = assign_inside i ok in
      let e =
        liballoc_lem p memory.area memory.areas size i memory.mapped memory.small
          (omega (arith, memory.symbols)) (omega arith) in
      elim (Chain-cases memory.area.vm_freerg_list memory.free) [
        | inl empty ↦ (success, p, rw e (rw empty), ready)
        | inr (r, rest, there) ↦ (
          success,
          assign p i,
          rw e (rw there),
          record {
            memory = λ _. record {
              area = memory.area;
              areas = memory.areas;
              mapped = memory.mapped;
              small = memory.small;
              free = memory.free;
              symbols = length-set p.mm.symrgtbl i no_region ∙ memory.symbols;
              pages = memory.pages;
            };
            ram = ready.ram;
            swp = ready.swp;
          },
        )
      ]

pub libread-IsReady :
    (means : Means) (p : Pcb) (source offset : ℕ)
    → has_memory means ≡ true
    → IsReady means p
    → can_access (to_int source) ≡ true
    → Returns means (libread p source offset)
unfolding libread
libread-IsReady means p source offset uses ready ok =
    let (code, q, got, after) =
      read_region-IsReady means p uses ready (to_int source) (to_int offset) ok in
    let (rows, printed) = print_pgtbl-returns means q uses after in
    (code, q, rw (got, printed), after)

pub libwrite-IsReady :
    (means : Means) (p : Pcb) (byte destination offset : ℕ)
    → has_memory means ≡ true
    → IsReady means p
    → can_access (to_int destination) ≡ true
    → Returns means (libwrite p byte destination offset)
unfolding libwrite
libwrite-IsReady means p byte destination offset uses ready ok =
    let (rows, printed) = print_pgtbl-returns means p uses ready in
    let (code, q, got, after) =
      write_region-IsReady means p uses ready (to_int destination) (to_int offset) byte ok in
    (code, q, rw (printed, got), after)
