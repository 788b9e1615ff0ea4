-- ===== src/Libmem/Exact.antt =====
-- Where `libread` and `libwrite` have undefined behaviour for a process that has what it needs.
use assignment_os.Base.{
  ℕ, ◌≡◌, ◌≢◌, ◌↔◌, arith, true, false, Bool-cases, inl, inr, some, get_elem?-none, ℤ, pos, negsuc,
  to_int, fault,
}
use assignment_os.Process.{Pcb, paging_max_symtbl_sz}
use assignment_os.Vm.Areas.{get_vma_by_num-zero}
use assignment_os.Libmem.{get_symrg_byid, symrg, read_region, write_region, libread, libwrite}
use assignment_os.Libmem.Ready.{HasMemory, Means, has_memory, IsReady}
use assignment_os.Libmem.Total.{can_access, print_pgtbl-returns, libread-IsReady, libwrite-IsReady}

-- The one number that passes the test and is no index of the table.
symbol_past : (rgid : ℤ) → can_access rgid ≡ false → get_symrg_byid rgid ≡ some paging_max_symtbl_sz
unfolding get_symrg_byid
symbol_past (pos i) bad = ground arith
symbol_past (negsuc i) bad = absurd cc

module _ (p : Pcb) (memory : HasMemory p.mm) (rgid offset : ℤ) (bad : can_access rgid ≡ false) where
  symrg_past : symrg p.mm paging_max_symtbl_sz ≡ fault
  symrg_past =
      let past =
        get_elem?-none p.mm.symrgtbl paging_max_symtbl_sz (omega (arith, memory.symbols)) in
      rw (symrg, past)

  read_region_past : read_region p (pos 0) rgid offset ≡ fault
  unfolding read_region
  read_region_past =
      let found = get_vma_by_num-zero p.mm memory.area memory.areas memory.mapped memory.small in
      rw (found, symbol_past rgid bad, symrg_past)

  write_region_past : (value : ℕ) → write_region p (pos 0) rgid offset value ≡ fault
  unfolding write_region
  write_region_past value =
      let found = get_vma_by_num-zero p.mm memory.area memory.areas memory.mapped memory.small in
      rw (found, symbol_past rgid bad, symrg_past)

-- For a process that has its memory and a swap device, `libread` and `libwrite` are defined exactly
-- if the number of the region, as an `int`, is not 30: with 30, which passes the test of
-- `get_symrg_byid`, the code reads past the end of the table, and with any other number that is no
-- index it returns.
pub access_exact :
    (means : Means) (p : Pcb) (region offset byte : ℕ)
    → has_memory means ≡ true
    → IsReady means p
    → ((libread p region offset ≢ fault) ↔ (can_access (to_int region) ≡ true))
      × ((libwrite p byte region offset ≢ fault) ↔ (can_access (to_int region) ≡ true))
unfolding libread libwrite
access_exact means p region offset byte uses ready =
    let memory = ready.memory (ground arith) in
    elim (Bool-cases (can_access (to_int region))) [
      | inl ok ↦
          let (code, q, did, _) = libread-IsReady means p region offset uses ready ok in
          let (code', q', did', _) = libwrite-IsReady means p byte region offset uses ready ok in
          ((λ _. ok, λ _ bad. cc), (λ _. ok, λ _ bad. cc))
      | inr past ↦
          let (rows, printed) = print_pgtbl-returns means p uses ready in
          (
            (
              λ h. absurd (h (rw (read_region_past p memory (to_int region) (to_int offset) past))),
              λ ok. absurd cc,
            ),
            (
              λ h. absurd (
                  h (
                    rw (
                      printed,
                      write_region_past p memory (to_int region) (to_int offset) past byte,
                    ))),
              λ ok. absurd cc,
            ),
          )
    ]
