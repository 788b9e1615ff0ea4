-- ===== src/Pte.antt =====
-- The page table entries of src/mm.c: `init_pte`, `pte_set_swap` and `pte_set_fpn`. An entry is a
-- `uint32_t`; the `int` arguments are given by their bit patterns, and a value that is shifted
-- keeps its low 32 bits, as the build's compiler has it.
pub mod Laws
use assignment_os.Base.{ℕ, ℤ, success, failure, ◌==◌, if◌then◌else◌}
use assignment_os.Paging.{
  pte_present_mask, pte_swapped_mask, pte_dirty_mask, pte_fpn_mask, pte_swptyp_mask,
  pte_swpoff_mask, setbit, clrbit, setval,
}

-- The entry after the call, and the returned code.
unfoldable pub init_pte : ℕ → (pre fpn drt swp swptyp swpoff : ℕ) → ℕ × ℤ
init_pte pte pre fpn drt swp swptyp swpoff =
    if pre == 0
    then (pte, success)
    else if swp == 0
    then if fpn == 0
      then (pte, failure)
      else (let pte =
            clrbit (clrbit (setbit pte pte_present_mask) pte_swapped_mask) pte_dirty_mask in
          (setval pte fpn pte_fpn_mask 0, success))
    else (let pte = clrbit (setbit (setbit pte pte_present_mask) pte_swapped_mask) pte_dirty_mask in
        (setval (setval pte swptyp pte_swptyp_mask 0) swpoff pte_swpoff_mask 5, success))

unfoldable pub pte_set_swap : ℕ → (swptyp swpoff : ℕ) → ℕ
pte_set_swap pte swptyp swpoff =
    let marked = setbit (setbit pte pte_present_mask) pte_swapped_mask in
    setval (setval marked swptyp pte_swptyp_mask 0) swpoff pte_swpoff_mask 5

unfoldable pub pte_set_fpn : ℕ → (fpn : ℕ) → ℕ
pte_set_fpn pte fpn =
    let marked = clrbit (setbit pte pte_present_mask) pte_swapped_mask in
    setval marked fpn pte_fpn_mask 0
