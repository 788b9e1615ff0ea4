-- ===== src/Pte/Laws.antt =====
-- Each digit of a page table entry after `pte_set_fpn`, `pte_set_swap` and `init_pte`, and what the
-- macros of include/mm.h read back.
use assignment_os.Base.{
  ℕ, ◌+◌, ◌-◌, ◌*◌, ◌/◌, ◌%◌, ◌^◌, ◌≤◌, ◌<◌, word, ◌≡◌, ◌∙◌, arith, leb, ◌==◌, ◌||◌, if◌then◌else◌,
  true, failure, ◌↔◌, ◌≢◌,
}
use assignment_os.Bits.{bit, bit-mod, bit-shr, eq_of_all_bits}
use assignment_os.Bitops.{bit_mask, genmask}
use assignment_os.Paging.{
  pte_present_mask, pte_swapped_mask, pte_dirty_mask, pte_fpn_mask, pte_swptyp_mask,
  pte_swpoff_mask, setbit, clrbit, setval, getval, paging_page_present, paging_fpn, paging_pte_swp,
}
use assignment_os.Paging.Laws.{
  bit-setbit, bit-clrbit, bit-setval, getval-eq-field, paging_page_present-bit, setbit_lt,
  clrbit_lt, setval_lt,
}
use assignment_os.Pte.{init_pte, pte_set_swap, pte_set_fpn}

-- After `pte_set_fpn` the entry is marked present and not swapped, digits 0 to 12 are those of the
-- frame number, and every other digit is as before.
pub bit-pte_set_fpn :
    (pte fpn i : ℕ)
    → pte < word
    → bit i (pte_set_fpn pte fpn)
      ≡ (if i == 31 then 1 else if i == 30 then 0 else if leb i 12 then bit i fpn else bit i pte)
unfolding pte_set_fpn pte_present_mask pte_swapped_mask pte_fpn_mask
bit-pte_set_fpn pte fpn i h =
    let present = setbit pte (bit_mask 31) in
    let marked = clrbit present (bit_mask 30) in
    ground (
      arith,
      bit-setbit pte 31 i,
      setbit_lt pte 31 h,
      bit-clrbit present 30 i,
      clrbit_lt present 30,
      bit-setval marked fpn 12 0 i,
    )

-- After `pte_set_swap` the entry is marked present and swapped, digits 0 to 4 hold the swap type,
-- digits 5 to 25 the swap offset, and every other digit is as before.
pub bit-pte_set_swap :
    (pte swptyp swpoff i : ℕ)
    → pte < word
    → bit i (pte_set_swap pte swptyp swpoff) ≡ (
        if i == 31 || i == 30
        then 1
        else if leb i 4
        then bit i swptyp
        else if leb i 25
        then bit (i - 5) swpoff
        else bit i pte)
unfolding pte_set_swap pte_present_mask pte_swapped_mask pte_swptyp_mask pte_swpoff_mask
bit-pte_set_swap pte swptyp swpoff i h =
    let present = setbit pte (bit_mask 31) in
    let marked = setbit present (bit_mask 30) in
    let typed = setval marked swptyp (genmask 4 0) 0 in
    ground (
      arith,
      bit-setbit pte 31 i,
      setbit_lt pte 31 h,
      bit-setbit present 30 i,
      setbit_lt present 30,
      bit-setval marked swptyp 4 0 i,
      setval_lt marked swptyp (genmask 4 0) 0,
      bit-setval typed swpoff 25 5 i,
    )

-- A field of digits `l` to `h` equals the low digits of `x` if they agree one by one.
field_eq :
    (v x h l : ℕ)
    → h < 32
    → l ≤ h
    → ((i : ℕ) → i ≤ h - l → bit (i + l) v ≡ bit i x)
    → getval v (genmask h l) l ≡ x % 2 ^ (h - l + 1)
field_eq v x h l lt le same =
    getval-eq-field v h l lt le
    ∙ eq_of_all_bits _ _ λ i.
      ground
        (arith, bit-mod (h - l + 1) i (v / 2 ^ l), bit-mod (h - l + 1) i x, bit-shr l i v, same i)

-- A frame number that fits its 13 digits is read back by `PAGING_FPN`; in general its low 13
-- digits are.
pub paging_fpn-pte_set_fpn :
    (pte fpn : ℕ) → pte < word → paging_fpn (pte_set_fpn pte fpn) ≡ fpn % 2 ^ 13
unfolding paging_fpn pte_fpn_mask
paging_fpn-pte_set_fpn pte fpn h =
    field_eq (pte_set_fpn pte fpn) fpn 12 0 (omega arith) (omega arith)
      λ i le. ground (arith, bit-pte_set_fpn pte fpn (i + 0))

-- The low 21 digits of a swap offset are read back by `PAGING_PTE_SWP`.
paging_pte_swp-pte_set_swap :
    (pte swptyp swpoff : ℕ)
    → pte < word
    → paging_pte_swp (pte_set_swap pte swptyp swpoff) ≡ swpoff % 2 ^ 21
unfolding paging_pte_swp pte_swpoff_mask
paging_pte_swp-pte_set_swap pte swptyp swpoff h =
    field_eq (pte_set_swap pte swptyp swpoff) swpoff 25 5 (omega arith) (omega arith)
      λ i le. ground (arith, bit-pte_set_swap pte swptyp swpoff (i + 5))

-- Both routines mark an entry present: the one for swapped pages too.
pub pte_set_present :
    (pte fpn swptyp swpoff : ℕ)
    → pte < word
    → (paging_page_present (pte_set_fpn pte fpn) ≡ true)
      × (paging_page_present (pte_set_swap pte swptyp swpoff) ≡ true)
pte_set_present pte fpn swptyp swpoff h = (
  (paging_page_present-bit (pte_set_fpn pte fpn)).1 (bit-pte_set_fpn pte fpn 31 h),
  (paging_page_present-bit (pte_set_swap pte swptyp swpoff)).1
      (bit-pte_set_swap pte swptyp swpoff 31 h),
)

-- On a swapped entry `PAGING_FPN` reads no frame number: it reads the swap type and the low
-- digits of the swap offset above it.
pub paging_fpn-pte_set_swap :
    (pte swptyp swpoff : ℕ)
    → pte < word
    → paging_fpn (pte_set_swap pte swptyp swpoff) ≡ swptyp % 32 + swpoff % 256 * 32
unfolding paging_fpn pte_fpn_mask
paging_fpn-pte_set_swap pte swptyp swpoff h =
    let mixed = swptyp % 32 + swpoff % 256 * 32 in
    let low : mixed % 2 ^ 5 ≡ swptyp % 2 ^ 5 = omega arith in
    let high : mixed / 2 ^ 5 ≡ swpoff % 2 ^ 8 = omega arith in
    let fits : mixed % 2 ^ 13 ≡ mixed = omega arith in
    field_eq (pte_set_swap pte swptyp swpoff) mixed 12 0 (omega arith) (omega arith) (λ i le.
      ground (
        arith,
        bit-pte_set_swap pte swptyp swpoff (i + 0),
        bit-mod 5 i mixed,
        bit-mod 5 i swptyp,
        bit-shr 5 (i - 5) mixed,
        bit-mod 8 (i - 5) swpoff,
      ))
    ∙ fits

-- `init_pte` fails exactly on a present page that is not swapped and has frame number 0, and then
-- leaves the entry alone.
init_pte-failure :
    (pte pre fpn drt swp swptyp swpoff : ℕ)
    → (init_pte pte pre fpn drt swp swptyp swpoff ≡ (pte, failure))
      ↔ ((pre ≢ 0) × (swp ≡ 0) × (fpn ≡ 0))
unfolding init_pte
init_pte-failure pte pre fpn drt swp swptyp swpoff = ground arith

module _ (pte : ℕ) (h : pte < word) (i : ℕ) where
  bit_online :
      (fpn : ℕ)
      → bit i (
          setval
            (clrbit (clrbit (setbit pte pte_present_mask) pte_swapped_mask) pte_dirty_mask)
            fpn
            pte_fpn_mask
            0)
        ≡ (if i == 28 then 0 else bit i (pte_set_fpn pte fpn))
  unfolding pte_present_mask pte_swapped_mask pte_dirty_mask pte_fpn_mask
  bit_online fpn =
      let present = setbit pte (bit_mask 31) in
      let online = clrbit present (bit_mask 30) in
      let clean = clrbit online (bit_mask 28) in
      ground (
        arith,
        bit-setbit pte 31 i,
        setbit_lt pte 31 h,
        bit-clrbit present 30 i,
        clrbit_lt present 30,
        bit-clrbit online 28 i,
        clrbit_lt online 28,
        bit-setval clean fpn 12 0 i,
        bit-pte_set_fpn pte fpn i h,
      )

  bit_swapped :
      (swptyp swpoff : ℕ)
      → bit i (
          setval
            (setval
              (clrbit (setbit (setbit pte pte_present_mask) pte_swapped_mask) pte_dirty_mask)
              swptyp
              pte_swptyp_mask
              0)
            swpoff
            pte_swpoff_mask
            5)
        ≡ (if i == 28 then 0 else bit i (pte_set_swap pte swptyp swpoff))
  unfolding pte_present_mask pte_swapped_mask pte_dirty_mask pte_swptyp_mask pte_swpoff_mask
  bit_swapped swptyp swpoff =
      let present = setbit pte (bit_mask 31) in
      let away = setbit present (bit_mask 30) in
      let clean = clrbit away (bit_mask 28) in
      let typed = setval clean swptyp (genmask 4 0) 0 in
      ground (
        arith,
        bit-setbit pte 31 i,
        setbit_lt pte 31 h,
        bit-setbit present 30 i,
        setbit_lt present 30,
        bit-clrbit away 28 i,
        clrbit_lt away 28,
        bit-setval clean swptyp 4 0 i,
        setval_lt clean swptyp (genmask 4 0) 0,
        bit-setval typed swpoff 25 5 i,
        bit-pte_set_swap pte swptyp swpoff i h,
      )

-- Where `init_pte` sets an entry up it differs from `pte_set_fpn` (a page in memory) or from
-- `pte_set_swap` (a swapped page) in the dirty digit only, which it clears.
bit-init_pte :
    (pte pre fpn drt swp swptyp swpoff i : ℕ)
    → pte < word
    → pre ≢ 0
    → fpn ≢ 0
    → bit i (init_pte pte pre fpn drt swp swptyp swpoff).0 ≡ (
        if i == 28
        then 0
        else if swp == 0
        then bit i (pte_set_fpn pte fpn)
        else bit i (pte_set_swap pte swptyp swpoff))
unfolding init_pte
bit-init_pte pte pre fpn drt swp swptyp swpoff i h present framed =
    ground (arith, bit_online pte h i fpn, bit_swapped pte h i swptyp swpoff)
