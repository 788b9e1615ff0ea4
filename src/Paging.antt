-- ===== src/Paging.antt =====
-- The constants and macros of include/mm.h that the C files use: page sizes, the masks of a page
-- table entry, and the fields of an entry and of an address.
pub mod Laws
use assignment_os.Base.{
  ℕ, ◌+◌, ◌-◌, ◌*◌, ◌/◌, ◌%◌, ◌^◌, bit_and, bit_or, word, Bool, ◌==◌, if◌then◌else◌, true, false,
}
use assignment_os.Bitops.{all_ones, bit_mask, genmask, div_round_up, nbits}

abbrev pub paging_cpu_bus_width : ℕ
paging_cpu_bus_width = 22

abbrev pub paging_pagesz : ℕ
paging_pagesz = 256

-- `PAGING_PAGE_ALIGNSZ`
unfoldable pub paging_page_alignsz : ℕ → ℕ
unfolding div_round_up
paging_page_alignsz sz = div_round_up sz paging_pagesz * paging_pagesz

-- `PAGING_MAX_PGN`
unfoldable pub paging_max_pgn : ℕ
unfolding div_round_up bit_mask
paging_max_pgn = div_round_up (bit_mask paging_cpu_bus_width) paging_pagesz

unfoldable pub pte_present_mask : ℕ
pte_present_mask = bit_mask 31

unfoldable pub pte_swapped_mask : ℕ
pte_swapped_mask = bit_mask 30

unfoldable pub pte_dirty_mask : ℕ
pte_dirty_mask = bit_mask 28

unfoldable pub pte_fpn_mask : ℕ
pte_fpn_mask = genmask 12 0

unfoldable pub pte_swptyp_mask : ℕ
pte_swptyp_mask = genmask 4 0

unfoldable pub pte_swpoff_mask : ℕ
pte_swpoff_mask = genmask 25 5

-- `SETBIT`, `CLRBIT`, `SETVAL` and `GETVAL` on `uint32_t`.
unfoldable pub setbit : ℕ → ℕ → ℕ
setbit v mask = bit_or v mask

unfoldable pub clrbit : ℕ → ℕ → ℕ
clrbit v mask = bit_and v (all_ones - mask)

unfoldable pub setval : ℕ → ℕ → ℕ → ℕ → ℕ
setval v value mask offst =
    bit_or (bit_and v (all_ones - mask)) (bit_and ((value * 2 ^ offst) % word) mask)

unfoldable pub getval : ℕ → ℕ → ℕ → ℕ
getval v mask offst = bit_and v mask / 2 ^ offst

-- `PAGING_PAGE_PRESENT`, as the conditions read it.
unfoldable pub paging_page_present : ℕ → Bool
paging_page_present pte = if bit_and pte pte_present_mask == 0 then false else true

-- `PAGING_PTE_FPN`, and `PAGING_FPN`, which has the same body.
unfoldable pub paging_fpn : ℕ → ℕ
paging_fpn pte = getval pte pte_fpn_mask 0

-- `PAGING_PTE_SWP`, with `PAGING_SWPFPN_OFFSET` for the shift.
unfoldable pub paging_pte_swp : ℕ → ℕ
paging_pte_swp pte = getval pte pte_swpoff_mask 5

-- `PAGING_OFFST`: the field below `PAGING_ADDR_OFFST_HIBIT`.
unfoldable pub paging_offst : ℕ → ℕ
paging_offst x = getval x (genmask (nbits paging_pagesz - 1) 0) 0

-- `PAGING_PGN`: the field from `PAGING_ADDR_PGN_LOBIT` to `PAGING_ADDR_PGN_HIBIT`.
unfoldable pub paging_pgn : ℕ → ℕ
paging_pgn x =
    getval x (genmask (paging_cpu_bus_width - 1) (nbits paging_pagesz)) (nbits paging_pagesz)
