-- ===== src/Paging/Laws.antt =====
-- What the macros of include/mm.h do to the digits of an entry and of an address.
use assignment_os.Base.{
  ℕ, ◌+◌, ◌-◌, ◌*◌, ◌/◌, ◌%◌, ◌^◌, ◌≤◌, ◌<◌, bit_and, word, ◌≡◌, arith, leb, ◌==◌, ◌&&◌,
  if◌then◌else◌, true, ◌↔◌,
}
use assignment_os.Bits.{
  bit, bit_lt, bit-bit_and, bit-bit_or, bit-shl, bit-mod, bit-complement, bit_and-le, bit_above,
  bit_lem, bit_or_lt,
}
use assignment_os.Bitops.{all_ones, bit_mask, genmask, extract_nbits, nbits}
use assignment_os.Bitops.Laws.{bit-bit_mask, bit-genmask, extract_nbits-eq-field, field_mask}
use assignment_os.Paging.{
  paging_pagesz, pte_present_mask, setbit, clrbit, setval, getval, paging_page_present,
  paging_offst, paging_pgn,
}

pub bit-setbit :
    (v nr i : ℕ) → nr < 32 → bit i (setbit v (bit_mask nr)) ≡ (if i == nr then 1 else bit i v)
unfolding setbit
bit-setbit v nr i h = ground (arith, bit-bit_or i v (bit_mask nr), bit-bit_mask nr i h, bit_lt i v)

mask_lt : (nr : ℕ) → bit_mask nr < word
unfolding bit_mask
mask_lt nr = omega arith

pub bit-clrbit :
    (v nr i : ℕ)
    → nr < 32
    → v < word
    → bit i (clrbit v (bit_mask nr)) ≡ (if i == nr then 0 else bit i v)
unfolding clrbit
bit-clrbit v nr i h fits = ground (
  arith,
  bit-bit_and i v (all_ones - bit_mask nr),
  bit-complement 32 i (bit_mask nr) (mask_lt nr),
  bit-bit_mask nr i h,
  bit_lt i v,
  bit_above 32 i v fits,
)

genmask_lt : (h l : ℕ) → genmask h l < word
unfolding genmask
genmask_lt h l = omega (arith, bit_and-le ((all_ones * 2 ^ l) % word) (all_ones / 2 ^ (32 - h - 1)))

pub setbit_lt : (v nr : ℕ) → v < word → setbit v (bit_mask nr) < word
unfolding setbit
setbit_lt v nr h = bit_or_lt 32 v (bit_mask nr) h (mask_lt nr)

pub clrbit_lt : (v nr : ℕ) → v < word → clrbit v (bit_mask nr) < word
unfolding clrbit
clrbit_lt v nr h = omega (arith, bit_and-le v (all_ones - bit_mask nr))

pub setval_lt : (v value mask offst : ℕ) → v < word → setval v value mask offst < word
unfolding setval
setval_lt v value mask offst h =
    bit_or_lt 32 (bit_and v (all_ones - mask)) (bit_and ((value * 2 ^ offst) % word) mask)
      (omega (arith, bit_and-le v (all_ones - mask)))
      (omega (arith, bit_and-le ((value * 2 ^ offst) % word) mask))

-- `SETVAL` puts the low digits of the value into the field and keeps the others.
pub bit-setval :
    (v value h l i : ℕ)
    → h < 32
    → v < word
    → bit i (setval v value (genmask h l) l)
      ≡ (if leb l i && leb i h then bit (i - l) value else bit i v)
unfolding setval
bit-setval v value h l i lt fits = ground (
  arith,
  bit-bit_or i (bit_and v (all_ones - genmask h l))
      (bit_and ((value * 2 ^ l) % word) (genmask h l)),
  bit-bit_and i v (all_ones - genmask h l),
  bit-complement 32 i (genmask h l) (genmask_lt h l),
  bit-bit_and i ((value * 2 ^ l) % word) (genmask h l),
  bit-genmask h l i lt,
  bit-mod 32 i (value * 2 ^ l),
  bit-shl l i value,
  bit_lt i v,
  bit_lt (i - l) value,
  bit_above 32 i v fits,
)

pub getval-eq-field :
    (v h l : ℕ) → h < 32 → l ≤ h → getval v (genmask h l) l ≡ v / 2 ^ l % 2 ^ (h - l + 1)
unfolding getval extract_nbits
getval-eq-field v h l lt le = extract_nbits-eq-field v h l lt le

present_field : (pte : ℕ) → bit_and pte pte_present_mask ≡ bit 31 pte * 2 ^ 31
unfolding pte_present_mask bit_mask
present_field pte = rw (bit_lem 31 pte) (field_mask 1 31 pte)

-- An entry counts as present exactly when its highest digit is set.
pub paging_page_present-bit : (pte : ℕ) → (paging_page_present pte ≡ true) ↔ (bit 31 pte ≡ 1)
unfolding paging_page_present
paging_page_present-bit pte = ground (arith, present_field pte, bit_lt 31 pte)

-- A 22-bit address is its page number and its offset, and both are in range.
address_split :
    (x : ℕ)
    → x < 2 ^ 22
    → (paging_pgn x * paging_pagesz + paging_offst x ≡ x)
      × (paging_pgn x < 2 ^ 14)
      × (paging_offst x < paging_pagesz)
unfolding paging_pgn paging_offst nbits
address_split x h = ground (arith, getval-eq-field x 21 8, getval-eq-field x 7 0)
