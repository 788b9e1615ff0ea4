-- ===== src/Bitops/Laws.antt =====
-- What the mask macros of include/bitops.h do to each binary digit.
use assignment_os.Base.{
  ℕ, ◌+◌, ◌-◌, ◌*◌, ◌/◌, ◌%◌, ◌^◌, ◌≤◌, ◌<◌, bit_and, word, ◌≡◌, arith, leb, ◌==◌, ◌&&◌,
  if◌then◌else◌,
}
use assignment_os.Bits.{
  bit, bit_lt, bit-bit_and, bit-shl, bit-shr, bit-mod, bit-ones, eq_of_all_bits,
}
use assignment_os.Bitops.{all_ones, bit_mask, genmask, extract_nbits}

-- `BIT(nr)` has the one digit `nr`.
pub bit-bit_mask : (nr i : ℕ) → nr < 32 → bit i (bit_mask nr) ≡ (if i == nr then 1 else 0)
unfolding bit_mask
bit-bit_mask nr i h = ground (arith, bit-mod 32 i (1 * 2 ^ nr), bit-shl nr i 1, bit-ones 1 (i - nr))

-- `GENMASK(h, l)` has the digits from `l` to `h`.
pub bit-genmask : (h l i : ℕ) → h < 32 → bit i (genmask h l) ≡ (if leb l i && leb i h then 1 else 0)
unfolding genmask
bit-genmask h l i lt = ground (
  arith,
  bit-bit_and i ((all_ones * 2 ^ l) % word) (all_ones / 2 ^ (32 - h - 1)),
  bit-mod 32 i (all_ones * 2 ^ l),
  bit-shl l i all_ones,
  bit-shr (32 - h - 1) i all_ones,
  bit-ones 32 (i - l),
  bit-ones 32 (i + (32 - h - 1)),
)

-- `EXTRACT_NBITS(nr, h, l)` is the field of `nr` from digit `l` to digit `h`, as a number.
pub extract_nbits-eq-field :
    (nr h l : ℕ) → h < 32 → l ≤ h → extract_nbits nr h l ≡ nr / 2 ^ l % 2 ^ (h - l + 1)
unfolding extract_nbits
extract_nbits-eq-field nr h l lt le = eq_of_all_bits _ _ λ i. ground (
  arith,
  bit-shr l i (bit_and nr (genmask h l)),
  bit-bit_and (i + l) nr (genmask h l),
  bit-genmask h l (i + l) lt,
  bit_lt (i + l) nr,
  bit-mod (h - l + 1) i (nr / 2 ^ l),
  bit-shr l i nr,
)

-- A mask of `k` ones, shifted by `l`, cuts out a field.
pub field_mask : (k l n : ℕ) → bit_and n ((2 ^ k - 1) * 2 ^ l) ≡ n / 2 ^ l % 2 ^ k * 2 ^ l
field_mask k l n = eq_of_all_bits _ _ λ i. ground (
  arith,
  bit-bit_and i n ((2 ^ k - 1) * 2 ^ l),
  bit-shl l i (2 ^ k - 1),
  bit-ones k (i - l),
  bit_lt i n,
  bit-shl l i (n / 2 ^ l % 2 ^ k),
  bit-mod k (i - l) (n / 2 ^ l),
  bit-shr l (i - l) n,
)
