-- ===== src/Bitops.antt =====
-- include/bitops.h. `CONFIG_64BIT` is not set by the Makefile, so `BITS_PER_LONG` is 32. The
-- arithmetic is that of `unsigned int`: a shift to the left drops what leaves 32 bits.
pub mod Laws
pub mod Width
use assignment_os.Base.{ℕ, ◌+◌, ◌-◌, ◌*◌, ◌/◌, ◌%◌, ◌^◌, bit_and, word, ◌==◌, if◌then◌else◌}

abbrev pub bits_per_long : ℕ
bits_per_long = 32

-- `DIV_ROUND_UP`, where the sum does not overflow.
unfoldable pub div_round_up : ℕ → ℕ → ℕ
div_round_up n d = (n + d - 1) / d

-- `~0U`
abbrev pub all_ones : ℕ
all_ones = word - 1

-- `BIT`
unfoldable pub bit_mask : ℕ → ℕ
bit_mask nr = (1 * 2 ^ nr) % word

-- `GENMASK`
unfoldable pub genmask : ℕ → ℕ → ℕ
genmask h l = bit_and ((all_ones * 2 ^ l) % word) (all_ones / 2 ^ (bits_per_long - h - 1))

nbits2 : ℕ → ℕ
nbits2 n = if bit_and n 2 == 0 then 0 else 1

nbits4 : ℕ → ℕ
nbits4 n = if bit_and n 0xC == 0 then nbits2 n else 2 + nbits2 (n / 2 ^ 2)

nbits8 : ℕ → ℕ
nbits8 n = if bit_and n 0xF0 == 0 then nbits4 n else 4 + nbits4 (n / 2 ^ 4)

nbits16 : ℕ → ℕ
nbits16 n = if bit_and n 0xFF00 == 0 then nbits8 n else 8 + nbits8 (n / 2 ^ 8)

nbits32 : ℕ → ℕ
nbits32 n = if bit_and n 0xFFFF0000 == 0 then nbits16 n else 16 + nbits16 (n / 2 ^ 16)

-- `NBITS`
unfoldable pub nbits : ℕ → ℕ
unfolding nbits2 nbits4 nbits8 nbits16 nbits32
nbits n = if n == 0 then 0 else nbits32 n

-- `EXTRACT_NBITS`
unfoldable pub extract_nbits : ℕ → ℕ → ℕ → ℕ
extract_nbits nr h l = bit_and nr (genmask h l) / 2 ^ l
