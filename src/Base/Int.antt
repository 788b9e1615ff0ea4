-- ===== src/Base/Int.antt =====
-- The C types `int` and `uint32_t`: an `int` is an integer, a `uint32_t` a number below 2 ^ 32.
use Prim.Native.Nat.{ℕ, ◌+◌, ◌-◌, ◌%◌, ◌^◌}
use mathlib.Core.Bool.{Bool, true, false}
use assignment_os.Base.Tests.{ltb, if◌then◌else◌}

-- `negsuc n` is -(n + 1).
pub data ℤ : Type 0 where
  pos : ℕ → ℤ
  negsuc : ℕ → ℤ

-- The codes 0 and -1 that the routines return.
abbrev pub success : ℤ
success = pos 0

abbrev pub failure : ℤ
failure = negsuc 0

abbrev pub word : ℕ
word = 2 ^ 32

-- The conversion of an `int` to `uint32_t`.
abbrev pub to_u32 : ℤ → ℕ
to_u32 (pos n) = n % word
to_u32 (negsuc n) = word - 1 - n % word

-- The conversion of a `uint32_t` to `int`, as gcc defines it.
abbrev pub to_int : ℕ → ℤ
to_int w = if ltb w (2 ^ 31) then pos w else negsuc (word - 1 - w)

-- `(int)` of an `unsigned long` keeps the low 32 bits.
abbrev pub long_to_int : ℕ → ℤ
long_to_int w = to_int (w % word)

-- The conversion of an `int` to `unsigned long`.
abbrev pub to_ulong : ℤ → ℕ
to_ulong (pos n) = n % 2 ^ 64
to_ulong (negsuc n) = 2 ^ 64 - 1 - n % 2 ^ 64

abbrev pub ltb_ℤ : ℤ → ℤ → Bool
ltb_ℤ (pos a) (pos b) = ltb a b
ltb_ℤ (pos a) (negsuc b) = false
ltb_ℤ (negsuc a) (pos b) = true
ltb_ℤ (negsuc a) (negsuc b) = ltb b a

-- `BYTE` is `char`: a bit pattern below 256, with a sign where it is widened.
abbrev pub byte_to_u32 : ℕ → ℕ
byte_to_u32 b = if ltb b 128 then b else b + (word - 256)
