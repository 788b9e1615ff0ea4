-- ===== src/Bits/Step.antt =====
-- The lowest binary digit of `bit_and` and `bit_or`. The native operations stand for a recursion
-- on digits with fuel; these equations drop the fuel.
use Prim.Native.Nat.{digits, bitwise, bit_and-bitwise, bit_or-bitwise}
use assignment_os.Base.{
  ℕ, zero, suc, ◌+◌, ◌*◌, ◌/◌, ◌%◌, ◌≤◌, min, max, bit_and, bit_or, ◌≡◌, refl, arith,
}

module _ (base : ℕ → ℕ) (join : ℕ → ℕ → ℕ) where
  more_fuel : (k l x y : ℕ) → x ≤ k → x ≤ l → digits base join k x y ≡ digits base join l x y
  more_fuel zero zero x y hk hl = refl
  more_fuel zero (suc l) zero y hk hl = refl
  more_fuel zero (suc l) (suc x) y hk hl = absurd (omega arith)
  more_fuel (suc k) zero zero y hk hl = refl
  more_fuel (suc k) zero (suc x) y hk hl = absurd (omega arith)
  more_fuel (suc k) (suc l) zero y hk hl = refl
  more_fuel (suc k) (suc l) (suc x) y hk hl =
      rw (more_fuel k l (suc x / 2) (y / 2) (omega arith) (omega arith))

  digit_step :
      (x y : ℕ)
      → bitwise base join (suc x) y
        ≡ bitwise base join (suc x / 2) (y / 2) * 2 + join (suc x % 2) (y % 2)
  digit_step x y =
      omega (arith, more_fuel x (suc x / 2) (suc x / 2) (y / 2) (omega arith) (omega arith))

pub bit_and_step : (x y : ℕ) → bit_and x y ≡ bit_and (x / 2) (y / 2) * 2 + min (x % 2) (y % 2)
bit_and_step zero y = simp bit_and-bitwise (omega arith)
bit_and_step (suc x) y = simp bit_and-bitwise (digit_step (λ z. 0) min x y)

pub bit_or_step : (x y : ℕ) → bit_or x y ≡ bit_or (x / 2) (y / 2) * 2 + max (x % 2) (y % 2)
bit_or_step zero y = simp bit_or-bitwise (omega arith)
bit_or_step (suc x) y = simp bit_or-bitwise (digit_step (λ z. z) max x y)
