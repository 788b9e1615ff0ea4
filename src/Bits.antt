-- ===== src/Bits.antt =====
-- The binary digits of a number, and what the operators of C do to each of them.
mod Step
use Step.{bit_and_step, bit_or_step}
use native.Mathlib.Nat.{
  pow-suc, pow-succ', one-le-pow, div-div-eq-div-mul, div-add-mod, le_trans, pow-le-pow_right,
  mod-eq_of_lt,
}
use assignment_os.Base.{
  ℕ, zero, suc, ◌+◌, ◌-◌, ◌*◌, ◌/◌, ◌%◌, ◌^◌, ◌≤◌, ◌<◌, min, max, bit_and, bit_or, ◌≡◌, refl, sym,
  ◌∙◌, ap, arith, ltb, ◌==◌, if◌then◌else◌,
}

-- Digit `i`, from the lowest.
unfoldable pub bit : ℕ → ℕ → ℕ
bit zero x = x % 2
bit (suc i) x = bit i (x / 2)

pub bit_lt : (i x : ℕ) → bit i x < 2
unfolding bit
bit_lt zero x = omega arith
bit_lt (suc i) x = bit_lt i (x / 2)

bit-zero : (i : ℕ) → bit i 0 ≡ 0
unfolding bit
bit-zero zero = refl
bit-zero (suc i) = bit-zero i

pub bit-bit_and : (i x y : ℕ) → bit i (bit_and x y) ≡ min (bit i x) (bit i y)
unfolding bit
bit-bit_and zero x y = omega (arith, bit_and_step x y)
bit-bit_and (suc i) x y =
    let half : bit_and x y / 2 ≡ bit_and (x / 2) (y / 2) = omega (arith, bit_and_step x y) in
    rw half (bit-bit_and i (x / 2) (y / 2))

pub bit-bit_or : (i x y : ℕ) → bit i (bit_or x y) ≡ max (bit i x) (bit i y)
unfolding bit
bit-bit_or zero x y = omega (arith, bit_or_step x y)
bit-bit_or (suc i) x y =
    let half : bit_or x y / 2 ≡ bit_or (x / 2) (y / 2) = omega (arith, bit_or_step x y) in
    rw half (bit-bit_or i (x / 2) (y / 2))

double : (x k : ℕ) → x * 2 ^ suc k ≡ 2 * (x * 2 ^ k)
double x k = omega (arith, ap (λ (t : ℕ). x * t) (pow-suc 2 k))

-- A shift to the left.
pub bit-shl : (k i x : ℕ) → bit i (x * 2 ^ k) ≡ (if ltb i k then 0 else bit (i - k) x)
unfolding bit
bit-shl zero i x = let e : x * 2 ^ 0 ≡ x = omega arith in rw e (ground arith)
bit-shl (suc k) zero x = ground (arith, double x k)
bit-shl (suc k) (suc i) x =
    let half : x * 2 ^ suc k / 2 ≡ x * 2 ^ k = omega (arith, double x k) in
    rw half (ground (arith, bit-shl k i x))

half_shr : (k x : ℕ) → x / 2 ^ suc k ≡ x / 2 / 2 ^ k
half_shr k x = rw (pow-succ' 2 k) (sym (div-div-eq-div-mul x 2 (2 ^ k)))

half_mod : (k x : ℕ) → x % 2 ^ suc k ≡ x / 2 % 2 ^ k * 2 + x % 2
half_mod k x = rw (pow-succ' 2 k) (
    ground (
      arith,
      div-add-mod x (2 * 2 ^ k),
      div-add-mod (x / 2) (2 ^ k),
      div-div-eq-div-mul x 2 (2 ^ k),
    ))

-- A shift to the right.
pub bit-shr : (k i x : ℕ) → bit i (x / 2 ^ k) ≡ bit (i + k) x
unfolding bit
bit-shr zero i x = let e : x / 2 ^ 0 ≡ x = omega arith in rw e (ground arith)
bit-shr (suc k) i x =
    let next : i + suc k ≡ suc (i + k) = omega arith in
    rw (half_shr k x, next) (bit-shr k i (x / 2))

-- The `k` lowest digits.
pub bit-mod : (k i x : ℕ) → bit i (x % 2 ^ k) ≡ (if ltb i k then bit i x else 0)
unfolding bit
bit-mod zero i x = let e : x % 2 ^ 0 ≡ 0 = omega arith in rw (e, bit-zero i) (ground arith)
bit-mod (suc k) zero x = ground (arith, half_mod k x)
bit-mod (suc k) (suc i) x =
    let half : x % 2 ^ suc k / 2 ≡ x / 2 % 2 ^ k = omega (arith, half_mod k x) in
    rw half (ground (arith, bit-mod k i (x / 2)))

-- A mask of `k` ones.
pub bit-ones : (k i : ℕ) → bit i (2 ^ k - 1) ≡ (if ltb i k then 1 else 0)
unfolding bit
bit-ones zero i = rw (bit-zero i) (ground arith)
bit-ones (suc k) zero = ground (arith, pow-suc 2 k, one-le-pow k 2)
bit-ones (suc k) (suc i) =
    let half : (2 ^ suc k - 1) / 2 ≡ 2 ^ k - 1 = omega (arith, pow-suc 2 k, one-le-pow k 2) in
    rw half (ground (arith, bit-ones k i))

-- A complement at width `w`.
pub bit-complement :
    (w i x : ℕ) → x < 2 ^ w → bit i (2 ^ w - 1 - x) ≡ (if ltb i w then 1 - bit i x else 0)
unfolding bit
bit-complement zero i x h =
    let e : 2 ^ 0 - 1 - x ≡ 0 = omega arith in rw (e, bit-zero i) (ground arith)
bit-complement (suc w) zero x h = ground (arith, pow-suc 2 w)
bit-complement (suc w) (suc i) x h =
    let half : (2 ^ suc w - 1 - x) / 2 ≡ 2 ^ w - 1 - x / 2 = omega (arith, pow-suc 2 w) in
    rw half (ground (arith, bit-complement w i (x / 2) (omega (arith, pow-suc 2 w))))

-- Numbers of `w` digits with the same digits are equal.
eq_of_bits : (w x y : ℕ) → x < 2 ^ w → y < 2 ^ w → ((i : ℕ) → i < w → bit i x ≡ bit i y) → x ≡ y
unfolding bit
eq_of_bits zero x y hx hy h = omega arith
eq_of_bits (suc w) x y hx hy h = omega (
  arith,
  h 0 (omega arith),
  eq_of_bits w (x / 2) (y / 2) (omega (arith, pow-suc 2 w)) (omega (arith, pow-suc 2 w))
      (λ i lt. h (suc i) (omega arith)),
)

lt_two_pow : (n : ℕ) → n < 2 ^ n
lt_two_pow zero = omega arith
lt_two_pow (suc n) = omega (arith, pow-suc 2 n, lt_two_pow n)

-- Numbers with the same digits are equal.
pub eq_of_all_bits : (x y : ℕ) → ((i : ℕ) → bit i x ≡ bit i y) → x ≡ y
eq_of_all_bits x y h =
    eq_of_bits (max x y) x y (below x (omega arith)) (below y (omega arith)) (λ i lt. h i)
  where
    below : (n : ℕ) → n ≤ max x y → n < 2 ^ max x y
    below n le = le_trans (lt_two_pow n) (pow-le-pow_right {n = 2} (omega arith) le)

-- A number of `w` digits has no digit from `w` on.
pub bit_above : (w i x : ℕ) → x < 2 ^ w → w ≤ i → bit i x ≡ 0
bit_above w i x h le = ground (arith, bit-mod w i x, mod-eq_of_lt h)

pub bit_or_lt : (w x y : ℕ) → x < 2 ^ w → y < 2 ^ w → bit_or x y < 2 ^ w
bit_or_lt zero x y hx hy =
    let ex : x ≡ 0 = omega arith in let ey : y ≡ 0 = omega arith in rw (ex, ey) (omega arith)
bit_or_lt (suc w) x y hx hy = omega (
  arith,
  pow-suc 2 w,
  bit_or_step x y,
  bit_or_lt w (x / 2) (y / 2) (omega (arith, pow-suc 2 w)) (omega (arith, pow-suc 2 w)),
)

bit_and-le_fuel : (k x y : ℕ) → x ≤ k → bit_and x y ≤ x
bit_and-le_fuel zero x y h = omega (arith, bit_and_step x y, zero_case x y h)
  where
    zero_case : (x y : ℕ) → x ≤ 0 → bit_and x y ≡ 0
    zero_case zero y h =
        eq_of_all_bits (bit_and 0 y) 0 λ i. omega (arith, bit-bit_and i 0 y, bit-zero i)
    zero_case (suc x) y h = absurd (omega arith)
bit_and-le_fuel (suc k) zero y h = bit_and-le_fuel k zero y (omega arith)
bit_and-le_fuel (suc k) (suc x) y h =
    omega (arith, bit_and_step (suc x) y, bit_and-le_fuel k (suc x / 2) (y / 2) (omega arith))

pub bit_and-le : (x y : ℕ) → bit_and x y ≤ x
bit_and-le x y = bit_and-le_fuel x x y (omega arith)

pub bit_lem : (k x : ℕ) → bit k x ≡ x / 2 ^ k % 2
unfolding bit
bit_lem k x = let e : 0 + k ≡ k = omega arith in rw e at (sym (bit-shr k 0 x))
