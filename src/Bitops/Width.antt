-- ===== src/Bitops/Width.antt =====
-- `NBITS` of include/bitops.h: the position of the highest binary digit.
use native.Mathlib.Nat.{mod-eq_of_lt, pow-suc, one-le-pow, le-div_iff_mul-le, div-lt_iff_lt-mul}
use native.Mathlib.Decide.{dec_lt}
use assignment_os.Base.{
  ◌≢◌, ap, false, ◌∙◌, zero, suc, Bool-cases, inl, inr, ℕ, ◌+◌, ◌-◌, ◌*◌, ◌/◌, ◌^◌, ◌≤◌, ◌<◌,
  bit_and, ◌≡◌, arith, ◌==◌, if◌then◌else◌,
}
use assignment_os.Bitops.Laws.{field_mask}
use assignment_os.Bitops.{nbits2, nbits4, nbits8, nbits16, nbits32, nbits}

-- `b` is the position of the highest digit of `n`.
abbrev pub IsWidth : ℕ → ℕ → Type 0
IsWidth n b = (2 ^ b ≤ n) × (n < 2 ^ (b + 1))

two_pow_add : (k b : ℕ) → 2 ^ (k + b) ≡ 2 ^ b * 2 ^ k
two_pow_add zero b = let e : zero + b ≡ b = omega arith in rw e (omega arith)
two_pow_add (suc k) b =
    let e : suc k + b ≡ suc (k + b) = omega arith in
    rw (e, pow-suc 2 (k + b), pow-suc 2 k, two_pow_add k b) (omega arith)

-- A shift to the right by `k` moves the highest digit by `k`.
widen : (k n b : ℕ) → IsWidth (n / 2 ^ k) b → IsWidth n (k + b)
widen k n b (lo, hi) =
    let pos : 0 < 2 ^ k = one-le-pow k 2 (omega arith) in
    let e : k + b + 1 ≡ k + (b + 1) = omega arith in
    (
      rw (two_pow_add k b) ((le-div_iff_mul-le pos).0 lo),
      rw (e, two_pow_add k (b + 1)) ((div-lt_iff_lt-mul pos).0 hi),
    )

-- One level of the macro tower: from fields of `k` digits to fields of `2 * k`.
module _ (k : ℕ) (low : ℕ → ℕ) (low_lem : (n : ℕ) → 0 < n → n < 2 ^ k → IsWidth n (low n)) where
  level :
      (n : ℕ)
      → 0 < n
      → n < 2 ^ k * 2 ^ k
      → IsWidth n (if bit_and n ((2 ^ k - 1) * 2 ^ k) == 0 then low n else k + low (n / 2 ^ k))
  level n p h = elim (Bool-cases (bit_and n ((2 ^ k - 1) * 2 ^ k) == 0)) [
    | inl none_above ↦ rw none_above (low_lem n p (fits (ground arith)))
    | inr some_above ↦
        rw some_above (widen k n (low high) (low_lem high (positive (ground arith)) small))
  ]
    where
      high : ℕ
      high = n / 2 ^ k

      pos : 0 < 2 ^ k
      pos = one-le-pow k 2 (omega arith)

      small : high < 2 ^ k
      small = (div-lt_iff_lt-mul pos).1 h

      cut : bit_and n ((2 ^ k - 1) * 2 ^ k) ≡ high * 2 ^ k
      cut = rw (field_mask k k n, mod-eq_of_lt small)

      fits : bit_and n ((2 ^ k - 1) * 2 ^ k) ≡ 0 → n < 2 ^ k
      fits e =
          let zero_high : high < 1 = grind (arith, cut) in
          let below : n < 1 * 2 ^ k = (div-lt_iff_lt-mul pos).0 zero_high in omega arith

      positive : bit_and n ((2 ^ k - 1) * 2 ^ k) ≢ 0 → 0 < high
      positive ne = elim (dec_lt 0 high) [
        | yes lt ↦ lt
        | no none ↦
            let e : high ≡ 0 = omega arith in
            let nothing : 0 * 2 ^ k ≡ 0 = omega arith in
            absurd (ne (cut ∙ ap (λ (t : ℕ). t * 2 ^ k) e ∙ nothing))
      ]

width2 : (n : ℕ) → 0 < n → n < 4 → IsWidth n (nbits2 n)
unfolding nbits2
width2 zero p h = absurd (omega arith)
width2 (suc zero) p h = omega arith
width2 (suc (suc zero)) p h = omega arith
width2 (suc (suc (suc zero))) p h = omega arith
width2 (suc (suc (suc (suc n)))) p h = absurd (omega arith)

width4 : (n : ℕ) → 0 < n → n < 16 → IsWidth n (nbits4 n)
unfolding nbits4
width4 = level 2 nbits2 width2

width8 : (n : ℕ) → 0 < n → n < 256 → IsWidth n (nbits8 n)
unfolding nbits8
width8 = level 4 nbits4 width4

width16 : (n : ℕ) → 0 < n → n < 2 ^ 16 → IsWidth n (nbits16 n)
unfolding nbits16
width16 = level 8 nbits8 width8

width32 : (n : ℕ) → 0 < n → n < 2 ^ 32 → IsWidth n (nbits32 n)
unfolding nbits32
width32 = level 16 nbits16 width16

-- `NBITS(n)` of a positive `unsigned int` is the position of its highest binary digit:
-- `2 ^ NBITS(n) <= n < 2 ^ (NBITS(n) + 1)`.
pub nbits-IsWidth : (n : ℕ) → 0 < n → n < 2 ^ 32 → IsWidth n (nbits n)
unfolding nbits
nbits-IsWidth n p h = let test : (n == 0) ≡ false = ground arith in rw test (width32 n p h)
