-- ===== src/Stdio/Numbers.antt =====
-- Numbers in decimal, and how C's input functions read them back.
use assignment_os.Base.{
  ℕ, zero, suc, ◌+◌, ◌-◌, ◌*◌, ◌/◌, ◌%◌, ◌^◌, ◌<◌, ◌≤◌, ◌≡◌, refl, sym, ap, ◌∙◌, arith, Bool, true,
  false, some, List, [], ◌∷◌, ◌++◌, ltb, ◌==◌, if◌then◌else◌, Bool-cases, inl, inr,
}
use mathlib.Core.List.{append_assoc}
use native.Mathlib.Nat.{pow-suc}
use assignment_os.Stdio.{
  Bytes, is_digit, skip_space, take_digits, number, signed, stored, scan_number,
}

-- The decimal digits of `n`, at most `k + 1` of them.
unfoldable pub digits : (k n : ℕ) → Bytes
digits zero n = (b'0' + n % 10) ∷ []
digits (suc k) n =
    let front = digits k (n / 10) in
    if ltb n 10 then (b'0' + n) ∷ [] else front ++ ((b'0' + n % 10) ∷ [])

-- Ten digits are enough for 32 bits, and twenty for 64.
abbrev pub decimal : ℕ → Bytes
decimal n = digits 19 n

-- Numbers, each after a space.
abbrev pub fields : List ℕ → Bytes
fields [] = []
fields (n ∷ ns) = b' ' ∷ (decimal n ++ fields ns)

-- The text goes on with a byte that is no digit, or ends.
abbrev pub NoDigitNext : Bytes → Type 0
NoDigitNext [] = 0 ≤ 0
NoDigitNext (c ∷ s) = is_digit c ≡ false

take_digits_end : (s : Bytes) (n : ℕ) → NoDigitNext s → take_digits s n ≡ (n, s)
unfolding take_digits
take_digits_end [] n h = refl
take_digits_end (c ∷ s) n h = rw h

take_digits-digit :
    (d a : ℕ) (s : Bytes) → d < 10 → take_digits ((b'0' + d) ∷ s) a ≡ take_digits s (a * 10 + d)
unfolding take_digits
take_digits-digit d a s h =
    let yes : is_digit (b'0' + d) ≡ true = ground arith in
    let value : b'0' + d - b'0' ≡ d = omega arith in rw (yes, value)

tenth_lt : (k n : ℕ) → n < 10 ^ (suc k + 1) → n / 10 < 10 ^ (k + 1)
tenth_lt k n h =
    let e : suc k + 1 ≡ suc (k + 1) = omega arith in
    let power : 10 ^ (suc k + 1) ≡ 10 ^ (k + 1) * 10 =
      ap (λ (m : ℕ). 10 ^ m) e ∙ pow-suc 10 (k + 1) in
    omega arith

take_digits-digits :
    (k n : ℕ) (s : Bytes) → n < 10 ^ (k + 1) → take_digits (digits k n ++ s) 0 ≡ take_digits s n
unfolding digits
take_digits-digits zero n s h =
    take_digits-digit (n % 10) 0 s (omega arith) ∙ ap (take_digits s) (omega arith)
take_digits-digits (suc k) n s h = elim (Bool-cases (ltb n 10)) [
  | inl small ↦ rw small (take_digits-digit n 0 s (ground arith) ∙ ap (take_digits s) (omega arith))
  | inr big ↦
      let low : n / 10 < 10 ^ (k + 1) = tenth_lt k n h in
      rw (big, append_assoc (digits k (n / 10)) ((b'0' + n % 10) ∷ []) s)
        (take_digits-digits k (n / 10) ((b'0' + n % 10) ∷ s) low
          ∙ (take_digits-digit (n % 10) (n / 10) s (omega arith)
              ∙ ap (take_digits s) (omega arith)))
]

-- The digits begin with a digit.
digits_first :
    (k n : ℕ) (s : Bytes) → (c : ℕ) × (t : Bytes) × (digits k n ++ s ≡ c ∷ t) × (is_digit c ≡ true)
unfolding digits
digits_first zero n s = (b'0' + n % 10, s, refl, ground arith)
digits_first (suc k) n s = elim (Bool-cases (ltb n 10)) [
  | inl small ↦ (b'0' + n, s, rw small, ground arith)
  | inr big ↦
      let (c, t, e, digit) = digits_first k (n / 10) ((b'0' + n % 10) ∷ s) in
      (c, t, rw (big, append_assoc (digits k (n / 10)) ((b'0' + n % 10) ∷ []) s) e, digit)
]

number-digits :
    (k n : ℕ) (s : Bytes)
    → n < 10 ^ (k + 1)
    → NoDigitNext s
    → number (digits k n ++ s) ≡ (some n, s)
unfolding number
number-digits k n s h stop =
    let (c, t, e, digit) = digits_first k n s in
    let read =
      sym (ap (λ u. take_digits u 0) e) ∙ (take_digits-digits k n s h ∙ take_digits_end s n stop) in
    rw (e, digit, read)

skip_space_digit : (c : ℕ) (s : Bytes) → is_digit c ≡ true → skip_space (c ∷ s) ≡ c ∷ s
unfolding skip_space
skip_space_digit c s h = ground arith

signed-decimal :
    (n : ℕ) (s : Bytes)
    → n < 2 ^ 64
    → NoDigitNext s
    → signed (decimal n ++ s) ≡ (false, (some n, s))
unfolding signed
signed-decimal n s h stop =
    let (c, t, e, digit) = digits_first 19 n s in
    let plus : (c == b'+') ≡ false = ground arith in
    let minus : (c == b'-') ≡ false = ground arith in
    let read = sym (ap number e) ∙ number-digits 19 n s (omega arith) stop in
    rw (e, signed, minus, plus, read)

-- A number in decimal is read back, after white space or none.
pub scan_number-decimal :
    (convert : Bool → ℕ → ℕ) (n : ℕ) (before s : Bytes)
    → n < 2 ^ 64
    → skip_space before ≡ decimal n ++ s
    → NoDigitNext s
    → scan_number convert before ≡ (some (convert false n), s)
unfolding scan_number
scan_number-decimal convert n before s h at_number stop =
    ap (λ (u : Bytes). stored convert (signed u)) at_number
    ∙ ap (stored convert) (signed-decimal n s h stop)

pub skip_space-space : (s : Bytes) → skip_space (b' ' ∷ s) ≡ skip_space s
unfolding skip_space
skip_space-space s = refl

-- A decimal has no white space in front.
pub skip_space-decimal : (n : ℕ) (s : Bytes) → skip_space (decimal n ++ s) ≡ decimal n ++ s
skip_space-decimal n s =
    let (c, t, e, digit) = digits_first 19 n s in
    ap skip_space e ∙ (skip_space_digit c t digit ∙ sym e)
