-- ===== src/Stdio/Lines.antt =====
-- Words, lines and C strings.
use assignment_os.Base.{
  ℕ, zero, suc, ◌+◌, ◌/◌, ◌%◌, ◌<◌, ◌≤◌, ◌≡◌, refl, arith, false, List, [], ◌∷◌, ◌++◌, ltb, ◌==◌,
  length, All, Bool-cases, inl, inr,
}
use assignment_os.Stdio.{Bytes, take_line, c_string}
use assignment_os.Stdio.Numbers.{digits}

-- A byte that neither ends a line nor a string.
abbrev pub IsPlain : ℕ → Type 0
IsPlain c = b' ' ≤ c

pub All-++ {ℓ κ} :
    {A : Type ℓ} (P : A → Type κ) (xs ys : List A) → All P xs → All P ys → All P (xs ++ ys)
All-++ P [] ys hx hy = hy
All-++ P (x ∷ xs) ys (h, hx) hy = (h, All-++ P xs ys hx hy)

pub length-++ {ℓ} : {A : Type ℓ} (xs ys : List A) → length (xs ++ ys) ≡ length xs + length ys
length-++ [] ys = omega arith
length-++ (x ∷ xs) ys = omega (arith, length-++ xs ys)

pub take_line-plain :
    (room : ℕ) (line s : Bytes)
    → All IsPlain line
    → length line < room
    → take_line room (line ++ (10 ∷ s)) ≡ (line ++ (10 ∷ []), s)
unfolding take_line
take_line-plain zero line s plain h = absurd (omega arith)
take_line-plain (suc room) [] s plain h = refl
take_line-plain (suc room) (c ∷ line) s (here, plain) h =
    let on : (c == 10) ≡ false = ground arith in
    rw (take_line-plain room line s plain (omega arith), on)

pub c_string-nonzero : (s : Bytes) → All (λ c. 0 < c) s → c_string s ≡ s
unfolding c_string
c_string-nonzero [] h = refl
c_string-nonzero (c ∷ s) (here, h) =
    let on : (c == 0) ≡ false = ground arith in rw (c_string-nonzero s h, on)

pub All-weaken {ℓ κ} :
    {A : Type ℓ} {P Q : A → Type κ} (xs : List A) → ((a : A) → P a → Q a) → All P xs → All Q xs
All-weaken [] f h = h
All-weaken (x ∷ xs) f (here, h) = (f x here, All-weaken xs f h)

pub digits-IsPlain : (k n : ℕ) → All IsPlain (digits k n)
unfolding digits
digits-IsPlain zero n = (omega arith, _)
digits-IsPlain (suc k) n = elim (Bool-cases (ltb n 10)) [
  | inl small ↦ rw small (omega arith, _)
  | inr big ↦ rw big (
      All-++ IsPlain (digits k (n / 10)) ((b'0' + n % 10) ∷ []) (digits-IsPlain k (n / 10))
        (omega arith, _))
]

pub length-digits : (k n : ℕ) → length (digits k n) ≤ k + 1
unfolding digits
length-digits zero n = omega arith
length-digits (suc k) n = elim (Bool-cases (ltb n 10)) [
  | inl small ↦ rw small (omega arith)
  | inr big ↦
      let front = length-digits k (n / 10) in
      let all = length-++ (digits k (n / 10)) ((b'0' + n % 10) ∷ []) in rw big (omega arith)
]
