-- ===== src/Stdio/Fields.antt =====
-- Numbers in a row, each after a space, and how C's input functions read them back.
use mathlib.Core.List.{append_assoc}
use assignment_os.Base.{
  ℕ, suc, ◌*◌, ◌<◌, ◌≤◌, ◌^◌, ◌≡◌, refl, ap, ◌∙◌, arith, Bool, false, some, List, [], ◌∷◌, ◌++◌,
  length, word, All,
}
use assignment_os.Stdio.{Bytes, scan_number, scan_numbers, then_scan, before, percent_u, percent_d}
use assignment_os.Stdio.Numbers.{
  fields, decimal, NoDigitNext, scan_number-decimal, skip_space-decimal, skip_space-space,
}
use assignment_os.Stdio.Lines.{IsPlain, All-++, length-++, digits-IsPlain, length-digits}

pub fields_stop : (ns : List ℕ) (s : Bytes) → NoDigitNext s → NoDigitNext (fields ns ++ s)
fields_stop [] s h = h
fields_stop (n ∷ ns) s h = refl

-- The next number, and those that are left.
pub scan_number-fields :
    (convert : Bool → ℕ → ℕ) (n : ℕ) (ns : List ℕ) (s : Bytes)
    → n < 2 ^ 64
    → NoDigitNext s
    → scan_number convert (fields (n ∷ ns) ++ s) ≡ (some (convert false n), fields ns ++ s)
scan_number-fields convert n ns s small stop =
    ap (scan_number convert) (ap (◌∷◌ b' ') (append_assoc (decimal n) (fields ns) s))
    ∙ scan_number-decimal convert n (b' ' ∷ (decimal n ++ (fields ns ++ s))) (fields ns ++ s) small
        (skip_space-space (decimal n ++ (fields ns ++ s)) ∙ skip_space-decimal n (fields ns ++ s))
        (fields_stop ns s stop)

-- Numbers that the conversion keeps are read back, all of them.
pub scan_numbers-fields :
    (convert : Bool → ℕ → ℕ) (ns : List ℕ) (s : Bytes)
    → All (λ n. (n < 2 ^ 64) × (convert false n ≡ n)) ns
    → NoDigitNext s
    → scan_numbers convert (length ns) (fields ns ++ s) ≡ (ns, s)
unfolding scan_numbers
scan_numbers-fields convert [] s h stop = refl
scan_numbers-fields convert (n ∷ ns) s ((small, kept), h) stop =
    ap (λ r. then_scan r (scan_numbers convert (length ns)))
      (scan_number-fields convert n ns s small stop)
    ∙ (ap (before (convert false n)) (scan_numbers-fields convert ns s h stop)
        ∙ ap (λ (m : ℕ). (m ∷ ns, s)) kept)

-- The first number of the file has no space in front.
pub scan_numbers-decimal :
    (convert : Bool → ℕ → ℕ) (n : ℕ) (ns : List ℕ) (s : Bytes)
    → All (λ m. (m < 2 ^ 64) × (convert false m ≡ m)) (n ∷ ns)
    → NoDigitNext s
    → scan_numbers convert (suc (length ns)) (decimal n ++ (fields ns ++ s)) ≡ (n ∷ ns, s)
unfolding scan_numbers
scan_numbers-decimal convert n ns s ((small, kept), h) stop =
    ap (λ r. then_scan r (scan_numbers convert (length ns)))
      (scan_number-decimal convert n (decimal n ++ (fields ns ++ s)) (fields ns ++ s) small
        (skip_space-decimal n (fields ns ++ s)) (fields_stop ns s stop))
    ∙ (ap (before (convert false n)) (scan_numbers-fields convert ns s h stop)
        ∙ ap (λ (m : ℕ). (m ∷ ns, s)) kept)

pub percent_u-word : (n : ℕ) → n < word → (n < 2 ^ 64) × (percent_u false n ≡ n)
percent_u-word n h = (omega arith, ground arith)

pub percent_d-word : (n : ℕ) → n < word → (n < 2 ^ 64) × (percent_d false n ≡ n)
percent_d-word n h = (omega arith, ground arith)

pub fields-IsPlain : (ns : List ℕ) → All IsPlain (fields ns)
fields-IsPlain [] = _
fields-IsPlain (n ∷ ns) =
    (omega arith, All-++ IsPlain (decimal n) (fields ns) (digits-IsPlain 19 n) (fields-IsPlain ns))

pub length-fields : (ns : List ℕ) → length (fields ns) ≤ 21 * length ns
length-fields [] = omega arith
length-fields (n ∷ ns) =
    omega (arith, length-++ (decimal n) (fields ns), length-digits 19 n, length-fields ns)
