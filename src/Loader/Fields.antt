-- ===== src/Loader/Fields.antt =====
-- How the loader reads the arguments of an instruction back.
use assignment_os.Base.{
  ℕ, ◌<◌, ◌≡◌, refl, ap, ◌∙◌, arith, true, some, List, [], ◌∷◌, ◌++◌, ◌==◌, length, word, All, done,
}
use assignment_os.Process.{Inst}
use assignment_os.Stdio.{Bytes, skip_space, scan_numbers, percent_u, percent_d, take_line}
use assignment_os.Stdio.Numbers.{fields}
use assignment_os.Stdio.Lines.{All-++, All-weaken, take_line-plain, c_string-nonzero}
use assignment_os.Stdio.Fields.{
  scan_numbers-fields, percent_u-word, percent_d-word, fields-IsPlain, length-fields,
}
use assignment_os.Loader.{Scanner, store_args, scan_args, line_read, scan_syscall}

pub scan_args-fields :
    (ns : List ℕ) (ins : Inst) (sc : Scanner) (s : Bytes)
    → All (λ n. n < word) ns
    → sc.file ≡ fields ns ++ (10 ∷ s)
    → scan_args (length ns) ins sc ≡ (store_args ins ns, record sc { file = skip_space (10 ∷ s) })
unfolding scan_args
scan_args-fields ns ins sc s h e =
    let got = scan_numbers-fields percent_u ns (10 ∷ s) (All-weaken ns percent_u-word h) refl in
    let same : (length ns == length ns) ≡ true = ground arith in rw (e, got, same)

pub scan_syscall-fields :
    (a b c d : ℕ) (ins : Inst) (sc : Scanner) (s : Bytes)
    → let ns = a ∷ b ∷ c ∷ d ∷ [] in
      All (λ n. n < word) ns
      → sc.file ≡ fields ns ++ (10 ∷ s)
      → scan_syscall ins sc
        ≡ done (store_args ins ns, record sc { buf = some (fields ns ++ (10 ∷ [])); file = s })
unfolding scan_syscall
scan_syscall-fields a b c d ins sc s h e =
    let ns : List ℕ = a ∷ b ∷ c ∷ d ∷ [] in
    let line =
      take_line-plain 199 (fields ns) s (fields-IsPlain ns) (omega (arith, length-fields ns)) in
    let text = c_string-nonzero (fields ns ++ (10 ∷ [])) (
      All-++ (λ c. 0 < c) (fields ns) (10 ∷ [])
        (All-weaken (fields ns) (λ x p. omega arith) (fields-IsPlain ns)) (omega arith, _)) in
    let got = scan_numbers-fields percent_d ns (10 ∷ []) (All-weaken ns percent_d-word h) refl in
    let values =
      ap (λ (u : Bytes). (scan_numbers percent_d 4 u).0) text
      ∙ ap (λ (r : List ℕ × Bytes). r.0) got in
    ap (λ (f : Bytes). line_read ins sc (take_line 199 f)) e
    ∙ (ap (line_read ins sc) line
        ∙ ap
            (λ (vs : List ℕ).
              done (store_args ins vs, record sc { buf = some (fields ns ++ (10 ∷ [])); file = s }))
            values)
