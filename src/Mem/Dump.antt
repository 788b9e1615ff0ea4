-- ===== src/Mem/Dump.antt =====
-- What `dump` of src/mem.c prints.
use native.Mathlib.Decide.{ℕ_discrete}
use mathlib.Core.Path.{subst}
use assignment_os.Base.{
  ℕ, zero, suc, ◌+◌, ◌-◌, ◌*◌, ◌/◌, ◌%◌, ◌≢◌, ◌⊎◌, ◌<◌, ◌≤◌, ◌≡◌, refl, sym, ap, ◌∙◌, arith,
  Bool-cases, inl, inr, some, List, [], ◌∷◌, ◌++◌, length, get_elem?, get_elem?-some,
  length-replicate, drop, drop-some, drop-none, get_elem?-none, replicate, All, ◌==◌, if◌then◌else◌,
  done,
}
use assignment_os.Stdio.Lines.{All-++}
use assignment_os.Mem.{page_size}
use assignment_os.Mem.Ram.{
  num_pages, ram_size, PageStat, MemState, clear, init_mem, zeroed_stat, DumpRow, page_row,
  byte_row, dump_bytes, dump_pages, dump,
}

-- The pages that are shown, in order.
abbrev pub pages_of : List DumpRow → List ℕ
pages_of [] = []
pages_of (page_row i p ∷ rows) = i ∷ pages_of rows
pages_of (byte_row j byte ∷ rows) = pages_of rows

-- The pages that a process uses, from number `i` on.
abbrev pub used : (i : ℕ) → List PageStat → List ℕ
used i [] = []
used i (p ∷ ps) = if p.proc == 0 then used (i + 1) ps else i ∷ used (i + 1) ps

-- A process uses page `i`.
abbrev pub IsUsed : MemState → (i : ℕ) → Type 0
IsUsed m i = (p : PageStat) × (get_elem? m.mem_stat i ≡ some p) × (p.proc ≢ 0)

-- What `dump` is to show at address `j`: a byte that is not 0 and not the last of its page, which a
-- process uses.
pub record IsVisible (m : MemState) (j byte : ℕ) : Type 0 where
  pub found : get_elem? m.ram j ≡ some byte
  pub nonzero : 0 < byte
  pub not_last : j % page_size < page_size - 1
  pub used : IsUsed m (j / page_size)

-- A row shows what is there.
abbrev pub RowOk : MemState → DumpRow → Type 0
RowOk m (page_row i p) = (get_elem? m.mem_stat i ≡ some p) × (p.proc ≢ 0)
RowOk m (byte_row j byte) = IsVisible m j byte

-- The row is one of those.
abbrev pub Shown : DumpRow → List DumpRow → Type 0
Shown r [] = 1 ≤ 0
Shown r (row ∷ rows) = (r ≡ row) ⊎ Shown r rows

Shown-left : (r : DumpRow) (xs ys : List DumpRow) → Shown r xs → Shown r (xs ++ ys)
Shown-left r [] ys h = absurd (omega arith)
Shown-left r (x ∷ xs) ys (inl here) = inl here
Shown-left r (x ∷ xs) ys (inr there) = inr (Shown-left r xs ys there)

Shown-right : (r : DumpRow) (xs ys : List DumpRow) → Shown r ys → Shown r (xs ++ ys)
Shown-right r [] ys h = h
Shown-right r (x ∷ xs) ys h = inr (Shown-right r xs ys h)

pages_of-++ : (xs ys : List DumpRow) → pages_of (xs ++ ys) ≡ pages_of xs ++ pages_of ys
pages_of-++ [] ys = refl
pages_of-++ (page_row i p ∷ xs) ys = ap (◌∷◌ i) (pages_of-++ xs ys)
pages_of-++ (byte_row j byte ∷ xs) ys = pages_of-++ xs ys

-- The bytes of page `i`, which is in use, from offset `c` on.
dump_bytes_lem :
    (left j i c : ℕ) (m : MemState)
    → j ≡ i * page_size + c
    → c + left ≤ page_size - 1
    → j + left ≤ length m.ram
    → IsUsed m i
    → (rows : List DumpRow) × (dump_bytes left j m ≡ done rows)
      × (pages_of rows ≡ [])
      × All (RowOk m) rows
      × ((a byte : ℕ)
          → j ≤ a
          → a < j + left
          → get_elem? m.ram a ≡ some byte
          → 0 < byte
          → Shown (byte_row a byte) rows)
unfolding dump_bytes
dump_bytes_lem zero j i c m at short inside in_use =
    ([], refl, refl, _, λ a byte from to found nonzero. absurd (omega arith))
dump_bytes_lem (suc left) j i c m at short inside in_use =
    let (byte, found) = get_elem?-some m.ram j (omega arith) in
    let (rows, shown, none_of, ok, complete) =
      dump_bytes_lem left (j + 1) i (c + 1) m (omega arith) (omega arith) (omega arith) in_use in
    let page : i ≡ j / page_size = omega arith in
    elim (Bool-cases (byte == 0)) [
      | inl blank ↦ (
        rows,
        rw (found, dump_bytes, shown, blank),
        none_of,
        ok,
        λ a b from to there nonzero. elim (ℕ_discrete j a) [
          | yes same ↦
              let here : get_elem? m.ram j ≡ some b =
                ap (λ (k : ℕ). get_elem? m.ram k) same ∙ there in
              absurd (ground (arith, found, here))
          | no differ ↦ complete a b (omega arith) (omega arith) there nonzero
        ],
      )
      | inr some_byte ↦ (
        byte_row j byte ∷ rows,
        rw (found, dump_bytes, shown, some_byte),
        none_of,
        (
          record {
            found = found;
            nonzero = ground arith;
            not_last = omega arith;
            used = subst (IsUsed m) page in_use;
          },
          ok,
        ),
        λ a b from to there nonzero. elim (ℕ_discrete j a) [
          | yes same ↦
              let here : get_elem? m.ram j ≡ some b =
                ap (λ (k : ℕ). get_elem? m.ram k) same ∙ there in
              let equal : b ≡ byte = ground (arith, found, here) in inl (rw (sym same, equal))
          | no differ ↦ inr (complete a b (omega arith) (omega arith) there nonzero)
        ],
      )
    ]

dump_pages_lem :
    (left i : ℕ) (m : MemState)
    → i + left ≡ num_pages
    → length m.mem_stat ≡ num_pages
    → length m.ram ≡ ram_size
    → (rows : List DumpRow) × (dump_pages left i m ≡ done rows)
      × (pages_of rows ≡ used i (drop i m.mem_stat))
      × All (RowOk m) rows
      × ((j byte : ℕ) → i ≤ j / page_size → IsVisible m j byte → Shown (byte_row j byte) rows)
unfolding dump_pages
dump_pages_lem zero i m e pages bytes =
    let over = drop-none m.mem_stat i (get_elem?-none m.mem_stat i (omega arith)) in
    (
      [],
      refl,
      rw over,
      _,
      λ j byte from see.
          let (p, there, _) = see.used in
          let none_there = get_elem?-none m.mem_stat (j / page_size) (omega arith) in
          absurd (ground (arith, there, none_there)),
    )
dump_pages_lem (suc left) i m e pages bytes =
    let (p, found) = get_elem?-some m.mem_stat i (omega arith) in
    let (more, shown, same, ok, complete) =
      dump_pages_lem left (i + 1) m (omega arith) pages bytes in
    let next : drop (suc i) m.mem_stat ≡ drop (i + 1) m.mem_stat =
      ap (λ (k : ℕ). drop k m.mem_stat) {x = suc i} {y = i + 1} (omega arith) in
    let here = drop-some m.mem_stat i p found ∙ ap (◌∷◌ p) next in
    elim (Bool-cases (p.proc == 0)) [
      | inl free_page ↦ (
        more,
        rw (found, dump_pages, free_page, shown),
        rw (here, free_page) same,
        ok,
        λ j byte from see. elim (ℕ_discrete i (j / page_size)) [
          | yes at ↦
              let (q, there, busy) = see.used in
              let now : get_elem? m.mem_stat i ≡ some q =
                ap (λ (k : ℕ). get_elem? m.mem_stat k) at ∙ there in
              absurd (ground (arith, found, now, free_page, busy))
          | no differ ↦ complete j byte (omega arith) see
        ],
      )
      | inr in_use ↦
          let busy : p.proc ≢ 0 = λ zero_there. ground arith in
          let (rows, bytes_shown, none_of, bytes_ok, all_bytes) =
            dump_bytes_lem (page_size - 1) (i * page_size) i 0 m (omega arith) (omega arith)
              (omega arith) (p, found, busy) in
          (
            page_row i p ∷ (rows ++ more),
            rw (found, dump_pages, in_use, bytes_shown, shown),
            rw (here, in_use) (ap (◌∷◌ i) (pages_of-++ rows more ∙ rw none_of same)),
            ((found, busy), All-++ (RowOk m) rows more bytes_ok ok),
            λ j byte from see. elim (ℕ_discrete i (j / page_size)) [
              | yes at ↦
                  let inside = see.not_last in
                  inr (
                    Shown-left (byte_row j byte) rows more
                      (all_bytes j byte (omega arith) (omega arith) see.found see.nonzero))
              | no differ ↦
                  inr (Shown-right (byte_row j byte) rows more (complete j byte (omega arith) see))
            ],
          )
    ]

-- On the whole memory `dump` is defined. It shows the pages that a process uses, each once and in
-- order, with their number and their element of `_mem_stat`, and of the bytes of these pages exactly
-- those that are not 0, each at its address, but for the last byte of each page, which is never
-- shown.
pub dump_lem :
    (m : MemState)
    → length m.mem_stat ≡ num_pages
    → length m.ram ≡ ram_size
    → (rows : List DumpRow) × (dump m ≡ done rows)
      × (pages_of rows ≡ used 0 m.mem_stat)
      × All (RowOk m) rows
      × ((j byte : ℕ) → IsVisible m j byte → Shown (byte_row j byte) rows)
unfolding dump
dump_lem m pages bytes =
    let (rows, shown, same, ok, complete) =
      dump_pages_lem num_pages 0 m (omega arith) pages bytes in
    (rows, shown, same, ok, λ j byte see. complete j byte (omega arith) see)

used-replicate : (i n : ℕ) → used i (replicate n zeroed_stat) ≡ []
used-replicate i zero = refl
used-replicate i (suc n) = used-replicate (i + 1) n

zeroed_byte : (n j byte : ℕ) → get_elem? (replicate n 0) j ≡ some byte → byte ≡ 0
zeroed_byte zero j byte h = absurd (ground arith)
zeroed_byte (suc n) zero byte h = ground arith
zeroed_byte (suc n) (suc j) byte h = zeroed_byte n j byte h

no_rows :
    (n : ℕ) (m : MemState) (rows : List DumpRow)
    → m.ram ≡ replicate n 0
    → pages_of rows ≡ []
    → All (RowOk m) rows
    → rows ≡ []
no_rows n m [] clear none_of ok = refl
no_rows n m (page_row i p ∷ rows) clear none_of ok = absurd (ground arith)
no_rows n m (byte_row j byte ∷ rows) clear none_of (see, ok) =
    let there = sym (ap (λ (bs : List ℕ). get_elem? bs j) clear) ∙ see.found in
    absurd (omega (arith, zeroed_byte n j byte there, see.nonzero))

-- What is cleared is as long as asked for.
pub length-clear :
    (n k : ℕ) (m : MemState) → (length (clear n k m).ram ≡ n) × (length (clear n k m).mem_stat ≡ k)
unfolding clear
length-clear n k m = (length-replicate n 0, length-replicate k zeroed_stat)

dump-clear : (n k : ℕ) (m : MemState) → n ≡ ram_size → k ≡ num_pages → dump (clear n k m) ≡ done []
unfolding clear
dump-clear n k m all_bytes all_pages =
    let (rows, shown, same, ok, complete) =
      dump_lem (clear n k m) (length-replicate k zeroed_stat ∙ all_pages)
        (length-replicate n 0 ∙ all_bytes) in
    let nothing = no_rows n (clear n k m) rows refl (same ∙ used-replicate 0 k) ok in
    shown ∙ ap done nothing

-- After `init_mem` nothing is shown.
dump-init_mem : (m : MemState) → dump (init_mem m) ≡ done []
unfolding init_mem
dump-init_mem m = dump-clear ram_size num_pages m refl refl
