-- ===== src/Libmem/Release.antt =====
-- Which frames `free_pcb_memph` gives back to which device.
use mathlib.Core.Bool.{not}
use assignment_os.Base.{
  ℕ, zero, suc, ◌+◌, ◌≤◌, ◌≡◌, ap, ◌∙◌, arith, Bool, true, false, Bool-cases, inl, inr, some, List,
  [], ◌∷◌, lt→ltb, success, done, Chain, node, chain_of, if◌then◌else◌,
}
use assignment_os.Paging.{paging_max_pgn, paging_page_present, paging_fpn, paging_pte_swp}
use assignment_os.Memphy.{Memphy, put_freefp}
use assignment_os.Process.{Pcb}
use assignment_os.Libmem.{free_loop, free_pcb_memph}

-- What `pick` reads from the entries of the first `n` pages that pass the test, the last page
-- first.
abbrev pub collected : (test : ℕ → Bool) (pick pgd : ℕ → ℕ) (n : ℕ) → List ℕ
collected test pick pgd zero = []
collected test pick pgd (suc n) =
    let rest = collected test pick pgd n in if test (pgd n) then pick (pgd n) ∷ rest else rest

abbrev pub absent : ℕ → Bool
absent pte = not (paging_page_present pte)

-- The process with these free lists on its two devices.
abbrev pub with_devices : Pcb → (ram swp : Memphy) → (c d : Chain ℕ) → Pcb
with_devices caller ram swp c d = record caller {
  mram = some (record ram { free_fp_list = c });
  active_mswp = some (record swp { free_fp_list = d });
}

module _ (caller : Pcb) (ram swp : Memphy) (c d : Chain ℕ) where
  -- The process after the pages below `n`.
  abbrev after_pages : ℕ → Pcb
  after_pages n =
      with_devices caller ram swp (chain_of (collected absent paging_fpn caller.mm.pgd n) c)
        (chain_of (collected paging_page_present paging_pte_swp caller.mm.pgd n) d)

  after_present :
      (n : ℕ)
      → paging_page_present (caller.mm.pgd n) ≡ true
      → with_devices caller ram swp (chain_of (collected absent paging_fpn caller.mm.pgd n) c) (
          node
            (paging_pte_swp (caller.mm.pgd n))
            (chain_of (collected paging_page_present paging_pte_swp caller.mm.pgd n) d))
        ≡ after_pages (suc n)
  after_present n e = rw e

  after_absent :
      (n : ℕ)
      → paging_page_present (caller.mm.pgd n) ≡ false
      → with_devices caller ram swp
          (node
            (paging_fpn (caller.mm.pgd n))
            (chain_of (collected absent paging_fpn caller.mm.pgd n) c))
          (chain_of (collected paging_page_present paging_pte_swp caller.mm.pgd n) d)
        ≡ after_pages (suc n)
  after_absent n e = rw e

  free_loop_lem :
      (left n : ℕ)
      → n + left ≤ paging_max_pgn
      → free_loop left n (after_pages n) ≡ done (after_pages (n + left))
  unfolding free_loop put_freefp
  free_loop_lem zero n h = let e : n + zero ≡ n = omega arith in rw e
  free_loop_lem (suc left) n h =
      let inside = lt→ltb n paging_max_pgn (omega arith) in
      let next : n + 1 ≡ suc n = omega arith in
      let end : n + suc left ≡ suc n + left = omega arith in
      let rest = free_loop_lem left (suc n) (omega arith) in
      elim (Bool-cases (paging_page_present (caller.mm.pgd n))) [
        | inl present ↦
            rw (inside, present, next, end)
              (ap (free_loop left (suc n)) (after_present n present) ∙ rest)
        | inr gone ↦
            rw (inside, gone, next, end) (ap (free_loop left (suc n)) (after_absent n gone) ∙ rest)
      ]

-- `free_pcb_memph` takes every page of the table. For each page that is not present it gives the
-- frame number in its entry back to the RAM, and for each present page the swap offset in its
-- entry to the swap device: the reverse of where a page is.
pub free_pcb_memph_lem :
    (caller : Pcb) (ram swp : Memphy) (c d : Chain ℕ)
    → free_pcb_memph (with_devices caller ram swp c d)
      ≡ done (
        success,
        with_devices caller ram swp
            (chain_of (collected absent paging_fpn caller.mm.pgd paging_max_pgn) c)
            (chain_of
              (collected paging_page_present paging_pte_swp caller.mm.pgd paging_max_pgn)
              d),
      )
unfolding free_pcb_memph
free_pcb_memph_lem caller ram swp c d =
    let e : 0 + paging_max_pgn ≡ paging_max_pgn = omega arith in
    rw (free_loop_lem caller ram swp c d paging_max_pgn 0 (omega arith), e)
