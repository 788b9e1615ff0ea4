-- ===== src/Memphy/Cursor.antt =====
-- Where `MEMPHY_mv_csr` leaves the cursor of a device.
use native.Mathlib.Nat.{mod-mod, zero-mod, mod-add-mod, mod-eq_of_lt, mod_self}
use native.Mathlib.Decide.{dec_lt}
use assignment_os.Base.{
  ℕ, zero, suc, ◌+◌, ◌-◌, ◌%◌, ◌<◌, ◌≡◌, sym, lt→ltb, le→ltb_false, ◌∙◌, ap, arith, min, Bool-cases,
  inl, inr, ltb, ◌&&◌, pos, if◌then◌else◌,
}
use assignment_os.Memphy.{Memphy, mv_csr_loop, mv_csr}

-- With more fuel than rounds the loop ends by its test, after as many rounds as are left to the
-- smaller of the offset and the size.
mv_csr_loop_lem :
    (fuel offset maxsz numstep cursor : ℕ)
    → min offset maxsz - numstep < fuel
    → cursor % maxsz ≡ cursor
    → mv_csr_loop fuel (pos offset) maxsz numstep cursor
      ≡ (cursor + (min offset maxsz - numstep)) % maxsz
unfolding mv_csr_loop
mv_csr_loop_lem zero offset maxsz numstep cursor h c = absurd (omega arith)
mv_csr_loop_lem (suc fuel) offset maxsz numstep cursor h c =
    let left = min offset maxsz - (numstep + 1) in
    elim (Bool-cases (ltb numstep offset && ltb numstep maxsz)) [
      | inl more ↦ rw more (
          mv_csr_loop_lem fuel offset maxsz (numstep + 1) ((cursor + 1) % maxsz) (ground arith)
            (mod-mod (cursor + 1) maxsz)
          ∙ mod-add-mod (cursor + 1) maxsz left
          ∙ ap (λ (t : ℕ). t % maxsz) (ground arith))
      | inr ended ↦
          let none_left : cursor + (min offset maxsz - numstep) ≡ cursor = ground arith in
          rw ended (sym (ap (λ (t : ℕ). t % maxsz) none_left ∙ c))
    ]

wrapped : (a m : ℕ) → min a m % m ≡ (if ltb a m then a else 0)
wrapped a m = elim (dec_lt a m) [
  | yes below ↦ let e : min a m ≡ a = omega arith in rw (e, mod-eq_of_lt below, lt→ltb a m below)
  | no above ↦
      let e : min a m ≡ m = omega arith in rw (e, mod_self m, le→ltb_false a m (omega arith))
]

-- The cursor moves to the address itself if that lies in the device, and else back to 0; the rest
-- of the device does not change.
mv_csr-cursor :
    (mp : Memphy) (offset : ℕ)
    → mv_csr mp (pos offset) ≡ record mp { cursor = if ltb offset mp.maxsz then offset else 0 }
unfolding mv_csr
mv_csr-cursor mp offset =
    ap (λ (c : ℕ). record mp { cursor = c })
      (mv_csr_loop_lem (mp.maxsz + 1) offset mp.maxsz 0 0 (omega arith) (zero-mod mp.maxsz)
        ∙ ap (λ (t : ℕ). t % mp.maxsz) (omega arith)
        ∙ wrapped offset mp.maxsz)
