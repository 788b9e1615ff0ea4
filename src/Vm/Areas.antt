-- ===== src/Vm/Areas.antt =====
-- Which memory area `get_vma_by_num` finds.
use assignment_os.Base.{
  ◌^◌, ◌<◌, ◌≡◌, ◌≢◌, refl, ◌∙◌, ◌⊎◌, inl, inr, ap, arith, true, false, Bool-cases, List, [], ◌∷◌,
  ◌++◌, All, ltb_ℤ, ℤ, pos, long_to_int, Run, done, fault, Chain, null, wild, node, items,
}
use assignment_os.Process.{VmArea, Mm}
use assignment_os.Vm.{walk, get_vma_by_num}

-- The number of the area, as an `int`, is below `vmaid`.
abbrev pub NumberedBelow : ℤ → VmArea → Type 0
NumberedBelow vmaid area = ltb_ℤ (long_to_int area.vm_id) vmaid ≡ true

-- A pointer to the first area of `c` whose number is at least `vmaid`.
abbrev pub FirstFrom : ℤ → Chain VmArea → Run (Chain VmArea) → Type 0
FirstFrom vmaid c r =
    (before : List VmArea) × (area : VmArea) × (rest : Chain VmArea) × (r ≡ done (node area rest))
    × (items c ≡ before ++ area ∷ items rest)
    × All (NumberedBelow vmaid) before
    × ¬ NumberedBelow vmaid area

walk_below :
    (area : VmArea) (rest : Chain VmArea) (vmaid : ℤ)
    → NumberedBelow vmaid area
    → walk (node area rest) vmaid ≡ walk rest vmaid
unfolding walk
walk_below area rest vmaid below = rw below

walk_here :
    (area : VmArea) (rest : Chain VmArea) (vmaid : ℤ)
    → ltb_ℤ (long_to_int area.vm_id) vmaid ≡ false
    → walk (node area rest) vmaid ≡ done (node area rest)
unfolding walk
walk_here area rest vmaid here = rw here

walk_lem :
    (c : Chain VmArea) (vmaid : ℤ)
    → FirstFrom vmaid c (walk c vmaid)
      ⊎ ((walk c vmaid ≡ fault) × All (NumberedBelow vmaid) (items c))
unfolding walk
walk_lem null vmaid = inr (refl, tt)
walk_lem wild vmaid = inr (refl, tt)
walk_lem (node area rest) vmaid = elim (Bool-cases (ltb_ℤ (long_to_int area.vm_id) vmaid)) [
  | inl below ↦
      let step = walk_below area rest vmaid below in
      elim (walk_lem rest vmaid) [
        | inl (before, found, tail, r, parts, small, big) ↦
            inl (area ∷ before, found, tail, step ∙ r, ap (◌∷◌ area) parts, (below, small), big)
        | inr (r, small) ↦ inr (step ∙ r, (below, small))
      ]
  | inr here ↦ inl ([], area, rest, walk_here area rest vmaid here, refl, tt, λ below. ground arith)
]

-- On a list of areas that is not empty `get_vma_by_num` returns the first area whose number is at
-- least the one asked for. If there is none its behaviour is undefined: it never returns NULL.
pub get_vma_by_num-FirstFrom :
    (mm : Mm) (vmaid : ℤ)
    → mm.mmap ≢ null
    → FirstFrom vmaid mm.mmap (get_vma_by_num mm vmaid)
      ⊎ ((get_vma_by_num mm vmaid ≡ fault) × All (NumberedBelow vmaid) (items mm.mmap))
unfolding get_vma_by_num
get_vma_by_num-FirstFrom mm vmaid some_area = by_chain mm.mmap some_area
  where
    by_chain :
        (c : Chain VmArea)
        → c ≢ null
        → FirstFrom vmaid c (get_vma_by_num (record mm { mmap = c }) vmaid)
          ⊎ ((get_vma_by_num (record mm { mmap = c }) vmaid ≡ fault)
              × All (NumberedBelow vmaid) (items c))
    by_chain null ne = absurd (ne refl)
    by_chain wild ne = inr (refl, tt)
    by_chain (node area rest) ne = walk_lem (node area rest) vmaid

-- Area 0 is the first one, whatever number it has that an `int` can hold.
pub get_vma_by_num-zero :
    (mm : Mm) (area : VmArea) (rest : Chain VmArea)
    → mm.mmap ≡ node area rest
    → area.vm_id < 2 ^ 31
    → get_vma_by_num mm (pos 0) ≡ done (node area rest)
unfolding get_vma_by_num
get_vma_by_num-zero mm area rest e small = ground arith
