-- ===== src/Base/Chains.antt =====
-- Singly linked lists as the pointer to the first node sees them. Each node has one owner, so a
-- chain stands for the pointer and all that it reaches.
use mathlib.Core.Path.{◌≡◌, refl}
use mathlib.Core.Logic.{◌≢◌, ◌⊎◌, inl, inr}
use mathlib.Core.Bool.{Bool, true, false}
use mathlib.Core.List.{List, [], ◌∷◌}

-- `wild` is a pointer that may not be followed: never initialised, or freed.
pub data Chain {ℓ} (A : Type ℓ) : Type ℓ where
  null : Chain A
  wild : Chain A
  node : A → Chain A → Chain A

module _ {ℓ} {A : Type ℓ} where
  -- The values up to the end of the chain, whatever its last pointer is.
  abbrev pub items : Chain A → List A
  items null = []
  items wild = []
  items (node a c) = a ∷ items c

  -- A list that ends in the pointer `last`.
  abbrev pub chain_of : List A → Chain A → Chain A
  chain_of [] last = last
  chain_of (a ∷ as') last = node a (chain_of as' last)

  -- The list ends in NULL.
  abbrev pub ends_in_null : Chain A → Bool
  ends_in_null null = true
  ends_in_null wild = false
  ends_in_null (node a c) = ends_in_null c

  pub ends_in_null-cases :
      (c : Chain A)
      → ends_in_null c ≡ true
      → (c ≡ null) ⊎ ((a : A) × (rest : Chain A) × (c ≡ node a rest) × (ends_in_null rest ≡ true))
  ends_in_null-cases null h = inl refl
  ends_in_null-cases wild h = absurd cc
  ends_in_null-cases (node a c) h = inr (a, c, refl, h)

  -- A pointer that may be followed is NULL or reaches a node.
  pub Chain-cases :
      (c : Chain A) → c ≢ wild → (c ≡ null) ⊎ ((a : A) × (rest : Chain A) × (c ≡ node a rest))
  Chain-cases null h = inl refl
  Chain-cases wild h = absurd (h refl)
  Chain-cases (node a c) h = inr (a, c, refl)
