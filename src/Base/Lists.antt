-- ===== src/Base/Lists.antt =====
-- C arrays as lists measured and indexed by native numbers.
use Prim.Native.Nat.{ℕ, zero, suc, ◌≤◌, ◌<◌}
use mathlib.Core.Path.{◌≡◌, refl, ap}
use mathlib.Core.Logic.{◌≢◌}
use mathlib.Core.List.{List, [], ◌∷◌}
use mathlib.Core.Option.{Option, none, some}
use native.Mathlib.Omega.{arith}

module _ {ℓ} {A : Type ℓ} where
  abbrev pub length : List A → ℕ
  length [] = 0
  length (x ∷ xs) = suc (length xs)

  abbrev pub get_elem? : List A → ℕ → Option A
  get_elem? [] i = none
  get_elem? (x ∷ xs) zero = some x
  get_elem? (x ∷ xs) (suc i) = get_elem? xs i

  -- A write out of bounds changes nothing: the models test the bound first.
  abbrev pub set : List A → ℕ → A → List A
  set [] i v = []
  set (x ∷ xs) zero v = v ∷ xs
  set (x ∷ xs) (suc i) v = x ∷ set xs i v

  abbrev pub replicate : ℕ → A → List A
  replicate zero a = []
  replicate (suc n) a = a ∷ replicate n a

  abbrev pub take : ℕ → List A → List A
  take zero xs = []
  take (suc n) [] = []
  take (suc n) (x ∷ xs) = x ∷ take n xs

  abbrev pub drop : ℕ → List A → List A
  drop zero xs = xs
  drop (suc n) [] = []
  drop (suc n) (x ∷ xs) = drop n xs

  pub length-set : (xs : List A) (i : ℕ) (v : A) → length (set xs i v) ≡ length xs
  length-set [] i v = refl
  length-set (x ∷ xs) zero v = refl
  length-set (x ∷ xs) (suc i) v = ap suc (length-set xs i v)

  pub length-replicate : (n : ℕ) (a : A) → length (replicate n a) ≡ n
  length-replicate zero a = refl
  length-replicate (suc n) a = ap suc (length-replicate n a)

  pub get_elem?-replicate : (n i : ℕ) (a : A) → i < n → get_elem? (replicate n a) i ≡ some a
  get_elem?-replicate zero i a h = elim h [ ]
  get_elem?-replicate (suc n) zero a h = refl
  get_elem?-replicate (suc n) (suc i) a h = get_elem?-replicate n i a (omega arith)

  pub get_elem?-set_self :
      (xs : List A) (i : ℕ) (v : A) → i < length xs → get_elem? (set xs i v) i ≡ some v
  get_elem?-set_self [] i v h = elim h [ ]
  get_elem?-set_self (x ∷ xs) zero v h = refl
  get_elem?-set_self (x ∷ xs) (suc i) v h = get_elem?-set_self xs i v (omega arith)

  pub get_elem?-set_ne :
      (xs : List A) (i j : ℕ) (v : A) → i ≢ j → get_elem? (set xs i v) j ≡ get_elem? xs j
  get_elem?-set_ne [] i j v h = refl
  get_elem?-set_ne (x ∷ xs) zero zero v h = absurd (h refl)
  get_elem?-set_ne (x ∷ xs) zero (suc j) v h = refl
  get_elem?-set_ne (x ∷ xs) (suc i) zero v h = refl
  get_elem?-set_ne (x ∷ xs) (suc i) (suc j) v h = get_elem?-set_ne xs i j v (λ e. h (ap suc e))

  -- Inside the bounds there is an element.
  pub get_elem?-some : (xs : List A) (i : ℕ) → i < length xs → (a : A) × (get_elem? xs i ≡ some a)
  get_elem?-some [] i h = elim h [ ]
  get_elem?-some (x ∷ xs) zero h = (x, refl)
  get_elem?-some (x ∷ xs) (suc i) h = get_elem?-some xs i (omega arith)

  pub take-length : (xs : List A) → take (length xs) xs ≡ xs
  take-length [] = refl
  take-length (x ∷ xs) = ap (◌∷◌ x) (take-length xs)

  -- The element at an index is the first of those from the index on.
  pub drop-none : (xs : List A) (i : ℕ) → get_elem? xs i ≡ none → drop i xs ≡ []
  drop-none [] zero h = refl
  drop-none [] (suc i) h = refl
  drop-none (x ∷ xs) zero h = cc
  drop-none (x ∷ xs) (suc i) h = drop-none xs i h

  pub drop-some :
      (xs : List A) (i : ℕ) (a : A) → get_elem? xs i ≡ some a → drop i xs ≡ a ∷ drop (suc i) xs
  drop-some [] i a h = cc
  drop-some (x ∷ xs) zero a h = cc
  drop-some (x ∷ xs) (suc i) a h = drop-some xs i a h

  -- Writing back what an array already holds changes nothing.
  pub set_same : (xs : List A) (i : ℕ) (a : A) → get_elem? xs i ≡ some a → set xs i a ≡ xs
  set_same [] i a h = refl
  set_same (x ∷ xs) zero a h = cc
  set_same (x ∷ xs) (suc i) a h = ap (◌∷◌ x) (set_same xs i a h)

  -- Outside there is none.
  pub get_elem?-none : (xs : List A) (i : ℕ) → length xs ≤ i → get_elem? xs i ≡ none
  get_elem?-none [] i h = refl
  get_elem?-none (x ∷ xs) zero h = absurd (omega arith)
  get_elem?-none (x ∷ xs) (suc i) h = get_elem?-none xs i (omega arith)

  -- An index with an element is inside.
  pub inside_of : (xs : List A) (i : ℕ) (a : A) → get_elem? xs i ≡ some a → i < length xs
  inside_of [] i a h = absurd (ground arith)
  inside_of (x ∷ xs) zero a h = omega arith
  inside_of (x ∷ xs) (suc i) a h = let rest = inside_of xs i a h in omega arith

  -- An index without one is outside.
  pub outside_of : (xs : List A) (i : ℕ) → get_elem? xs i ≡ none → length xs ≤ i
  outside_of [] i h = omega arith
  outside_of (x ∷ xs) zero h = absurd (ground arith)
  outside_of (x ∷ xs) (suc i) h = let rest = outside_of xs i h in omega arith

-- Every element satisfies the predicate.
abbrev pub All {ℓ κ} : {A : Type ℓ} → (A → Type κ) → List A → Type κ
All P [] = Unit
All P (x ∷ xs) = P x × All P xs

module _ {ℓ κ} {A : Type ℓ} {B : Type κ} (f : A → B) where
  abbrev pub map : List A → List B
  map [] = []
  map (x ∷ xs) = f x ∷ map xs

  pub map-set : (xs : List A) (i : ℕ) (a : A) → map (set xs i a) ≡ set (map xs) i (f a)
  map-set [] i a = refl
  map-set (x ∷ xs) zero a = refl
  map-set (x ∷ xs) (suc i) a = ap (◌∷◌ (f x)) (map-set xs i a)

  pub get_elem?-map :
      (xs : List A) (i : ℕ) (a : A) → get_elem? xs i ≡ some a → get_elem? (map xs) i ≡ some (f a)
  get_elem?-map [] i a h = cc
  get_elem?-map (x ∷ xs) zero a h = cc
  get_elem?-map (x ∷ xs) (suc i) a h = get_elem?-map xs i a h

  -- What stands in the image comes from somewhere.
  pub get_elem?-map_inv :
      (xs : List A) (i : ℕ) (b : B)
      → get_elem? (map xs) i ≡ some b
      → (a : A) × (get_elem? xs i ≡ some a) × (f a ≡ b)
  get_elem?-map_inv [] i b h = cc
  get_elem?-map_inv (x ∷ xs) zero b h = (x, refl, cc)
  get_elem?-map_inv (x ∷ xs) (suc i) b h = get_elem?-map_inv xs i b h
