-- ===== src/Listing/Laws.antt =====
-- What the printers of src/mm.c show.
use assignment_os.Base.{
  ℕ, ◌+◌, ◌*◌, ◌/◌, ◌≤◌, ◌≡◌, refl, ap, ◌∙◌, arith, Bool, zero, suc, List, [], ◌∷◌, null, wild,
  chain_of, map, length, ◌<◌, pos, success, done, fault, ◌>>=◌,
}
use assignment_os.Paging.{paging_pagesz}
use assignment_os.Memphy.{Memphy, init_memphy}
use assignment_os.Memphy.Frames.{count_from, init_memphy-frames}
use assignment_os.Listing.{list_loop, print_list, print_list_fp}

list_loop-chain_of {ℓ κ} :
    {A : Type ℓ} {B : Type κ} (row : A → B) (xs : List A)
    → list_loop row (chain_of xs null) ≡ done (map row xs)
unfolding list_loop
list_loop-chain_of row [] = refl
list_loop-chain_of row (x ∷ xs) = rw (list_loop-chain_of row xs)

list_loop_wild {ℓ κ} :
    {A : Type ℓ} {B : Type κ} (row : A → B) (xs : List A) → list_loop row (chain_of xs wild) ≡ fault
unfolding list_loop
list_loop_wild row [] = refl
list_loop_wild row (x ∷ xs) = rw (list_loop_wild row xs)

-- A list that is not empty and ends in NULL is printed node by node, and the printer returns 0; one
-- that ends in a wild pointer makes it undefined.
print_list-chain_of {ℓ κ} :
    {A : Type ℓ} {B : Type κ} (row : A → B) (xs : List A)
    → 0 < length xs
    → (print_list row (chain_of xs null) ≡ done (success, map row xs))
      × (print_list row (chain_of xs wild) ≡ fault)
unfolding print_list
print_list-chain_of row [] h = absurd (omega arith)
print_list-chain_of row (x ∷ xs) h = (
  ap (λ r. r >>= (λ rows. done (success, rows))) (list_loop-chain_of row (x ∷ xs)),
  ap (λ r. r >>= (λ rows. done (success, rows))) (list_loop_wild row (x ∷ xs)),
)

map_same : (ns : List ℕ) → map (λ n. n) ns ≡ ns
map_same [] = refl
map_same (n ∷ ns) = ap (◌∷◌ n) (map_same ns)

-- The free list of a device of at least two frames, printed after `init_memphy`, shows the frames
-- that fit into the device, in order.
print_list_fp-init_memphy :
    (old : Memphy) (n : ℕ) (randomflg : Bool)
    → 2 * paging_pagesz ≤ n
    → (do mp ← init_memphy old (pos n) randomflg; print_list_fp mp.free_fp_list)
      ≡ done (success, count_from 0 (n / paging_pagesz))
unfolding print_list_fp
print_list_fp-init_memphy old n randomflg h =
    let (mp, made, _, _, listed) = init_memphy-frames old n randomflg h in
    let frames : List ℕ = count_from 0 (n / paging_pagesz) in
    let (printed, _) =
      print_list-chain_of (λ (fpn : ℕ). fpn) frames
        (omega (arith, length-count_from 0 (n / paging_pagesz))) in
    rw made (
      ap (print_list (λ (fpn : ℕ). fpn)) listed
      ∙ (printed ∙ ap (λ (ns : List ℕ). done (success, ns)) (map_same frames)))
  where
    length-count_from : (i k : ℕ) → length (count_from i k) ≡ k
    length-count_from i zero = refl
    length-count_from i (suc k) = ap suc (length-count_from (i + 1) k)
