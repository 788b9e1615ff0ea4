-- ===== src/Listing.antt =====
-- The printers of linked lists in src/mm.c: the code that they return and what is printed for each
-- node. They follow the list to its end, so a list that ends in a wild pointer is undefined
-- behaviour.
pub mod Laws
use assignment_os.Base.{
  ℕ, List, [], ◌∷◌, Chain, null, wild, node, ℤ, success, failure, Run, done, fault, ◌>>=◌,
}
use assignment_os.Process.{VmRg, VmArea}

-- The loop of each printer.
unfoldable pub list_loop {ℓ κ} : {A : Type ℓ} {B : Type κ} → (A → B) → Chain A → Run (List B)
list_loop row null = done []
list_loop row wild = fault
list_loop row (node a c) = do rows ← list_loop row c; done (row a ∷ rows)

-- An empty list is refused.
unfoldable pub print_list {ℓ κ} : {A : Type ℓ} {B : Type κ} → (A → B) → Chain A → Run (ℤ × List B)
print_list row null = done (failure, [])
print_list row wild = fault
print_list row (node a c) = do rows ← list_loop row (node a c); done (success, rows)

-- `fp[%d]`
unfoldable pub print_list_fp : Chain ℕ → Run (ℤ × List ℕ)
print_list_fp ifp = print_list (λ fpn. fpn) ifp

-- `rg[%ld->%ld]`
unfoldable pub print_list_rg : Chain VmRg → Run (ℤ × List (ℕ × ℕ))
print_list_rg irg = print_list (λ rg. (rg.rg_start, rg.rg_end)) irg

-- `va[%ld->%ld]`
unfoldable pub print_list_vma : Chain VmArea → Run (ℤ × List (ℕ × ℕ))
print_list_vma ivma = print_list (λ vma. (vma.vm_start, vma.vm_end)) ivma

-- `va[%d]-`
unfoldable pub print_list_pgn : Chain ℕ → Run (ℤ × List ℕ)
print_list_pgn ip = print_list (λ pgn. pgn) ip
