-- ===== src/Memphy/Pool.antt =====
-- The free list of a device of src/mm-memphy.c as a pool of frames: what `MEMPHY_get_freefp` hands
-- out and `MEMPHY_put_freefp` takes back, as multisets, which forget the order of the list.
use mathlib.Core.List.{perm_middle, append_assoc, append-nil}
use mathlib.Core.Quot.{sound}
use mathlib.Mathlib.Data.Multiset.Defs.{Multiset, of_list}
use assignment_os.Base.{
  ℕ, ◌*◌, ◌/◌, ◌≤◌, ◌≡◌, refl, sym, ap, ◌∙◌, arith, Bool, some, List, [], ◌∷◌, ◌++◌, Chain, null,
  wild, node, items, chain_of, pos, success, done,
}
use assignment_os.Paging.{paging_pagesz}
use assignment_os.Memphy.{Memphy, get_freefp, put_freefp, init_memphy}
use assignment_os.Memphy.Frames.{count_from, init_memphy-frames}

-- A device and the frames that it has handed out. A user gives back only a frame that was handed
-- out and not given back since.
pub data PoolStep (mp : Memphy) (out : List ℕ) : Memphy → List ℕ → Type 0 where
  takes :
      (mp' : Memphy) (fpn : ℕ)
      → get_freefp (some mp) ≡ done (success, some mp', some fpn)
      → PoolStep mp out mp' (fpn ∷ out)
  gives :
      (mp' : Memphy) (fpn : ℕ) (newer older : List ℕ)
      → out ≡ newer ++ (fpn ∷ older)
      → put_freefp (some mp) fpn ≡ done (some mp')
      → PoolStep mp out mp' (newer ++ older)

pub data PoolReachable (start : Memphy) : Memphy → List ℕ → Type 0 where
  nothing_out : PoolReachable start start []
  later :
      {mp mp' : Memphy} {out out' : List ℕ}
      → PoolReachable start mp out
      → PoolStep mp out mp' out'
      → PoolReachable start mp' out'

-- The frames on the free list and those handed out, together.
abbrev pub frames : Memphy → List ℕ → Multiset ℕ
frames mp out = of_list (items mp.free_fp_list ++ out)

get_freefp_items :
    (mp mp' : Memphy) (fpn : ℕ)
    → get_freefp (some mp) ≡ done (success, some mp', some fpn)
    → items mp.free_fp_list ≡ fpn ∷ items mp'.free_fp_list
unfolding get_freefp
get_freefp_items mp mp' fpn h = by_list mp.free_fp_list refl
  where
    by_list :
        (c : Chain ℕ) → mp.free_fp_list ≡ c → items mp.free_fp_list ≡ fpn ∷ items mp'.free_fp_list
    by_list null e = absurd (ground arith)
    by_list wild e = absurd (ground arith)
    by_list (node f rest) e =
        let same : f ≡ fpn = ground arith in
        let next : rest ≡ mp'.free_fp_list = ground arith in ap items e ∙ rw (same, next)

put_freefp_items :
    (mp mp' : Memphy) (fpn : ℕ)
    → put_freefp (some mp) fpn ≡ done (some mp')
    → items mp'.free_fp_list ≡ fpn ∷ items mp.free_fp_list
unfolding put_freefp
put_freefp_items mp mp' fpn h =
    let eq : record mp { free_fp_list = node fpn mp.free_fp_list } ≡ mp' = ground arith in
    sym (ap (λ (m : Memphy). items m.free_fp_list) eq)

PoolStep-frames :
    (mp mp' : Memphy) (out out' : List ℕ)
    → PoolStep mp out mp' out'
    → frames mp' out' ≡ frames mp out
PoolStep-frames mp mp' out out' (takes m fpn h) =
    let first = get_freefp_items mp mp' fpn h in
    rw first (sound (perm_middle (items mp'.free_fp_list) out))
PoolStep-frames mp mp' out out' (gives m fpn newer older split h) =
    let first = put_freefp_items mp mp' fpn h in
    let kept = items mp.free_fp_list in
    rw (first, split)
      (ap (λ (fs : List ℕ). of_list (fpn ∷ fs)) (sym (append_assoc kept newer older))
        ∙ (sym (sound (perm_middle (kept ++ newer) older))
            ∙ ap of_list (append_assoc kept newer (fpn ∷ older))))

pool_kept :
    (start mp : Memphy) (out : List ℕ)
    → PoolReachable start mp out
    → frames mp out ≡ of_list (items start.free_fp_list)
pool_kept start mp out nothing_out = ap of_list (append-nil (items start.free_fp_list))
pool_kept start mp out (later {mp = m} {out = o} before step) =
    PoolStep-frames m mp o out step ∙ pool_kept start m o before

items-chain_of : (fs : List ℕ) → items (chain_of fs null) ≡ fs
items-chain_of [] = refl
items-chain_of (f ∷ fs) = ap (◌∷◌ f) (items-chain_of fs)

-- From a device that `init_memphy` has set up for at least two pages on, whatever frames are taken,
-- and given back by users that give back only what they hold: the frames on the free list and those
-- handed out are together the numbers of the pages that fit, 0, 1, 2, ..., each once. So none is
-- lost, and none is handed out to two users at a time.
pub PoolReachable-frames :
    (old start mp : Memphy) (n : ℕ) (randomflg : Bool) (out : List ℕ)
    → 2 * paging_pagesz ≤ n
    → init_memphy old (pos n) randomflg ≡ done start
    → PoolReachable start mp out
    → frames mp out ≡ of_list (count_from 0 (n / paging_pagesz))
PoolReachable-frames old start mp n randomflg out enough ok reached =
    let (set_up, there, _, _, free) = init_memphy-frames old n randomflg enough in
    let same : set_up ≡ start = ground arith in
    pool_kept start mp out reached
    ∙ ap of_list (
        ap (λ (m : Memphy). items m.free_fp_list) (sym same)
        ∙ (ap items free ∙ items-chain_of (count_from 0 (n / paging_pagesz))))
