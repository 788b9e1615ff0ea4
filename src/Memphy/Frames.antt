-- ===== src/Memphy/Frames.antt =====
-- The free frames of a device: what formatting lists, and in what order frames are handed out.
use native.Mathlib.Decide.{dec_lt}
use assignment_os.Base.{
  ℕ, zero, suc, ◌+◌, ◌-◌, ◌*◌, ◌/◌, ◌<◌, ◌≤◌, ◌≡◌, refl, ◌∙◌, ap, arith, Bool, Option, none, some,
  List, [], ◌∷◌, replicate, ltb, if◌then◌else◌, pos, success, Run, done, ◌>>=◌, null, wild, node,
  chain_of, take, drop, le→ltb_false,
}
use assignment_os.Paging.{paging_pagesz}
use assignment_os.Memphy.{Memphy, append_frames, format, get_freefp, put_freefp, init_memphy}

-- The numbers from `first`, `n` of them.
abbrev pub count_from : (first n : ℕ) → List ℕ
count_from first zero = []
count_from first (suc n) = first ∷ count_from (first + 1) n

append_frames_lem :
    (left iter : ℕ) → append_frames left iter null ≡ chain_of (count_from iter left) null
unfolding append_frames
append_frames_lem zero iter = refl
append_frames_lem (suc left) iter = ap (node iter) (append_frames_lem left (iter + 1))

formatted : (m : ℕ) → 2 ≤ m → node 0 (append_frames (m - 1) 1 wild) ≡ chain_of (count_from 0 m) null
unfolding append_frames
formatted zero h = absurd (omega arith)
formatted (suc zero) h = absurd (omega arith)
formatted (suc (suc m)) h =
    let e : suc (suc m) - 1 ≡ suc m = omega arith in
    rw e (ap (λ c. node 0 (node 1 c)) (append_frames_lem m 2))

-- A device of `n` bytes that holds at least two frames starts with storage of `n` zero bytes, and
-- with the frames 0, 1, 2, ... that fit into it on its free list, which ends in NULL.
pub init_memphy-frames :
    (old : Memphy) (n : ℕ) (randomflg : Bool)
    → 2 * paging_pagesz ≤ n
    → (mp : Memphy) × (init_memphy old (pos n) randomflg ≡ done mp)
      × (mp.storage ≡ replicate n 0)
      × (mp.rdmflg ≡ randomflg)
      × (mp.free_fp_list ≡ chain_of (count_from 0 (n / paging_pagesz)) null)
unfolding init_memphy format append_frames
init_memphy-frames old n randomflg h = (
  record old {
    storage = replicate n 0;
    maxsz = n;
    rdmflg = randomflg;
    cursor = if randomflg then old.cursor else 0;
    free_fp_list = node 0 (append_frames (n / paging_pagesz - 1) 1 wild);
  },
  ground arith,
  refl,
  refl,
  formatted (n / paging_pagesz) (omega arith),
)

-- A device too small for a frame keeps the free list that its memory held before, and a device
-- of one frame ends its list in a pointer that was never initialised.
init_memphy_small :
    (old : Memphy) (n : ℕ) (randomflg : Bool)
    → n < 2 * paging_pagesz
    → (mp : Memphy) × (init_memphy old (pos n) randomflg ≡ done mp)
      × (mp.free_fp_list ≡ (if ltb n paging_pagesz then old.free_fp_list else node 0 wild))
unfolding init_memphy format append_frames
init_memphy_small old n randomflg h = elim (dec_lt n paging_pagesz) [
  | yes tiny ↦ (
    record old {
      storage = replicate n 0;
      maxsz = n;
      rdmflg = randomflg;
      cursor = if randomflg then old.cursor else 0;
    },
    ground arith,
    ground arith,
  )
  | no one ↦ (
    record old {
      storage = replicate n 0;
      maxsz = n;
      rdmflg = randomflg;
      cursor = if randomflg then old.cursor else 0;
      free_fp_list = node 0 (append_frames (n / paging_pagesz - 1) 1 wild);
    },
    ground arith,
    (let single : n / paging_pagesz - 1 ≡ 0 = omega arith in
        rw (single, le→ltb_false n paging_pagesz (omega arith))),
  )
]

-- Frames taken in a row: the numbers obtained, and the device.
abbrev pub take_frames : ℕ → Option Memphy → Run (List ℕ × Option Memphy)
take_frames zero mp = done ([], mp)
take_frames (suc k) mp = do
  (code, mp', fpn) ← get_freefp mp
  (rest, mp'') ← take_frames k mp'
  done (elim fpn [ none ↦ rest | some f ↦ f ∷ rest ], mp'')

-- A frame that is put back is the next one to be handed out, and then the list is as before.
get_freefp-put_freefp :
    (mp : Memphy) (fpn : ℕ)
    → (put_freefp (some mp) fpn >>= get_freefp) ≡ done (success, some mp, some fpn)
unfolding get_freefp put_freefp
get_freefp-put_freefp mp fpn = refl

-- From a free list that ends in NULL the frames are handed out in its order, and once the list is
-- empty a further call hands out none and changes nothing.
take_frames_lem :
    (k : ℕ) (frames : List ℕ) (mp : Memphy)
    → take_frames k (some (record mp { free_fp_list = chain_of frames null }))
      ≡ done (take k frames, some (record mp { free_fp_list = chain_of (drop k frames) null }))
unfolding get_freefp
take_frames_lem zero frames mp = refl
take_frames_lem (suc k) [] mp = rw (take_frames_lem k [] mp) (nothing k)
  where
    nothing :
        (k : ℕ)
        → Path
            (Run (List ℕ × Option Memphy))
            (done (take k [], some (record mp { free_fp_list = chain_of (drop k []) null })))
            (done ([], some (record mp { free_fp_list = null })))
    nothing zero = refl
    nothing (suc k) = refl
take_frames_lem (suc k) (f ∷ frames) mp = rw (take_frames_lem k frames mp)

-- A device of `n` bytes, `n` at least two pages, hands out the frames 0, 1, 2, ... in this order
-- and none twice, up to the last that fits; a call after that hands out none.
pub take_frames-init_memphy :
    (old : Memphy) (n k : ℕ) (randomflg : Bool)
    → 2 * paging_pagesz ≤ n
    → (mp' : Option Memphy) × ((do mp ← init_memphy old (pos n) randomflg; take_frames k (some mp))
        ≡ done (take k (count_from 0 (n / paging_pagesz)), mp'))
take_frames-init_memphy old n k randomflg h =
    let (mp, made, _, _, listed) = init_memphy-frames old n randomflg h in
    let frames = count_from 0 (n / paging_pagesz) in
    (
      some (record mp { free_fp_list = chain_of (drop k frames) null }),
      rw made (
          ap (λ c. take_frames k (some (record mp { free_fp_list = c }))) listed
          ∙ take_frames_lem k frames mp),
    )
