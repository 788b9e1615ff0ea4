-- ===== src/Memphy/Copy.antt =====
-- `__swap_cp_page` of src/mm.c copies one page.
use assignment_os.Base.{
  ℕ, zero, suc, ◌+◌, ◌-◌, ◌*◌, ◌^◌, ◌<◌, ◌≤◌, ◌≡◌, refl, ◌∙◌, arith, true, ◌&&◌, some, List, length,
  get_elem?, set, length-set, get_elem?-set_self, get_elem?-set_ne, get_elem?-some, ltb, leb,
  if◌then◌else◌, pos, success, done,
}
use assignment_os.Memphy.{Memphy, read, write, cell_addr, copy_cells, swap_cp_page}

-- `out` is `dst` with the cells from `first` up of page `d` replaced by those of page `s` of `src`.
abbrev pub IsPageCopy : (src dst out : List ℕ) (s d first : ℕ) → Type 0
IsPageCopy src dst out s d first =
    (j : ℕ)
    → get_elem? out j ≡ (
        if leb (d * 256 + first) j && ltb j (d * 256 + 256)
        then get_elem? src (s * 256 + (j - d * 256))
        else get_elem? dst j)

cell_addr_fits : (f i : ℕ) → f * 256 + i < 2 ^ 31 → cell_addr (pos f) i ≡ done (pos (f * 256 + i))
unfolding cell_addr
cell_addr_fits f i h = ground arith

read_found :
    (mp : Memphy) (a v : ℕ)
    → mp.rdmflg ≡ true
    → get_elem? mp.storage a ≡ some v
    → read (some mp) (pos a) ≡ done (record { code = success; device = some mp; value = some v })
unfolding read
read_found mp a v random found = ground arith

write_inside :
    (mp : Memphy) (a v : ℕ)
    → mp.rdmflg ≡ true
    → a < length mp.storage
    → write (some mp) (pos a) v ≡ done (success, some (record mp { storage = set mp.storage a v }))
unfolding write
write_inside mp a v random inside = ground arith

module _ (src dst : Memphy) (s d : ℕ) (src_random : src.rdmflg ≡ true)
    (dst_random : dst.rdmflg ≡ true) (src_fits : s * 256 + 256 ≤ length src.storage)
    (src_small : length src.storage < 2 ^ 31) where
  -- One round of the loop, inside both pages.
  copy_round :
      (left i byte v : ℕ) (bytes : List ℕ)
      → i < 256
      → d * 256 + 256 ≤ length bytes
      → length bytes < 2 ^ 31
      → get_elem? src.storage (s * 256 + i) ≡ some v
      → copy_cells
          (suc left)
          i
          byte
          (pos s)
          (pos d)
          (some src)
          (some (record dst { storage = bytes }))
        ≡ copy_cells left
            (i + 1)
            v
            (pos s)
            (pos d)
            (some src)
            (some (record dst { storage = set bytes (d * 256 + i) v }))
  unfolding copy_cells
  copy_round left i byte v bytes h fits small found =
      rw
        (
          cell_addr_fits s i (omega arith),
          cell_addr_fits d i (omega arith),
          read_found src (s * 256 + i) v src_random found,
          write_inside (record dst { storage = bytes }) (d * 256 + i) v dst_random (omega arith),
        )
        refl

  copy_cells_lem :
      (left i byte : ℕ) (bytes : List ℕ)
      → i + left ≡ 256
      → d * 256 + 256 ≤ length bytes
      → length bytes < 2 ^ 31
      → (out : List ℕ) × (copy_cells left i byte
            (pos s)
            (pos d)
            (some src)
            (some (record dst { storage = bytes }))
          ≡ done (some src, some (record dst { storage = out })))
        × (length out ≡ length bytes)
        × IsPageCopy src.storage bytes out s d i
  copy_cells_lem zero i byte bytes e fits small =
      (bytes, unfold copy_cells in refl, refl, λ j. ground arith)
  copy_cells_lem (suc left) i byte bytes e fits small =
      let (v, found) = get_elem?-some src.storage (s * 256 + i) (omega arith) in
      let bytes' = set bytes (d * 256 + i) v in
      let same : length bytes' ≡ length bytes = length-set bytes (d * 256 + i) v in
      let (out, runs, len, copied) =
        copy_cells_lem left (i + 1) v bytes' (omega arith) (omega arith) (omega arith) in
      (
        out,
        copy_round left i byte v bytes (omega arith) fits small found ∙ runs,
        len ∙ same,
        λ j. ground (
          arith,
          copied j,
          found,
          get_elem?-set_self bytes (d * 256 + i) v,
          get_elem?-set_ne bytes (d * 256 + i) j v,
        ),
      )

-- Between two random access devices, both smaller than 2 GB, a page inside each is copied: the
-- destination page becomes equal to the source page cell by cell, all other cells of the
-- destination and the whole source stay as they are.
pub swap_cp_page-IsPageCopy :
    (src dst : Memphy) (s d junk : ℕ)
    → src.rdmflg ≡ true
    → dst.rdmflg ≡ true
    → s * 256 + 256 ≤ length src.storage
    → d * 256 + 256 ≤ length dst.storage
    → length src.storage < 2 ^ 31
    → length dst.storage < 2 ^ 31
    → (out : List ℕ) × (swap_cp_page junk (some src) (pos s) (some dst) (pos d)
        ≡ done (some src, some (record dst { storage = out })))
      × (length out ≡ length dst.storage)
      × IsPageCopy src.storage dst.storage out s d 0
unfolding swap_cp_page
swap_cp_page-IsPageCopy src dst s d junk rs rd fs fd ss sd =
    copy_cells_lem src dst s d rs rd fs ss 256 0 junk dst.storage refl fd sd
