-- ===== src/Memphy.antt =====
-- src/mm-memphy.c: a physical memory device and its list of free frames. A pointer to a device is
-- an `Option`, `none` for NULL. Memory allocation is taken to succeed for sizes that are not
-- negative. The fields `used_fp_list` and `owner` are never read or written, and are left out.
pub mod Storage
pub mod Cursor
pub mod Frames
pub mod Copy
pub mod Pool
use assignment_os.Base.{
  ℕ, zero, suc, ◌+◌, ◌-◌, ◌*◌, ◌/◌, ◌%◌, ◌<◌, Bool, true, false, ◌&&◌, Option, none, some, List,
  ltb, leb, ◌^◌, ltb_ℤ, ◌==◌, if◌then◌else◌, length, get_elem?, set, replicate, ℤ, pos, negsuc,
  success, failure, Run, done, fault, ◌>>=◌, Chain, null, wild, node,
}
use assignment_os.Paging.{paging_pagesz}

-- `struct memphy_struct`. `rdmflg` is the flag as the conditions read it.
pub record Memphy : Type 0 where
  pub storage : List ℕ
  pub maxsz : ℕ
  pub rdmflg : Bool
  pub cursor : ℕ
  pub free_fp_list : Chain ℕ

-- `storage[addr]`, read and written. Outside the array the behaviour is undefined.
abbrev pub load : List ℕ → ℤ → Run ℕ
load bytes (pos i) = elim (get_elem? bytes i) [ none ↦ fault | some b ↦ done b ]
load bytes (negsuc i) = fault

abbrev pub store : List ℕ → ℤ → ℕ → Run (List ℕ)
store bytes (pos i) b = if ltb i (length bytes) then done (set bytes i b) else fault
store bytes (negsuc i) b = fault

-- The loop of `MEMPHY_mv_csr`, with fuel; `mv_csr` gives one round more than it can make.
mv_csr_loop : ℕ → (offset : ℤ) (maxsz numstep cursor : ℕ) → ℕ
mv_csr_loop zero offset maxsz numstep cursor = cursor
mv_csr_loop (suc fuel) offset maxsz numstep cursor =
    let rest = mv_csr_loop fuel offset maxsz (numstep + 1) ((cursor + 1) % maxsz) in
    if ltb_ℤ (pos numstep) offset && ltb numstep maxsz then rest else cursor

unfoldable pub mv_csr : Memphy → ℤ → Memphy
unfolding mv_csr_loop
mv_csr mp offset = record mp { cursor = mv_csr_loop (mp.maxsz + 1) offset mp.maxsz 0 0 }

-- What a read gives back: the code, the device, and what `*value` is set to, if it is set.
pub record Reading : Type 0 where
  pub code : ℤ
  pub device : Option Memphy
  pub value : Option ℕ

-- What a local variable holds after a call that was given its address.
abbrev pub out_param : Option ℕ → ℕ → ℕ
out_param none before = before
out_param (some v) before = v

unfoldable pub seq_read : Option Memphy → ℤ → Run Reading
seq_read none addr = done (record { code = failure; device = none; value = none })
seq_read (some mp) addr =
    if mp.rdmflg
    then (do
      b ← load mp.storage addr
      done (record { code = success; device = some (mv_csr mp addr); value = some b }))
    else done (record { code = failure; device = some mp; value = none })

unfoldable pub read : Option Memphy → ℤ → Run Reading
unfolding seq_read
read none addr = done (record { code = failure; device = none; value = none })
read (some mp) addr =
    if mp.rdmflg
    then (do
      b ← load mp.storage addr
      done (record { code = success; device = some mp; value = some b }))
    else seq_read (some mp) addr

unfoldable pub seq_write : Option Memphy → ℤ → ℕ → Run (ℤ × Option Memphy)
seq_write none addr value = done (failure, none)
seq_write (some mp) addr value =
    if mp.rdmflg
    then (do
      bytes ← store mp.storage addr value
      done (success, some (record (mv_csr mp addr) { storage = bytes })))
    else done (failure, some mp)

unfoldable pub write : Option Memphy → ℤ → ℕ → Run (ℤ × Option Memphy)
unfolding seq_write
write none addr value = done (failure, none)
write (some mp) addr value =
    if mp.rdmflg
    then (do
      bytes ← store mp.storage addr value
      done (success, some (record mp { storage = bytes })))
    else seq_write (some mp) addr value

-- The loop of `MEMPHY_format`: `last` is the next pointer of the last node so far. That of the
-- first node is not initialised; a node that the loop adds ends the list.
append_frames : (left iter : ℕ) → (last : Chain ℕ) → Chain ℕ
append_frames zero iter last = last
append_frames (suc left) iter last = node iter (append_frames left (iter + 1) null)

unfoldable pub format : Memphy → (pagesz : ℕ) → Run (ℤ × Memphy)
unfolding append_frames
format mp pagesz =
    if pagesz == 0
    then fault
    else (let numfp = mp.maxsz / pagesz in
        if numfp == 0
        then done (failure, mp)
        else done (success, record mp { free_fp_list = node 0 (append_frames (numfp - 1) 1 wild) }))

-- The code, the device, and what `*retfpn` is set to, if it is set.
unfoldable pub get_freefp : Option Memphy → Run (ℤ × Option Memphy × Option ℕ)
get_freefp none = fault
get_freefp (some mp) = elim mp.free_fp_list [
  | null ↦ done (failure, some mp, none)
  | wild ↦ fault
  | node fpn rest ↦ done (success, some (record mp { free_fp_list = rest }), some fpn)
]

unfoldable pub put_freefp : Option Memphy → ℕ → Run (Option Memphy)
put_freefp none fpn = fault
put_freefp (some mp) fpn = done (some (record mp { free_fp_list = node fpn mp.free_fp_list }))

-- `init_memphy` on memory whose former contents are `old`: the code of `MEMPHY_format` is dropped,
-- and a random access device keeps the old cursor. A negative size makes `memset` leave the array.
unfoldable pub init_memphy : (old : Memphy) → (max_size : ℤ) → (randomflg : Bool) → Run Memphy
unfolding format
init_memphy old (negsuc n) randomflg = fault
init_memphy old (pos n) randomflg = do
  (code, mp) ← format (record old { storage = replicate n 0; maxsz = n }) paging_pagesz
  done (record mp { rdmflg = randomflg; cursor = if randomflg then mp.cursor else 0 })

-- `fpn * PAGING_PAGESZ + cellidx`, an `int` whose overflow is undefined.
unfoldable pub cell_addr : ℤ → ℕ → Run ℤ
cell_addr (pos fpn) cell =
    let addr = fpn * paging_pagesz + cell in if ltb addr (2 ^ 31) then done (pos addr) else fault
cell_addr (negsuc fpn) cell =
    let below = (fpn + 1) * paging_pagesz in
    if leb below (2 ^ 31) then done (negsuc (below - cell - 1)) else fault

-- The loop of `__swap_cp_page` in src/mm.c from cell `cellidx`, with `left` cells to go. `byte` is
-- what the local variable holds: a read that fails leaves it alone.
unfoldable pub copy_cells :
    (left cellidx byte : ℕ) (srcfpn dstfpn : ℤ) (mpsrc mpdst : Option Memphy)
    → Run (Option Memphy × Option Memphy)
unfolding cell_addr
copy_cells zero cellidx byte srcfpn dstfpn mpsrc mpdst = done (mpsrc, mpdst)
copy_cells (suc left) cellidx byte srcfpn dstfpn mpsrc mpdst = do
  addrsrc ← cell_addr srcfpn cellidx
  addrdst ← cell_addr dstfpn cellidx
  r ← read mpsrc addrsrc
  let byte' = out_param r.value byte
  (code, mpdst') ← write mpdst addrdst byte'
  copy_cells left (cellidx + 1) byte' srcfpn dstfpn r.device mpdst'

-- `__swap_cp_page` between two different devices; `junk` is the local variable as it is found.
unfoldable pub swap_cp_page :
    (junk : ℕ) (mpsrc : Option Memphy) (srcfpn : ℤ) (mpdst : Option Memphy) (dstfpn : ℤ)
    → Run (Option Memphy × Option Memphy)
swap_cp_page junk mpsrc srcfpn mpdst dstfpn =
    copy_cells paging_pagesz 0 junk srcfpn dstfpn mpsrc mpdst
