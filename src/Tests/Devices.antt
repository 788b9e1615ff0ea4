-- ===== src/Tests/Devices.antt =====
-- Physical memory devices at concrete sizes and contents.
use assignment_os.Base.{
  ℕ, ◌≡◌, ◌≢◌, ◌↔◌, refl, arith, true, false, Option, some, List, [], ◌∷◌, length, replicate, pos,
  success, done, fault, ◌>>=◌, null, wild, node,
}
use assignment_os.Memphy.{Memphy, load, read, write, init_memphy, swap_cp_page, format}
use assignment_os.Memphy.Storage.{InStorage, read-write, access_iff}
use assignment_os.Memphy.Frames.{take_frames, take_frames-init_memphy}
use mathlib.Mathlib.Data.Multiset.Defs.{of_list}
use assignment_os.Memphy.{get_freefp, put_freefp}
use assignment_os.Memphy.Pool.{
  PoolReachable, nothing_out, later, takes, gives, frames, PoolReachable-frames,
}
use assignment_os.Memphy.Copy.{IsPageCopy, swap_cp_page-IsPageCopy}

-- Memory that was never initialised.
abbrev pub raw : Memphy
raw = record { storage = []; maxsz = 0; rdmflg = false; cursor = 9; free_fp_list = wild }

-- A RAM of two frames, its first cells written.
abbrev ram : Memphy
ram = record {
  storage = 11 ∷ 22 ∷ 33 ∷ replicate 509 0;
  maxsz = 512;
  rdmflg = true;
  cursor = 0;
  free_fp_list = node 0 (node 1 null);
}

abbrev swp : Memphy
swp = record {
  storage = replicate 1024 7;
  maxsz = 1024;
  rdmflg = true;
  cursor = 0;
  free_fp_list = node 0 null;
}

abbrev tape : Memphy
tape = record { storage = 5 ∷ 6 ∷ []; maxsz = 2; rdmflg = false; cursor = 0; free_fp_list = null }

ram_length : length ram.storage ≡ 512
ram_length = refl

swp_length : length swp.storage ≡ 1024
swp_length = refl

swap_cp_page_example :
    (out : List ℕ) × (swap_cp_page 0 (some ram) (pos 0) (some swp) (pos 2)
      ≡ done (some ram, some (record swp { storage = out })))
    × (length out ≡ length swp.storage)
    × IsPageCopy ram.storage swp.storage out 0 2 0
swap_cp_page_example =
    swap_cp_page-IsPageCopy ram swp 0 2 0 refl refl (omega (arith, ram_length))
      (omega (arith, swp_length)) (omega (arith, ram_length)) (omega (arith, swp_length))

take_frames_example :
    (mp' : Option Memphy) × ((do mp ← init_memphy raw (pos 1000) true; take_frames 5 (some mp))
      ≡ done (0 ∷ 1 ∷ 2 ∷ [], mp'))
take_frames_example = take_frames-init_memphy raw 1000 5 true (omega arith)

read-write_example :
    (mp' : Memphy) × (write (some ram) (pos 2) 99 ≡ done (success, some mp'))
    × (read (some mp') (pos 2)
        ≡ done (record { code = success; device = some mp'; value = some 99 }))
    × (load mp'.storage (pos 1) ≡ done 22)
read-write_example = read-write ram 2 1 99 refl (omega (arith, ram_length))

access_example :
    ((read (some ram) (pos 512) ≢ fault) ↔ InStorage ram (pos 512))
    × ((write (some ram) (pos 512) 1 ≢ fault) ↔ InStorage ram (pos 512))
access_example = access_iff ram (pos 512) 1 refl

-- A RAM of 512 bytes as it is set up; both frames are taken, and the first is given back.
abbrev set_up : Memphy
set_up = record {
  storage = replicate 512 0;
  maxsz = 512;
  rdmflg = true;
  cursor = 9;
  free_fp_list = node 0 (node 1 null);
}

set_up_lem : init_memphy raw (pos 512) true ≡ done set_up
unfolding init_memphy format
set_up_lem = refl

abbrev one_back : Memphy
one_back = record set_up { free_fp_list = node 0 null }

taken_and_back : PoolReachable set_up one_back (1 ∷ [])
unfolding get_freefp put_freefp
taken_and_back =
    later
      (later (later nothing_out (takes (record set_up { free_fp_list = node 1 null }) 0 refl))
        (takes (record set_up { free_fp_list = null }) 1 refl))
      (gives one_back 0 (1 ∷ []) [] refl refl)

PoolReachable_example : frames one_back (1 ∷ []) ≡ of_list (0 ∷ 1 ∷ [])
PoolReachable_example =
    PoolReachable-frames raw set_up one_back 512 true (1 ∷ []) (omega arith) set_up_lem
      taken_and_back
