-- ===== src/Libmem/Program.antt =====
-- The memory library leaves a process where it is in its program.
use assignment_os.Paging.{paging_pgn}
use assignment_os.Base.{>>=-eq-done, to_u32, ℕ, ◌≡◌, arith, ℤ, done}
use assignment_os.Process.{Pcb, SameProgram}
use assignment_os.Libmem.{
  liballoc, alloc_region, libread, libwrite, read_region, write_region, pg_getval, pg_setval,
  pg_getpage,
}

pub liballoc-SameProgram :
    (p q : Pcb) (size i : ℕ) (code : ℤ) → liballoc p size i ≡ done (code, q) → SameProgram p q
unfolding liballoc alloc_region
liballoc-SameProgram p q size i code h = ground arith

pg_getpage-SameProgram :
    (p q : Pcb) (pgn fpn : ℕ) (code : ℤ) → pg_getpage p pgn ≡ done (code, fpn, q) → SameProgram p q
unfolding pg_getpage
pg_getpage-SameProgram p q pgn fpn code h = ground arith

pg_getval-SameProgram :
    (p q : Pcb) (addr code : ℤ) → pg_getval p addr ≡ done (code, q) → SameProgram p q
unfolding pg_getval
pg_getval-SameProgram p q addr code h =
    let (r, got, returned) = >>=-eq-done (pg_getpage p (paging_pgn (to_u32 addr))) _ h in
    ground (arith, pg_getpage-SameProgram p r.2 (paging_pgn (to_u32 addr)) r.1 r.0 got)

pg_setval-SameProgram :
    (p q : Pcb) (addr code : ℤ) (v : ℕ) → pg_setval p addr v ≡ done (code, q) → SameProgram p q
unfolding pg_setval
pg_setval-SameProgram p q addr code v h =
    let (r, got, returned) = >>=-eq-done (pg_getpage p (paging_pgn (to_u32 addr))) _ h in
    ground (arith, pg_getpage-SameProgram p r.2 (paging_pgn (to_u32 addr)) r.1 r.0 got)

read_region-SameProgram :
    (p q : Pcb) (vmaid rgid offset code : ℤ)
    → read_region p vmaid rgid offset ≡ done (code, q)
    → SameProgram p q
unfolding read_region
read_region-SameProgram p q vmaid rgid offset code h = grind (arith, pg_getval-SameProgram)

write_region-SameProgram :
    (p q : Pcb) (vmaid rgid offset code : ℤ) (v : ℕ)
    → write_region p vmaid rgid offset v ≡ done (code, q)
    → SameProgram p q
unfolding write_region
write_region-SameProgram p q vmaid rgid offset code v h = grind (arith, pg_setval-SameProgram)

pub libread-SameProgram :
    (p q : Pcb) (source offset : ℕ) (code : ℤ)
    → libread p source offset ≡ done (code, q)
    → SameProgram p q
unfolding libread
libread-SameProgram p q source offset code h = grind (arith, read_region-SameProgram)

pub libwrite-SameProgram :
    (p q : Pcb) (byte destination offset : ℕ) (code : ℤ)
    → libwrite p byte destination offset ≡ done (code, q)
    → SameProgram p q
unfolding libwrite
libwrite-SameProgram p q byte destination offset code h = grind (arith, write_region-SameProgram)
