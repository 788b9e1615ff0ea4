-- ===== src/Mem/Laws.antt =====
-- The parts of an address of src/mem.c, and what its unfinished searches come to.
use assignment_os.Base.{
  ℕ, ◌+◌, ◌*◌, ◌%◌, ◌^◌, ◌<◌, ◌≡◌, refl, arith, none, get_elem?-some, set, length, lt→ltb, pos,
  success, word, done,
}
use assignment_os.Bitops.Laws.{field_mask}
use assignment_os.Process.{Pcb}
use assignment_os.Mem.{
  get_offset, get_first_lv, get_second_lv, translate, get_trans_table, alloc_mem, read_mem,
  write_mem, alloc, read,
}

-- A 20-bit address is made up of its two levels and its offset, each in its range.
levels_split :
    (addr : ℕ)
    → addr < 2 ^ 20
    → (get_first_lv addr * 2 ^ 15 + get_second_lv addr * 2 ^ 10 + get_offset addr ≡ addr)
      × (get_first_lv addr < 2 ^ 5)
      × (get_second_lv addr < 2 ^ 5)
      × (get_offset addr < 2 ^ 10)
unfolding get_offset get_first_lv get_second_lv
levels_split addr h =
    let low = field_mask 10 0 addr in
    (omega (arith, low), omega (arith, low), omega (arith, low), omega (arith, low))

-- No address is valid: reads and writes always return 1, and no allocation succeeds.
no_memory :
    (proc : Pcb) (addr size reg_index byte : ℕ)
    → (read_mem addr proc ≡ done (pos 1, none))
      × (write_mem addr proc byte ≡ done (pos 1))
      × (alloc proc size reg_index ≡ done (pos 1, proc))
unfolding read_mem write_mem translate get_trans_table alloc alloc_mem
no_memory proc addr size reg_index byte = (refl, refl, refl)

-- The READ instruction takes the failed read for a successful one: it returns 0 and puts what its
-- local variable happens to hold into the register.
read_junk :
    (junk source offset destination : ℕ) (proc : Pcb)
    → source < length proc.regs
    → destination < length proc.regs
    → read junk proc source offset destination
      ≡ done (success, record proc { regs = set proc.regs destination junk })
unfolding read
read_junk junk source offset destination proc hs hd =
    let (base, found) = get_elem?-some proc.regs source hs in
    let missed = (no_memory proc ((base + offset) % word) 0 0 0).0 in
    ground (arith, found, missed, lt→ltb destination (length proc.regs) hd)
