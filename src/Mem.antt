-- ===== src/Mem.antt =====
-- src/mem.c, the memory of builds without MM_PAGING, and the functions of src/cpu.c that call it.
-- Its searches are unfinished: the table of a segment is never found, so no access reaches `_ram`,
-- which stands with `_mem_stat` in Mem/Ram. What a loop with an empty body counts to is left out.
pub mod Laws
pub mod Ram
pub mod Dump
use assignment_os.Base.{
  ℕ, zero, suc, ◌+◌, ◌-◌, ◌*◌, ◌/◌, ◌%◌, ◌^◌, bit_and, Bool, true, false, Option, none, some, List,
  [], ◌∷◌, get_elem?, set, length, ltb, ◌==◌, if◌then◌else◌, ℤ, pos, success, word, Run, done,
  fault, ◌>>=◌,
}
use assignment_os.Bitops.{all_ones}
use assignment_os.Process.{Pcb}
use assignment_os.Vm.{is_zero}

abbrev pub offset_len : ℕ
offset_len = 10

abbrev pub page_len : ℕ
page_len = 5

-- `PAGE_SIZE`
abbrev pub page_size : ℕ
page_size = 2 ^ offset_len

unfoldable pub get_offset : ℕ → ℕ
get_offset addr = bit_and addr (all_ones - all_ones * 2 ^ offset_len % word)

unfoldable pub get_first_lv : ℕ → ℕ
get_first_lv addr = addr / 2 ^ (offset_len + page_len)

-- The difference of two `uint32_t`.
unfoldable pub get_second_lv : ℕ → ℕ
get_second_lv addr = (addr / 2 ^ offset_len + word - get_first_lv addr * 2 ^ page_len % word) % word

-- `struct trans_table_t`: the virtual and physical index of each row.
pub record TransTable : Type 0 where
  pub table : List (ℕ × ℕ)
  pub size : ℕ

unfoldable pub get_trans_table : (index page_table_size : ℕ) → Option TransTable
get_trans_table index page_table_size = none

-- The loop of `translate`: whether a row from index `i` on, of `left`, has the virtual index.
find_row : (left i : ℕ) → TransTable → (second_lv : ℕ) → Run Bool
find_row zero i t second_lv = done false
find_row (suc left) i t second_lv = elim (get_elem? t.table i) [
  | none ↦ fault
  | some (v_index, p_index) ↦
      let rest = find_row left (i + 1) t second_lv in
      if v_index == second_lv then done true else rest
]

-- `translate`: whether it returns 1. It never sets `*physical_addr`.
unfoldable pub translate : (virtual_addr : ℕ) → Pcb → Run Bool
unfolding find_row
translate virtual_addr proc =
    elim (get_trans_table (get_first_lv virtual_addr) proc.page_table_size) [
      | none ↦ done false
      | some t ↦ find_row t.size 0 t (get_second_lv virtual_addr)
    ]

-- `alloc_mem`: `mem_avail` is 0 and nothing sets it.
unfoldable pub alloc_mem : (size : ℕ) → Pcb → ℕ × Pcb
alloc_mem size proc =
    let num_pages : ℕ = if size % page_size == 0 then size / page_size + 1 else size / page_size in
    let mem_avail : ℕ = 0 in
    if mem_avail == 0
    then (0, proc)
    else (proc.bp, record proc { bp = (proc.bp + num_pages * page_size) % word })

unfoldable pub free_mem : (address : ℕ) → Pcb → ℤ
free_mem address proc = success

-- `read_mem`: the code, and what `*data` is set to, if it is set. A physical address that was never
-- set is not read.
unfoldable pub read_mem : (address : ℕ) → Pcb → Run (ℤ × Option ℕ)
read_mem address proc = do
  valid ← translate address proc
  if valid then fault else done (pos 1, none)

unfoldable pub write_mem : (address : ℕ) → Pcb → (data' : ℕ) → Run ℤ
write_mem address proc data' = do
  valid ← translate address proc
  if valid then fault else done (pos 1)

-- `proc->regs[i]`, read and written.
abbrev reg : Pcb → ℕ → Run ℕ
reg proc i = elim (get_elem? proc.regs i) [ none ↦ fault | some r ↦ done r ]

abbrev set_reg : Pcb → ℕ → ℕ → Run Pcb
set_reg proc i v =
    if ltb i (length proc.regs) then done (record proc { regs = set proc.regs i v }) else fault

-- `alloc` of src/cpu.c.
unfoldable pub alloc : Pcb → (size reg_index : ℕ) → Run (ℤ × Pcb)
alloc proc size reg_index =
    let (addr, proc') = alloc_mem size proc in
    if addr == 0
    then done (pos 1, proc')
    else (do proc'' ← set_reg proc' reg_index addr; done (success, proc''))

unfoldable pub free_data : Pcb → (reg_index : ℕ) → Run ℤ
free_data proc reg_index = do address ← reg proc reg_index; done (free_mem address proc)

-- `read` of src/cpu.c; `junk` is what its local variable holds, extended to 32 bits.
unfoldable pub read : (junk : ℕ) → Pcb → (source offset destination : ℕ) → Run (ℤ × Pcb)
read junk proc source offset destination = do
  base ← reg proc source
  (code, byte) ← read_mem ((base + offset) % word) proc
  if is_zero code then done (pos 1, proc) else (do
    proc' ← set_reg proc destination (elim byte [ none ↦ junk | some b ↦ b ])
    done (success, proc'))

-- `write` of src/cpu.c.
unfoldable pub write : Pcb → (data' destination offset : ℕ) → Run ℤ
write proc data' destination offset = do
  base ← reg proc destination
  write_mem ((base + offset) % word) proc data'
