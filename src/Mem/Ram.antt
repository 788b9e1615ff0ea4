-- ===== src/Mem/Ram.antt =====
-- The storage of src/mem.c: `_ram` and `_mem_stat`, `init_mem`, which clears them, and `dump`, by
-- the rows that it prints.
use assignment_os.Base.{
  ℕ, zero, suc, ◌+◌, ◌-◌, ◌*◌, ◌^◌, none, some, List, [], ◌∷◌, ◌++◌, get_elem?, replicate, ◌==◌,
  if◌then◌else◌, ℤ, pos, Run, done, fault, ◌>>=◌,
}
use assignment_os.Mem.{offset_len, page_size}

-- `NUM_PAGES` and `RAM_SIZE`.
abbrev pub num_pages : ℕ
num_pages = 2 ^ (20 - offset_len)

abbrev pub ram_size : ℕ
ram_size = 2 ^ 20

-- An element of `_mem_stat`.
pub record PageStat : Type 0 where
  pub proc : ℕ
  pub index : ℤ
  pub next : ℤ

pub record MemState : Type 0 where
  pub ram : List ℕ
  pub mem_stat : List PageStat

abbrev pub zeroed_stat : PageStat
zeroed_stat = record { proc = 0; index = pos 0; next = pos 0 }

-- `memset` of the `n` bytes of `_ram` and the `k` elements of `_mem_stat`.
unfoldable pub clear : (n k : ℕ) → MemState → MemState
clear n k m = record { ram = replicate n 0; mem_stat = replicate k zeroed_stat }

unfoldable pub init_mem : MemState → MemState
init_mem m = clear ram_size num_pages m

-- A line of `dump`: a page with its number, or a byte with its address.
pub data DumpRow : Type 0 where
  page_row : (i : ℕ) → PageStat → DumpRow
  byte_row : (j byte : ℕ) → DumpRow

-- The inner loop of `dump` from address `j` on.
unfoldable pub dump_bytes : (left j : ℕ) → MemState → Run (List DumpRow)
dump_bytes zero j m = done []
dump_bytes (suc left) j m = elim (get_elem? m.ram j) [
  | none ↦ fault
  | some byte ↦ (do
    rows ← dump_bytes left (j + 1) m
    done (if byte == 0 then rows else byte_row j byte ∷ rows))
]

-- The lines for a page that a process uses; the bound of the inner loop is one below the page's end.
abbrev pub dump_page : (i : ℕ) → PageStat → MemState → Run (List DumpRow)
dump_page i p m =
    if p.proc == 0
    then done []
    else (do rows ← dump_bytes (page_size - 1) (i * page_size) m; done (page_row i p ∷ rows))

-- The outer loop from page `i` on.
unfoldable pub dump_pages : (left i : ℕ) → MemState → Run (List DumpRow)
dump_pages zero i m = done []
dump_pages (suc left) i m = elim (get_elem? m.mem_stat i) [
  | none ↦ fault
  | some p ↦ (do rows ← dump_page i p m; more ← dump_pages left (i + 1) m; done (rows ++ more))
]

unfoldable pub dump : MemState → Run (List DumpRow)
dump m = dump_pages num_pages 0 m
