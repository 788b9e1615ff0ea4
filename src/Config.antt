-- ===== src/Config.antt =====
-- `read_config` of src/os.c, with MM_PAGING and MLQ_SCHED and without MM_FIXED_MEMSZ, as
-- include/os-cfg.h has it. `exit(1)` is the result `none`. The static variables are 0 where a
-- conversion fails.
pub mod Print
pub mod RoundTrip
use assignment_os.Base.{
  ℕ, zero, suc, ◌+◌, ◌++◌, Option, none, some, List, [], ◌∷◌, ltb, ◌==◌, if◌then◌else◌, length,
  get_elem?, map, ℤ, pos, to_int, Run, done, fault, ◌>>=◌,
}
use assignment_os.Stdio.{
  Bytes, codes, skip_space, scan_number, scan_numbers, percent_d, percent_lu, scan_word, c_string,
}
use assignment_os.Vm.{rounds}

-- An element of the three arrays of `struct ld_args`.
pub record Entry : Type 0 where
  pub path : Bytes
  pub start_time : ℕ
  pub prio : ℕ

-- The variables that `read_config` sets; `num_processes` entries are read.
pub record Config : Type 0 where
  pub time_slot : ℤ
  pub num_cpus : ℤ
  pub num_processes : ℤ
  pub memramsz : ℤ
  pub memswpsz : List ℤ
  pub processes : List Entry

-- What `malloc` finds in the array of priorities.
pub record Unset : Type 0 where
  pub prio : ℕ → ℕ

-- The first `k` values, 0 for those that were not read.
abbrev pub ints : (k : ℕ) → List ℕ → List ℤ
ints zero ns = []
ints (suc k) [] = pos 0 ∷ ints k []
ints (suc k) (n ∷ ns) = to_int n ∷ ints k ns

-- After the conversions the format has a `\n`, which is reached if all succeed.
abbrev pub line_end : (k : ℕ) → List ℕ × Bytes → List ℤ × Bytes
line_end k (ns, rest) = (ints k ns, if length ns == k then skip_space rest else rest)

-- `fscanf` with `k` conversions `%d` and a `\n`.
unfoldable pub scan_ints : (k : ℕ) → Bytes → List ℤ × Bytes
scan_ints k s = line_end k (scan_numbers percent_d k s)

abbrev pub int_before : Option ℕ × Bytes → (Bytes → List ℤ × Bytes) → List ℤ × Bytes
int_before (n, rest) next =
    let (zs, rest') = next rest in (elim n [ none ↦ pos 0 | some m ↦ to_int m ] ∷ zs, rest')

-- `k` calls of `fscanf(file, "%d", ...)`.
unfoldable pub each_int : (k : ℕ) → Bytes → List ℤ × Bytes
each_int zero s = ([], s)
each_int (suc k) s = int_before (scan_number percent_d s) (λ rest. each_int k rest)

-- The path of a process: `strcat` of the name, in an array of 100 bytes.
abbrev pub path_of : Bytes → Run Bytes
path_of proc =
    let path = codes "input/proc/" ++ c_string proc in
    if ltb (length path) 100 then done path else fault

-- The last conversion, of the priority, and the `\n` after it.
abbrev pub prio_read : Unset → (i start_time : ℕ) → Bytes → Option ℕ × Bytes → Run (Entry × Bytes)
prio_read unset i start proc (none, rest) = do
  path ← path_of proc
  done (record { path = path; start_time = start; prio = unset.prio i }, rest)
prio_read unset i start proc (some prio, rest) = do
  path ← path_of proc
  done (record { path = path; start_time = start; prio = prio }, skip_space rest)

-- The name, in an array of 100 bytes; without it `strcat` reads an array that was never set.
abbrev pub name_read : Unset → (i start_time : ℕ) → Option Bytes × Bytes → Run (Entry × Bytes)
name_read unset i start (none, rest) = fault
name_read unset i start (some proc, rest) =
    if ltb (length proc) 100
    then prio_read unset i start proc (scan_number percent_lu rest)
    else fault

abbrev pub start_read : Unset → (i : ℕ) → Option ℕ × Bytes → Run (Entry × Bytes)
start_read unset i (none, rest) = fault
start_read unset i (some start, rest) = name_read unset i start (scan_word rest)

-- `fscanf(file, "%lu %s %lu\n", ...)` for process `i`, and its path.
unfoldable pub scan_entry : Unset → (i : ℕ) → Bytes → Run (Entry × Bytes)
scan_entry unset i s = start_read unset i (scan_number percent_lu s)

-- The loop of `read_config` from process `i` on.
unfoldable pub scan_entries : (left i : ℕ) → Unset → Bytes → Run (List Entry)
scan_entries zero i unset s = done []
scan_entries (suc left) i unset s = do
  (entry, rest) ← scan_entry unset i s
  more ← scan_entries left (i + 1) unset rest
  done (entry ∷ more)

-- The value at `i` of those read.
abbrev pub int_at : List ℤ → ℕ → ℤ
int_at zs i = elim (get_elem? zs i) [ none ↦ pos 0 | some z ↦ z ]

-- The numbers of the first line, that of the second, and those of the third.
abbrev pub config_of : (first second third : List ℤ) → List Entry → Config
config_of first second third processes = record {
  time_slot = int_at first 0;
  num_cpus = int_at first 1;
  num_processes = int_at first 2;
  memramsz = int_at second 0;
  memswpsz = third;
  processes = processes;
}

abbrev pub swaps_read : Unset → (first second : List ℤ) → List ℤ × Bytes → Run (Option Config)
swaps_read unset first second (third, rest) = do
  processes ← scan_entries (rounds (int_at first 2)) 0 unset (skip_space rest)
  done (some (config_of first second third processes))

abbrev pub ram_read : Unset → (first : List ℤ) → List ℤ × Bytes → Run (Option Config)
ram_read unset first (second, rest) = swaps_read unset first second (each_int 4 rest)

abbrev pub first_read : Unset → List ℤ × Bytes → Run (Option Config)
first_read unset (first, rest) = ram_read unset first (scan_ints 1 rest)

unfoldable pub read_config :
    (disk : Bytes → Option Bytes) → Unset → (path : Bytes) → Run (Option Config)
read_config disk unset path = elim (disk path) [
  | none ↦ done none
  | some file ↦ first_read unset (scan_ints 3 file)
]
