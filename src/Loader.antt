-- ===== src/Loader.antt =====
-- src/loader.c: reading the program of a process from a file. `exit(1)` is the result `none`. What
-- the loader prints is left out, and so is the copy of the path that it keeps in the process.
pub mod Print
pub mod Fields
pub mod RoundTrip
pub mod Loads
use assignment_os.Base.{
  ℕ, zero, suc, ◌+◌, ◌%◌, Bool, true, false, Option, none, some, List, [], ◌∷◌, ltb, ◌==◌,
  if◌then◌else◌, length, get_elem?, word, Run, done, fault, ◌>>=◌,
}
use assignment_os.Process.{Opcode, calc, alloc, free, read, write, syscall, Inst, CodeSeg, Pcb}
use assignment_os.Mem.{page_size}
use assignment_os.Stdio.{
  Bytes, codes, str_equal, skip_space, scan_numbers, percent_u, percent_d, scan_word, take_line,
  c_string,
}

unfoldable pub get_opcode : Bytes → Option Opcode
get_opcode opt =
    if str_equal opt (codes "calc")
    then some calc
    else if str_equal opt (codes "alloc")
    then some alloc
    else if str_equal opt (codes "free")
    then some free
    else if str_equal opt (codes "read")
    then some read
    else if str_equal opt (codes "write")
    then some write
    else if str_equal opt (codes "syscall")
    then some syscall
    else none

-- The local variables `opcode` and `buf`, where they have been set, and the file.
pub record Scanner : Type 0 where
  pub opcode : Option Bytes
  pub buf : Option Bytes
  pub file : Bytes

-- `opcode` after the conversion `%s`: at the end of the file as before. Its array has ten bytes, of
-- which the last is for the zero byte.
abbrev pub opcode_read : Scanner → Option Bytes × Bytes → Run (Bytes × Scanner)
opcode_read sc (none, rest) = elim sc.opcode [
  | none ↦ fault
  | some old ↦ done (old, record sc { file = rest })
]
opcode_read sc (some opt, rest) =
    if ltb (length opt) 10 then done (opt, record sc { opcode = some opt; file = rest }) else fault

-- `fscanf(file, "%s", opcode)`
unfoldable pub scan_opcode : Scanner → Run (Bytes × Scanner)
scan_opcode sc = opcode_read sc (scan_word sc.file)

-- The arguments that are read replace those of the instruction from the first on.
abbrev pub store_args : Inst → List ℕ → Inst
store_args ins [] = ins
store_args ins (a ∷ []) = record ins { arg_0 = a }
store_args ins (a ∷ b ∷ []) = record ins { arg_0 = a; arg_1 = b }
store_args ins (a ∷ b ∷ c ∷ []) = record ins { arg_0 = a; arg_1 = b; arg_2 = c }
store_args ins (a ∷ b ∷ c ∷ d ∷ more) = record ins { arg_0 = a; arg_1 = b; arg_2 = c; arg_3 = d }

abbrev pub args_read : (k : ℕ) → Inst → Scanner → List ℕ × Bytes → Inst × Scanner
args_read k ins sc (ns, rest) =
    (store_args ins ns, record sc { file = if length ns == k then skip_space rest else rest })

-- `k` conversions `%u`, and the `\n` after them, which the format reaches if all succeed.
unfoldable pub scan_args : (k : ℕ) → Inst → Scanner → Inst × Scanner
scan_args k ins sc = args_read k ins sc (scan_numbers percent_u k sc.file)

-- `sscanf(buf, "%d%d%d%d", ...)`
abbrev pub scan_buf : Inst → Bytes → Inst
scan_buf ins buf = store_args ins (scan_numbers percent_d 4 (c_string buf)).0

-- `fgets` leaves `buf` alone at the end of the file.
abbrev pub line_read : Inst → Scanner → Bytes × Bytes → Run (Inst × Scanner)
line_read ins sc ([], rest) = elim sc.buf [
  | none ↦ fault
  | some old ↦ done (scan_buf ins old, record sc { file = rest })
]
line_read ins sc (c ∷ line, rest) =
    done (scan_buf ins (c ∷ line), record sc { buf = some (c ∷ line); file = rest })

-- The arguments of SYSCALL: a line, of at most 199 bytes.
unfoldable pub scan_syscall : Inst → Scanner → Run (Inst × Scanner)
scan_syscall ins sc = line_read ins sc (take_line 199 sc.file)

-- The `switch` of `load`, on an instruction whose opcode is set.
unfoldable pub scan_inst : Opcode → Inst → Scanner → Run (Inst × Scanner)
scan_inst calc ins sc = done (ins, sc)
scan_inst alloc ins sc = done (scan_args 2 ins sc)
scan_inst free ins sc = done (scan_args 1 ins sc)
scan_inst read ins sc = done (scan_args 3 ins sc)
scan_inst write ins sc = done (scan_args 3 ins sc)
scan_inst syscall ins sc = scan_syscall ins sc

-- The loop of `load` from instruction `i` on; `junk` is what `malloc` finds in the text.
unfoldable pub load_text : (left i : ℕ) → (junk : ℕ → Inst) → Scanner → Run (Option (List Inst))
load_text zero i junk sc = done (some [])
load_text (suc left) i junk sc = do
  (opt, sc') ← scan_opcode sc
  elim (get_opcode opt) [
    | none ↦ done none
    | some op ↦ (do
      (ins, sc'') ← scan_inst op (record (junk i) { opcode = op }) sc'
      rest ← load_text left (i + 1) junk sc''
      elim rest [ none ↦ done none | some more ↦ done (some (ins ∷ more)) ])
  ]

-- What `malloc` finds in the memory of a process, of its code and of its text.
pub record Malloc : Type 0 where
  pub pcb : Pcb
  pub size : ℕ
  pub text : ℕ → Inst

-- The value of a conversion, or what the variable held before.
abbrev pub scanned : List ℕ → (i before : ℕ) → ℕ
scanned ns i before = elim (get_elem? ns i) [ none ↦ before | some n ↦ n ]

-- The process that `load` fills in.
abbrev pub loaded : Malloc → (avail_pid priority size : ℕ) → List Inst → Pcb
loaded junk avail_pid priority size insts = record (junk.pcb) {
  pid = avail_pid;
  bp = page_size;
  pc = 0;
  priority = priority;
  code = record { text = insts; size = size };
}

-- `load`: the process, and `avail_pid`. `disk` is what `fopen` finds under a path.
unfoldable pub load :
    (disk : Bytes → Option Bytes)
    → Malloc
    → (avail_pid : ℕ) → (path : Bytes) → Run (Option (Pcb × ℕ))
load disk junk avail_pid path = elim (disk path) [
  | none ↦ done none
  | some file ↦
      let (ns, rest) = scan_numbers percent_u 2 file in
      let size = scanned ns 1 junk.size in
      (do
        text ← load_text size 0 junk.text (record { opcode = none; buf = none; file = rest })
        elim text [
          | none ↦ done none
          | some insts ↦ done (
              some (
                loaded junk avail_pid (scanned ns 0 junk.pcb.priority) size insts,
                (avail_pid + 1) % word,
              ))
        ])
]
