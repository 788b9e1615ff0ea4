-- ===== src/Loader/Print.antt =====
-- The format of the files in input/proc: the priority and the number of instructions, and then an
-- instruction to a line, with the arguments that its opcode has.
use assignment_os.Base.{ℕ, ◌<◌, ◌≡◌, List, [], ◌∷◌, ◌++◌, length, word, All}
use assignment_os.Process.{Opcode, calc, alloc, free, read, write, syscall, Inst}
use assignment_os.Stdio.{Bytes, codes}
use assignment_os.Stdio.Numbers.{decimal, fields}

abbrev pub args_of : Opcode → Inst → List ℕ
args_of calc ins = []
args_of alloc ins = ins.arg_0 ∷ ins.arg_1 ∷ []
args_of free ins = ins.arg_0 ∷ []
args_of read ins = ins.arg_0 ∷ ins.arg_1 ∷ ins.arg_2 ∷ []
args_of write ins = ins.arg_0 ∷ ins.arg_1 ∷ ins.arg_2 ∷ []
args_of syscall ins = ins.arg_0 ∷ ins.arg_1 ∷ ins.arg_2 ∷ ins.arg_3 ∷ []

-- The arguments that the instruction has.
abbrev pub args : Inst → List ℕ
args ins = args_of ins.opcode ins

abbrev pub name : Opcode → Bytes
name calc = codes "calc"
name alloc = codes "alloc"
name free = codes "free"
name read = codes "read"
name write = codes "write"
name syscall = codes "syscall"

unfoldable pub print_text : List Inst → Bytes
print_text [] = []
print_text (ins ∷ rest) = name ins.opcode ++ (fields (args ins) ++ (10 ∷ print_text rest))

unfoldable pub print_program : (priority : ℕ) → List Inst → Bytes
print_program priority text =
    decimal priority ++ (fields (length text ∷ []) ++ (10 ∷ print_text text))

-- Arguments are `uint32_t`.
abbrev pub IsWords : Inst → Type 0
IsWords ins = All (λ n. n < word) (args ins)

-- The same instructions: arguments that an opcode does not have may differ.
abbrev pub SameInsts : List Inst → List Inst → Type 0
SameInsts [] [] = Unit
SameInsts [] (b ∷ bs) = ⊥
SameInsts (a ∷ as') [] = ⊥
SameInsts (a ∷ as') (b ∷ bs) = (a.opcode ≡ b.opcode) × (args a ≡ args b) × SameInsts as' bs
