-- ===== src/Loader/RoundTrip.antt =====
-- What src/loader.c makes of a file in the format of input/proc.
use assignment_os.Base.{
  ℕ, ◌+◌, ◌%◌, ◌<◌, ◌≡◌, refl, ap, ◌∙◌, arith, Option, none, some, List, [], ◌∷◌, ◌++◌, length,
  word, All, Run, done,
}
use assignment_os.Process.{Opcode, calc, alloc, free, read, write, syscall, Inst}
use assignment_os.Stdio.{
  Bytes, skip_space, take_word, scan_word, some_word, percent_u, c_string, same_bytes,
}
use assignment_os.Stdio.Numbers.{fields}
use assignment_os.Loader.Print.{args, args_of, name, print_text, print_program, IsWords, SameInsts}
use assignment_os.Loader.Fields.{scan_args-fields, scan_syscall-fields}
use assignment_os.Stdio.Fields.{scan_numbers-decimal, percent_u-word}
use assignment_os.Loader.{
  get_opcode, Scanner, opcode_read, scan_opcode, store_args, scan_inst, load_text, Malloc, load,
  loaded,
}

get_opcode-name : (op : Opcode) → get_opcode (name op) ≡ some op
unfolding get_opcode c_string same_bytes
get_opcode-name calc = refl
get_opcode-name alloc = refl
get_opcode-name free = refl
get_opcode-name read = refl
get_opcode-name write = refl
get_opcode-name syscall = refl

take_word-name :
    (op : Opcode) (ns : List ℕ) (s : Bytes)
    → take_word (name op ++ (fields ns ++ (10 ∷ s))) ≡ (name op, fields ns ++ (10 ∷ s))
unfolding take_word
take_word-name calc [] s = refl
take_word-name calc (n ∷ ns) s = refl
take_word-name alloc [] s = refl
take_word-name alloc (n ∷ ns) s = refl
take_word-name free [] s = refl
take_word-name free (n ∷ ns) s = refl
take_word-name read [] s = refl
take_word-name read (n ∷ ns) s = refl
take_word-name write [] s = refl
take_word-name write (n ∷ ns) s = refl
take_word-name syscall [] s = refl
take_word-name syscall (n ∷ ns) s = refl

some_word-name : (op : Opcode) (s : Bytes) → some_word (name op, s) ≡ (some (name op), s)
some_word-name calc s = refl
some_word-name alloc s = refl
some_word-name free s = refl
some_word-name read s = refl
some_word-name write s = refl
some_word-name syscall s = refl

opcode_read-name :
    (op : Opcode) (sc : Scanner) (s : Bytes)
    → opcode_read sc (some (name op), s)
      ≡ done (name op, record sc { opcode = some (name op); file = s })
opcode_read-name calc sc s = refl
opcode_read-name alloc sc s = refl
opcode_read-name free sc s = refl
opcode_read-name read sc s = refl
opcode_read-name write sc s = refl
opcode_read-name syscall sc s = refl

scan_opcode-name :
    (op : Opcode) (ns : List ℕ) (sc : Scanner) (s : Bytes)
    → skip_space sc.file ≡ name op ++ (fields ns ++ (10 ∷ s))
    → scan_opcode sc
      ≡ done (name op, record sc { opcode = some (name op); file = fields ns ++ (10 ∷ s) })
unfolding scan_opcode scan_word
scan_opcode-name op ns sc s e =
    ap (λ (f : Bytes). opcode_read sc (some_word (take_word f))) e
    ∙ (ap (λ r. opcode_read sc (some_word r)) (take_word-name op ns s)
        ∙ (ap (opcode_read sc) (some_word-name op (fields ns ++ (10 ∷ s)))
            ∙ opcode_read-name op sc (fields ns ++ (10 ∷ s))))

skip_space-name : (op : Opcode) (s : Bytes) → skip_space (name op ++ s) ≡ name op ++ s
unfolding skip_space
skip_space-name calc s = refl
skip_space-name alloc s = refl
skip_space-name free s = refl
skip_space-name read s = refl
skip_space-name write s = refl
skip_space-name syscall s = refl

skip_space-print_text : (text : List Inst) → skip_space (print_text text) ≡ print_text text
unfolding skip_space print_text
skip_space-print_text [] = refl
skip_space-print_text (ins ∷ rest) =
    skip_space-name ins.opcode (fields (args ins) ++ (10 ∷ print_text rest))

-- After the arguments of an instruction the file is at the next one, but for white space.
abbrev AtNext : Inst → (op : Opcode) → Inst → Run (Inst × Scanner) → Bytes → Type 0
AtNext base op ins r s =
    (sc : Scanner) × (r ≡ done (store_args base (args_of op ins), sc)) × (skip_space sc.file ≡ s)

skip_newline : (s : Bytes) → skip_space s ≡ s → skip_space (10 ∷ s) ≡ s
unfolding skip_space
skip_newline s h = h

scan_inst-fields :
    (op : Opcode) (base ins : Inst) (sc : Scanner) (s : Bytes)
    → All (λ n. n < word) (args_of op ins)
    → sc.file ≡ fields (args_of op ins) ++ (10 ∷ s)
    → skip_space s ≡ s
    → AtNext base op ins (scan_inst op base sc) s
unfolding scan_inst
scan_inst-fields calc base ins sc s h e at = (sc, refl, ap skip_space e ∙ skip_newline s at)
scan_inst-fields syscall base ins sc s h e at =
    (_, scan_syscall-fields ins.arg_0 ins.arg_1 ins.arg_2 ins.arg_3 base sc s h e, at)
scan_inst-fields alloc base ins sc s h e at = (
  _,
  ap done (scan_args-fields (args_of alloc ins) base sc s h e),
  ap skip_space (skip_newline s at) ∙ at,
)
scan_inst-fields free base ins sc s h e at = (
  _,
  ap done (scan_args-fields (args_of free ins) base sc s h e),
  ap skip_space (skip_newline s at) ∙ at,
)
scan_inst-fields read base ins sc s h e at = (
  _,
  ap done (scan_args-fields (args_of read ins) base sc s h e),
  ap skip_space (skip_newline s at) ∙ at,
)
scan_inst-fields write base ins sc s h e at = (
  _,
  ap done (scan_args-fields (args_of write ins) base sc s h e),
  ap skip_space (skip_newline s at) ∙ at,
)

stored_same :
    (op : Opcode) (j ins : Inst)
    → let a = store_args (record j { opcode = op }) (args_of op ins) in
      (a.opcode ≡ op) × (args a ≡ args_of op ins)
stored_same calc j ins = (refl, refl)
stored_same alloc j ins = (refl, refl)
stored_same free j ins = (refl, refl)
stored_same read j ins = (refl, refl)
stored_same write j ins = (refl, refl)
stored_same syscall j ins = (refl, refl)

load_text-print_text :
    (text : List Inst) (i : ℕ) (junk : ℕ → Inst) (sc : Scanner)
    → All IsWords text
    → skip_space sc.file ≡ print_text text
    → (out : List Inst) × (load_text (length text) i junk sc ≡ done (some out)) × SameInsts out text
unfolding load_text print_text
load_text-print_text [] i junk sc h e = ([], refl, _)
load_text-print_text (ins ∷ rest) i junk sc (words, h) e =
    let op = ins.opcode in
    let base : Inst = record (junk i) { opcode = op } in
    let sc1 : Scanner = record sc {
      opcode = some (name op);
      file = fields (args ins) ++ (10 ∷ print_text rest);
    } in
    let (sc2, read_args, at_next) =
      scan_inst-fields op base ins sc1 (print_text rest) words refl (skip_space-print_text rest) in
    let (more, loaded_more, same) = load_text-print_text rest (i + 1) junk sc2 h at_next in
    let (same_op, same_args) = stored_same op (junk i) ins in
    (
      store_args base (args ins) ∷ more,
      ground (
        arith,
        scan_opcode-name op (args ins) sc (print_text rest) e,
        get_opcode-name op,
        read_args,
        loaded_more,
      ),
      (same_op, same_args, same),
    )

-- A file in the format of input/proc, its numbers below 2 ^ 32, is loaded as it was printed: with
-- its priority, its number of instructions, and the same instructions, each with its opcode and the
-- arguments it has. The process gets the next free number, starts at its first instruction, and
-- that number goes up.
pub load-print_program :
    (disk : Bytes → Option Bytes) (junk : Malloc) (avail_pid priority : ℕ) (text : List Inst)
    (path : Bytes)
    → disk path ≡ some (print_program priority text)
    → priority < word
    → length text < word
    → All IsWords text
    → (out : List Inst) × (load disk junk avail_pid path
        ≡ done (some (loaded junk avail_pid priority (length text) out, (avail_pid + 1) % word)))
      × SameInsts out text
unfolding load print_program
load-print_program disk junk avail_pid priority text path found hp hs words =
    let size = length text in
    let numbers =
      scan_numbers-decimal percent_u priority (size ∷ []) (10 ∷ print_text text)
        (percent_u-word priority hp, (percent_u-word size hs, _)) refl in
    let start : Scanner = record { opcode = none; buf = none; file = 10 ∷ print_text text } in
    let (out, text_read, same) =
      load_text-print_text text 0 junk.text start words
        (skip_newline (print_text text) (skip_space-print_text text)) in
    (out, ground (arith, found, numbers, text_read), same)
