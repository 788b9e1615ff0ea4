-- ===== src/Driver/Ends.antt =====
-- The driver of src/paging.c on a program that passes the test of programs.
use mathlib.Core.Path.{subst}
use assignment_os.Base.{
  ℕ, ◌%◌, ◌<◌, ◌≤◌, ◌≡◌, refl, sym, ap, ◌∙◌, arith, true, some, List, [], ◌∷◌, length, All, word,
  done,
}
use assignment_os.Process.{Opcode, calc, alloc, free, read, write, CodeSeg, Inst, Pcb}
use assignment_os.Libmem.Ready.{Means, IsReady}
use assignment_os.Syscall.{SyscallTable, Junk}
use assignment_os.Cpu.Program.{runs}
use assignment_os.Cpu.Legal.{is_legal_op, is_legal, is_legal_text, runs_to_end}
use assignment_os.Stdio.{codes}
use assignment_os.Loader.{Malloc, loaded}
use assignment_os.Loader.Print.{args, args_of, print_program, IsWords, SameInsts}
use assignment_os.Loader.RoundTrip.{load-print_program}
use assignment_os.Mem.Ram.{num_pages, ram_size, MemState, dump}
use assignment_os.Mem.Dump.{dump_lem}
use assignment_os.Driver.{Drive, Driven, driver_main}
use assignment_os.Driver.Turns.{driver_loop-runs}

-- The test reads only arguments that an instruction has.
is_legal_op_args :
    (table : SyscallTable) (means : Means) (op : Opcode) (a b : Inst)
    → args_of op a ≡ args_of op b
    → is_legal_op table means op a ≡ is_legal_op table means op b
is_legal_op_args table means calc a b e = refl
is_legal_op_args table means alloc a b e = let f : a.arg_1 ≡ b.arg_1 = cc in rw f refl
is_legal_op_args table means free a b e = refl
is_legal_op_args table means read a b e = let f : a.arg_0 ≡ b.arg_0 = cc in rw f refl
is_legal_op_args table means write a b e = let f : a.arg_1 ≡ b.arg_1 = cc in rw f refl
is_legal_op_args table means Opcode.syscall a b e =
    let f0 : a.arg_0 ≡ b.arg_0 = cc in
    let f1 : a.arg_1 ≡ b.arg_1 = cc in
    let f2 : a.arg_2 ≡ b.arg_2 = cc in let f3 : a.arg_3 ≡ b.arg_3 = cc in rw (f0, f1, f2, f3) refl

is_legal_same :
    (table : SyscallTable) (means : Means) (a b : Inst)
    → a.opcode ≡ b.opcode
    → args a ≡ args b
    → is_legal table means a ≡ is_legal table means b
is_legal_same table means a b same_op same_args =
    ap (λ (op : Opcode). is_legal_op table means op a) same_op
    ∙ is_legal_op_args table means b.opcode a b
        (ap (λ (op : Opcode). args_of op a) (sym same_op) ∙ same_args)

-- The same instructions pass the test.
is_legal_text_same :
    (table : SyscallTable) (means : Means) (out text : List Inst)
    → SameInsts out text
    → is_legal_text table means text ≡ true
    → is_legal_text table means out ≡ true
is_legal_text_same table means [] [] same ok = refl
is_legal_text_same table means [] (b ∷ bs) same ok = absurd same
is_legal_text_same table means (a ∷ as') [] same ok = absurd same
is_legal_text_same table means (a ∷ as') (b ∷ bs) (same_op, same_args, same) ok =
    let first = is_legal_same table means a b same_op same_args in
    let rest = is_legal_text_same table means as' bs same (ground arith) in ground arith

length_same : (out text : List Inst) → SameInsts out text → length out ≡ length text
length_same [] [] same = refl
length_same [] (b ∷ bs) same = absurd same
length_same (a ∷ as') [] same = absurd same
length_same (a ∷ as') (b ∷ bs) (_, _, same) = let rest = length_same as' bs same in omega arith

-- The process has run the program to its end: its code is the program, and its program counter
-- stands behind the last instruction.
pub record HasRun (text : List Inst) (p : Pcb) : Type 0 where
  pub same : SameInsts p.code.text text
  pub size : p.code.size ≡ length text
  pub at_end : p.pc ≡ length text

-- A process as `load` returns it for the printed program comes to its end.
loaded_ends :
    (table : SyscallTable) (means : Means) (junk : Junk) (malloc : Malloc) (pid priority : ℕ)
    (out text : List Inst)
    → IsReady means malloc.pcb
    → length text < word
    → SameInsts out text
    → is_legal_text table means text ≡ true
    → (q : Pcb) × (runs table junk (length text) (loaded malloc pid priority (length text) out)
        ≡ done q)
      × HasRun text q
loaded_ends table means junk malloc pid priority out text ready fits same ok =
    let p = loaded malloc pid priority (length text) out in
    let there : length text ≤ length out = omega (arith, length_same out text same) in
    let now : IsReady means p = record {
      memory = ready.memory;
      ram = ready.ram;
      swp = ready.swp;
    } in
    let (q, ran, ended, kept, _) =
      runs_to_end table means junk (length text) p now fits there
        (is_legal_text_same table means out text same ok) (omega arith) in
    let size : q.code.size ≡ length text = ap (λ (c : CodeSeg). c.size) kept in
    (
      q,
      ran,
      record {
        same = subst (λ (c : CodeSeg). SameInsts c.text text) (sym kept) same;
        size = size;
        at_end = ended ∙ size;
      },
    )

-- The driver on a file in the format of input/proc, its numbers below 2 ^ 32, whose program passes
-- the test for what the two processes have in the memory that `malloc` returns, and with the whole
-- `_ram` and `_mem_stat`: it comes to its end, where both processes have run the program to its end,
-- and what is shown is what `dump` shows of the memory as it was.
pub driver_main_lem :
    (d : Drive) (means : Means) (m : MemState) (priority : ℕ) (text : List Inst)
    → d.disk (codes "input/p0") ≡ some (print_program priority text)
    → priority < word
    → length text < word
    → All IsWords text
    → is_legal_text d.table means text ≡ true
    → IsReady means d.malloc_ld.pcb
    → IsReady means d.malloc_proc.pcb
    → length m.mem_stat ≡ num_pages
    → length m.ram ≡ ram_size
    → (r : Driven) × (driver_main d m ≡ done (some r))
      × (dump m ≡ done r.rows)
      × HasRun text r.proc
      × HasRun text r.ld
unfolding driver_main
driver_main_lem d means m priority text found hp hs words ok ready_ld ready_proc pages bytes =
    let size = length text in
    let path = codes "input/p0" in
    let (out, first, same) =
      load-print_program d.disk d.malloc_ld 1 priority text path found hp hs words in
    let (out', second, same') =
      load-print_program d.disk d.malloc_proc (2 % word) priority text path found hp hs words in
    let (p, ran, has_run) =
      loaded_ends d.table means d.junk d.malloc_proc (2 % word) priority out' text ready_proc hs
        same' ok in
    let (q, ran', has_run') =
      loaded_ends d.table means d.junk d.malloc_ld 1 priority out text ready_ld hs same ok in
    let turned =
      driver_loop-runs d.table d.junk size (loaded d.malloc_proc (2 % word) priority size out')
        (loaded d.malloc_ld 1 priority size out) in
    let (rows, shown, _, _, _) = dump_lem m pages bytes in
    (
      record { rows = rows; proc = p; ld = q },
      rw (first, second, turned, ran, ran', shown) refl,
      shown,
      has_run,
      has_run',
    )
