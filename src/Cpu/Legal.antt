-- ===== src/Cpu/Legal.antt =====
-- A test for programs whose instructions all have defined behaviour, and what `run` does to them.
use assignment_os.Base.{
  ℕ, zero, suc, ◌+◌, ◌%◌, ◌<◌, ◌≤◌, ◌≡◌, refl, ◌∙◌, arith, Bool, true, ◌&&◌, inl, inr, Bool-cases,
  some, List, [], ◌∷◌, get_elem?, get_elem?-some, length, leb, pos, success, to_int, word, done,
}
use assignment_os.Process.{Opcode, calc, alloc, free, read, write, syscall, Inst, Pcb}
use assignment_os.Libmem.{libfree}
use assignment_os.Libmem.Ready.{Means, has_memory, IsReady, Returns}
use assignment_os.Libmem.Total.{
  can_access, can_assign, liballoc-IsReady, libread-IsReady, libwrite-IsReady,
}
use assignment_os.Syscall.{SyscallTable, Junk}
use assignment_os.Syscall.Total.{is_legal_call, libsyscall-IsReady}
use assignment_os.Cpu.{run, execute}
use assignment_os.Cpu.Program.{runs, run_step}

-- An instruction that a process with these means can execute.
abbrev pub is_legal_op : SyscallTable → Means → Opcode → Inst → Bool
is_legal_op table means calc ins = true
is_legal_op table means alloc ins = has_memory means && can_assign (to_int ins.arg_1)
is_legal_op table means free ins = true
is_legal_op table means read ins = has_memory means && can_access (to_int ins.arg_0)
is_legal_op table means write ins = has_memory means && can_access (to_int ins.arg_1)
is_legal_op table means syscall ins =
    is_legal_call table means ins.arg_0 (record { a1 = ins.arg_1; a2 = ins.arg_2; a3 = ins.arg_3 })

abbrev pub is_legal : SyscallTable → Means → Inst → Bool
is_legal table means ins = is_legal_op table means ins.opcode ins

abbrev pub is_legal_text : SyscallTable → Means → List Inst → Bool
is_legal_text table means [] = true
is_legal_text table means (ins ∷ rest) = is_legal table means ins && is_legal_text table means rest

legal_at :
    (table : SyscallTable) (means : Means) (text : List Inst) (i : ℕ) (ins : Inst)
    → is_legal_text table means text ≡ true
    → get_elem? text i ≡ some ins
    → is_legal table means ins ≡ true
legal_at table means [] i ins ok found = absurd cc
legal_at table means (x ∷ rest) zero ins ok found = ground arith
legal_at table means (x ∷ rest) (suc i) ins ok found =
    legal_at table means rest i ins (ground arith) found

-- Moving the program counter leaves a process ready.
IsReady-pc :
    (means : Means) (p : Pcb) (i : ℕ) → IsReady means p → IsReady means (record p { pc = i })
IsReady-pc means p i ready = record { memory = ready.memory; ram = ready.ram; swp = ready.swp }

module _ (table : SyscallTable) (means : Means) (junk : Junk) where
  execute-IsReady :
      (op : Opcode) (ins : Inst) (p : Pcb)
      → IsReady means p
      → is_legal_op table means op ins ≡ true
      → Returns means (execute table junk op ins p)
  unfolding execute
  execute-IsReady calc ins p ready ok = (success, p, refl, ready)
  execute-IsReady alloc ins p ready ok =
      liballoc-IsReady means p (ground arith) ready ins.arg_0 ins.arg_1 (ground arith)
  execute-IsReady free ins p ready ok = (libfree p ins.arg_0, p, refl, ready)
  execute-IsReady read ins p ready ok =
      libread-IsReady means p ins.arg_0 ins.arg_1 (ground arith) ready (ground arith)
  execute-IsReady write ins p ready ok =
      libwrite-IsReady means p (ins.arg_0 % 256) ins.arg_1 ins.arg_2 (ground arith) ready
        (ground arith)
  execute-IsReady Opcode.syscall ins p ready ok =
      libsyscall-IsReady table means junk p ins.arg_0 ins.arg_1 ins.arg_2 ins.arg_3 ready ok

  -- A process that is ready, whose program is there and passes the test, and that is not at its end.
  pub run-IsReady :
      (p : Pcb)
      → IsReady means p
      → p.code.size ≤ length p.code.text
      → is_legal_text table means p.code.text ≡ true
      → Returns means (run table junk p)
  unfolding run
  run-IsReady p ready there ok = elim (Bool-cases (leb p.code.size p.pc)) [
    | inl past ↦ (pos 1, p, rw past, ready)
    | inr inside ↦
        let (ins, found) = get_elem?-some p.code.text p.pc (ground arith) in
        let next = (p.pc + 1) % word in
        let (code, q, ran, after) =
          execute-IsReady ins.opcode ins (record p { pc = next }) (IsReady-pc means p next ready)
            (legal_at table means p.code.text p.pc ins ok found) in
        (code, q, rw (inside, found, ran), after)
  ]

-- A process that has what it needs, and whose program, of fewer than 2 ^ 32 instructions and all
-- there, passes the test for it, comes to the end of the program: as many calls of `run` as
-- instructions are left all return and bring the program counter to the size of the code, and the
-- process still has what it needs and the same code.
pub runs_to_end :
    (table : SyscallTable) (means : Means) (junk : Junk) (n : ℕ) (p : Pcb)
    → IsReady means p
    → p.code.size < word
    → p.code.size ≤ length p.code.text
    → is_legal_text table means p.code.text ≡ true
    → p.pc + n ≡ p.code.size
    → (q : Pcb) × (runs table junk n p ≡ done q)
      × (q.pc ≡ q.code.size)
      × (q.code ≡ p.code)
      × IsReady means q
runs_to_end table means junk zero p ready fits there ok e = (p, refl, omega arith, refl, ready)
runs_to_end table means junk (suc n) p ready fits there ok e =
    let (code, p', ran, ready') = run-IsReady table means junk p ready there ok in
    let (next, same, _) = run_step table junk p p' code fits (omega arith) ran in
    let (q, finished, at_end, still, after) =
      runs_to_end table means junk n p' ready' (rw same fits) (rw same there) (rw same ok)
        (rw (next, same) (omega arith)) in
    (q, rw ran finished, at_end, still ∙ same, after)
