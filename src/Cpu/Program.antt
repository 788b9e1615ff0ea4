-- ===== src/Cpu/Program.antt =====
-- How `run` steps through the program of a process.
use assignment_os.Base.{
  ℕ, zero, suc, ◌+◌, ◌%◌, ◌<◌, ◌≡◌, refl, ap, ◌∙◌, arith, inl, inr, ◌⊎◌, get_elem?, ℤ, word, Run,
  done, fault, ◌>>=◌, Run-cases, Option-cases,
}
use assignment_os.Process.{CodeSeg, Opcode, calc, alloc, free, read, write, Inst, Pcb, SameProgram}
use assignment_os.Libmem.Program.{liballoc-SameProgram, libread-SameProgram, libwrite-SameProgram}
use assignment_os.Syscall.{SyscallTable, Junk}
use assignment_os.Syscall.Laws.{libsyscall-SameProgram}
use assignment_os.Cpu.{run, execute}

module _ (table : SyscallTable) (junk : Junk) where
  execute-SameProgram :
      (op : Opcode) (ins : Inst) (p q : Pcb) (code : ℤ)
      → execute table junk op ins p ≡ done (code, q)
      → SameProgram p q
  unfolding execute
  execute-SameProgram calc ins p q code h = ground arith
  execute-SameProgram alloc ins p q code h = liballoc-SameProgram p q ins.arg_0 ins.arg_1 code h
  execute-SameProgram free ins p q code h = ground arith
  execute-SameProgram read ins p q code h = libread-SameProgram p q ins.arg_0 ins.arg_1 code h
  execute-SameProgram write ins p q code h =
      libwrite-SameProgram p q (ins.arg_0 % 256) ins.arg_1 ins.arg_2 code h
  execute-SameProgram Opcode.syscall ins p q code h =
      libsyscall-SameProgram table junk p q ins.arg_0 ins.arg_1 ins.arg_2 ins.arg_3 code h

  -- Where `run` returns inside the program, it has moved the program counter on by exactly one,
  -- whatever the instruction did, and left the program alone.
  pub run_step :
      (p q : Pcb) (code : ℤ)
      → p.code.size < word
      → p.pc < p.code.size
      → run table junk p ≡ done (code, q)
      → (q.pc ≡ p.pc + 1) × (q.code ≡ p.code) × (q.pid ≡ p.pid)
  unfolding run
  run_step p q code fits inside h = elim (Option-cases (get_elem? p.code.text p.pc)) [
    | inl missing ↦ absurd (ground arith)
    | inr (ins, found) ↦
        let next : Pcb = record p { pc = (p.pc + 1) % word } in
        let ran : execute table junk ins.opcode ins next ≡ done (code, q) = ground arith in
        let same = execute-SameProgram ins.opcode ins next q code ran in
        let small : (p.pc + 1) % word ≡ p.pc + 1 = omega arith in
        (same.pc ∙ small, same.code, same.pid)
  ]

-- `n` calls of `run` in a row.
abbrev pub runs : SyscallTable → Junk → ℕ → Pcb → Run Pcb
runs table junk zero p = done p
runs table junk (suc n) p = do (code, p') ← run table junk p; runs table junk n p'

-- A process comes to the end of its program: as many calls of `run` as instructions are left bring
-- the program counter to the size of the code, unless one of them has undefined behaviour.
runs_finish :
    (table : SyscallTable) (junk : Junk) (n : ℕ) (p : Pcb)
    → p.code.size < word
    → p.pc + n ≡ p.code.size
    → (runs table junk n p ≡ fault)
      ⊎ ((q : Pcb) × (runs table junk n p ≡ done q) × (q.pc ≡ p.code.size) × (q.code ≡ p.code))
runs_finish table junk zero p fits e = inr (p, refl, omega arith, refl)
runs_finish table junk (suc n) p fits e = elim (Run-cases (run table junk p)) [
  | inl stopped ↦ inl (rw stopped)
  | inr ((code, p'), ran) ↦
      let step = run_step table junk p p' code fits (omega arith) ran in
      let (at_next, same_code, _) = step in
      let same_size : p'.code.size ≡ p.code.size = ap (λ (c : CodeSeg). c.size) same_code in
      elim (runs_finish table junk n p' (omega arith) (omega arith)) [
        | inl stopped ↦ inl (rw ran stopped)
        | inr (q, finished, at_end, still) ↦
            inr (q, rw ran finished, at_end ∙ same_size, still ∙ same_code)
      ]
]
