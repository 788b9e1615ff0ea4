-- ===== src/Cpu/Runnable.antt =====
-- Processes that can be run to their end, and one call of `run` of such a process.
use assignment_os.Base.{
  ℕ, ◌+◌, ◌≤◌, ◌<◌, ◌≡◌, refl, arith, true, inl, inr, Bool-cases, length, leb, ℤ, pos, word, done,
  min,
}
use assignment_os.Process.{Pcb}
use assignment_os.Libmem.Ready.{HasMemory, Means, IsReady}
use assignment_os.Syscall.{SyscallTable, Junk}
use assignment_os.Cpu.{run}
use assignment_os.Cpu.Program.{run_step}
use assignment_os.Cpu.Legal.{is_legal_text, run-IsReady}

-- A process that has its memory, if it uses that, and a program that is there and passes the test,
-- and is not past its end.
pub record IsRunnable (table : SyscallTable) (means : Means) (p : Pcb) : Type 0 where
  pub memory : means.mapped ≡ true → HasMemory p.mm
  pub fits : p.code.size < word
  pub there : p.code.size ≤ length p.code.text
  pub legal : is_legal_text table means p.code.text ≡ true
  pub inside : p.pc ≤ p.code.size

-- The process after `n` turns of its own: `n` instructions further, or at the end of its program.
abbrev pub Advanced : (n : ℕ) → (p q : Pcb) → Type 0
Advanced n p q = (q.code ≡ p.code) × (q.pid ≡ p.pid) × (q.pc ≡ min (p.pc + n) p.code.size)

module _ (table : SyscallTable) (means : Means) (junk : Junk) where
  run_past : (p : Pcb) → p.code.size ≤ p.pc → run table junk p ≡ done (pos 1, p)
  unfolding run
  run_past p past = let e : leb p.code.size p.pc ≡ true = ground arith in rw e

  -- One instruction of a runnable process, if its program is not at its end.
  pub run_advances :
      (p : Pcb)
      → IsReady means p
      → IsRunnable table means p
      → (code : ℤ) × (q : Pcb) × (run table junk p ≡ done (code, q))
        × IsReady means q
        × Advanced 1 p q
  run_advances p ready ok = elim (Bool-cases (leb p.code.size p.pc)) [
    | inl past ↦
        (pos 1, p, run_past p (ground arith), ready, (refl, refl, ground (arith, ok.inside)))
    | inr on ↦
        let (code, q, ran, after) = run-IsReady table means junk p ready ok.there ok.legal in
        let (next, same, id) = run_step table junk p q code ok.fits (ground arith) ran in
        (code, q, ran, after, (same, id, ground arith))
  ]

  -- The process is runnable after it.
  pub IsRunnable-after :
      (n : ℕ) (p q : Pcb)
      → IsRunnable table means p
      → IsReady means q
      → Advanced n p q
      → IsRunnable table means q
  IsRunnable-after n p q ok ready (same, _, at) = record {
    memory = ready.memory;
    fits = rw same ok.fits;
    there = rw same ok.there;
    legal = rw same ok.legal;
    inside = rw (at, same) (omega arith);
  }
