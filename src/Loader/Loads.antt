-- ===== src/Loader/Loads.antt =====
-- What is true of every process that src/loader.c returns, whatever the file holds.
use assignment_os.Base.{
  ℕ, zero, suc, ◌+◌, ◌%◌, ◌≡◌, refl, ap, arith, Option, none, some, Option-cases, Run-cases, inl,
  inr, List, ◌∷◌, length, word, done,
}
use mathlib.Core.Path.{subst}
use assignment_os.Process.{Inst, Pcb}
use assignment_os.Stdio.{Bytes, scan_numbers, percent_u}
use assignment_os.Loader.{
  get_opcode, Scanner, scan_opcode, scan_inst, load_text, Malloc, scanned, loaded, load,
}

-- As many instructions are read as are asked for.
length-load_text :
    (left i : ℕ) (junk : ℕ → Inst) (sc : Scanner) (out : List Inst)
    → load_text left i junk sc ≡ done (some out)
    → length out ≡ left
unfolding load_text
length-load_text zero i junk sc out h = ground arith
length-load_text (suc left) i junk sc out h = elim (Run-cases (scan_opcode sc)) [
  | inl bad ↦ absurd (ground arith)
  | inr ((opt, sc1), scanned_op) ↦ elim (Option-cases (get_opcode opt)) [
    | inl unknown ↦ absurd (ground arith)
    | inr (op, known) ↦ elim (Run-cases (scan_inst op (record (junk i) { opcode = op }) sc1)) [
      | inl bad ↦ absurd (ground arith)
      | inr ((ins, sc2), read) ↦ elim (Run-cases (load_text left (i + 1) junk sc2)) [
        | inl bad ↦ absurd (ground arith)
        | inr (none, rest) ↦ absurd (ground arith)
        | inr (some more, rest) ↦
            let count = length-load_text left (i + 1) junk sc2 more rest in
            let eq : ins ∷ more ≡ out = ground arith in rw⁻¹ eq (ap suc count)
      ]
    ]
  ]
]

-- Whatever a file holds: a process that `load` returns has the number that was free, is at its
-- first instruction, and has as many instructions as its code says; the next number is free then.
pub load_lem :
    (disk : Bytes → Option Bytes) (junk : Malloc) (avail_pid next : ℕ) (path : Bytes) (p : Pcb)
    → load disk junk avail_pid path ≡ done (some (p, next))
    → (p.pid ≡ avail_pid)
      × (p.pc ≡ 0)
      × (length p.code.text ≡ p.code.size)
      × (next ≡ (avail_pid + 1) % word)
unfolding load
load_lem disk junk avail_pid next path p h = elim (Option-cases (disk path)) [
  | inl absent ↦ absurd (ground arith)
  | inr (file, found) ↦
      let (ns, rest) = scan_numbers percent_u 2 file in
      let size : ℕ = scanned ns 1 junk.size in
      let start : Scanner = record { opcode = none; buf = none; file = rest } in
      elim (Run-cases (load_text size 0 junk.text start)) [
        | inl bad ↦ absurd (ground arith)
        | inr (none, read) ↦ absurd (ground arith)
        | inr (some insts, read) ↦
            let count = length-load_text size 0 junk.text start insts read in
            let eq : (
              loaded junk avail_pid (scanned ns 0 junk.pcb.priority) size insts,
              (avail_pid + 1) % word,
            )
                ≡ (p, next) =
              ground arith in
            subst
              (λ (r : Pcb × ℕ).
                (r.0.pid ≡ avail_pid)
                × (r.0.pc ≡ 0)
                × (length r.0.code.text ≡ r.0.code.size)
                × (r.1 ≡ (avail_pid + 1) % word))
              eq (refl, refl, count, refl)
      ]
]
