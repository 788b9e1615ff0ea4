-- ===== src/Syscall/Laws.antt =====
-- What system calls do to a process, and which of them return.
use native.Mathlib.Decide.{ℕ_discrete}
use assignment_os.Base.{
  ℕ, zero, suc, ◌+◌, ◌≡◌, refl, arith, List, ◌∷◌, length, get_elem?, ℤ, success, done, fault,
  >>=-eq-done, Run-cases, inl, inr, take, drop, take-length, drop-none, drop-some, ap, Option-cases,
  ◌⊎◌,
}
use assignment_os.Process.{Pcb, SameProgram}
use assignment_os.Vm.Program.{inc_vma_limit-SameProgram, mm_swap_page-SameProgram}
use assignment_os.Libmem.{libread}
use assignment_os.Syscall.{
  ScRegs, Junk, SyscallTable, syscall_tbl, memmap, killall_loop, killall, list_rows, listsyscall,
  syscall, libsyscall, sys_call_table,
}
use assignment_os.Stdio.{Bytes}

killall_loop-fault :
    (room i : ℕ) (caller : Pcb) (memrg : ℕ) → killall_loop room i 0 caller memrg ≡ fault
unfolding killall_loop
killall_loop-fault zero i caller memrg = refl
killall_loop-fault (suc room) i caller memrg = elim (Run-cases (libread caller memrg i)) [
  | inl stopped ↦ rw stopped
  | inr (r, got) ↦ rw got (killall_loop-fault room (i + 1) r.1 memrg)
]

pub killall-fault : (caller : Pcb) (regs : ScRegs) → killall caller regs ≡ fault
unfolding killall
killall-fault caller regs = rw (killall_loop-fault 100 0 caller regs.a1)

list_rows_lem :
    (lines : List Bytes) (left i : ℕ) → list_rows lines left i ≡ take left (drop i lines)
unfolding list_rows
list_rows_lem lines zero i = refl
list_rows_lem lines (suc left) i = elim (Option-cases (get_elem? lines i)) [
  | inl past ↦ rw (past, list_rows, drop-none lines i past)
  | inr (line, here) ↦
      let next : i + 1 ≡ suc i = omega arith in
      rw (here, list_rows, drop-some lines i line here, next)
        (ap (◌∷◌ line) (list_rows_lem lines left (suc i)))
]

-- `listsyscall` prints the lines of the table, all of them and in order, and returns 0.
pub listsyscall_lem : (table : SyscallTable) → listsyscall table ≡ (success, sys_call_table table)
unfolding listsyscall
listsyscall_lem table =
    let lines = sys_call_table table in rw (list_rows_lem lines (length lines) 0, take-length lines)

memmap_code :
    (junk : Junk) (p q : Pcb) (regs regs' : ScRegs) (code : ℤ)
    → memmap junk p regs ≡ done (code, q, regs')
    → code ≡ success
unfolding memmap
memmap_code junk p q regs regs' code h = ground arith

-- With the table of src/syscall.tbl, `syscall` returns 0 whenever it returns at all, and every call
-- but 17 changes neither the process nor the registers.
syscall_code :
    (junk : Junk) (p q : Pcb) (nr : ℕ) (regs regs' : ScRegs) (code : ℤ)
    → syscall syscall_tbl junk p nr regs ≡ done (code, q, regs')
    → (code ≡ success) × ((nr ≡ 17) ⊎ ((q ≡ p) × (regs' ≡ regs)))
unfolding syscall
syscall_code junk p q nr regs regs' code h = (
  ground (
    arith,
    memmap_code junk p q regs regs' code,
    killall-fault p regs,
    listsyscall_lem syscall_tbl,
  ),
  elim (ℕ_discrete nr 17) [
    | yes same ↦ inl same
    | no differ ↦ inr (ground (arith, killall-fault p regs), ground (arith, killall-fault p regs))
  ],
)

memmap-SameProgram :
    (junk : Junk) (p q : Pcb) (regs regs' : ScRegs) (code : ℤ)
    → memmap junk p regs ≡ done (code, q, regs')
    → SameProgram p q
unfolding memmap
memmap-SameProgram junk p q regs regs' code h =
    grind (arith, inc_vma_limit-SameProgram, mm_swap_page-SameProgram)

syscall-SameProgram :
    (table : SyscallTable) (junk : Junk) (p q : Pcb) (nr : ℕ) (regs regs' : ScRegs) (code : ℤ)
    → syscall table junk p nr regs ≡ done (code, q, regs')
    → SameProgram p q
unfolding syscall
syscall-SameProgram table junk p q nr regs regs' code h =
    ground (arith, memmap-SameProgram junk p q regs regs' code, killall-fault p regs)

pub libsyscall-SameProgram :
    (table : SyscallTable) (junk : Junk) (p q : Pcb) (idx a1 a2 a3 : ℕ) (code : ℤ)
    → libsyscall table junk p idx a1 a2 a3 ≡ done (code, q)
    → SameProgram p q
unfolding libsyscall
libsyscall-SameProgram table junk p q idx a1 a2 a3 code h =
    let regs : ScRegs = record { a1 = a1; a2 = a2; a3 = a3 } in
    let (r, called, returned) = >>=-eq-done (syscall table junk p idx regs) _ h in
    ground (arith, syscall-SameProgram table junk p r.1 idx regs r.2 r.0 called)
