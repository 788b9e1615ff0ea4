-- ===== src/Syscall/Total.antt =====
-- Which system calls have defined behaviour for a process that has what it needs.
use assignment_os.Base.{
  ℕ, zero, suc, ◌%◌, ◌≡◌, refl, arith, Bool, true, false, ◌&&◌, ◌||◌, ◌==◌, if◌then◌else◌, none,
  some, inl, inr, Bool-cases, Option-cases, ℤ, pos, negsuc, success, to_int, byte_to_u32, Run, done,
}
use assignment_os.Memphy.{out_param}
use assignment_os.Process.{Pcb}
use assignment_os.Vm.{is_zero}
use assignment_os.Vm.Mapping.{is_no_growth}
use assignment_os.Libmem.Ready.{Means, IsReady, Returns}
use assignment_os.Syscall.Devices.{
  is_address, is_frame, read-IsDevice, write-IsDevice, mm_swap_page-IsReady, inc_vma_limit-IsReady,
}
use assignment_os.Syscall.{
  ScRegs, Junk, Handler, sys_listsyscall, sys_memmap, sys_killall, SyscallTable, memmap,
  listsyscall, handler_of, syscall, libsyscall,
}

-- Registers with which `memmap` has defined behaviour, as far as the means tell: growing area 0 by
-- nothing, a swap between frames that the devices have, an access inside the RAM, or an operation
-- that it does not know.
abbrev pub is_legal_memmap : Means → ScRegs → Bool
is_legal_memmap means regs =
    if regs.a1 == 2
    then means.mapped && is_zero (to_int regs.a2) && is_no_growth (to_int regs.a3)
    else if regs.a1 == 3
    then is_frame means.ram_size (to_int regs.a2) && is_frame means.swp_size (to_int regs.a3)
    else if regs.a1 == 4 || regs.a1 == 5
    then is_address means.ram_size (to_int regs.a2)
    else true

-- The calls that pass: of `memmap` with legal registers, and of any other number but that of
-- `killall`.
abbrev pub is_legal_call : SyscallTable → Means → (nr : ℕ) → ScRegs → Bool
is_legal_call table means nr regs = elim (handler_of table nr) [
  | none ↦ true
  | some h ↦ elim h [
    | sys_listsyscall ↦ true
    | sys_memmap ↦ is_legal_memmap means regs
    | sys_killall ↦ false
  ]
]

-- The call returns, and the process is ready after it.
abbrev CallReturns : Means → Run (ℤ × Pcb × ScRegs) → Type 0
CallReturns means r =
    (code : ℤ) × (q : Pcb) × (regs : ScRegs) × (r ≡ done (code, q, regs)) × IsReady means q

is_zero-pos : (z : ℤ) → is_zero z ≡ true → z ≡ pos 0
is_zero-pos (pos zero) h = refl
is_zero-pos (pos (suc n)) h = absurd cc
is_zero-pos (negsuc n) h = absurd cc

module _ (means : Means) (junk : Junk) (p : Pcb) (regs : ScRegs) (ready : IsReady means p) where
  memmap-grow :
      regs.a1 ≡ 2
      → (means.mapped && is_zero (to_int regs.a2) && is_no_growth (to_int regs.a3)) ≡ true
      → CallReturns means (memmap junk p regs)
  unfolding memmap
  memmap-grow op ok =
      let uses : means.mapped ≡ true = ground arith in
      let at_zero = is_zero-pos (to_int regs.a2) (ground arith) in
      let (code, q, grown, after) =
        inc_vma_limit-IsReady means p junk.region (to_int regs.a3) uses ready (ground arith) in
      (success, q, regs, rw (op, at_zero, grown), after)

  memmap-swap :
      regs.a1 ≡ 3
      → (is_frame means.ram_size (to_int regs.a2) && is_frame means.swp_size (to_int regs.a3))
        ≡ true
      → CallReturns means (memmap junk p regs)
  unfolding memmap
  memmap-swap op ok =
      let (code, q, swapped, after) =
        mm_swap_page-IsReady means p junk.byte (to_int regs.a2) (to_int regs.a3) ready
          (ground arith) (ground arith) in
      (success, q, regs, rw (op, swapped), after)

  memmap-read :
      regs.a1 ≡ 4
      → is_address means.ram_size (to_int regs.a2) ≡ true
      → CallReturns means (memmap junk p regs)
  unfolding memmap
  memmap-read op ok =
      let (r, got, device) =
        read-IsDevice means.ram_size p.mram (to_int regs.a2) (ready.ram (ground arith)) ok in
      (
        success,
        record p { mram = r.device },
        record regs { a3 = byte_to_u32 (out_param r.value junk.byte) },
        rw (op, got),
        record { memory = ready.memory; ram = λ _. device; swp = ready.swp },
      )

  memmap-write :
      regs.a1 ≡ 5
      → is_address means.ram_size (to_int regs.a2) ≡ true
      → CallReturns means (memmap junk p regs)
  unfolding memmap
  memmap-write op ok =
      let (code, d, put, device) =
        write-IsDevice means.ram_size p.mram (to_int regs.a2) (regs.a3 % 256)
          (ready.ram (ground arith)) ok in
      (
        success,
        record p { mram = d },
        regs,
        rw (op, put),
        record { memory = ready.memory; ram = λ _. device; swp = ready.swp },
      )

  memmap-other :
      (regs.a1 == 2) ≡ false
      → (regs.a1 == 3) ≡ false
      → (regs.a1 == 4) ≡ false
      → (regs.a1 == 5) ≡ false
      → CallReturns means (memmap junk p regs)
  unfolding memmap
  memmap-other a b c d = (success, p, regs, rw (a, b, c, d), ready)

  memmap-IsReady : is_legal_memmap means regs ≡ true → CallReturns means (memmap junk p regs)
  memmap-IsReady ok = elim (Bool-cases (regs.a1 == 2)) [
    | inl grow ↦ memmap-grow (ground arith) (ground arith)
    | inr a ↦ elim (Bool-cases (regs.a1 == 3)) [
      | inl swap ↦ memmap-swap (ground arith) (ground arith)
      | inr b ↦ elim (Bool-cases (regs.a1 == 4)) [
        | inl reads ↦ memmap-read (ground arith) (ground arith)
        | inr c ↦ elim (Bool-cases (regs.a1 == 5)) [
          | inl writes ↦ memmap-write (ground arith) (ground arith)
          | inr d ↦ memmap-other a b c d
        ]
      ]
    ]
  ]

  syscall-IsReady :
      (table : SyscallTable) (nr : ℕ)
      → is_legal_call table means nr regs ≡ true
      → CallReturns means (syscall table junk p nr regs)
  unfolding syscall
  syscall-IsReady table nr ok = elim (Option-cases (handler_of table nr)) [
    | inl unknown ↦ (success, p, regs, rw (syscall, unknown), ready)
    | inr (h, found) ↦ by_handler h found
  ]
    where
      by_handler :
          (h : Handler)
          → handler_of table nr ≡ some h
          → CallReturns means (syscall table junk p nr regs)
      by_handler sys_listsyscall found =
          ((listsyscall table).0, p, regs, rw (syscall, found), ready)
      by_handler sys_killall found = absurd (ground arith)
      by_handler sys_memmap found =
          let (code, q, regs', called, after) = memmap-IsReady (ground arith) in
          (code, q, regs', rw (syscall, found, called), after)

-- A legal call returns, and the process is ready after it.
pub libsyscall-IsReady :
    (table : SyscallTable) (means : Means) (junk : Junk) (p : Pcb) (idx a1 a2 a3 : ℕ)
    → IsReady means p
    → is_legal_call table means idx (record { a1 = a1; a2 = a2; a3 = a3 }) ≡ true
    → Returns means (libsyscall table junk p idx a1 a2 a3)
unfolding libsyscall
libsyscall-IsReady table means junk p idx a1 a2 a3 ready ok =
    let regs : ScRegs = record { a1 = a1; a2 = a2; a3 = a3 } in
    let (code, q, regs', called, after) = syscall-IsReady means junk p regs ready table idx ok in
    (code, q, rw called, after)
