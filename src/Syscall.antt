-- ===== src/Syscall.antt =====
-- System calls: src/syscall.c, src/libstd.c, src/sys_mem.c, src/sys_killall.c and
-- src/sys_listsyscall.c. The table that the build generates from src/syscall.tbl is an argument;
-- `syscall_tbl` holds the rows of that file. Printed text is left out but for the list of calls.
pub mod Laws
pub mod Devices
pub mod Total
use assignment_os.Base.{
  ℕ, zero, suc, ◌+◌, ◌-◌, ◌%◌, ◌^◌, ◌++◌, Bool, Option, none, some, List, [], ◌∷◌, ◌==◌, length,
  get_elem?, if◌then◌else◌, ℤ, pos, success, to_int, word, byte_to_u32, Run, done, fault, ◌>>=◌,
}
use assignment_os.Stdio.{Bytes, codes}
use assignment_os.Stdio.Numbers.{decimal}
use assignment_os.Memphy.{Memphy, Reading, read, write, out_param}
use assignment_os.Process.{VmRg, Pcb}
use assignment_os.Vm.{inc_vma_limit, mm_swap_page}
use assignment_os.Libmem.{libread}

-- `struct sc_regs`: the registers that `libsyscall` sets. No call reads another.
pub record ScRegs : Type 0 where
  pub a1 : ℕ
  pub a2 : ℕ
  pub a3 : ℕ

-- What uninitialised memory holds: a local `BYTE`, and a region from `malloc`.
pub record Junk : Type 0 where
  pub byte : ℕ
  pub region : VmRg

-- The entry points that src/syscall.tbl names.
pub data Handler : Type 0 where
  sys_listsyscall sys_memmap sys_killall : Handler

abbrev pub SyscallTable : Type 0
SyscallTable = List (ℕ × Handler)

abbrev pub syscall_tbl : SyscallTable
syscall_tbl = (0, sys_listsyscall) ∷ (17, sys_memmap) ∷ (101, sys_killall) ∷ []

-- `__sys_memmap`
unfoldable pub memmap : Junk → Pcb → ScRegs → Run (ℤ × Pcb × ScRegs)
memmap junk caller regs =
    if regs.a1 == 2
    then (do
      (code, caller') ← inc_vma_limit junk.region caller (to_int regs.a2) (to_int regs.a3)
      done (success, caller', regs))
    else if regs.a1 == 3
    then (do
      (code, caller') ← mm_swap_page junk.byte caller (to_int regs.a2) (to_int regs.a3)
      done (success, caller', regs))
    else if regs.a1 == 4
    then (do
      r ← read caller.mram (to_int regs.a2)
      let value = out_param r.value junk.byte
      done (success, record caller { mram = r.device }, record regs { a3 = byte_to_u32 value }))
    else if regs.a1 == 5
    then (do
      (code, mram) ← write caller.mram (to_int regs.a2) (regs.a3 % 256)
      done (success, record caller { mram = mram }, regs))
    else done (success, caller, regs)

-- The loop of `__sys_killall`: `room` elements of `proc_name` are left from index `i` on, and
-- `byte` is the local `data`, which `libread` leaves alone.
killall_loop : (room i byte : ℕ) → Pcb → (memrg : ℕ) → Run Pcb
killall_loop zero i byte caller memrg = if byte == word - 1 then done caller else fault
killall_loop (suc room) i byte caller memrg =
    if byte == word - 1
    then done caller
    else (do (code, caller') ← libread caller memrg i; killall_loop room (i + 1) byte caller' memrg)

-- `__sys_killall`, with the 100 elements of `proc_name`.
unfoldable pub killall : Pcb → ScRegs → Run (ℤ × Pcb × ScRegs)
unfolding killall_loop
killall caller regs = do
  caller' ← killall_loop 100 0 0 caller regs.a1
  done (success, caller', regs)

-- The name of an entry point, as the macros print it.
abbrev pub handler_name : Handler → Bytes
handler_name sys_listsyscall = codes "sys_listsyscall"
handler_name sys_memmap = codes "sys_memmap"
handler_name sys_killall = codes "sys_killall"

-- `sys_call_table`: the number and the name of each row.
abbrev pub sys_call_table : SyscallTable → List Bytes
sys_call_table [] = []
sys_call_table ((nr, h) ∷ rows) =
    (decimal nr ++ (codes "-" ++ handler_name h)) ∷ sys_call_table rows

-- `__sys_listsyscall`: the lines printed, from index `i` on; `left` of `syscall_table_size` are left.
list_rows : List Bytes → (left i : ℕ) → List Bytes
list_rows lines zero i = []
list_rows lines (suc left) i = elim (get_elem? lines i) [
  | none ↦ []
  | some line ↦ line ∷ list_rows lines left (i + 1)
]

unfoldable pub listsyscall : SyscallTable → ℤ × List Bytes
unfolding list_rows
listsyscall table = let lines = sys_call_table table in (success, list_rows lines (length lines) 0)

-- The `case` labels of `syscall`.
abbrev pub handler_of : SyscallTable → (nr : ℕ) → Option Handler
handler_of [] nr = none
handler_of ((n, h) ∷ rows) nr = if n == nr then some h else handler_of rows nr

-- `syscall`; a number that is not in the table goes to `__sys_ni_syscall`, which does nothing.
unfoldable pub syscall : SyscallTable → Junk → Pcb → (nr : ℕ) → ScRegs → Run (ℤ × Pcb × ScRegs)
syscall table junk caller nr regs = elim (handler_of table nr) [
  | none ↦ done (success, caller, regs)
  | some h ↦ elim h [
    | sys_listsyscall ↦ done ((listsyscall table).0, caller, regs)
    | sys_memmap ↦ memmap junk caller regs
    | sys_killall ↦ killall caller regs
  ]
]

-- `libsyscall`
unfoldable pub libsyscall : SyscallTable → Junk → Pcb → (syscall_idx a1 a2 a3 : ℕ) → Run (ℤ × Pcb)
libsyscall table junk caller syscall_idx a1 a2 a3 = do
  (code, caller', regs) ←
      syscall table junk caller syscall_idx (record { a1 = a1; a2 = a2; a3 = a3 })
  done (code, caller')
