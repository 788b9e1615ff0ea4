-- ===== src/Cpu.antt =====
-- src/cpu.c with MM_PAGING, which include/os-cfg.h defines: one instruction of a process.
pub mod Program
pub mod Legal
pub mod Runnable
use assignment_os.Base.{
  ℕ, ◌+◌, ◌%◌, Option, none, some, get_elem?, leb, if◌then◌else◌, ℤ, pos, success, word, Run, done,
  fault, ◌>>=◌,
}
use assignment_os.Process.{Opcode, calc, alloc, free, read, write, syscall, Inst, Pcb}
use assignment_os.Libmem.{liballoc, libfree, libread, libwrite}
use assignment_os.Syscall.{SyscallTable, Junk, libsyscall}

-- The `switch` of `run`.
unfoldable pub execute : SyscallTable → Junk → Opcode → Inst → Pcb → Run (ℤ × Pcb)
execute table junk calc ins proc = done (success, proc)
execute table junk alloc ins proc = liballoc proc ins.arg_0 ins.arg_1
execute table junk free ins proc = done (libfree proc ins.arg_0, proc)
execute table junk read ins proc = libread proc ins.arg_0 ins.arg_1
execute table junk write ins proc = libwrite proc (ins.arg_0 % 256) ins.arg_1 ins.arg_2
execute table junk syscall ins proc =
    libsyscall table junk proc ins.arg_0 ins.arg_1 ins.arg_2 ins.arg_3

-- `run`: 1 if the program counter is past the code, and else what the instruction returns.
unfoldable pub run : SyscallTable → Junk → Pcb → Run (ℤ × Pcb)
run table junk proc =
    if leb proc.code.size proc.pc
    then done (pos 1, proc)
    else elim (get_elem? proc.code.text proc.pc) [
      | none ↦ fault
      | some ins ↦ execute table junk ins.opcode ins (record proc { pc = (proc.pc + 1) % word })
    ]
