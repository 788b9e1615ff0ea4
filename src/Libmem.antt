-- ===== src/Libmem.antt =====
-- src/libmem.c: the memory library of a process, and `print_pgtbl` of src/mm.c, which it calls.
-- `mmvm_lock` is only ever unlocked, and is left out; so is the text that is printed.
pub mod Alloc
pub mod Access
pub mod Release
pub mod Program
pub mod Ready
pub mod Total
pub mod Exact
use assignment_os.Base.{
  ℕ, zero, suc, ◌+◌, ◌-◌, ◌*◌, ◌/◌, ◌%◌, ◌^◌, ◌<◌, Bool, true, false, Option, none, some, List, [],
  ◌∷◌, ltb, leb, ltb_ℤ, ◌==◌, ◌||◌, if◌then◌else◌, length, get_elem?, set, ℤ, pos, negsuc, success,
  failure, to_u32, to_ulong, to_int, long_to_int, word, Run, done, fault, ◌>>=◌, Chain, null, wild,
  node,
}
use assignment_os.Paging.{
  paging_pgn, paging_max_pgn, paging_page_present, paging_fpn, paging_pte_swp,
}
use assignment_os.Memphy.{Memphy, get_freefp, put_freefp}
use assignment_os.Process.{VmRg, VmArea, Mm, Pcb, paging_max_symtbl_sz}
use assignment_os.Vm.{is_zero, get_vma_by_num, deref, enlist_pgn_node}

-- `enlist_vm_freerg_list` on the first area: the list after the call. `own` is what the link of the
-- new region holds before; it is replaced only if the list has an element.
unfoldable pub enlist_vm_freerg_list : Chain VmRg → VmRg → (own : Chain VmRg) → ℤ × Chain VmRg
enlist_vm_freerg_list rg_node rg_elmt own =
    if leb rg_elmt.rg_end rg_elmt.rg_start
    then (failure, rg_node)
    else (success, node rg_elmt (elim rg_node [ null ↦ own | wild ↦ wild | node r c ↦ node r c ]))

-- `get_symrg_byid`: the index that the returned pointer stands for, or NULL. The bound lets the
-- index PAGING_MAX_SYMTBL_SZ through, which is one past the end.
unfoldable pub get_symrg_byid : (rgid : ℤ) → Option ℕ
get_symrg_byid (pos i) = if ltb paging_max_symtbl_sz i then none else some i
get_symrg_byid (negsuc i) = none

-- `mm->symrgtbl[i]`, read.
abbrev pub symrg : Mm → ℕ → Run VmRg
symrg mm i = elim (get_elem? mm.symrgtbl i) [ none ↦ fault | some rg ↦ done rg ]

-- `get_free_vmrg_area`: the code and, if it is 0, the region. -1 as an `unsigned long` is 2^64 - 1.
unfoldable pub get_free_vmrg_area : Pcb → (vmaid size : ℤ) → Run (ℤ × VmRg)
get_free_vmrg_area caller vmaid size = do
  cur_vma ← get_vma_by_num caller.mm vmaid
  vma ← deref cur_vma
  let newrg : VmRg = record { rg_start = to_ulong (negsuc 0); rg_end = to_ulong (negsuc 0) }
  elim vma.vm_freerg_list [
    | null ↦ done (failure, newrg)
    | wild ↦ fault
    | node r c ↦ done (success, newrg)
  ]

-- `__alloc`: the code, what `*alloc_addr` is set to, and the process. The index is not checked.
unfoldable pub alloc_region : Pcb → (vmaid rgid size : ℤ) → Run (ℤ × Option ℤ × Pcb)
alloc_region caller vmaid rgid size = do
  (code, rgnode) ← get_free_vmrg_area caller vmaid size
  if is_zero code
      then elim rgid [
        | negsuc i ↦ fault
        | pos i ↦
            if ltb i (length caller.mm.symrgtbl)
            then done (
              success,
              some (long_to_int rgnode.rg_start),
              record caller {
                mm = record (caller.mm) { symrgtbl = set caller.mm.symrgtbl i rgnode };
              },
            )
            else fault
      ]
      else done (success, none, caller)

-- `__free`
unfoldable pub free_region : Pcb → (vmaid rgid : ℤ) → ℤ
free_region caller vmaid (pos i) = if ltb paging_max_symtbl_sz i then failure else success
free_region caller vmaid (negsuc i) = failure

unfoldable pub liballoc : Pcb → (size reg_index : ℕ) → Run (ℤ × Pcb)
liballoc proc size reg_index = do
  (code, addr, proc') ← alloc_region proc (pos 0) (to_int reg_index) (to_int size)
  done (code, proc')

unfoldable pub libfree : Pcb → (reg_index : ℕ) → ℤ
libfree proc reg_index = free_region proc (pos 0) (to_int reg_index)

-- `find_victim_page`: the FIFO after the call. Its first node is freed, and the pointer to it kept.
unfoldable pub find_victim_page : (fifo_pgn : Chain ℕ) → Run (Chain ℕ)
find_victim_page null = done null
find_victim_page wild = fault
find_victim_page (node pgn rest) = done wild

-- `mm->pgd[pgn]`, read.
abbrev pub pgd_at : Mm → ℕ → Run ℕ
pgd_at mm pgn = if ltb pgn paging_max_pgn then done (mm.pgd pgn) else fault

-- `pg_getpage` on the process's own `mm`: the code, `*fpn`, and the process.
unfoldable pub pg_getpage : Pcb → (pgn : ℕ) → Run (ℤ × ℕ × Pcb)
pg_getpage caller pgn = do
  pte ← pgd_at caller.mm pgn
  if paging_page_present pte then done (success, paging_fpn pte, caller) else (do
    fifo ← find_victim_page caller.mm.fifo_pgn
    (code, mswp, swpfpn) ← get_freefp caller.active_mswp
    let mm' = record (caller.mm) { fifo_pgn = enlist_pgn_node fifo pgn }
    done (success, paging_fpn pte, record caller { mm = mm'; active_mswp = mswp }))

-- `pg_getval`: the data is not set.
unfoldable pub pg_getval : Pcb → (addr : ℤ) → Run (ℤ × Pcb)
pg_getval caller addr = do
  (code, fpn, caller') ← pg_getpage caller (paging_pgn (to_u32 addr))
  done (if is_zero code then success else failure, caller')

-- `pg_setval`: the value is not stored.
unfoldable pub pg_setval : Pcb → (addr : ℤ) → (value : ℕ) → Run (ℤ × Pcb)
pg_setval caller addr value = do
  (code, fpn, caller') ← pg_getpage caller (paging_pgn (to_u32 addr))
  done (if is_zero code then success else failure, caller')

-- `currg->rg_start + offset`, an `unsigned long` that is passed as an `int`.
abbrev pub region_addr : VmRg → ℤ → ℤ
region_addr rg offset = long_to_int ((rg.rg_start + to_ulong offset) % 2 ^ 64)

-- `__read`. `*data` is left as it is.
unfoldable pub read_region : Pcb → (vmaid rgid offset : ℤ) → Run (ℤ × Pcb)
read_region caller vmaid rgid offset = do
  cur_vma ← get_vma_by_num caller.mm vmaid
  elim (get_symrg_byid rgid) [
    | none ↦ done (failure, caller)
    | some i ↦ elim cur_vma [
      | null ↦ done (failure, caller)
      | wild ↦ fault
      | node a c ↦ (do
        rg ← symrg caller.mm i
        (code, caller') ← pg_getval caller (region_addr rg offset)
        done (success, caller'))
    ]
  ]

-- `__write`
unfoldable pub write_region : Pcb → (vmaid rgid offset : ℤ) → (value : ℕ) → Run (ℤ × Pcb)
write_region caller vmaid rgid offset value = do
  cur_vma ← get_vma_by_num caller.mm vmaid
  elim (get_symrg_byid rgid) [
    | none ↦ done (failure, caller)
    | some i ↦ elim cur_vma [
      | null ↦ done (failure, caller)
      | wild ↦ fault
      | node a c ↦ (do
        rg ← symrg caller.mm i
        (code, caller') ← pg_setval caller (region_addr rg offset) value
        done (success, caller'))
    ]
  ]

-- The loop of `print_pgtbl`: the rows printed, each an offset in the table and the entry.
pgtbl_rows : (left pgit : ℕ) → Mm → Run (List (ℕ × ℕ))
pgtbl_rows zero pgit mm = done []
pgtbl_rows (suc left) pgit mm = do
  pte ← pgd_at mm pgit
  rows ← pgtbl_rows left (pgit + 1) mm
  done ((pgit * 4, pte) ∷ rows)

-- `print_pgtbl`: an end of -1 stands for the end of area 0.
unfoldable pub print_pgtbl : Pcb → (start end' : ℕ) → Run (List (ℕ × ℕ))
unfolding pgtbl_rows
print_pgtbl caller start end' = do
  last ←
      (if end' == word - 1
        then (do
          cur_vma ← get_vma_by_num caller.mm (pos 0)
          vma ← deref cur_vma
          done (vma.vm_end % word))
        else done end')
  pgtbl_rows (paging_pgn last - paging_pgn start) (paging_pgn start) caller.mm

-- `libread`: the code and the process. `*destination` is left as it is.
unfoldable pub libread : Pcb → (source offset : ℕ) → Run (ℤ × Pcb)
libread proc source offset = do
  (val, proc') ← read_region proc (pos 0) (to_int source) (to_int offset)
  rows ← print_pgtbl proc' 0 (word - 1)
  done (val, proc')

unfoldable pub libwrite : Pcb → (byte destination offset : ℕ) → Run (ℤ × Pcb)
libwrite proc byte destination offset = do
  rows ← print_pgtbl proc 0 (word - 1)
  write_region proc (pos 0) (to_int destination) (to_int offset) byte

-- The loop of `free_pcb_memph` from page `pagenum`, with `left` pages to go.
free_loop : (left pagenum : ℕ) → Pcb → Run Pcb
free_loop zero pagenum caller = done caller
free_loop (suc left) pagenum caller = do
  pte ← pgd_at caller.mm pagenum
  caller' ←
      (if paging_page_present pte
        then (do
          mswp ← put_freefp caller.active_mswp (paging_pte_swp pte)
          done (record caller { active_mswp = mswp }))
        else (do
          mram ← put_freefp caller.mram (paging_fpn pte)
          done (record caller { mram = mram })))
  free_loop left (pagenum + 1) caller'

unfoldable pub free_pcb_memph : Pcb → Run (ℤ × Pcb)
unfolding free_loop
free_pcb_memph caller = do caller' ← free_loop paging_max_pgn 0 caller; done (success, caller')
