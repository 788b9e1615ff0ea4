-- ===== src/Vm/Program.antt =====
-- Growing an area and swapping a page leave a process where it is in its program.
use assignment_os.Base.{ℕ, zero, suc, ◌≡◌, arith, ℤ, done}
use assignment_os.Process.{VmRg, Pcb, SameProgram}
use assignment_os.Vm.{
  inc_vma_limit, vm_map_ram, alloc_loop, alloc_pages_range, mm_swap_page, vmap_page_range,
}

alloc_loop-SameProgram : (left : ℕ) (p q : Pcb) → alloc_loop left p ≡ done q → SameProgram p q
unfolding alloc_loop
alloc_loop-SameProgram zero p q h = ground arith
alloc_loop-SameProgram (suc left) p q h = grind (arith, alloc_loop-SameProgram left)

vm_map_ram-SameProgram :
    (p q : Pcb) (astart aend mapstart incpgnum code : ℤ)
    → vm_map_ram p astart aend mapstart incpgnum ≡ done (code, q)
    → SameProgram p q
unfolding vm_map_ram alloc_pages_range vmap_page_range
vm_map_ram-SameProgram p q astart aend mapstart incpgnum code h =
    grind (arith, alloc_loop-SameProgram)

pub inc_vma_limit-SameProgram :
    (junk : VmRg) (p q : Pcb) (vmaid inc_sz code : ℤ)
    → inc_vma_limit junk p vmaid inc_sz ≡ done (code, q)
    → SameProgram p q
unfolding inc_vma_limit
inc_vma_limit-SameProgram junk p q vmaid inc_sz code h = grind (arith, vm_map_ram-SameProgram)

pub mm_swap_page-SameProgram :
    (junk : ℕ) (p q : Pcb) (vicfpn swpfpn code : ℤ)
    → mm_swap_page junk p vicfpn swpfpn ≡ done (code, q)
    → SameProgram p q
unfolding mm_swap_page
mm_swap_page-SameProgram junk p q vicfpn swpfpn code h = ground arith
