-- ===== src/Tests/Numbers.antt =====
-- Macros and page table entries at concrete numbers.
use assignment_os.Base.{◌≡◌, refl, arith, ◌^◌, ◌≤◌, ◌<◌, ◌+◌}
use assignment_os.Bits.{bit}
use assignment_os.Bitops.{nbits}
use assignment_os.Bitops.Width.{nbits-IsWidth}
use assignment_os.Paging.{paging_max_pgn}
use assignment_os.Pte.{pte_set_fpn, pte_set_swap}
use assignment_os.Pte.Laws.{bit-pte_set_fpn, bit-pte_set_swap}

paging_max_pgn_test : paging_max_pgn ≡ 16384
unfolding paging_max_pgn
paging_max_pgn_test = refl

set_fpn_example : bit 30 (pte_set_fpn 3221225472 7) ≡ 0
set_fpn_example = bit-pte_set_fpn 3221225472 7 30 (omega arith)

set_swap_example : bit 6 (pte_set_swap 0 1 6) ≡ 1
unfolding bit
set_swap_example = bit-pte_set_swap 0 1 6 6 (omega arith)

nbits_example : (2 ^ nbits 4095 ≤ 4095) × (4095 < 2 ^ (nbits 4095 + 1))
nbits_example = nbits-IsWidth 4095 (omega arith) (omega arith)
