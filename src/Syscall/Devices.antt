-- ===== src/Syscall/Devices.antt =====
-- What a system call does to the devices and the memory of a process that has what it needs.
use assignment_os.Base.{
  ℕ, ◌+◌, ◌*◌, ◌≡◌, refl, ◌∙◌, arith, Bool, true, false, ltb, leb, Option, some, length-set, set,
  get_elem?-some, ℤ, pos, negsuc, success, done,
}
use assignment_os.Memphy.{Memphy, Reading, read, write}
use assignment_os.Process.{VmRg, Pcb}
use assignment_os.Vm.{inc_vma_limit, mm_swap_page}
use assignment_os.Memphy.Copy.{swap_cp_page-IsPageCopy}
use assignment_os.Vm.Mapping.{is_no_growth, end_enlisted, inc_vma_limit_no_growth}
use assignment_os.Libmem.Ready.{IsDevice, Means, IsReady, Returns, HasMemory-fifo}

-- An address of a device of `size` bytes, and a frame that lies in it.
abbrev pub is_address : (size : ℕ) → ℤ → Bool
is_address size (pos a) = ltb a size
is_address size (negsuc a) = false

abbrev pub is_frame : (size : ℕ) → ℤ → Bool
is_frame size (pos f) = leb (f * 256 + 256) size
is_frame size (negsuc f) = false

pub read-IsDevice :
    (size : ℕ) (d : Option Memphy) (addr : ℤ)
    → IsDevice size d
    → is_address size addr ≡ true
    → (r : Reading) × (read d addr ≡ done r) × IsDevice size r.device
unfolding read
read-IsDevice size d (pos a) (mp, e, works) inside =
    let random = works.random in
    let (b, there) = get_elem?-some mp.storage a (ground (arith, works.bytes)) in
    (record { code = success; device = some mp; value = some b }, ground arith, (mp, refl, works))
read-IsDevice size d (negsuc a) dev inside = absurd cc

pub write-IsDevice :
    (size : ℕ) (d : Option Memphy) (addr : ℤ) (v : ℕ)
    → IsDevice size d
    → is_address size addr ≡ true
    → (code : ℤ) × (d' : Option Memphy) × (write d addr v ≡ done (code, d')) × IsDevice size d'
unfolding write
write-IsDevice size d (pos a) v (mp, e, works) inside =
    let random = works.random in
    let bytes = works.bytes in
    let mp' : Memphy = record mp { storage = set mp.storage a v } in
    (
      success,
      some mp',
      ground arith,
      (
        mp',
        refl,
        record {
          random = random;
          bytes = length-set mp.storage a v ∙ bytes;
          fits = works.fits;
          frames = works.frames;
        },
      ),
    )
write-IsDevice size d (negsuc a) v dev inside = absurd cc

pub mm_swap_page-IsReady :
    (means : Means) (p : Pcb) (junk : ℕ) (vicfpn swpfpn : ℤ)
    → IsReady means p
    → is_frame means.ram_size vicfpn ≡ true
    → is_frame means.swp_size swpfpn ≡ true
    → Returns means (mm_swap_page junk p vicfpn swpfpn)
unfolding mm_swap_page
mm_swap_page-IsReady means p junk (pos s) (pos d) ready in_ram in_swp =
    let (ram, has_ram, ram_works) = ready.ram (ground arith) in
    let (swp, has_swp, swp_works) = ready.swp (ground arith) in
    let ram_bytes = ram_works.bytes in
    let swp_bytes = swp_works.bytes in
    let ram_fits = ram_works.fits in
    let swp_fits = swp_works.fits in
    let (out, copied, same, _) =
      swap_cp_page-IsPageCopy ram swp s d junk ram_works.random swp_works.random (ground arith)
        (ground arith) (omega arith) (omega arith) in
    let swp' : Memphy = record swp { storage = out } in
    (
      success,
      record p { mram = some ram; active_mswp = some swp' },
      rw (has_ram, has_swp, copied),
      record {
        memory = ready.memory;
        ram = λ _. (ram, refl, ram_works);
        swp = λ _. (
          swp',
          refl,
          record {
            random = swp_works.random;
            bytes = same ∙ swp_bytes;
            fits = swp_fits;
            frames = swp_works.frames;
          },
        );
      },
    )
mm_swap_page-IsReady means p junk (negsuc s) d ready in_ram in_swp = absurd cc
mm_swap_page-IsReady means p junk (pos s) (negsuc d) ready in_ram in_swp = absurd cc

pub inc_vma_limit-IsReady :
    (means : Means) (p : Pcb) (junk : VmRg) (sz : ℤ)
    → means.mapped ≡ true
    → IsReady means p
    → is_no_growth sz ≡ true
    → Returns means (inc_vma_limit junk p (pos 0) sz)
inc_vma_limit-IsReady means p junk sz uses ready none_asked =
    let memory = ready.memory uses in
    (
      success,
      end_enlisted p memory.area,
      inc_vma_limit_no_growth junk p memory.area memory.areas sz memory.mapped memory.small
          none_asked,
      record {
        memory = λ _. HasMemory-fifo p.mm _ p.mm.fifo_pgn memory;
        ram = ready.ram;
        swp = ready.swp;
      },
    )
