-- ===== src/Libmem/Ready.antt =====
-- What a process needs for its instructions to have defined behaviour: its memory structure, if it
-- uses that, and its two devices.
use assignment_os.Base.{
  ℕ, ◌^◌, ◌<◌, ◌≡◌, refl, ◌≢◌, arith, Bool, true, ◌&&◌, ltb, Option, none, some, inl, inr,
  Bool-cases, length, ℤ, success, failure, lt→ltb, Run, done, Chain, null, wild, node, ends_in_null,
  ends_in_null-cases, Chain-cases,
}
use assignment_os.Bitops.{nbits}
use assignment_os.Paging.Laws.{getval-eq-field}
use assignment_os.Paging.{paging_pgn, paging_max_pgn, paging_page_present, paging_fpn}
use assignment_os.Memphy.{Memphy, get_freefp}
use assignment_os.Process.{VmArea, Mm, Pcb, paging_max_symtbl_sz}
use assignment_os.Vm.{enlist_pgn_node}
use assignment_os.Libmem.{find_victim_page, pg_getpage}

-- A random access device with `size` bytes of storage, a size that an `int` holds, whose list of free frames ends in NULL.
pub record Works (size : ℕ) (mp : Memphy) : Type 0 where
  pub random : mp.rdmflg ≡ true
  pub bytes : length mp.storage ≡ size
  pub fits : size < 2 ^ 31
  pub frames : ends_in_null mp.free_fp_list ≡ true

-- The device that the pointer reaches works.
abbrev pub IsDevice : (size : ℕ) → Option Memphy → Type 0
IsDevice size d = (mp : Memphy) × (d ≡ some mp) × Works size mp

-- A memory structure with a first area whose number an `int` holds, a list of free regions and a
-- FIFO of pages that can be read, and the whole table of symbols.
pub record HasMemory (mm : Mm) : Type 0 where
  pub area : VmArea
  pub areas : Chain VmArea
  pub mapped : mm.mmap ≡ node area areas
  pub small : area.vm_id < 2 ^ 31
  pub free : area.vm_freerg_list ≢ wild
  pub symbols : length mm.symrgtbl ≡ paging_max_symtbl_sz
  pub pages : mm.fifo_pgn ≢ wild

-- What a process may use: its memory structure, if `mapped`, and devices of these sizes, where 0
-- stands for no device.
pub record Means : Type 0 where
  pub mapped : Bool
  pub ram_size : ℕ
  pub swp_size : ℕ

-- Its memory is there, and a swap device, which an access may take a frame from.
abbrev pub has_memory : Means → Bool
has_memory means = means.mapped && ltb 0 means.swp_size

pub record IsReady (means : Means) (p : Pcb) : Type 0 where
  pub memory : means.mapped ≡ true → HasMemory p.mm
  pub ram : 0 < means.ram_size → IsDevice means.ram_size p.mram
  pub swp : 0 < means.swp_size → IsDevice means.swp_size p.active_mswp

-- The call returns, and the process is ready after it.
abbrev pub Returns : Means → Run (ℤ × Pcb) → Type 0
Returns means r = (code : ℤ) × (q : Pcb) × (r ≡ done (code, q)) × IsReady means q

get_freefp-IsDevice :
    (size : ℕ) (d : Option Memphy)
    → IsDevice size d
    → (code : ℤ) × (d' : Option Memphy) × (fpn : Option ℕ) × (get_freefp d ≡ done (code, d', fpn))
      × IsDevice size d'
unfolding get_freefp
get_freefp-IsDevice size d (mp, e, works) =
    let random = works.random in
    let bytes = works.bytes in
    let fits = works.fits in
    elim (ends_in_null-cases mp.free_fp_list works.frames) [
      | inl empty ↦ (failure, some mp, none, ground arith, (mp, refl, works))
      | inr (fpn, rest, there, ends) ↦ (
        success,
        some (record mp { free_fp_list = rest }),
        some fpn,
        ground arith,
        (
          record mp { free_fp_list = rest },
          refl,
          record { random = random; bytes = bytes; fits = fits; frames = ends },
        ),
      )
    ]

-- One more page in the FIFO leaves a memory structure in order.
pub HasMemory-fifo :
    (mm : Mm) (pgn : ℕ) (rest : Chain ℕ)
    → HasMemory mm
    → HasMemory (record mm { fifo_pgn = node pgn rest })
HasMemory-fifo mm pgn rest memory = record {
  area = memory.area;
  areas = memory.areas;
  mapped = memory.mapped;
  small = memory.small;
  free = memory.free;
  symbols = memory.symbols;
  pages = λ bad. cc;
}

-- `find_victim_page` returns, and then the FIFO with one more page can be read.
find_victim_page-returns :
    (fifo : Chain ℕ) → fifo ≢ wild → (left : Chain ℕ) × (find_victim_page fifo ≡ done left)
unfolding find_victim_page
find_victim_page-returns fifo ok = elim (Chain-cases fifo ok) [
  | inl empty ↦ (null, rw empty)
  | inr (pgn, rest, there) ↦ (wild, rw there)
]

pub paging_pgn-inside : (x : ℕ) → paging_pgn x < paging_max_pgn
unfolding paging_pgn paging_max_pgn nbits
paging_pgn-inside x = ground (arith, getval-eq-field x 21 8)

-- A page of the table can always be brought in.
pub pg_getpage-IsReady :
    (means : Means) (p : Pcb) (pgn : ℕ)
    → has_memory means ≡ true
    → pgn < paging_max_pgn
    → IsReady means p
    → (code : ℤ) × (fpn : ℕ) × (q : Pcb) × (pg_getpage p pgn ≡ done (code, fpn, q))
      × IsReady means q
unfolding pg_getpage enlist_pgn_node
pg_getpage-IsReady means p pgn uses inside ready =
    let memory = ready.memory (ground arith) in
    let here = lt→ltb pgn paging_max_pgn inside in
    elim (Bool-cases (paging_page_present (p.mm.pgd pgn))) [
      | inl present ↦ (success, paging_fpn (p.mm.pgd pgn), p, rw (here, present), ready)
      | inr absent ↦
          let (left, victim) = find_victim_page-returns p.mm.fifo_pgn memory.pages in
          let (code, d, swpfpn, got, device) =
            get_freefp-IsDevice means.swp_size p.active_mswp (ready.swp (ground arith)) in
          (
            success,
            paging_fpn (p.mm.pgd pgn),
            record p { mm = record (p.mm) { fifo_pgn = node pgn left }; active_mswp = d },
            rw (here, absent, victim, got),
            record {
              memory = λ _. HasMemory-fifo p.mm pgn left memory;
              ram = ready.ram;
              swp = λ _. device;
            },
          )
    ]
