-- ===== src/Shared/Orders.antt =====
-- Any order of turns of processes that pass the test of their programs is defined.
use mathlib.Core.Path.{subst}
use native.Mathlib.Decide.{ℕ_discrete}
use assignment_os.Base.{
  ℕ, suc, ◌<◌, ◌≡◌, refl, sym, ap, ◌∙◌, arith, inl, inr, Option-cases, some, List, [], ◌∷◌,
  get_elem?, get_elem?-set_self, get_elem?-set_ne, inside_of, set, ◌==◌, if◌then◌else◌, done,
}
use assignment_os.Process.{CodeSeg, Pcb}
use assignment_os.Libmem.Ready.{IsDevice, Means, IsReady}
use assignment_os.Syscall.{SyscallTable, Junk}
use assignment_os.Cpu.Runnable.{IsRunnable, Advanced, run_advances, IsRunnable-after}
use assignment_os.Shared.{Devices, lend, give_back, Shared, turn, turns}

-- The devices that processes with these means need are there.
pub record HasDevices (means : Means) (d : Devices) : Type 0 where
  pub ram : 0 < means.ram_size → IsDevice means.ram_size d.mram
  pub swp : 0 < means.swp_size → IsDevice means.swp_size d.active_mswp

-- The shared devices are there, and all processes are runnable.
pub record AllRunnable (table : SyscallTable) (means : Means) (s : Shared) : Type 0 where
  pub devices : HasDevices means s.devices
  pub procs : (i : ℕ) (p : Pcb) → get_elem? s.procs i ≡ some p → IsRunnable table means p

-- How many of the turns are those of process `i`.
abbrev pub turns_of : (i : ℕ) → List ℕ → ℕ
turns_of i [] = 0
turns_of i (j ∷ order) = let rest = turns_of i order in if j == i then suc rest else rest

Advanced-trans :
    (i j : ℕ) (order : List ℕ) (p q r : Pcb)
    → Advanced (if i == j then 1 else 0) p q
    → Advanced (turns_of j order) q r
    → Advanced (turns_of j (i ∷ order)) p r
Advanced-trans i j order p q r (same, id, at) (same', id', at') =
    (same' ∙ same, id' ∙ id, ground (arith, ap (λ (c : CodeSeg). c.size) same))

module _ (table : SyscallTable) (means : Means) (junk : Junk) where
  -- A runnable process that is lent the devices.
  lend-IsReady :
      (d : Devices) (p : Pcb)
      → HasDevices means d
      → IsRunnable table means p
      → IsReady means (lend d p) × IsRunnable table means (lend d p)
  lend-IsReady d p has ok = (
    record { memory = ok.memory; ram = has.ram; swp = has.swp },
    record {
      memory = ok.memory;
      fits = ok.fits;
      there = ok.there;
      legal = ok.legal;
      inside = ok.inside;
    },
  )

  moved :
      (s : Shared) (i : ℕ) (p q : Pcb)
      → get_elem? s.procs i ≡ some p
      → Advanced 1 p q
      → (j : ℕ) (r : Pcb) → get_elem? s.procs j ≡ some r
      → IsRunnable table means r
      → (t : Pcb) × (get_elem? (set s.procs i q) j ≡ some t)
        × Advanced (if i == j then 1 else 0) r t
  moved s i p q there (same, id, at) j r found ok = elim (ℕ_discrete i j) [
    | yes here ↦
        let self = get_elem?-set_self s.procs i q (inside_of s.procs i p there) in
        let e : p ≡ r = ground arith in (q, rw⁻¹ here self, ground arith)
    | no differ ↦
        let still = get_elem?-set_ne s.procs i j q differ in
        (r, still ∙ found, (refl, refl, ground (arith, ok.inside)))
  ]

  detached :
      (s : Shared) (i : ℕ) (p q : Pcb)
      → get_elem? s.procs i ≡ some p
      → AllRunnable table means s
      → IsRunnable table means q
      → (j : ℕ) (r : Pcb) → get_elem? (set s.procs i q) j ≡ some r
      → IsRunnable table means r
  detached s i p q there all ok j r found = elim (ℕ_discrete i j) [
    | yes here ↦
        let self = get_elem?-set_self s.procs i q (inside_of s.procs i p there) in
        let e : q ≡ r = ground (arith, self) in subst (IsRunnable table means) e ok
    | no differ ↦ all.procs j r (sym (get_elem?-set_ne s.procs i j q differ) ∙ found)
  ]

  -- A turn of process `i` advances that process by one instruction and leaves the others as they
  -- are.
  turn_lem :
      (s : Shared) (i : ℕ)
      → AllRunnable table means s
      → (s' : Shared) × (turn table junk s i ≡ done s')
        × AllRunnable table means s'
        × ((j : ℕ) (p : Pcb)
            → get_elem? s.procs j ≡ some p
            → (q : Pcb) × (get_elem? s'.procs j ≡ some q) × Advanced (if i == j then 1 else 0) p q)
  unfolding turn
  turn_lem s i all = elim (Option-cases (get_elem? s.procs i)) [
    | inl nobody ↦ (
      s,
      rw (turn, nobody),
      all,
      λ j p found. (p, found, (refl, refl, ground (arith, (all.procs j p found).inside))),
    )
    | inr (p, there) ↦
        let (ready, ok) = lend-IsReady s.devices p all.devices (all.procs i p there) in
        let (code, q, ran, after, step) =
          run_advances table means junk (lend s.devices p) ready ok in
        (
          record { devices = give_back q; procs = set s.procs i q },
          rw (turn, there, ran),
          record {
            devices = record { ram = after.ram; swp = after.swp };
            procs = λ j r found.
                detached s i p q there all
                  (IsRunnable-after table means junk 1 (lend s.devices p) q ok after step) j r
                  found;
          },
          λ j r found. moved s i p q there step j r found (all.procs j r found),
        )
  ]

  -- Where the shared devices are there and all processes are runnable (each has its memory, if it
  -- uses that, and a program of fewer than 2 ^ 32 instructions, all there, that passes the test, and
  -- is not past its end), turns of them in any order are all defined, and leave it so. Each process
  -- has executed one instruction for each turn of its own, or come to the end of its program.
  pub turns_lem :
      (order : List ℕ) (s : Shared)
      → AllRunnable table means s
      → (s' : Shared) × (turns table junk order s ≡ done s')
        × AllRunnable table means s'
        × ((j : ℕ) (p : Pcb)
            → get_elem? s.procs j ≡ some p
            → (q : Pcb) × (get_elem? s'.procs j ≡ some q) × Advanced (turns_of j order) p q)
  unfolding turns
  turns_lem [] s all = (
    s,
    refl,
    all,
    λ j p found. (p, found, (refl, refl, omega (arith, (all.procs j p found).inside))),
  )
  turns_lem (i ∷ order) s all =
      let (t, first, all', step) = turn_lem s i all in
      let (u, rest, all'', steps) = turns_lem order t all' in
      (
        u,
        rw first rest,
        all'',
        λ j p found.
            let (q, there, one) = step j p found in
            let (r, at_end, more) = steps j q there in
            (r, at_end, Advanced-trans i j order p q r one more),
      )
