-- ===== src/System/Inputs.antt =====
-- The simulation of src/os.c on input files in the formats of input and input/proc.
use assignment_os.Base.{
  Bool, Bool-cases, inl, inr, suc, ◌/◌, ◌==◌, ℕ, ◌+◌, ◌<◌, ◌≡◌, refl, sym, ap, ◌∙◌, arith, true,
  Option, some, List, [], ◌∷◌, ◌++◌, length, get_elem?, get_elem?-map_inv, map, All, ltb, lt→ltb,
  pos, word, done, Run-cases,
}
use assignment_os.Process.{Inst}
use assignment_os.Sched.{max_prio}
use assignment_os.Stdio.{Bytes, codes, c_string}
use assignment_os.Loader.Print.{print_program, IsWords}
use assignment_os.Loader.RoundTrip.{load-print_program}
use assignment_os.Config.{Entry}
use assignment_os.Config.Print.{Item, Plan, print_plan, IsPlan, entry, config}
use assignment_os.Config.RoundTrip.{read_config-print_plan}
use assignment_os.Ld.{LdArgs}
use assignment_os.System.{
  init_mswp, first_mswp, zeroed_sched, system_of, System, Fixed, SystemStep, SystemReachable, World,
  boot, fixed_of, threads, os_main,
}
use assignment_os.Memphy.{Memphy, init_memphy, format}
use assignment_os.Paging.{paging_pagesz}
use assignment_os.Timer.{initial}
use assignment_os.Sched.Init.{init_scheduler-queue_empty}
use assignment_os.System.Threads.{initial-Attached, attach_all-Attached, boot-Booted}
use assignment_os.System.Progress.{IsLoadable, never_stuck}

-- The file of a process is a program that was printed.
pub record IsPrinted (disk : Bytes → Option Bytes) (path : Bytes) : Type 0 where
  pub priority : ℕ
  pub text : List Inst
  pub priority_fits : priority < word
  pub size_fits : length text < word
  pub words : All IsWords text
  pub printed : disk path ≡ some (print_program priority text)

-- For each process of the plan there is a program, and its priority has a queue.
abbrev pub HasPrograms : (disk : Bytes → Option Bytes) → Plan → Type 0
HasPrograms disk plan =
    (i : ℕ) (item : Item)
    → get_elem? plan.items i ≡ some item
    → (item.prio < max_prio) × IsPrinted disk (entry item).path

IsLoadable-HasPrograms :
    (args : LdArgs) (plan : Plan)
    → args.ld_processes ≡ map entry plan.items
    → HasPrograms args.disk plan
    → IsLoadable args
IsLoadable-HasPrograms args plan same programs i e found =
    let at_i : get_elem? (map entry plan.items) i ≡ some e = rw⁻¹ same found in
    let (item, at_item, eq) = get_elem?-map_inv entry plan.items i e at_i in
    let (low, program) = programs i item at_item in
    let prio : item.prio ≡ e.prio = ap (λ (x : Entry). x.prio) eq in
    let path = ap (λ (x : Entry). args.disk x.path) (sym eq) in
    (
      omega (arith, low, prio),
      λ pid.
          let (out, read, insts) =
            load-print_program args.disk (args.malloc i) pid program.priority program.text e.path
              (path ∙ program.printed) program.priority_fits program.size_fits program.words in
          (_, _, read),
    )

init_memphy_defined :
    (mp : Memphy) (n : ℕ) (flag : Bool) → (mp' : Memphy) × (init_memphy mp (pos n) flag ≡ done mp')
unfolding init_memphy format
init_memphy_defined mp n flag = elim (Run-cases (init_memphy mp (pos n) flag)) [
  | inl bad ↦ absurd (elim (Bool-cases (n / paging_pagesz == 0)) [
    | inl small ↦ ground arith
    | inr enough ↦ ground arith
  ])
  | inr ok ↦ ok
]

init_mswp_defined :
    (mps : List Memphy) (ns : List ℕ)
    → (out : List Memphy) × (init_mswp mps (map pos ns) ≡ done out) × (length out ≡ length mps)
unfolding init_mswp
init_mswp_defined [] ns = ([], refl, refl)
init_mswp_defined (mp ∷ mps) [] = (mp ∷ mps, refl, refl)
init_mswp_defined (mp ∷ mps) (n ∷ ns) =
    let (mp', first) = init_memphy_defined mp n true in
    let (rest, others, same) = init_mswp_defined mps ns in
    (mp' ∷ rest, rw (first, init_mswp, others), ap suc same)

first_mswp_defined :
    (mps : List Memphy) → 0 < length mps → (mp : Memphy) × (first_mswp mps ≡ done mp)
first_mswp_defined [] h = absurd (omega arith)
first_mswp_defined (mp ∷ mps) h = (mp, refl)

-- `main` sets up its devices, whatever their sizes.
boot_defined :
    (world : World) (plan : Plan)
    → 0 < length world.mswp
    → (fixed : Fixed) × (s : System) × (boot world (config plan) ≡ done (fixed, s))
unfolding boot
boot_defined world plan some_mswp =
    let n : ℕ = plan.num_cpus in
    let (t, attached, ok) =
      attach_all-Attached (n + 1) 0 (suc n) initial (omega arith) initial-Attached in
    let (mram, ram) = init_memphy_defined world.mram plan.ram true in
    let (mswp, swaps, same) =
      init_mswp_defined world.mswp (plan.swap_0 ∷ plan.swap_1 ∷ plan.swap_2 ∷ plan.swap_3 ∷ []) in
    let (active, first) = first_mswp_defined mswp (omega arith) in
    let (q, cleared, _, _, _) = init_scheduler-queue_empty zeroed_sched refl refl in
    (
      fixed_of world (config plan) mram active,
      system_of (config plan) t q,
      rw (boot, attached, ram, swaps, first, cleared),
    )

-- `main`, given a name whose path fits its array and leads to a configuration file in the format of
-- the files in input that have the sizes of the memories, its numbers and names within their types,
-- with at least one CPU and a priority below 140 and a program in the format of input/proc for each
-- process, starts its threads, which then go on for ever: from every state that they can reach there
-- is a step. The array of swap devices is not empty.
pub os_main_goes_on :
    (world : World) (arg : Bytes) (plan : Plan)
    → world.disk (codes "input/" ++ c_string arg) ≡ some (print_plan plan)
    → length (codes "input/" ++ c_string arg) < 100
    → IsPlan plan
    → 0 < plan.num_cpus
    → HasPrograms world.disk plan
    → 0 < length world.mswp
    → (fixed : Fixed) × (s : System) × (os_main world (arg ∷ []) ≡ done (threads fixed s))
      × ((u : System) → SystemReachable fixed s u → (v : System) × SystemStep fixed u v)
unfolding os_main
os_main_goes_on world arg plan found fits fine cpus programs some_mswp =
    let path : Bytes = codes "input/" ++ c_string arg in
    let read = read_config-print_plan world.disk world.unset plan path found fine in
    let small : ltb (length path) 100 ≡ true = lt→ltb (length path) 100 fits in
    let (fixed, s, started) = boot_defined world plan some_mswp in
    let b = boot-Booted world (config plan) fixed s started in
    let disk = b.disk in
    let here : HasPrograms fixed.ld_args.disk plan = rw disk programs in
    let loadable = IsLoadable-HasPrograms fixed.ld_args plan b.processes here in
    (
      fixed,
      s,
      ground (arith, small, read, started),
      λ u reached. never_stuck world (config plan) fixed s u started cpus loadable reached,
    )
