-- ===== src/Config/Print.antt =====
-- The format of the files in input that have the sizes of the memories: a line with the time slot
-- and the numbers of CPUs and of processes, a line with the size of the RAM and those of the four
-- swap devices, and a line for each process. In front of the number of processes and of a priority
-- there may be more than one blank, and the last line may end without a newline.
use assignment_os.Base.{
  ℕ, zero, suc, ◌<◌, ◌^◌, ◌≡◌, Bool, false, if◌then◌else◌, List, [], ◌∷◌, ◌++◌, length, All, pos,
  map,
}
use assignment_os.Stdio.{Bytes, is_space, codes}
use assignment_os.Stdio.Numbers.{decimal, fields}
use assignment_os.Config.{Entry, Config}

-- A process by the name of its file, and how many blanks there are behind it, after the first.
pub record Item : Type 0 where
  pub name : Bytes
  pub blanks : ℕ
  pub start_time : ℕ
  pub prio : ℕ

-- `blanks` are those in front of the number of processes, after the first.
pub record Plan : Type 0 where
  pub time_slot : ℕ
  pub num_cpus : ℕ
  pub blanks : ℕ
  pub ram : ℕ
  pub swap_0 : ℕ
  pub swap_1 : ℕ
  pub swap_2 : ℕ
  pub swap_3 : ℕ
  pub items : List Item
  pub last_newline : Bool

-- So many blanks in front of a text.
unfoldable pub blanks_before : ℕ → Bytes → Bytes
blanks_before zero s = s
blanks_before (suc k) s = b' ' ∷ blanks_before k s

-- The lines of the processes, each after the newline that ends the line before.
unfoldable pub print_items : (last_newline : Bool) → List Item → Bytes
print_items last_newline [] = if last_newline then 10 ∷ [] else []
print_items last_newline (item ∷ items) =
    10
    ∷ (decimal item.start_time
        ++ (b' '
            ∷ (item.name
                ++ (b' '
                    ∷ blanks_before item.blanks
                        (decimal item.prio ++ print_items last_newline items)))))

unfoldable pub print_plan : Plan → Bytes
print_plan plan =
    decimal plan.time_slot
    ++ (fields (plan.num_cpus ∷ [])
        ++ (b' '
            ∷ blanks_before plan.blanks (
                decimal (length plan.items)
                ++ (10
                    ∷ (decimal plan.ram
                        ++ (fields (plan.swap_0 ∷ plan.swap_1 ∷ plan.swap_2 ∷ plan.swap_3 ∷ [])
                            ++ print_items plan.last_newline plan.items))))))

-- A name is not empty, has no white space and no zero byte, and fits the array of a path.
pub record IsName (name : Bytes) : Type 0 where
  pub some_byte : 0 < length name
  pub fits : length name < 89
  pub bytes : All (λ c. (is_space c ≡ false) × (0 < c)) name

-- Times and priorities are `unsigned long`.
pub record IsItem (item : Item) : Type 0 where
  pub name : IsName item.name
  pub start_time : item.start_time < 2 ^ 64
  pub prio : item.prio < 2 ^ 64

-- The other numbers are `int`.
pub record IsPlan (plan : Plan) : Type 0 where
  pub sizes :
      All
        (λ n. n < 2 ^ 31)
        (plan.time_slot
          ∷ plan.num_cpus
          ∷ length plan.items
          ∷ plan.ram
          ∷ plan.swap_0
          ∷ plan.swap_1
          ∷ plan.swap_2
          ∷ plan.swap_3
          ∷ [])
  pub items : All IsItem plan.items

abbrev pub entry : Item → Entry
entry item = record {
  path = codes "input/proc/" ++ item.name;
  start_time = item.start_time;
  prio = item.prio;
}

-- What `read_config` is to make of it.
abbrev pub config : Plan → Config
config plan = record {
  time_slot = pos plan.time_slot;
  num_cpus = pos plan.num_cpus;
  num_processes = pos (length plan.items);
  memramsz = pos plan.ram;
  memswpsz = pos plan.swap_0 ∷ pos plan.swap_1 ∷ pos plan.swap_2 ∷ pos plan.swap_3 ∷ [];
  processes = map entry plan.items;
}
