-- ===== src/Config/RoundTrip.antt =====
-- What `read_config` makes of a file in the format of the files in input, by one lemma for each piece
-- of the text, with any rest behind.
use mathlib.Core.List.{append_assoc}
use assignment_os.Base.{
  ℕ, zero, suc, ◌+◌, ◌<◌, ◌^◌, ◌≡◌, refl, ap, ◌∙◌, arith, Bool, true, false, Option, some, List, [],
  ◌∷◌, ◌++◌, ◌==◌, length, All, map, ℤ, pos, to_int, done,
}
use assignment_os.Stdio.{
  Bytes, is_space, codes, skip_space, scan_number, scan_numbers, percent_d, percent_lu, take_word,
  scan_word,
}
use assignment_os.Stdio.Numbers.{
  fields, decimal, NoDigitNext, scan_number-decimal, skip_space-decimal, skip_space-space,
}
use assignment_os.Stdio.Lines.{All-weaken, c_string-nonzero, length-++}
use assignment_os.Stdio.Fields.{
  fields_stop, scan_number-fields, scan_numbers-decimal, percent_d-word,
}
use assignment_os.Config.{
  Unset, ints, line_end, scan_ints, int_before, each_int, path_of, start_read, name_read,
  scan_entry, scan_entries, first_read, ram_read, swaps_read, read_config,
}
use assignment_os.Config.Print.{
  Item, Plan, blanks_before, print_items, print_plan, IsName, IsItem, IsPlan, entry, config,
}

abbrev IsInt : ℕ → Type 0
IsInt n = n < 2 ^ 31

int_kept : (n : ℕ) → IsInt n → (n < 2 ^ 64) × (percent_d false n ≡ n)
int_kept n h = percent_d-word n (omega arith)

ints-pos : (ns : List ℕ) → All IsInt ns → ints (length ns) ns ≡ map pos ns
ints-pos [] h = refl
ints-pos (n ∷ ns) (here, h) =
    let small : to_int n ≡ pos n = ground arith in rw (small, ints-pos ns h)

-- Numbers that are read with one `fscanf`.
scan_ints-line :
    (n : ℕ) (ns : List ℕ) (s : Bytes)
    → All IsInt (n ∷ ns)
    → NoDigitNext s
    → scan_ints (length (n ∷ ns)) (decimal n ++ (fields ns ++ s)) ≡ (map pos (n ∷ ns), skip_space s)
unfolding scan_ints
scan_ints-line n ns s h stop =
    let same : (suc (length ns) == suc (length ns)) ≡ true = ground arith in
    ap (line_end (suc (length ns)))
      (scan_numbers-decimal percent_d n ns s (All-weaken (n ∷ ns) int_kept h) stop)
    ∙ rw (ints-pos (n ∷ ns) h, same)

int_before-some :
    (n : ℕ) (s t : Bytes) (zs : List ℤ) (next : Bytes → List ℤ × Bytes)
    → IsInt n
    → next s ≡ (zs, t)
    → int_before (some (percent_d false n), s) next ≡ (pos n ∷ zs, t)
int_before-some n s t zs next h e =
    let small : to_int (percent_d false n) ≡ pos n = ap to_int (int_kept n h).1 ∙ ground arith in
    ap (λ (r : List ℤ × Bytes). (to_int (percent_d false n) ∷ r.0, r.1)) e
    ∙ ap (λ (z : ℤ). (z ∷ zs, t)) small

each_int-fields :
    (ns : List ℕ) (s : Bytes)
    → All IsInt ns
    → NoDigitNext s
    → each_int (length ns) (fields ns ++ s) ≡ (map pos ns, s)
unfolding each_int
each_int-fields [] s h stop = refl
each_int-fields (n ∷ ns) s (here, h) stop =
    ap (λ r. int_before r (each_int (length ns)))
      (scan_number-fields percent_d n ns s (omega arith) stop)
    ∙ int_before-some n (fields ns ++ s) s (map pos ns) (each_int (length ns)) here
        (each_int-fields ns s h stop)

-- Numbers that are read one by one.
each_int-line :
    (n : ℕ) (ns : List ℕ) (s : Bytes)
    → All IsInt (n ∷ ns)
    → NoDigitNext s
    → each_int (length (n ∷ ns)) (decimal n ++ (fields ns ++ s)) ≡ (map pos (n ∷ ns), s)
unfolding each_int
each_int-line n ns s (here, h) stop =
    ap (λ r. int_before r (each_int (length ns)))
      (scan_number-decimal percent_d n (decimal n ++ (fields ns ++ s)) (fields ns ++ s)
        (omega arith) (skip_space-decimal n (fields ns ++ s)) (fields_stop ns s stop))
    ∙ int_before-some n (fields ns ++ s) s (map pos ns) (each_int (length ns)) here
        (each_int-fields ns s h stop)

take_word-name :
    (name s : Bytes)
    → All (λ c. (is_space c ≡ false) × (0 < c)) name
    → take_word (name ++ (b' ' ∷ s)) ≡ (name, b' ' ∷ s)
unfolding take_word
take_word-name [] s h = refl
take_word-name (c ∷ name) s ((solid, nonzero), h) = rw (take_word-name name s h, solid)

scan_word-name :
    (name s : Bytes) → IsName name → scan_word (b' ' ∷ (name ++ (b' ' ∷ s))) ≡ (some name, b' ' ∷ s)
unfolding scan_word skip_space
scan_word-name [] s h = absurd (omega (arith, h.some_byte))
scan_word-name (c ∷ name) s h =
    let solid = h.bytes.0.0 in rw (solid, take_word-name (c ∷ name) s h.bytes)

path_of-name : (name : Bytes) → IsName name → path_of name ≡ done (codes "input/proc/" ++ name)
path_of-name name h =
    let whole = c_string-nonzero name (All-weaken name (λ c p. p.1) h.bytes) in
    let small = h.fits in rw whole (ground (arith, length-++ (codes "input/proc/") name))

skip_newline : (s : Bytes) → skip_space (10 ∷ s) ≡ skip_space s
unfolding skip_space
skip_newline s = refl

skip_space-blanks_before : (k : ℕ) (s : Bytes) → skip_space (blanks_before k s) ≡ skip_space s
unfolding skip_space blanks_before
skip_space-blanks_before zero s = refl
skip_space-blanks_before (suc k) s = skip_space-blanks_before k s

-- After a number the line or the file ends.
print_items_stop : (last : Bool) (items : List Item) → NoDigitNext (print_items last items)
unfolding print_items
print_items_stop false [] = omega arith
print_items_stop true [] = refl
print_items_stop last (item ∷ items) = refl

percent_lu_kept : (n : ℕ) → n < 2 ^ 64 → percent_lu false n ≡ n
percent_lu_kept n h = ground arith

-- The line of a process.
scan_entry-item :
    (unset : Unset) (i : ℕ) (last : Bool) (item : Item) (items : List Item)
    → IsItem item
    → scan_entry unset i (skip_space (print_items last (item ∷ items)))
      ≡ done (entry item, skip_space (print_items last items))
unfolding scan_entry print_items
scan_entry-item unset i last item items h =
    let after : Bytes = print_items last items in
    let blanks : Bytes = blanks_before item.blanks (decimal item.prio ++ after) in
    let line : Bytes = decimal item.start_time ++ (b' ' ∷ (item.name ++ (b' ' ∷ blanks))) in
    let at_line : skip_space (10 ∷ line) ≡ line =
      skip_newline line ∙ skip_space-decimal item.start_time _ in
    let at_prio : skip_space (b' ' ∷ blanks) ≡ decimal item.prio ++ after =
      skip_space-space blanks
      ∙ (skip_space-blanks_before item.blanks (decimal item.prio ++ after)
          ∙ skip_space-decimal item.prio after) in
    ap (λ (s : Bytes). start_read unset i (scan_number percent_lu s)) at_line
    ∙ (ap (start_read unset i) (
          scan_number-decimal percent_lu item.start_time line
            (b' ' ∷ (item.name ++ (b' ' ∷ blanks))) h.start_time
            (skip_space-decimal item.start_time _) refl)
        ∙ (ap (name_read unset i (percent_lu false item.start_time))
              (scan_word-name item.name blanks h.name)
            ∙ ground (
              arith,
              h.name.fits,
              scan_number-decimal percent_lu item.prio (b' ' ∷ blanks) after h.prio at_prio
                  (print_items_stop last items),
              path_of-name item.name h.name,
              percent_lu_kept item.start_time h.start_time,
              percent_lu_kept item.prio h.prio,
            )))

scan_entries-items :
    (last : Bool) (items : List Item) (i : ℕ) (unset : Unset)
    → All IsItem items
    → scan_entries (length items) i unset (skip_space (print_items last items))
      ≡ done (map entry items)
unfolding scan_entries
scan_entries-items last [] i unset h = refl
scan_entries-items last (item ∷ items) i unset (here, h) =
    rw (scan_entry-item unset i last item items here, scan_entries-items last items (i + 1) unset h)

-- The first line, whose last number may stand behind several blanks.
scan_ints_first :
    (a b c k : ℕ) (s : Bytes)
    → IsInt a
    → IsInt b
    → IsInt c
    → NoDigitNext s
    → scan_ints 3 (decimal a ++ (fields (b ∷ []) ++ (b' ' ∷ blanks_before k (decimal c ++ s))))
      ≡ (pos a ∷ pos b ∷ pos c ∷ [], skip_space s)
unfolding scan_ints scan_numbers
scan_ints_first a b c k s small_a small_b small_c stop =
    let last : Bytes = b' ' ∷ blanks_before k (decimal c ++ s) in
    let two : Bytes = fields (b ∷ []) ++ last in
    let at_last : skip_space last ≡ decimal c ++ s =
      skip_space-space (blanks_before k (decimal c ++ s))
      ∙ (skip_space-blanks_before k (decimal c ++ s) ∙ skip_space-decimal c s) in
    let read_a =
      scan_number-decimal percent_d a (decimal a ++ two) two (omega arith)
        (skip_space-decimal a two) refl in
    let read_b = scan_number-fields percent_d b [] last (omega arith) refl in
    let read_c = scan_number-decimal percent_d c last s (omega arith) at_last stop in
    let kept_a = (int_kept a small_a).1 in
    let kept_b = (int_kept b small_b).1 in
    let kept_c = (int_kept c small_c).1 in
    let int_a : to_int a ≡ pos a = ground arith in
    let int_b : to_int b ≡ pos b = ground arith in
    let int_c : to_int c ≡ pos c = ground arith in
    rw (read_a, read_b, read_c, kept_a, kept_b, kept_c, int_a, int_b, int_c) refl

-- A configuration file in the format of the files in input that have the sizes of the memories, its
-- numbers and names within their types, is read as it was printed: the time slot, the numbers of
-- CPUs and of processes, the sizes of the memories, and for each process the path of its program,
-- its start time and its priority.
pub read_config-print_plan :
    (disk : Bytes → Option Bytes) (unset : Unset) (plan : Plan) (path : Bytes)
    → disk path ≡ some (print_plan plan)
    → IsPlan plan
    → read_config disk unset path ≡ done (some (config plan))
unfolding read_config print_plan
read_config-print_plan disk unset plan path found h =
    let (time_slot, (cpus, (processes, (ram, swap_sizes)))) = h.sizes in
    let items : Bytes = print_items plan.last_newline plan.items in
    let stop = print_items_stop plan.last_newline plan.items in
    let others : List ℕ = plan.swap_1 ∷ plan.swap_2 ∷ plan.swap_3 ∷ [] in
    let swaps : Bytes = decimal plan.swap_0 ++ (fields others ++ items) in
    let after_ram : Bytes = fields (plan.swap_0 ∷ others) ++ items in
    let memory : Bytes = decimal plan.ram ++ after_ram in
    let first =
      scan_ints_first plan.time_slot plan.num_cpus (length plan.items) plan.blanks (10 ∷ memory)
        time_slot cpus processes refl in
    let second =
      scan_ints-line plan.ram [] after_ram (ram, _)
        (fields_stop (plan.swap_0 ∷ others) items stop) in
    let third = each_int-line plan.swap_0 others items swap_sizes stop in
    let at_memory : skip_space (10 ∷ memory) ≡ memory =
      skip_newline memory ∙ skip_space-decimal plan.ram after_ram in
    let at_swaps : skip_space after_ram ≡ swaps =
      ap (λ (s : Bytes). skip_space (b' ' ∷ s))
        (append_assoc (decimal plan.swap_0) (fields others) items)
      ∙ (skip_space-space swaps ∙ skip_space-decimal plan.swap_0 (fields others ++ items)) in
    let numbers : List ℤ = map pos (plan.time_slot ∷ plan.num_cpus ∷ length plan.items ∷ []) in
    rw (found, read_config)
      (ap (first_read unset) (first ∙ ap (λ (s : Bytes). (numbers, s)) at_memory)
        ∙ (ap (ram_read unset numbers)
              (second ∙ ap (λ (s : Bytes). (map pos (plan.ram ∷ []), s)) at_swaps)
            ∙ (ap (swaps_read unset numbers (map pos (plan.ram ∷ []))) third
                ∙ rw (scan_entries-items plan.last_newline plan.items 0 unset h.items))))
