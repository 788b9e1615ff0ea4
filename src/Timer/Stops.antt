-- ===== src/Timer/Stops.antt =====
-- `stop_timer` of src/timer.c: the timer's thread, which it waits for, comes to its end.
use assignment_os.Base.{
  ℕ, zero, suc, ◌+◌, ◌*◌, ◌≤◌, ◌≡◌, ◌≢◌, refl, arith, true, false, ◌==◌, Bool-cases, inl, inr,
  Option, none, some, Option-cases, List, [], ◌∷◌, get_elem?, inside_of, length, length-set, set,
}
use assignment_os.Timer.{
  Device, finished, TimerAt, idle, head, ended, check, release, Timer, timer_step, stop_timer,
  free_devices, Reachable,
}
use assignment_os.Timer.Invariant.{Inv}
use assignment_os.Timer.Barrier.{Reachable-Inv}

-- As many steps of the timer's thread.
abbrev pub thread_steps : ℕ → Timer → Option Timer
thread_steps zero t = some t
thread_steps (suc n) t = elim (timer_step t) [ none ↦ none | some t' ↦ thread_steps n t' ]

-- No device is waited for.
abbrev AllFsh : List Device → Type 0
AllFsh ds = (j : ℕ) (d : Device) → get_elem? ds j ≡ some d → d.fsh ≡ true

-- At most `most` steps bring the timer to its end.
abbrev pub EndsWithin : ℕ → Timer → Type 0
EndsWithin most t =
    (n : ℕ) × (t' : Timer) × (n ≤ most) × (thread_steps n t ≡ some t') × (t'.place ≡ ended)

ends_now : (most : ℕ) (t : Timer) → t.place ≡ ended → EndsWithin most t
ends_now most t at_end = (0, t, omega arith, refl, at_end)

thread_steps-next :
    (n : ℕ) (t u t' : Timer)
    → timer_step t ≡ some u
    → thread_steps n u ≡ some t'
    → thread_steps (suc n) t ≡ some t'
thread_steps-next n t u t' step ran = ground (arith, step, ran)

ends_next :
    (less most : ℕ) (t u : Timer)
    → suc less ≤ most
    → timer_step t ≡ some u
    → EndsWithin less u
    → EndsWithin most t
ends_next less most t u more step (n, t', few, ran, at_end) =
    (suc n, t', omega arith, thread_steps-next n t u t' step ran, at_end)

head_ends : (t : Timer) → t.place ≡ head → t.timer_stop ≡ true → EndsWithin 1 t
unfolding timer_step
head_ends t at_head stop =
    let next : Timer = record t { place = ended } in
    ends_next 0 1 t next (omega arith) (ground arith) (ends_now 0 next refl)

-- The end of the loop that releases the devices.
released_ends :
    (t : Timer) (i fsh event : ℕ)
    → t.place ≡ release i fsh event
    → t.timer_stop ≡ true
    → get_elem? t.dev_list i ≡ none
    → EndsWithin 2 t
unfolding timer_step
released_ends t i fsh event here stop past = elim (Bool-cases (fsh == event)) [
  | inl all ↦
      let next : Timer = record t { place = ended } in
      ends_next 1 2 t next (omega arith) (ground arith) (ends_now 1 next refl)
  | inr more ↦
      let next : Timer = record t { place = head } in
      ends_next 1 2 t next (omega arith) (ground arith) (head_ends next refl stop)
]

release_one :
    (t : Timer) (i fsh event : ℕ) (d : Device)
    → t.place ≡ release i fsh event
    → get_elem? t.dev_list i ≡ some d
    → timer_step t
      ≡ some (record t {
        dev_list = set t.dev_list i (record d { done = false });
        place = release (i + 1) fsh event;
      })
unfolding timer_step
release_one t i fsh event d here there = ground arith

-- That loop, with at most `k` devices to go.
release_ends :
    (k : ℕ) (t : Timer) (i fsh event : ℕ)
    → t.place ≡ release i fsh event
    → t.timer_stop ≡ true
    → length t.dev_list ≤ i + k
    → EndsWithin (k + 2) t
release_ends zero t i fsh event here stop few = elim (Option-cases (get_elem? t.dev_list i)) [
  | inl past ↦ released_ends t i fsh event here stop past
  | inr (d, there) ↦ absurd (omega (arith, inside_of t.dev_list i d there))
]
release_ends (suc k) t i fsh event here stop few = elim (Option-cases (get_elem? t.dev_list i)) [
  | inl past ↦
      let (n, t', short, ran, at_end) = released_ends t i fsh event here stop past in
      (n, t', omega arith, ran, at_end)
  | inr (d, there) ↦
      let next : Timer = record t {
        dev_list = set t.dev_list i (record d { done = false });
        place = release (i + 1) fsh event;
      } in
      let same = length-set t.dev_list i (record d { done = false }) in
      ends_next (k + 2) (suc k + 2) t next (omega arith) (release_one t i fsh event d here there)
        (release_ends k next (i + 1) fsh event refl stop (omega (arith, same)))
]

check_one :
    (t : Timer) (i fsh event : ℕ) (d : Device)
    → t.place ≡ check i fsh event
    → get_elem? t.dev_list i ≡ some d
    → d.fsh ≡ true
    → timer_step t ≡ some (record t { place = check (i + 1) (fsh + 1) (event + 1) })
unfolding timer_step
check_one t i fsh event d here there fin = ground arith

-- The end of the loop that waits for the devices.
checked_ends :
    (t : Timer) (i fsh event : ℕ)
    → t.place ≡ check i fsh event
    → t.timer_stop ≡ true
    → get_elem? t.dev_list i ≡ none
    → EndsWithin (length t.dev_list + 3) t
unfolding timer_step
checked_ends t i fsh event here stop past =
    let next : Timer = record t { time = t.time + 1; place = release 0 fsh event } in
    ends_next (length t.dev_list + 2) (length t.dev_list + 3) t next (omega arith) (ground arith)
      (release_ends (length t.dev_list) next 0 fsh event refl stop (omega arith))

-- That loop, with at most `k` devices to go, none of which it waits for.
check_ends :
    (k : ℕ) (t : Timer) (i fsh event : ℕ)
    → t.place ≡ check i fsh event
    → t.timer_stop ≡ true
    → AllFsh t.dev_list
    → length t.dev_list ≤ i + k
    → EndsWithin (k + length t.dev_list + 3) t
check_ends zero t i fsh event here stop all few = elim (Option-cases (get_elem? t.dev_list i)) [
  | inl past ↦
      let (n, t', short, ran, at_end) = checked_ends t i fsh event here stop past in
      (n, t', omega arith, ran, at_end)
  | inr (d, there) ↦ absurd (omega (arith, inside_of t.dev_list i d there))
]
check_ends (suc k) t i fsh event here stop all few = elim (Option-cases (get_elem? t.dev_list i)) [
  | inl past ↦
      let (n, t', short, ran, at_end) = checked_ends t i fsh event here stop past in
      (n, t', omega arith, ran, at_end)
  | inr (d, there) ↦
      let next : Timer = record t { place = check (i + 1) (fsh + 1) (event + 1) } in
      ends_next (k + length t.dev_list + 3) (suc k + length t.dev_list + 3) t next (omega arith)
        (check_one t i fsh event d here there (all i d there))
        (check_ends k next (i + 1) (fsh + 1) (event + 1) refl stop all (omega arith))
]

freed : (ds : List Device) → free_devices ds ≡ []
unfolding free_devices
freed [] = refl
freed (d ∷ ds) = freed ds

-- In every reachable state with the timer running and all devices finished, `stop_timer` returns: at
-- most twice as many steps of the timer's thread as there are devices, and three, bring it to its
-- end, none of them a wait, and then every device is freed.
pub stop_timer_ends :
    (t : Timer)
    → Reachable t
    → t.place ≢ idle
    → ((j : ℕ) (d : Device) → get_elem? t.dev_list j ≡ some d → d.place ≡ finished)
    → (n : ℕ) × (t' : Timer) × (n ≤ 2 * length t.dev_list + 3)
      × (thread_steps n (stop_timer t) ≡ some t')
      × (t'.place ≡ ended)
      × (free_devices t'.dev_list ≡ [])
stop_timer_ends t reached going all = by_place t.place refl
  where
    inv : Inv t
    inv = Reachable-Inv t reached

    fsh_all : AllFsh t.dev_list
    fsh_all j d there = let fin = all j d there in let ok = inv.devices j d there in ground arith

    freed_after :
        EndsWithin (2 * length t.dev_list + 3) (stop_timer t)
        → (n : ℕ) × (t' : Timer) × (n ≤ 2 * length t.dev_list + 3)
          × (thread_steps n (stop_timer t) ≡ some t')
          × (t'.place ≡ ended)
          × (free_devices t'.dev_list ≡ [])
    freed_after (n, t', few, ran, at_end) = (n, t', few, ran, at_end, freed t'.dev_list)

    at_most :
        (k : ℕ)
        → k ≤ 2 * length t.dev_list + 3
        → EndsWithin k (stop_timer t)
        → EndsWithin (2 * length t.dev_list + 3) (stop_timer t)
    at_most k le (n, t', few, ran, at_end) = (n, t', omega arith, ran, at_end)

    by_place :
        (p : TimerAt)
        → t.place ≡ p
        → (n : ℕ) × (t' : Timer) × (n ≤ 2 * length t.dev_list + 3)
          × (thread_steps n (stop_timer t) ≡ some t')
          × (t'.place ≡ ended)
          × (free_devices t'.dev_list ≡ [])
    by_place idle e = absurd (going e)
    by_place ended e = freed_after (ends_now (2 * length t.dev_list + 3) (stop_timer t) e)
    by_place head e = freed_after (at_most 1 (omega arith) (head_ends (stop_timer t) e refl))
    by_place (check i fsh event) e = freed_after (
        at_most (length t.dev_list + length t.dev_list + 3) (omega arith)
          (check_ends (length t.dev_list) (stop_timer t) i fsh event e refl fsh_all (omega arith)))
    by_place (release i fsh event) e = freed_after (
        at_most (length t.dev_list + 2) (omega arith)
          (release_ends (length t.dev_list) (stop_timer t) i fsh event e refl (omega arith)))
