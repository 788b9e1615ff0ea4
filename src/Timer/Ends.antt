-- ===== src/Timer/Ends.antt =====
-- When the thread of src/timer.c comes to its end.
use native.Mathlib.Decide.{ℕ_discrete}
use assignment_os.Base.{
  inside_of, outside_of, ℕ, ◌+◌, ◌<◌, ◌≤◌, ◌≡◌, refl, sym, ◌∙◌, arith, Bool, true, false,
  Bool-cases, Option-cases, inl, inr, ◌⊎◌, ◌||◌, ◌==◌, if◌then◌else◌, some, List, ◌∷◌, length,
  get_elem?, set, get_elem?-set_self, get_elem?-set_ne, length-set,
}
use assignment_os.Timer.{
  finished, Device, TimerAt, idle, head, ended, check, release, Timer, tell_done, slot_begins,
  detach_event, new_device, attach_event, timer_step, Step, timer_steps, attaches, starts, stops,
  tells, returns, detaches, Reachable, at_start, after,
}
use assignment_os.Timer.Invariant.{DeviceOk, Inv}
use assignment_os.Timer.Barrier.{Reachable-Inv}

-- The first `n` devices have finished.
abbrev pub FirstFinished : ℕ → List Device → Type 0
FirstFinished n ds = (j : ℕ) (d : Device) → j < n → get_elem? ds j ≡ some d → d.place ≡ finished

-- What the counters say: if as many devices have finished as were checked, all of them have.
abbrev Counted : TimerAt → (stop : Bool) → List Device → Type 0
Counted idle stop ds = 0 ≤ 0
Counted head stop ds = 0 ≤ 0
Counted ended stop ds = (stop ≡ true) ⊎ FirstFinished (length ds) ds
Counted (check i fsh event) stop ds = (fsh ≤ event) × (fsh ≡ event → FirstFinished i ds)
Counted (release i fsh event) stop ds = fsh ≡ event → FirstFinished (length ds) ds

FirstFinished-set :
    (n i : ℕ) (ds : List Device) (e d' : Device)
    → get_elem? ds i ≡ some e
    → (e.place ≡ finished → d'.place ≡ finished)
    → FirstFinished n ds
    → FirstFinished n (set ds i d')
FirstFinished-set n i ds e d' there stays all j d below found = elim (ℕ_discrete i j) [
  | yes same ↦
      let self = get_elem?-set_self ds i d' (inside_of ds i e there) in
      let eq : d' ≡ d = ground arith in rw (sym eq) (stays (all i e (omega arith) there))
  | no differ ↦ all j d below (sym (get_elem?-set_ne ds i j d' differ) ∙ found)
]

Counted-set :
    (p : TimerAt) (stop : Bool) (i : ℕ) (ds : List Device) (e d' : Device)
    → get_elem? ds i ≡ some e
    → (e.place ≡ finished → d'.place ≡ finished)
    → Counted p stop ds
    → Counted p stop (set ds i d')
Counted-set idle stop i ds e d' there stays c = c
Counted-set head stop i ds e d' there stays c = c
Counted-set ended stop i ds e d' there stays (inl stopped) = inl stopped
Counted-set ended stop i ds e d' there stays (inr all) =
    inr (rw (length-set ds i d') (FirstFinished-set (length ds) i ds e d' there stays all))
Counted-set (check k fsh event) stop i ds e d' there stays (few, all) =
    (few, λ same. FirstFinished-set k i ds e d' there stays (all same))
Counted-set (release k fsh event) stop i ds e d' there stays all =
    λ same. rw (length-set ds i d') (FirstFinished-set (length ds) i ds e d' there stays (all same))

counts :
    (i fsh event : ℕ) (ds : List Device) (e : Device)
    → get_elem? ds i ≡ some e
    → (e.fsh ≡ true → e.place ≡ finished)
    → (fsh ≤ event) × (fsh ≡ event → FirstFinished i ds)
    → ((if e.fsh then fsh + 1 else fsh) ≤ event + 1)
      × ((if e.fsh then fsh + 1 else fsh) ≡ event + 1 → FirstFinished (i + 1) ds)
counts i fsh event ds e there fin (few, all) = elim (Bool-cases e.fsh) [
  | inl done_here ↦ (
    ground arith,
    λ same j d below found. elim (ℕ_discrete i j) [
      | yes here ↦ let eq : e ≡ d = ground arith in rw (sym eq) (fin done_here)
      | no differ ↦ all (ground arith) j d (omega arith) found
    ],
  )
  | inr on ↦ (ground arith, λ same. absurd (ground arith))
]

FirstFinished-all :
    (n : ℕ) (ds : List Device) → length ds ≤ n → FirstFinished n ds → FirstFinished (length ds) ds
FirstFinished-all n ds enough all j d below found = all j d (omega arith) found

fsh_finished :
    (p : TimerAt) (time j : ℕ) (d : Device)
    → DeviceOk p time j d
    → d.fsh ≡ true
    → d.place ≡ finished
fsh_finished p time j d ok fsh = ground arith

Counted-at :
    (t : Timer) (p : TimerAt)
    → t.place ≡ p
    → Counted t.place t.timer_stop t.dev_list
    → Counted p t.timer_stop t.dev_list
Counted-at t p e c = rw (sym e) c

Counted-to :
    (u : Timer) (q : TimerAt) (stop : Bool) (ds : List Device)
    → (u.place ≡ q) × (u.timer_stop ≡ stop) × (u.dev_list ≡ ds)
    → Counted q stop ds
    → Counted u.place u.timer_stop u.dev_list
Counted-to u q stop ds (at_q, at_stop, at_ds) c = rw (at_q, at_stop, at_ds) c

timer_step-Counted :
    (t t' : Timer)
    → Inv t
    → Counted t.place t.timer_stop t.dev_list
    → timer_step t ≡ some t'
    → Counted t'.place t'.timer_stop t'.dev_list
unfolding timer_step
timer_step-Counted t t' inv c h = by_place t.place refl
  where
    by_place : (p : TimerAt) → t.place ≡ p → Counted t'.place t'.timer_stop t'.dev_list
    by_place idle e = absurd (ground arith)
    by_place ended e = absurd (ground arith)
    by_place head e = elim (Bool-cases t.timer_stop) [
      | inl stop ↦ Counted-to t' ended true t.dev_list (ground arith) (inl refl)
      | inr go ↦
          Counted-to t' (check 0 0 0) false t.dev_list (ground arith)
            (omega arith, λ same j d below found. absurd (omega arith))
    ]
    by_place (check i fsh event) e =
        let now = Counted-at t (check i fsh event) e c in
        elim (Option-cases (get_elem? t.dev_list i)) [
          | inl end_of ↦
              Counted-to t' (release 0 fsh event) t.timer_stop t.dev_list (ground arith) (λ same.
                FirstFinished-all i t.dev_list (outside_of t.dev_list i end_of) (now.1 same))
          | inr (d, there) ↦
              let told : (d.done || d.fsh) ≡ true = ground arith in
              Counted-to t' (check (i + 1) (if d.fsh then fsh + 1 else fsh) (event + 1))
                t.timer_stop t.dev_list (ground arith)
                (counts i fsh event t.dev_list d there
                  (fsh_finished t.place t.time i d (inv.devices i d there)) now)
        ]
    by_place (release i fsh event) e =
        let now = Counted-at t (release i fsh event) e c in
        elim (Option-cases (get_elem? t.dev_list i)) [
          | inl end_of ↦ elim (Bool-cases (fsh == event)) [
            | inl same ↦
                Counted-to t' ended t.timer_stop t.dev_list (ground arith)
                  (inr (now (ground arith)))
            | inr differ ↦ Counted-to t' head t.timer_stop t.dev_list (ground arith) (omega arith)
          ]
          | inr (d, there) ↦
              Counted-to t' (release (i + 1) fsh event) t.timer_stop
                (set t.dev_list i (record d { done = false })) (ground arith)
                (Counted-set (release i fsh event) t.timer_stop i t.dev_list d
                  (record d { done = false }) there (λ x. x) now)
        ]

Counted-stopped :
    (p : TimerAt) (stop : Bool) (ds : List Device) → Counted p stop ds → Counted p true ds
Counted-stopped idle stop ds c = c
Counted-stopped head stop ds c = c
Counted-stopped ended stop ds c = inl refl
Counted-stopped (check i fsh event) stop ds c = c
Counted-stopped (release i fsh event) stop ds c = c

attach_event-Counted :
    (t t' : Timer) → Inv t → attach_event t ≡ some t' → Counted t'.place t'.timer_stop t'.dev_list
unfolding attach_event
attach_event-Counted t t' inv h =
    let fresh : t.timer_started ≡ false = ground arith in
    let idle_here = inv.fresh fresh in
    Counted-to t' idle t.timer_stop (new_device ∷ t.dev_list) (ground arith) (omega arith)

Step-Counted :
    (t t' : Timer)
    → Inv t
    → Counted t.place t.timer_stop t.dev_list
    → Step t t'
    → Counted t'.place t'.timer_stop t'.dev_list
Step-Counted t t' inv c (timer_steps u h) = timer_step-Counted t u inv c h
Step-Counted t t' inv c (attaches u h) = attach_event-Counted t u inv h
Step-Counted t t' inv c (starts h) = omega arith
Step-Counted t t' inv c stops = Counted-stopped t.place t.timer_stop t.dev_list c
Step-Counted t t' inv c (tells i d there at_work) =
    Counted-set t.place t.timer_stop i t.dev_list d (tell_done d) there
      (λ fin. absurd (ground arith)) c
Step-Counted t t' inv c (returns i d there waits released) =
    Counted-set t.place t.timer_stop i t.dev_list d (slot_begins d) there
      (λ fin. absurd (ground arith)) c
Step-Counted t t' inv c (detaches i d there at_work) =
    Counted-set t.place t.timer_stop i t.dev_list d (detach_event d) there (λ fin. refl) c

Reachable-Counted : (t : Timer) → Reachable t → Counted t.place t.timer_stop t.dev_list
Reachable-Counted t at_start = omega arith
Reachable-Counted t (after {t = s} before step) =
    Step-Counted s t (Reachable-Inv s before) (Reachable-Counted s before) step

-- A timer that ends without having been stopped has left no device behind: every device has
-- finished.
pub ended_finished :
    (t : Timer) (j : ℕ) (d : Device)
    → Reachable t
    → t.place ≡ ended
    → t.timer_stop ≡ false
    → get_elem? t.dev_list j ≡ some d
    → d.place ≡ finished
ended_finished t j d reached at_end on there =
    elim (Counted-at t ended at_end (Reachable-Counted t reached)) [
      | inl stopped ↦ absurd (ground arith)
      | inr all ↦ all j d (inside_of t.dev_list j d there) there
    ]
