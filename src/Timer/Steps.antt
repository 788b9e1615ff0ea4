-- ===== src/Timer/Steps.antt =====
-- Every step of the threads of src/timer.c keeps the invariant.
use assignment_os.Base.{
  ℕ, zero, suc, ◌+◌, ◌≡◌, ◌≢◌, refl, sym, ◌∙◌, arith, true, false, Option-cases, inl, inr, ◌⊎◌,
  ◌||◌, ◌==◌, if◌then◌else◌, some, List, ◌∷◌, get_elem?, set,
}
use assignment_os.Timer.{
  Device, TimerAt, idle, head, ended, check, release, Timer, tell_done, slot_begins, detach_event,
  new_device, attach_event, start_timer, timer_step, Step, timer_steps, attaches, starts, stops,
  tells, returns, detaches,
}
use assignment_os.Timer.Invariant.{
  Ticked, Inv, devices-set, tells_ok, returns_ok, detaches_ok, timer_moves, AllOk, checks_device,
  ticks, releases_device, round_ends,
}

-- The invariant of a timer that is at `p`.
pub at_place :
    (t : Timer) (p : TimerAt)
    → t.place ≡ p
    → Inv t
    → AllOk p t.time t.dev_list × (Ticked p t.time × (t.timer_started ≡ false → p ≡ idle))
at_place t p e inv = rw (sym e) (inv.devices, (inv.ticked, inv.fresh))

-- The timer goes from `p` on to `q`.
moves_on :
    (t u : Timer) (p q : TimerAt) (time : ℕ) (ds : List Device)
    → t.place ≡ p
    → p ≢ idle
    → Inv t
    → (u.place ≡ q) × (u.time ≡ time) × (u.dev_list ≡ ds) × (u.timer_started ≡ t.timer_started)
    → Ticked q time
    → AllOk q time ds
    → Inv u
moves_on t u p q time ds e busy inv (at_q, at_time, at_ds, same) ticked all = record {
  ticked = rw (at_q, at_time) ticked;
  fresh = λ fresh. absurd (busy ((at_place t p e inv).1.1 (sym same ∙ fresh)));
  devices = rw (at_q, at_time, at_ds) all;
}

head_next :
    (time : ℕ) (ds : List Device) (q : TimerAt)
    → (q ≡ ended) ⊎ (q ≡ check 0 0 0)
    → AllOk head time ds
    → AllOk q time ds
head_next time ds q next all j d found =
    timer_moves head q time time j d (ground arith) (ground arith) (all j d found)

timer_step-Inv : (t t' : Timer) → Inv t → timer_step t ≡ some t' → Inv t'
unfolding timer_step
timer_step-Inv t t' inv h = by_place t.place refl
  where
    by_place : (p : TimerAt) → t.place ≡ p → Inv t'
    by_place idle e = absurd (ground arith)
    by_place ended e = absurd (ground arith)
    by_place head e =
        let q : TimerAt = if t.timer_stop then ended else check 0 0 0 in
        moves_on t t' head q t.time t.dev_list e (λ x. ground (arith, x)) inv (ground arith)
          (ground arith) (head_next t.time t.dev_list q (ground arith) (at_place t head e inv).0)
    by_place (check i fsh event) e = elim (Option-cases (get_elem? t.dev_list i)) [
      | inl end_of ↦
          moves_on t t' (check i fsh event) (release 0 fsh event) (t.time + 1) t.dev_list e
            (λ x. ground (arith, x)) inv (ground arith) (omega arith)
            (ticks i fsh event t.time t.dev_list end_of (at_place t (check i fsh event) e inv).0)
      | inr (d, there) ↦
          let told : (d.done || d.fsh) ≡ true = ground arith in
          let fsh' : ℕ = if d.fsh then fsh + 1 else fsh in
          moves_on t t' (check i fsh event) (check (i + 1) fsh' (event + 1)) t.time t.dev_list e
            (λ x. ground (arith, x)) inv (ground arith) (omega arith)
            (checks_device i fsh event fsh' (event + 1) t.time t.dev_list d there told
              (at_place t (check i fsh event) e inv).0)
    ]
    by_place (release i fsh event) e =
        let now = at_place t (release i fsh event) e inv in
        elim (Option-cases (get_elem? t.dev_list i)) [
          | inl end_of ↦
              let q : TimerAt = if fsh == event then ended else head in
              moves_on t t' (release i fsh event) q t.time t.dev_list e (λ x. ground (arith, x)) inv
                (ground arith) (ground arith)
                (round_ends i fsh event t.time t.dev_list q (ground arith) end_of now.0)
          | inr (d, there) ↦
              moves_on t t' (release i fsh event) (release (i + 1) fsh event) t.time
                (set t.dev_list i (record d { done = false })) e (λ x. ground (arith, x)) inv
                (ground arith) now.1.0
                (releases_device i fsh event t.time t.dev_list d now.1.0 there now.0)
        ]

AllOk-cons :
    (time : ℕ) (ds : List Device)
    → time ≡ 0
    → AllOk idle time ds
    → AllOk idle time (new_device ∷ ds)
AllOk-cons time ds start all zero d found = ground arith
AllOk-cons time ds start all (suc j) d found =
    timer_moves idle idle time time j d refl refl (all j d found)

attach_event-Inv : (t t' : Timer) → Inv t → attach_event t ≡ some t' → Inv t'
unfolding attach_event
attach_event-Inv t t' inv h =
    let fresh : t.timer_started ≡ false = ground arith in
    let idle_here = inv.fresh fresh in
    let (all, (ticked, same)) = at_place t idle idle_here inv in
    let attached : t' ≡ record t { dev_list = new_device ∷ t.dev_list } = ground arith in
    rw attached record {
      ticked = inv.ticked;
      fresh = inv.fresh;
      devices = rw idle_here (AllOk-cons t.time t.dev_list ticked all);
    }

start_timer-Inv : (t : Timer) → Inv t → t.timer_started ≡ false → Inv (start_timer t)
start_timer-Inv t inv fresh =
    let (all, (ticked, same)) = at_place t idle (inv.fresh fresh) inv in
    record {
      ticked = omega arith;
      fresh = λ started. absurd (ground arith);
      devices = λ j d found. timer_moves idle head t.time t.time j d refl refl (all j d found);
    }

pub Step-Inv : (t t' : Timer) → Inv t → Step t t' → Inv t'
Step-Inv t t' inv (timer_steps u h) = timer_step-Inv t u inv h
Step-Inv t t' inv (attaches u h) = attach_event-Inv t u inv h
Step-Inv t t' inv (starts h) = start_timer-Inv t inv h
Step-Inv t t' inv stops = record { ticked = inv.ticked; fresh = inv.fresh; devices = inv.devices }
Step-Inv t t' inv (tells i d there at_work) = record {
  ticked = inv.ticked;
  fresh = inv.fresh;
  devices =
      devices-set t.place t.time i t.dev_list d (tell_done d) there inv.devices
        (tells_ok t.place t.time i d at_work (inv.devices i d there));
}
Step-Inv t t' inv (returns i d there waits released) = record {
  ticked = inv.ticked;
  fresh = inv.fresh;
  devices =
      devices-set t.place t.time i t.dev_list d (slot_begins d) there inv.devices
        (returns_ok t.place t.time i d waits released (inv.devices i d there));
}
Step-Inv t t' inv (detaches i d there at_work) = record {
  ticked = inv.ticked;
  fresh = inv.fresh;
  devices =
      devices-set t.place t.time i t.dev_list d (detach_event d) there inv.devices
        (detaches_ok t.place t.time i d at_work (inv.devices i d there));
}
