-- ===== src/Timer/Barrier.antt =====
-- No thread runs ahead of the time slots that src/timer.c counts, and none waits for ever.
use assignment_os.Base.{
  ℕ, ◌+◌, ◌≤◌, ◌≡◌, ◌≢◌, refl, arith, false, Bool-cases, Option-cases, inl, inr, ◌⊎◌, ◌||◌, ◌==◌,
  if◌then◌else◌, some, get_elem?, set,
}
use assignment_os.Timer.{
  working, waiting, finished, Device, TimerAt, idle, head, ended, check, release, Timer, timer_step,
  Reachable, at_start, after,
}
use assignment_os.Timer.Steps.{Step-Inv}
use assignment_os.Timer.Invariant.{DeviceOk, Inv}

pub Reachable-Inv : (t : Timer) → Reachable t → Inv t
Reachable-Inv t at_start = record {
  ticked = refl;
  fresh = λ _. refl;
  devices = λ j d found. absurd (ground arith);
}
Reachable-Inv t (after {t = s} before step) = Step-Inv s t (Reachable-Inv s before) step

at_work_lem :
    (p : TimerAt) (time j : ℕ) (d : Device)
    → d.place ≡ working
    → DeviceOk p time j d
    → d.slots ≡ time
at_work_lem p time j d at_work ok = ground arith

near_time :
    (p : TimerAt) (time j : ℕ) (d : Device)
    → d.place ≢ finished
    → DeviceOk p time j d
    → (d.slots ≤ time) × (time ≤ d.slots + 1)
near_time p time j d on ok = ground arith

told_lem :
    (p : TimerAt) (time j : ℕ) (d : Device)
    → (d.done || d.fsh) ≡ false
    → DeviceOk p time j d
    → (d.place ≡ working) ⊎ ((d.place ≡ waiting) × (d.done ≡ false))
told_lem p time j d not_told ok = ground arith

-- In every state that the threads can reach, a device at work has made as many slots as the time
-- counts, so that all devices at work are in the same slot.
pub working_slot :
    (t : Timer) (j : ℕ) (d : Device)
    → Reachable t
    → get_elem? t.dev_list j ≡ some d
    → d.place ≡ working
    → d.slots ≡ t.time
working_slot t j d reached there at_work =
    let ok = (Reachable-Inv t reached).devices j d there in
    at_work_lem t.place t.time j d at_work ok

-- In every state that the threads can reach two devices that have not finished are at most one
-- slot apart.
slots_apart :
    (t : Timer) (i j : ℕ) (c d : Device)
    → Reachable t
    → get_elem? t.dev_list i ≡ some c
    → get_elem? t.dev_list j ≡ some d
    → c.place ≢ finished
    → d.place ≢ finished
    → c.slots ≤ d.slots + 1
slots_apart t i j c d reached ci dj c_on d_on =
    let inv = Reachable-Inv t reached in
    let near_c = near_time t.place t.time i c c_on (inv.devices i c ci) in
    let near_d = near_time t.place t.time j d d_on (inv.devices j d dj) in omega arith

-- Once it is started the timer never waits for ever: until it ends it can take a step itself, or a
-- device is at work, or a device that waits has been released and can go on.
pub no_deadlock :
    (t : Timer)
    → Reachable t
    → t.place ≢ idle
    → t.place ≢ ended
    → ((t' : Timer) × (timer_step t ≡ some t'))
      ⊎ ((j : ℕ) × (d : Device) × (get_elem? t.dev_list j ≡ some d)
          × ((d.place ≡ working) ⊎ ((d.place ≡ waiting) × (d.done ≡ false))))
unfolding timer_step
no_deadlock t reached started not_ended = by_place t.place refl
  where
    inv : Inv t
    inv = Reachable-Inv t reached

    by_place :
        (p : TimerAt)
        → t.place ≡ p
        → ((t' : Timer) × (timer_step t ≡ some t'))
          ⊎ ((j : ℕ) × (d : Device) × (get_elem? t.dev_list j ≡ some d)
              × ((d.place ≡ working) ⊎ ((d.place ≡ waiting) × (d.done ≡ false))))
    by_place idle e = absurd (started e)
    by_place ended e = absurd (not_ended e)
    by_place head e =
        inl (record t { place = if t.timer_stop then ended else check 0 0 0 }, ground arith)
    by_place (check i fsh event) e = elim (Option-cases (get_elem? t.dev_list i)) [
      | inl end_of ↦ inl (record t { time = t.time + 1; place = release 0 fsh event }, ground arith)
      | inr (d, there) ↦ elim (Bool-cases (d.done || d.fsh)) [
        | inl told ↦ inl (
          record t { place = check (i + 1) (if d.fsh then fsh + 1 else fsh) (event + 1) },
          ground arith,
        )
        | inr not_told ↦
            inr (i, d, there, told_lem t.place t.time i d not_told (inv.devices i d there))
      ]
    ]
    by_place (release i fsh event) e = elim (Option-cases (get_elem? t.dev_list i)) [
      | inl end_of ↦ inl (record t { place = if fsh == event then ended else head }, ground arith)
      | inr (d, there) ↦ inl (
        record t {
          dev_list = set t.dev_list i (record d { done = false });
          place = release (i + 1) fsh event;
        },
        ground arith,
      )
    ]
