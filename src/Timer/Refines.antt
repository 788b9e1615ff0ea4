-- ===== src/Timer/Refines.antt =====
-- src/timer.c implements the barrier.
use assignment_os.Base.{
  ℕ, ◌≤◌, ◌≡◌, ◌≢◌, refl, ap, ◌∙◌, arith, false, Option-cases, inl, inr, ◌⊎◌, Option, none, some,
  List, ◌∷◌, get_elem?, set, set_same, map, map-set, get_elem?-map, get_elem?-map_inv,
}
use assignment_os.Timer.{
  working, waiting, finished, Device, TimerAt, idle, head, ended, check, release, Timer, tell_done,
  slot_begins, detach_event, new_device, attach_event, timer_step, Step, timer_steps, attaches,
  starts, stops, tells, returns, detaches, Reachable, at_start, after,
}
use assignment_os.Timer.Invariant.{DeviceOk, Inv, AllOk}
use assignment_os.Timer.Steps.{at_place}
use assignment_os.Timer.Barrier.{Reachable-Inv}
use assignment_os.Timer.Spec.{
  Barrier, NobodyBegan, BarrierStep, joins, advances, leaves, BarrierReachable, nobody, onward,
}

-- What the barrier sees of a device.
abbrev pub seen : Device → Option ℕ
seen d = elim d.place [ working ↦ some d.slots | waiting ↦ some d.slots | finished ↦ none ]

abbrev pub view : Timer → Barrier
view t = map seen t.dev_list

seen-some : (d : Device) (m : ℕ) → seen d ≡ some m → (d.place ≢ finished) × (d.slots ≡ m)
seen-some d m h = (λ e. ground arith, ground arith)

unseen :
    (ds : List Device) (i : ℕ) (d d' : Device)
    → get_elem? ds i ≡ some d
    → seen d' ≡ seen d
    → map seen (set ds i d') ≡ map seen ds
unseen ds i d d' there same =
    map-set seen ds i d'
    ∙ (ap (set (map seen ds) i) same
        ∙ set_same (map seen ds) i (seen d) (get_elem?-map seen ds i d there))

-- A device that has been released is not ahead of any other.
nobody_behind :
    (p : TimerAt) (time i j : ℕ) (d e : Device)
    → d.place ≡ waiting
    → d.done ≡ false
    → DeviceOk p time i d
    → e.place ≢ finished
    → DeviceOk p time j e
    → d.slots ≤ e.slots
nobody_behind p time i j d e waits released ok on ok' = ground arith

-- The timer's own steps change no slots.
timer_step-view : (t t' : Timer) → timer_step t ≡ some t' → view t' ≡ view t
unfolding timer_step
timer_step-view t t' h = by_place t.place refl
  where
    by_place : (p : TimerAt) → t.place ≡ p → view t' ≡ view t
    by_place idle e = absurd (ground arith)
    by_place ended e = absurd (ground arith)
    by_place head e = ap (map seen) (ground arith)
    by_place (check i fsh event) e = ap (map seen) (ground arith)
    by_place (release i fsh event) e = elim (Option-cases (get_elem? t.dev_list i)) [
      | inl end_of ↦ ap (map seen) (ground arith)
      | inr (d, there) ↦
          let written : t'.dev_list ≡ set t.dev_list i (record d { done = false }) = ground arith in
          ap (map seen) written ∙ unseen t.dev_list i d (record d { done = false }) there refl
    ]

at_zero :
    (time k : ℕ) (d : Device) → time ≡ 0 → d.place ≢ finished → DeviceOk idle time k d → d.slots ≡ 0
at_zero time k d start on ok = ground arith

nobody_began :
    (time : ℕ) (ds : List Device) → time ≡ 0 → AllOk idle time ds → NobodyBegan (map seen ds)
nobody_began time ds start all k m found =
    let (d, there, shown) = get_elem?-map_inv seen ds k (some m) found in
    let (on, slots) = seen-some d m shown in
    let zero_slots = at_zero time k d start on (all k d there) in omega arith

attach_event-BarrierStep :
    (t t' : Timer) → Inv t → attach_event t ≡ some t' → BarrierStep (view t) (view t')
unfolding attach_event
attach_event-BarrierStep t t' inv h =
    let fresh : t.timer_started ≡ false = ground arith in
    let (all, (start, same)) = at_place t idle (inv.fresh fresh) inv in
    let attached : t'.dev_list ≡ new_device ∷ t.dev_list = ground arith in
    rw attached (joins (nobody_began t.time t.dev_list start all))

-- Each step of the threads is a step of the barrier, or one that it does not see.
Step-BarrierStep :
    (t t' : Timer) → Reachable t → Step t t' → (view t' ≡ view t) ⊎ BarrierStep (view t) (view t')
Step-BarrierStep t t' reached (timer_steps u h) = inl (timer_step-view t u h)
Step-BarrierStep t t' reached (attaches u h) =
    inr (attach_event-BarrierStep t u (Reachable-Inv t reached) h)
Step-BarrierStep t t' reached (starts h) = inl refl
Step-BarrierStep t t' reached stops = inl refl
Step-BarrierStep t t' reached (tells i d there at_work) =
    inl (unseen t.dev_list i d (tell_done d) there (ground arith))
Step-BarrierStep t t' reached (returns i d there waits released) =
    let inv = Reachable-Inv t reached in
    let shown : seen d ≡ some d.slots = ground arith in
    inr (
      rw (map-set seen t.dev_list i (slot_begins d)) (
        advances i d.slots (get_elem?-map seen t.dev_list i d there ∙ ap some shown) (λ k m found.
          let (e, at_k, e_shown) = get_elem?-map_inv seen t.dev_list k (some m) found in
          let (on, slots) = seen-some e m e_shown in
          let le =
            nobody_behind t.place t.time i k d e waits released (inv.devices i d there) on
              (inv.devices k e at_k) in
          omega arith)))
Step-BarrierStep t t' reached (detaches i d there at_work) =
    let shown : seen d ≡ some d.slots = ground arith in
    inr (
      rw (map-set seen t.dev_list i (detach_event d))
        (leaves i d.slots (get_elem?-map seen t.dev_list i d there ∙ ap some shown)))

-- In every state that the threads can reach, the numbers of slots of the devices that have not
-- finished are a state that the abstract barrier can reach, in which a participant begins a slot
-- only when nobody is behind.
pub Reachable-barrier : (t : Timer) → Reachable t → BarrierReachable (view t)
Reachable-barrier t at_start = nobody
Reachable-barrier t (after {t = s} before step) = elim (Step-BarrierStep s t before step) [
  | inl same ↦ rw same (Reachable-barrier s before)
  | inr moved ↦ onward (Reachable-barrier s before) moved
]
