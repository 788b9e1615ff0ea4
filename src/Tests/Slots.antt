-- ===== src/Tests/Slots.antt =====
-- Devices and the timer: two in the middle of a change of slot, and one that has finished.
use assignment_os.Base.{
  ℕ, zero, suc, ◌≤◌, ◌≡◌, ◌⊎◌, refl, arith, true, false, some, [], ◌∷◌, get_elem?,
}
use assignment_os.Timer.{
  working, waiting, finished, detach_event, Device, TimerAt, head, ended, check, release, Timer,
  new_device, attach_event, timer_step, stop_timer, free_devices, timer_steps, attaches, starts,
  tells, returns, detaches, initial, Reachable, at_start, after, tell_done,
}
use assignment_os.Timer.Spec.{BarrierReachable}
use assignment_os.Timer.Refines.{Reachable-barrier}
use assignment_os.Timer.Stops.{thread_steps, stop_timer_ends}
use assignment_os.Timer.Ends.{ended_finished}
use assignment_os.Timer.Barrier.{working_slot, no_deadlock}

-- The timer, at `place`, with two devices.
abbrev two : Device → Device → ℕ → TimerAt → Timer
two c d time place = record {
  dev_list = c ∷ d ∷ [];
  time = time;
  timer_started = true;
  timer_stop = false;
  place = place;
}

abbrev told : Device
told = tell_done new_device

abbrev released : Device
released = record told { done = false }

abbrev next : Device
next = record { done = false; fsh = false; place = working; slots = 1 }

attached : Reachable (record initial { dev_list = new_device ∷ new_device ∷ [] })
unfolding attach_event
attached =
    after (after at_start (attaches (record initial { dev_list = new_device ∷ [] }) refl))
      (attaches (record initial { dev_list = new_device ∷ new_device ∷ [] }) refl)

both_told : Reachable (two told told 0 head)
both_told =
    after (after (after attached (starts refl)) (tells 0 new_device refl refl))
      (tells 1 new_device refl refl)

both_checked : Reachable (two told told 0 (check 2 0 2))
unfolding timer_step
both_checked =
    after
      (after (after both_told (timer_steps (two told told 0 (check 0 0 0)) refl))
        (timer_steps (two told told 0 (check 1 0 1)) refl))
      (timer_steps (two told told 0 (check 2 0 2)) refl)

one_released : Reachable (two released told 1 (release 1 0 2))
unfolding timer_step
one_released =
    after (after both_checked (timer_steps (two told told 1 (release 0 0 2)) refl))
      (timer_steps (two released told 1 (release 1 0 2)) refl)

-- The first device is in slot 1, the second still waits for it.
one_ahead : Reachable (two next told 1 (release 1 0 2))
one_ahead = after one_released (returns 0 released refl refl refl)

working_slot_example : next.slots ≡ 1
working_slot_example = working_slot (two next told 1 (release 1 0 2)) 0 next one_ahead refl refl

no_deadlock_example :
    ((t : Timer) × (timer_step (two next told 1 (release 1 0 2)) ≡ some t))
    ⊎ ((j : ℕ) × (d : Device) × (get_elem? (next ∷ told ∷ []) j ≡ some d)
        × ((d.place ≡ working) ⊎ ((d.place ≡ waiting) × (d.done ≡ false))))
no_deadlock_example =
    no_deadlock (two next told 1 (release 1 0 2)) one_ahead (λ e. ground (arith, e))
      (λ e. ground (arith, e))

-- A timer whose only device has finished.
abbrev one : ℕ → TimerAt → Timer
one time place = record {
  dev_list = detach_event new_device ∷ [];
  time = time;
  timer_started = true;
  timer_stop = false;
  place = place;
}

detached : Reachable (one 0 head)
unfolding attach_event
detached =
    after
      (after (after at_start (attaches (record initial { dev_list = new_device ∷ [] }) refl))
        (starts refl))
      (detaches 0 new_device refl refl)

comes_to_end : Reachable (one 1 ended)
unfolding timer_step
comes_to_end =
    after
      (after
        (after
          (after (after detached (timer_steps (one 0 (check 0 0 0)) refl))
            (timer_steps (one 0 (check 1 1 1)) refl))
          (timer_steps (one 1 (release 0 1 1)) refl))
        (timer_steps (one 1 (release 1 1 1)) refl))
      (timer_steps (one 1 ended) refl)

ended_finished_example : (detach_event new_device).place ≡ finished
ended_finished_example =
    ended_finished (one 1 ended) 0 (detach_event new_device) comes_to_end refl refl refl

-- What the devices show: the first has begun slot 1, the second has not.
barrier_example : BarrierReachable (some 1 ∷ some 0 ∷ [])
barrier_example = Reachable-barrier (two next told 1 (release 1 0 2)) one_ahead

-- Both devices have finished while the first loop is between them.
abbrev gone : Device
gone = detach_event new_device

both_gone : Reachable (two gone gone 0 (check 1 1 1))
unfolding timer_step
both_gone =
    after
      (after
        (after (after (after attached (starts refl)) (detaches 0 new_device refl refl))
          (detaches 1 new_device refl refl))
        (timer_steps (two gone gone 0 (check 0 0 0)) refl))
      (timer_steps (two gone gone 0 (check 1 1 1)) refl)

all_gone : (j : ℕ) (d : Device) → get_elem? (gone ∷ gone ∷ []) j ≡ some d → d.place ≡ finished
all_gone zero d h = ground arith
all_gone (suc zero) d h = ground arith
all_gone (suc (suc j)) d h = absurd (ground arith)

stop_timer_example :
    (n : ℕ) × (t' : Timer) × (n ≤ 7)
    × (thread_steps n (stop_timer (two gone gone 0 (check 1 1 1))) ≡ some t')
    × (t'.place ≡ ended)
    × (free_devices t'.dev_list ≡ [])
stop_timer_example = stop_timer_ends (two gone gone 0 (check 1 1 1)) both_gone (λ e. cc) all_gone
