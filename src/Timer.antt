-- ===== src/Timer.antt =====
-- src/timer.c: the thread that counts time slots and the devices (CPU and loader threads) that wait
-- for it. A thread's accesses to a device between two of its locks are one step; a wait on a
-- condition is a step that is possible once the condition holds, since each wait is in a loop that
-- tests again. The timer is started once, as src/os.c does. The counter is a `uint64_t` in the code
-- and a natural number here: it is right for the first 2 ^ 64 slots.
pub mod Invariant
pub mod Steps
pub mod Barrier
pub mod Ends
pub mod Stops
pub mod Spec
pub mod Refines
use assignment_os.Base.{
  ℕ, zero, suc, ◌+◌, Bool, true, false, ◌||◌, ◌==◌, ltb, leb, ◌≡◌, if◌then◌else◌, Option, none,
  some, List, [], ◌∷◌, length, get_elem?, set,
}

-- Where the thread of a device is: in its own work, in the second half of `next_slot`, or past
-- `detach_event`.
pub data DeviceAt : Type 0 where
  working waiting finished : DeviceAt

-- `struct timer_id_t`, with the place of the thread that holds it, and the number of calls of
-- `next_slot` that have returned to it.
pub record Device : Type 0 where
  pub done : Bool
  pub fsh : Bool
  pub place : DeviceAt
  pub slots : ℕ

-- Where `timer_routine` is, with its counters: before its start, at the head of its loop, at a
-- device of the first and of the second inner loop, and at its end.
pub data TimerAt : Type 0 where
  idle head ended : TimerAt
  check release : (i fsh event : ℕ) → TimerAt

-- The static variables.
pub record Timer : Type 0 where
  pub dev_list : List Device
  pub time : ℕ
  pub timer_started : Bool
  pub timer_stop : Bool
  pub place : TimerAt

-- `next_slot` up to its wait, and its return.
abbrev pub tell_done : Device → Device
tell_done d = record d { done = true; place = waiting }

abbrev pub slot_begins : Device → Device
slot_begins d = record d { place = working; slots = d.slots + 1 }

abbrev pub detach_event : Device → Device
detach_event d = record d { fsh = true; place = finished }

-- `attach_event`: NULL once the timer has started.
abbrev pub new_device : Device
new_device = record { done = false; fsh = false; place = working; slots = 0 }

unfoldable pub attach_event : Timer → Option Timer
attach_event t =
    if t.timer_started then none else some (record t { dev_list = new_device ∷ t.dev_list })

abbrev pub start_timer : Timer → Timer
start_timer t = record t { timer_started = true; place = head }

-- `timer_stop = 1` of `stop_timer`.
abbrev pub stop_timer : Timer → Timer
stop_timer t = record t { timer_stop = true }

-- The loop of `stop_timer` once the timer's thread has ended: the list that is left.
unfoldable pub free_devices : List Device → List Device
free_devices [] = []
free_devices (d ∷ ds) = free_devices ds

-- A step of `timer_routine`, if it has one: at a device that is not done it waits.
unfoldable pub timer_step : Timer → Option Timer
timer_step t = elim t.place [
  | idle ↦ none
  | ended ↦ none
  | head ↦ some (record t { place = if t.timer_stop then ended else check 0 0 0 })
  | check i fsh event ↦ elim (get_elem? t.dev_list i) [
    | none ↦ some (record t { time = t.time + 1; place = release 0 fsh event })
    | some d ↦
        if d.done || d.fsh
        then some (record t { place = check (i + 1) (if d.fsh then fsh + 1 else fsh) (event + 1) })
        else none
  ]
  | release i fsh event ↦ elim (get_elem? t.dev_list i) [
    | none ↦ some (record t { place = if fsh == event then ended else head })
    | some d ↦ some (record t {
      dev_list = set t.dev_list i (record d { done = false });
      place = release (i + 1) fsh event;
    })
  ]
]

-- A step of any thread.
pub data Step (t : Timer) : Timer → Type 0 where
  timer_steps : (t' : Timer) → timer_step t ≡ some t' → Step t t'
  attaches : (t' : Timer) → attach_event t ≡ some t' → Step t t'
  starts : t.timer_started ≡ false → Step t (start_timer t)
  stops : Step t (stop_timer t)
  tells :
      (i : ℕ) (d : Device)
      → get_elem? t.dev_list i ≡ some d
      → d.place ≡ working
      → Step t (record t { dev_list = set t.dev_list i (tell_done d) })
  returns :
      (i : ℕ) (d : Device)
      → get_elem? t.dev_list i ≡ some d
      → d.place ≡ waiting
      → d.done ≡ false
      → Step t (record t { dev_list = set t.dev_list i (slot_begins d) })
  detaches :
      (i : ℕ) (d : Device)
      → get_elem? t.dev_list i ≡ some d
      → d.place ≡ working
      → Step t (record t { dev_list = set t.dev_list i (detach_event d) })

-- The timer as the program starts.
abbrev pub initial : Timer
initial = record {
  dev_list = [];
  time = 0;
  timer_started = false;
  timer_stop = false;
  place = idle;
}

-- What the threads can bring about from there.
pub data Reachable : Timer → Type 0 where
  at_start : Reachable initial
  after : {t t' : Timer} → Reachable t → Step t t' → Reachable t'
