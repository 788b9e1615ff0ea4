-- ===== src/Timer/Invariant.antt =====
-- The invariant of src/timer.c, and how each step keeps it.
use native.Mathlib.Decide.{ℕ_discrete}
use assignment_os.Base.{
  inside_of, outside_of, ℕ, ◌+◌, ◌-◌, ◌<◌, ◌≤◌, ◌≡◌, refl, sym, ◌∙◌, arith, Bool, true, false, ◌⊎◌,
  ◌||◌, ltb, leb, if◌then◌else◌, none, some, List, length, get_elem?, set, get_elem?-set_self,
  get_elem?-set_ne, get_elem?-none,
}
use assignment_os.Timer.{
  working, waiting, finished, Device, TimerAt, idle, head, ended, check, release, Timer, tell_done,
  slot_begins, detach_event,
}

-- How often device `j` has been released: once for each slot, but for the current one only if the
-- second loop has come past it.
abbrev pub releases : TimerAt → (time j : ℕ) → ℕ
releases idle time j = time
releases head time j = time
releases ended time j = time
releases (check i fsh event) time j = time
releases (release i fsh event) time j = if ltb j i then time else time - 1

-- The first loop has come past device `j`, and the second has not.
abbrev pub passed : TimerAt → (j : ℕ) → Bool
passed idle j = false
passed head j = false
passed ended j = false
passed (check i fsh event) j = ltb j i
passed (release i fsh event) j = leb i j

-- What holds of device `j`.
abbrev pub DeviceOk : TimerAt → (time j : ℕ) → Device → Type 0
DeviceOk place time j d = elim d.place [
  | working ↦
      (d.done ≡ false)
      × (d.fsh ≡ false)
      × (d.slots ≡ releases place time j)
      × (passed place j ≡ false)
  | waiting ↦
      (d.fsh ≡ false)
      × (((d.done ≡ true) × (d.slots ≡ releases place time j))
          ⊎ ((d.done ≡ false) × (d.slots + 1 ≡ releases place time j) × (passed place j ≡ false)))
  | finished ↦ (d.done ≡ false) × (d.fsh ≡ true)
]

abbrev pub Ticked : TimerAt → ℕ → Type 0
Ticked idle time = time ≡ 0
Ticked head time = 0 ≤ time
Ticked ended time = 0 ≤ time
Ticked (check i fsh event) time = 0 ≤ time
Ticked (release i fsh event) time = 0 < time

-- The invariant.
pub record Inv (t : Timer) : Type 0 where
  pub ticked : Ticked t.place t.time
  pub fresh : t.timer_started ≡ false → t.place ≡ idle
  pub devices : (j : ℕ) (d : Device) → get_elem? t.dev_list j ≡ some d → DeviceOk t.place t.time j d

-- One device changes.
pub devices-set :
    (place : TimerAt) (time i : ℕ) (ds : List Device) (e d' : Device)
    → get_elem? ds i ≡ some e
    → ((j : ℕ) (d : Device) → get_elem? ds j ≡ some d → DeviceOk place time j d)
    → DeviceOk place time i d'
    → (j : ℕ) (d : Device) → get_elem? (set ds i d') j ≡ some d
    → DeviceOk place time j d
devices-set place time i ds e d' there all new j d found = elim (ℕ_discrete i j) [
  | yes same ↦
      let inside : i < length ds = ground (arith, get_elem?-none ds i) in
      let self = get_elem?-set_self ds i d' inside in
      let eq : d' ≡ d = ground arith in rw (sym same, sym eq) new
  | no differ ↦ all j d (sym (get_elem?-set_ne ds i j d' differ) ∙ found)
]

pub tells_ok :
    (place : TimerAt) (time i : ℕ) (d : Device)
    → d.place ≡ working
    → DeviceOk place time i d
    → DeviceOk place time i (tell_done d)
tells_ok place time i d at_work ok = ground arith

pub returns_ok :
    (place : TimerAt) (time i : ℕ) (d : Device)
    → d.place ≡ waiting
    → d.done ≡ false
    → DeviceOk place time i d
    → DeviceOk place time i (slot_begins d)
returns_ok place time i d waits released ok = ground arith

pub detaches_ok :
    (place : TimerAt) (time i : ℕ) (d : Device)
    → d.place ≡ working
    → DeviceOk place time i d
    → DeviceOk place time i (detach_event d)
detaches_ok place time i d at_work ok = ground arith

-- The timer moves on, and nothing changes for the device.
pub timer_moves :
    (p q : TimerAt) (time time' j : ℕ) (d : Device)
    → releases q time' j ≡ releases p time j
    → passed q j ≡ passed p j
    → DeviceOk p time j d
    → DeviceOk q time' j d
timer_moves p q time time' j d e f ok = ground arith

checked_ok :
    (i fsh event fsh' event' time : ℕ) (d : Device)
    → (d.done || d.fsh) ≡ true
    → DeviceOk (check i fsh event) time i d
    → DeviceOk (check (i + 1) fsh' event') time i d
checked_ok i fsh event fsh' event' time d told ok = ground arith

released_ok :
    (i fsh event time : ℕ) (d : Device)
    → 0 < time
    → DeviceOk (release i fsh event) time i d
    → DeviceOk (release (i + 1) fsh event) time i (record d { done = false })
released_ok i fsh event time d some_time ok = ground arith

-- The devices of a timer that is at `p`.
abbrev pub AllOk : TimerAt → ℕ → List Device → Type 0
AllOk p time ds = (j : ℕ) (d : Device) → get_elem? ds j ≡ some d → DeviceOk p time j d

pub checks_device :
    (i fsh event fsh' event' time : ℕ) (ds : List Device) (e : Device)
    → get_elem? ds i ≡ some e
    → (e.done || e.fsh) ≡ true
    → AllOk (check i fsh event) time ds
    → AllOk (check (i + 1) fsh' event') time ds
checks_device i fsh event fsh' event' time ds e there told all j d found = elim (ℕ_discrete i j) [
  | yes same ↦
      let eq : e ≡ d = ground arith in
      rw (sym same, sym eq) (checked_ok i fsh event fsh' event' time e told (all i e there))
  | no differ ↦
      timer_moves (check i fsh event) (check (i + 1) fsh' event') time time j d refl (ground arith)
        (all j d found)
]

pub ticks :
    (i fsh event time : ℕ) (ds : List Device)
    → get_elem? ds i ≡ none
    → AllOk (check i fsh event) time ds
    → AllOk (release 0 fsh event) (time + 1) ds
ticks i fsh event time ds end_of all j d found =
    let inside = inside_of ds j d found in
    let past = outside_of ds i end_of in
    timer_moves (check i fsh event) (release 0 fsh event) time (time + 1) j d (ground arith)
      (ground arith) (all j d found)

pub releases_device :
    (i fsh event time : ℕ) (ds : List Device) (e : Device)
    → 0 < time
    → get_elem? ds i ≡ some e
    → AllOk (release i fsh event) time ds
    → AllOk (release (i + 1) fsh event) time (set ds i (record e { done = false }))
releases_device i fsh event time ds e some_time there all j d found = elim (ℕ_discrete i j) [
  | yes same ↦
      let self = get_elem?-set_self ds i (record e { done = false }) (inside_of ds i e there) in
      let eq : record e { done = false } ≡ d = ground arith in
      rw (sym same, sym eq) (released_ok i fsh event time e some_time (all i e there))
  | no differ ↦
      let old = sym (get_elem?-set_ne ds i j (record e { done = false }) differ) ∙ found in
      timer_moves (release i fsh event) (release (i + 1) fsh event) time time j d (ground arith)
        (ground arith) (all j d old)
]

pub round_ends :
    (i fsh event time : ℕ) (ds : List Device) (q : TimerAt)
    → (q ≡ head) ⊎ (q ≡ ended)
    → get_elem? ds i ≡ none
    → AllOk (release i fsh event) time ds
    → AllOk q time ds
round_ends i fsh event time ds q next end_of all j d found =
    let inside = inside_of ds j d found in
    let past = outside_of ds i end_of in
    timer_moves (release i fsh event) q time time j d (ground arith) (ground arith) (all j d found)
