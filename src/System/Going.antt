-- ===== src/System/Going.antt =====
-- The timer of src/timer.c while the simulation of src/os.c has CPUs.
use native.Mathlib.Decide.{ℕ_discrete}
use assignment_os.Base.{
  ℕ, zero, suc, ◌+◌, ◌≡◌, ◌≢◌, refl, sym, ap, ◌∙◌, arith, false, ◌||◌, ◌==◌, Bool-cases,
  Option-cases, inl, inr, ◌⊎◌, some, List, length, length-set, get_elem?, get_elem?-set_self,
  get_elem?-set_ne, inside_of, set, if◌then◌else◌,
}
use assignment_os.Timer.{
  Device, finished, idle, head, ended, check, release, TimerAt, Timer, timer_step,
}

-- The threads of the CPUs have not finished.
abbrev pub CpusOn : List Device → Type 0
CpusOn ds = (k : ℕ) (d : Device) → get_elem? ds (suc k) ≡ some d → d.place ≢ finished

pub CpusOn-set :
    (ds : List Device) (i : ℕ) (d : Device)
    → (i ≡ 0) ⊎ (d.place ≢ finished)
    → CpusOn ds
    → CpusOn (set ds i d)
CpusOn-set ds i d ok on k e found = elim (ℕ_discrete i (suc k)) [
  | no differ ↦ on k e (sym (get_elem?-set_ne ds i (suc k) d differ) ∙ found)
  | yes here ↦
      let inside = inside_of (set ds i d) (suc k) e found in
      let self = get_elem?-set_self ds i d (omega (arith, length-set ds i d)) in
      let eq : d ≡ e = ground (arith, self) in
      elim ok [
        | inl first ↦ absurd (omega arith)
        | inr going ↦ λ fin. going (ap (λ (x : Device). x.place) eq ∙ fin)
      ]
]

-- A timer that runs and was not stopped, while the CPUs' threads are there.
pub record Going (n : ℕ) (t : Timer) : Type 0 where
  pub started : t.place ≢ idle
  pub not_stopped : t.timer_stop ≡ false
  pub devices : length t.dev_list ≡ suc n
  pub cpus_on : CpusOn t.dev_list

Timer-Going :
    (n : ℕ) (t t' : Timer) (q : TimerAt) (ds : List Device)
    → Going n t
    → (t'.place ≡ q) × (t'.timer_stop ≡ t.timer_stop) × (t'.dev_list ≡ ds)
    → q ≢ idle
    → length ds ≡ suc n
    → CpusOn ds
    → Going n t'
Timer-Going n t t' q ds going (at_q, same, at_ds) busy count on = record {
  started = λ e. busy (sym at_q ∙ e);
  not_stopped = same ∙ going.not_stopped;
  devices = rw at_ds count;
  cpus_on = rw at_ds on;
}

pub timer_step-Going : (n : ℕ) (t t' : Timer) → Going n t → timer_step t ≡ some t' → Going n t'
unfolding timer_step
timer_step-Going n t t' going h = by_place t.place refl
  where
    same_devices :
        (q : TimerAt)
        → (t'.place ≡ q) × (t'.timer_stop ≡ t.timer_stop) × (t'.dev_list ≡ t.dev_list)
        → q ≢ idle
        → Going n t'
    same_devices q at_q busy =
        Timer-Going n t t' q t.dev_list going at_q busy going.devices going.cpus_on

    by_place : (p : TimerAt) → t.place ≡ p → Going n t'
    by_place idle e = absurd (going.started e)
    by_place ended e = absurd (ground arith)
    by_place head e =
        let go : t.timer_stop ≡ false = going.not_stopped in
        same_devices (check 0 0 0) (ground arith) (λ x. ground (arith, x))
    by_place (check i fsh event) e = elim (Option-cases (get_elem? t.dev_list i)) [
      | inl end_of ↦ same_devices (release 0 fsh event) (ground arith) (λ x. ground (arith, x))
      | inr (d, there) ↦ elim (Bool-cases (d.done || d.fsh)) [
        | inl told ↦
            same_devices (check (i + 1) (if d.fsh then fsh + 1 else fsh) (event + 1)) (ground arith)
              (λ x. ground (arith, x))
        | inr not_told ↦ absurd (ground arith)
      ]
    ]
    by_place (release i fsh event) e = elim (Option-cases (get_elem? t.dev_list i)) [
      | inl end_of ↦ elim (Bool-cases (fsh == event)) [
        | inl all ↦ same_devices ended (ground arith) (λ x. ground (arith, x))
        | inr some_on ↦ same_devices head (ground arith) (λ x. ground (arith, x))
      ]
      | inr (d, there) ↦
          let d' : Device = record d { done = false } in
          Timer-Going n t t' (release (i + 1) fsh event) (set t.dev_list i d') going (ground arith)
            (λ x. ground (arith, x)) (length-set t.dev_list i d' ∙ going.devices)
            (CpusOn-set t.dev_list i d' (first_or_on i d there) going.cpus_on)
    ]
      where
        first_or_on :
            (i : ℕ) (d : Device) → get_elem? t.dev_list i ≡ some d → (i ≡ 0) ⊎ (d.place ≢ finished)
        first_or_on zero d there = inl refl
        first_or_on (suc k) d there = inr (going.cpus_on k d there)
