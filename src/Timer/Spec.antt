-- ===== src/Timer/Spec.antt =====
-- What src/timer.c promises: a barrier for a fixed set of participants, whose state is the number of
-- slots that each has made. A participant may begin a slot once nobody is behind.
use assignment_os.Base.{ℕ, ◌+◌, ◌≤◌, ◌≡◌, Option, none, some, List, [], ◌∷◌, get_elem?, set}

-- `none` for a participant that has left.
abbrev pub Barrier : Type 0
Barrier = List (Option ℕ)

-- Nobody who is there has made fewer than `n` slots.
abbrev pub NobodyBehind : ℕ → Barrier → Type 0
NobodyBehind n b = (k m : ℕ) → get_elem? b k ≡ some (some m) → n ≤ m

-- Nobody who is there has begun.
abbrev pub NobodyBegan : Barrier → Type 0
NobodyBegan b = (k m : ℕ) → get_elem? b k ≡ some (some m) → m ≡ 0

pub data BarrierStep (b : Barrier) : Barrier → Type 0 where
  joins : NobodyBegan b → BarrierStep b (some 0 ∷ b)
  advances :
      (j n : ℕ)
      → get_elem? b j ≡ some (some n)
      → NobodyBehind n b
      → BarrierStep b (set b j (some (n + 1)))
  leaves : (j n : ℕ) → get_elem? b j ≡ some (some n) → BarrierStep b (set b j none)

pub data BarrierReachable : Barrier → Type 0 where
  nobody : BarrierReachable []
  onward : {b b' : Barrier} → BarrierReachable b → BarrierStep b b' → BarrierReachable b'
