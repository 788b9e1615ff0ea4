-- ===== src/Memphy/Storage.antt =====
-- Reading and writing a device: what is written is read back, and a device that is not random
-- access refuses both.
use native.Mathlib.Decide.{dec_lt}
use assignment_os.Base.{
  ℕ, ◌<◌, ◌≡◌, ◌≢◌, arith, true, false, none, some, length, set, get_elem?-set_self,
  get_elem?-set_ne, get_elem?-some, get_elem?-none, ℤ, pos, negsuc, success, failure, done, fault,
  ◌↔◌, if◌then◌else◌, ◌==◌,
}
use assignment_os.Memphy.{Memphy, load, read, write, seq_read, seq_write}

-- `addr` is an index of the storage.
abbrev pub InStorage : Memphy → ℤ → Type 0
InStorage mp (pos i) = i < length mp.storage
InStorage mp (negsuc i) = ⊥

-- On a random access device a byte written inside the storage is read back, and every other
-- address holds what it held. Both calls return 0.
pub read-write :
    (mp : Memphy) (a b v : ℕ)
    → mp.rdmflg ≡ true
    → a < length mp.storage
    → (mp' : Memphy) × (write (some mp) (pos a) v ≡ done (success, some mp'))
      × (read (some mp') (pos a)
          ≡ done (record { code = success; device = some mp'; value = some v }))
      × (load mp'.storage (pos b) ≡ (if a == b then done v else load mp.storage (pos b)))
unfolding read write
read-write mp a b v random inside = (
  record mp { storage = set mp.storage a v },
  ground arith,
  ground (arith, get_elem?-set_self mp.storage a v),
  ground (arith, get_elem?-set_self mp.storage a v, get_elem?-set_ne mp.storage a b v),
)

-- On a random access device a read and a write are defined exactly at the addresses from 0 up to
-- the size of the storage.
pub access_iff :
    (mp : Memphy) (addr : ℤ) (v : ℕ)
    → mp.rdmflg ≡ true
    → ((read (some mp) addr ≢ fault) ↔ InStorage mp addr)
      × ((write (some mp) addr v ≢ fault) ↔ InStorage mp addr)
unfolding read write
access_iff mp (pos i) v random = elim (dec_lt i (length mp.storage)) [
  | yes inside ↦
      let found = get_elem?-some mp.storage i inside in
      ((λ _. inside, λ _. ground arith), (λ _. inside, λ _. ground arith))
  | no outside ↦
      let lost = get_elem?-none mp.storage i (omega arith) in
      (
        (λ h. absurd (h (ground arith)), λ within. absurd (outside within)),
        (λ h. absurd (h (ground arith)), λ within. absurd (outside within)),
      )
]
access_iff mp (negsuc i) v random =
    ((λ h. absurd (h (ground arith)), absurd), (λ h. absurd (h (ground arith)), absurd))

-- A sequential device refuses every read and every write with -1 and stays as it is: the two
-- routines for sequential access demand the flag whose absence led to them.
sequential_refuses :
    (mp : Memphy) (addr : ℤ) (v : ℕ)
    → mp.rdmflg ≡ false
    → (read (some mp) addr ≡ done (record { code = failure; device = some mp; value = none }))
      × (write (some mp) addr v ≡ done (failure, some mp))
unfolding read write seq_read seq_write
sequential_refuses mp addr v serial = (ground arith, ground arith)
