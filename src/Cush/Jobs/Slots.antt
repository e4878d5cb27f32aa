-- ===== src/Cush/Jobs/Slots.antt =====
-- The search of add_job for a free index of the table.
use computer_systems_project.Base.{
  ℕ, zero, suc, ◌+◌, ◌≤◌, ◌<◌, ◌≡◌, inl, inr, true, Option, none, some, arith, is_some,
  Option-cases,
}
use computer_systems_project.Cush.Jobs.{find_slot}

-- A free index, all indices before it being taken.
abbrev pub IsFirstFree : (ℕ → Option ℕ) → ℕ → ℕ → Type 0
IsFirstFree table i k =
    (i ≤ k) × (table k ≡ none) × ((m : ℕ) → i ≤ m → m < k → is_some (table m) ≡ true)

abbrev pub SlotResult : (ℕ → Option ℕ) → ℕ → ℕ → Option ℕ → Type 0
SlotResult table rounds i none = (m : ℕ) → i ≤ m → m < i + rounds → is_some (table m) ≡ true
SlotResult table rounds i (some k) = IsFirstFree table i k × (k < i + rounds)

extend :
    (table : ℕ → Option ℕ) (rounds i : ℕ) (r : Option ℕ)
    → is_some (table i) ≡ true
    → SlotResult table rounds (i + 1) r
    → SlotResult table (suc rounds) i r
extend table rounds i none taken h = λ m a b. ground (arith, h m)
extend table rounds i (some k) taken h =
    ((omega arith, h.0.1, λ m a b. ground (arith, h.0.2 m)), omega arith)

pub find_slot-SlotResult :
    (rounds i : ℕ) (table : ℕ → Option ℕ) → SlotResult table rounds i (find_slot rounds i table)
unfolding find_slot
find_slot-SlotResult zero i table = λ m a b. absurd (omega arith)
find_slot-SlotResult (suc rounds) i table = elim (Option-cases (table i)) [
  | inl free ↦
      rw (free, find_slot) ((omega arith, free, λ m a b. absurd (omega arith)), omega arith)
  | inr (p, taken) ↦
      rw (taken, find_slot)
        (extend table rounds i (find_slot rounds (i + 1) table) (rw taken)
          (find_slot-SlotResult rounds (i + 1) table))
]
