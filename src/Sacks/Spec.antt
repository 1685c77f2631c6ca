-- ===== src/Sacks/Spec.antt =====
-- What a chain of ranges stands for, and when it is well formed.
use pquic.Base.{ℕ, ◌+◌, ◌^◌, ◌≤◌, ◌<◌, ◌≡◌, Bool, false, ◌||◌, List, [], ◌∷◌, within, if◌then◌else◌}
use pquic.Sacks.{SackItem, SackList, is_unused}

-- `n` lies in one of the ranges.
abbrev pub covered : List SackItem → ℕ → Bool
covered [] n = false
covered (s ∷ l) n = within s.start_of_sack_range s.end_of_sack_range n || covered l n

-- The ranges are not empty, fall along the chain and leave a hole between any two; all of them, and
-- a hole behind the highest, lie below the bound.
abbrev pub Below : ℕ → List SackItem → Type 0
Below bound [] = Unit {0}
Below bound (s ∷ l) =
    (s.end_of_sack_range + 1 < bound)
    × (s.start_of_sack_range ≤ s.end_of_sack_range)
    × Below s.start_of_sack_range l

-- The set of the numbers received.
abbrev pub received : SackList → ℕ → Bool
received l n =
    if is_unused l.first_sack_item then false else covered (l.first_sack_item ∷ l.later) n

-- Packet numbers are below 2^64 - 1; nothing stands behind an item that is not used.
abbrev pub IsSackList : SackList → Type 0
IsSackList l =
    if is_unused l.first_sack_item
    then (l.later ≡ [])
    else Below (2 ^ 64) (l.first_sack_item ∷ l.later)
