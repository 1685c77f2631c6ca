-- ===== src/Sacks/Check.antt =====
-- picoquic_check_sack_list, which tells whether a range would be news, against the set of the numbers
-- received and against what the update reports.
use pquic.Base.{
  ℕ, ◌+◌, ◌-◌, ◌^◌, ◌≤◌, ◌<◌, ◌≡◌, refl, Bool, true, false, ◌||◌, inl, inr, List, [], ◌∷◌, within,
  arith, ltb, leb, if◌then◌else◌, Bool-cases, none, some, ltb→lt, lt→ltb, le→ltb, le→leb,
  lt→leb_false,
}
use pquic.Sacks.{
  SackItem, SackList, Ret, duplicate, recorded, is_unused, update_loop, update_sack_list,
  check_loop, check_sack_list,
}
use pquic.Sacks.Spec.{covered, Below, received, IsSackList}
use mathlib.Core.Bool.{true≢false}
use native.Mathlib.Decide.{dec_lt}

-- `check_loop` is false where one range holds the whole of lo..hi.
check_loop-covered :
    (s : SackItem) (items : List SackItem) (lo hi n : ℕ)
    → check_loop (s ∷ items) lo hi ≡ false
    → within lo hi n ≡ true
    → covered (s ∷ items) n ≡ true
unfolding check_loop
check_loop-covered s [] lo hi n c w = ground arith
check_loop-covered s (t ∷ l) lo hi n c w = ground (arith, check_loop-covered t l lo hi n)

-- The highest number of a range up to `hi` that no item holds.
missing : List SackItem → ℕ → ℕ
missing [] hi = hi
missing (s ∷ l) hi =
    let more = missing l hi in
    if ltb s.end_of_sack_range hi
    then hi
    else if leb s.start_of_sack_range hi
    then s.start_of_sack_range - 1
    else more

covered_above :
    (items : List SackItem) (bound n : ℕ)
    → Below bound items
    → bound ≤ n + 1
    → covered items n ≡ false
covered_above [] bound n b h = refl
covered_above (s ∷ l) bound n b h = ground (arith, covered_above l s.start_of_sack_range n)

below_start : (s e n : ℕ) (t : Bool) → n < s → t ≡ false → (within s e n || t) ≡ false
below_start s e n t h k = ground arith

-- The missing number lies in lo..hi, and no range holds it.
abbrev IsMissing : List SackItem → ℕ → ℕ → ℕ → Type 0
IsMissing items lo hi n = (lo ≤ n) × (n ≤ hi) × (covered items n ≡ false)

missing-IsMissing :
    (items : List SackItem) (bound lo hi : ℕ)
    → Below bound items
    → lo ≤ hi
    → hi < bound
    → check_loop items lo hi ≡ true
    → IsMissing items lo hi (missing items hi)
unfolding check_loop missing
missing-IsMissing [] bound lo hi b le h c = cc
missing-IsMissing (s ∷ []) bound lo hi b le h c = ground arith
missing-IsMissing (s ∷ t ∷ l) bound lo hi b le h c = elim (dec_lt e hi) [
  | yes above ↦
      rw (lt→ltb e hi above) (
        le,
        omega arith,
        covered_above (s ∷ t ∷ l) (e + 2) hi (omega arith, b.1, b.2) (omega arith),
      )
  | no inside ↦ elim (dec_lt hi a) [
    | yes further ↦
        let (from, to, out) =
          missing-IsMissing (t ∷ l) a lo hi b.2 le further
            (rw (le→ltb e hi (omega arith), lt→leb_false a hi further) at c) in
        rw (le→ltb e hi (omega arith), lt→leb_false a hi further)
          (from, to, below_start a e _ _ (omega arith) out)
    | no reach ↦
        let lower : lo < a =
          ltb→lt lo a (rw (le→ltb e hi (omega arith), le→leb a hi (omega arith)) at c) in
        rw (le→ltb e hi (omega arith), le→leb a hi (omega arith))
          (
            omega arith,
            omega arith,
            below_start a e (a - 1) _ (omega arith)
                (covered_above (t ∷ l) a (a - 1) b.2 (omega arith)),
          )
  ]
]
  where
    open s use {start_of_sack_range as a, end_of_sack_range as e}

-- Once something was recorded, the loop says so.
update_loop-recorded :
    (p s : SackItem) (l : List SackItem) (lo hi : ℕ)
    → (update_loop true recorded (some p) s l lo hi).0 ≡ recorded
unfolding update_loop
update_loop-recorded p s [] lo hi = ground arith
update_loop-recorded p s (t ∷ l) lo hi = ground (
  arith,
  update_loop-recorded s t l lo hi,
  update_loop-recorded s t l lo (s.start_of_sack_range - 1),
  update_loop-recorded (record s { end_of_sack_range = hi }) t l lo (s.start_of_sack_range - 1),
  update_loop-recorded (record p { start_of_sack_range = s.start_of_sack_range }) t l lo
      (s.start_of_sack_range - 1),
)

update_loop-ret_some :
    (ret : Ret) (p s : SackItem) (l : List SackItem) (lo hi : ℕ)
    → (update_loop true ret (some p) s l lo hi).0
      ≡ (if check_loop (s ∷ l) lo hi then recorded else ret)
unfolding update_loop check_loop
update_loop-ret_some ret p s [] lo hi = ground arith
update_loop-ret_some ret p s (t ∷ l) lo hi = ground (
  arith,
  update_loop-ret_some ret s t l lo hi,
  update_loop-recorded s t l lo (s.start_of_sack_range - 1),
  update_loop-recorded (record s { end_of_sack_range = hi }) t l lo (s.start_of_sack_range - 1),
  update_loop-recorded (record p { start_of_sack_range = s.start_of_sack_range }) t l lo
      (s.start_of_sack_range - 1),
)

-- Where the check finds nothing new, every number of the range was received.
pub check_sack_list-received :
    (l : SackList) (lo hi n : ℕ)
    → check_sack_list l lo hi ≡ false
    → within lo hi n ≡ true
    → received l n ≡ true
unfolding check_sack_list
check_sack_list-received l lo hi n old w = elim (Bool-cases (is_unused l.first_sack_item)) [
  | inl unused ↦ absurd (true≢false (rw unused at old))
  | inr used ↦ rw used (check_loop-covered _ _ lo hi n (rw used at old) w)
]

-- Where the check of a range, not empty and below 2^64, finds something new on a well-formed chain,
-- some number of the range was not received.
pub check_sack_list-missing :
    (l : SackList) (lo hi : ℕ)
    → IsSackList l
    → lo ≤ hi
    → hi < 2 ^ 64
    → check_sack_list l lo hi ≡ true
    → (n : ℕ) × (lo ≤ n) × (n ≤ hi) × (received l n ≡ false)
unfolding check_sack_list
check_sack_list-missing l lo hi v le h new = elim (Bool-cases (is_unused l.first_sack_item)) [
  | inl unused ↦ rw unused (lo, omega arith, le, refl)
  | inr used ↦
      let (from, to, out) =
        missing-IsMissing (l.first_sack_item ∷ l.later) (2 ^ 64) lo hi (rw used at v) le h
          (rw used at new) in
      rw used (missing (l.first_sack_item ∷ l.later) hi, from, to, out)
]

update_loop-ret_first :
    (s : SackItem) (l : List SackItem) (lo hi : ℕ)
    → (update_loop true duplicate none s l lo hi).0
      ≡ (if check_loop (s ∷ l) lo hi then recorded else duplicate)
unfolding update_loop check_loop
update_loop-ret_first s [] lo hi = ground arith
update_loop-ret_first s (t ∷ l) lo hi = ground (
  arith,
  update_loop-ret_some duplicate s t l lo hi,
  update_loop-recorded s t l lo (s.start_of_sack_range - 1),
  update_loop-recorded (record s { end_of_sack_range = hi }) t l lo (s.start_of_sack_range - 1),
)

-- Where memory can be had, the update reports a duplicate exactly where the check finds nothing new,
-- and reports that it recorded the range otherwise.
pub update_sack_list-check_sack_list :
    (l : SackList) (lo hi : ℕ)
    → (update_sack_list true l lo hi).0 ≡ (if check_sack_list l lo hi then recorded else duplicate)
unfolding update_sack_list check_sack_list
update_sack_list-check_sack_list l lo hi = elim (Bool-cases (is_unused l.first_sack_item)) [
  | inl unused ↦ rw unused
  | inr used ↦ rw used (update_loop-ret_first l.first_sack_item l.later lo hi)
]
