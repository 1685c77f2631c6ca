-- ===== src/Sacks/AckOfAck.antt =====
-- Ranges whose acknowledgement was itself acknowledged leave the chain (picoquic/frames.c).
use pquic.Base.{
  ℕ, ◌+◌, ◌^◌, ◌≤◌, ◌<◌, ◌≡◌, refl, Bool, true, false, ◌||◌, ◌&&◌, ◌⊎◌, inl, inr, List, [], ◌∷◌,
  within, arith, ltb, ◌==◌, if◌then◌else◌, Bool-cases, ==_iff, minus_one64, u64,
}
use pquic.Sacks.{SackItem, SackList, is_unused, forget_loop, process_ack_of_ack_range}
use pquic.Sacks.Spec.{covered, Below, received, IsSackList}

Below-mono : (items : List SackItem) (m n : ℕ) → m ≤ n → Below m items → Below n items
Below-mono [] m n h b = tt
Below-mono (s ∷ l) m n h b = (omega arith, b.1, b.2)

forget_loop-Below :
    (items : List SackItem) (bound a b : ℕ)
    → Below bound items
    → Below bound (forget_loop items a b)
unfolding forget_loop
forget_loop-Below [] bound a b h = h
forget_loop-Below (s ∷ l) bound a b h =
    ground (
      arith,
      forget_loop-Below l s.start_of_sack_range a b,
      Below-mono l s.start_of_sack_range bound,
    )

both_equal : (x y u w : ℕ) → (x == y && u == w) ≡ true → (x ≡ y) × (u ≡ w)
both_equal x y u w h = ground arith

-- A number keeps its place unless it lies in the acknowledged range.
abbrev pub KeptOrDropped : Bool → Bool → Bool → Type 0
KeptOrDropped before after in_range =
    (after ≡ before) ⊎ ((in_range ≡ true) × (before ≡ true) × (after ≡ false))

kept_behind :
    (t before after in_range : Bool)
    → KeptOrDropped before after in_range
    → KeptOrDropped (t || before) (t || after) in_range
kept_behind t before after in_range h = ground arith

dropped_range :
    (s e a b n : ℕ) (t : Bool) → s ≡ a → e ≡ b → KeptOrDropped (within s e n || t) t (within a b n)
dropped_range s e a b n t p q = ground arith

forget_loop-KeptOrDropped :
    (items : List SackItem) (a b n : ℕ)
    → KeptOrDropped (covered items n) (covered (forget_loop items a b) n) (within a b n)
unfolding forget_loop
forget_loop-KeptOrDropped [] a b n = inl refl
forget_loop-KeptOrDropped (s ∷ l) a b n =
    elim (Bool-cases (s.end_of_sack_range == b && s.start_of_sack_range == a)) [
      | inl hit ↦ rw hit (
          let (e, f) = both_equal s.end_of_sack_range b s.start_of_sack_range a hit in
          dropped_range s.start_of_sack_range s.end_of_sack_range a b n (covered l n) f e)
      | inr miss ↦ elim (Bool-cases (ltb b s.end_of_sack_range)) [
        | inl above ↦
            rw (miss, above)
              (kept_behind (within s.start_of_sack_range s.end_of_sack_range n) (covered l n) _
                (within a b n) (forget_loop-KeptOrDropped l a b n))
        | inr below ↦ rw (miss, below) (inl refl)
      ]
    ]

-- Where the first item starts once the range up to `b` is forgotten.
abbrev new_start : ℕ → ℕ → ℕ
new_start e b = if ltb b e then u64 (b + 1) else e

-- The first item loses its lower part, but never its end.
well_formed :
    (l : SackList)
    → IsSackList l
    → is_unused l.first_sack_item ≡ false
    → Below (2 ^ 64) (l.first_sack_item ∷ l.later)
well_formed l v used = rw used at v

shrunk :
    (s e b n : ℕ) (t : Bool)
    → s ≤ e
    → s ≤ b
    → e + 1 < 2 ^ 64
    → KeptOrDropped (within s e n || t) (within (new_start e b) e n || t) (within s b n)
shrunk s e b n t h k l = ground arith

new_start_bounds :
    (s e b : ℕ)
    → s ≤ e
    → s ≤ b
    → e + 1 < 2 ^ 64
    → (s ≤ new_start e b) × (new_start e b ≤ e) × ((new_start e b == minus_one64) ≡ false)
new_start_bounds s e b h k l = ground arith

-- An acknowledged range, not empty, takes only its own numbers off the set of the numbers received
-- of a well-formed chain in use, and adds none.
pub process_ack_of_ack_range-KeptOrDropped :
    (l : SackList) (a b n : ℕ)
    → IsSackList l
    → is_unused l.first_sack_item ≡ false
    → a ≤ b
    → KeptOrDropped (received l n) (received (process_ack_of_ack_range l a b) n) (within a b n)
unfolding process_ack_of_ack_range
process_ack_of_ack_range-KeptOrDropped l a b n v used le =
    elim (Bool-cases (l.first_sack_item.start_of_sack_range == a)) [
      | inl hit ↦
          let (high, ordered, below) = well_formed l v used in
          let starts : l.first_sack_item.start_of_sack_range ≡ a = (==_iff _ a).0 hit in
          let (up, down, stays) =
            new_start_bounds l.first_sack_item.start_of_sack_range
              l.first_sack_item.end_of_sack_range b ordered (omega arith) (omega arith) in
          rw (hit, used, stays, ← starts)
            (shrunk _ l.first_sack_item.end_of_sack_range b n (covered l.later n) ordered
              (omega arith) (omega arith))
      | inr other ↦
          rw (other, used)
            (kept_behind
              (within l.first_sack_item.start_of_sack_range l.first_sack_item.end_of_sack_range n)
              (covered l.later n) _ (within a b n) (forget_loop-KeptOrDropped l.later a b n))
    ]

-- An acknowledged range, not empty, leaves a well-formed chain in use well formed and in use, and
-- the largest number received in its place.
pub process_ack_of_ack_range-IsSackList :
    (l : SackList) (a b : ℕ)
    → IsSackList l
    → is_unused l.first_sack_item ≡ false
    → a ≤ b
    → IsSackList (process_ack_of_ack_range l a b)
      × (is_unused (process_ack_of_ack_range l a b).first_sack_item ≡ false)
      × ((process_ack_of_ack_range l a b).first_sack_item.end_of_sack_range
          ≡ l.first_sack_item.end_of_sack_range)
unfolding process_ack_of_ack_range
process_ack_of_ack_range-IsSackList l a b v used le =
    elim (Bool-cases (l.first_sack_item.start_of_sack_range == a)) [
      | inl hit ↦
          let (high, ordered, below) = well_formed l v used in
          let starts : l.first_sack_item.start_of_sack_range ≡ a = (==_iff _ a).0 hit in
          let (up, down, stays) =
            new_start_bounds l.first_sack_item.start_of_sack_range
              l.first_sack_item.end_of_sack_range b ordered (omega arith) (omega arith) in
          rw (hit, stays) ((high, down, Below-mono l.later _ _ up below), refl, refl)
      | inr other ↦
          let (high, ordered, below) = well_formed l v used in
          rw (other, used)
            (
              (
                high,
                ordered,
                forget_loop-Below l.later l.first_sack_item.start_of_sack_range a b below,
              ),
              refl,
              refl,
            )
    ]
