-- ===== src/Sacks/Update.antt =====
-- The update of the chain: it adds the range to the set of the numbers received.
use pquic.Base.{
  ℕ, ◌+◌, ◌-◌, ◌^◌, ◌≤◌, ◌<◌, ◌≡◌, Bool, true, false, ◌||◌, ◌⊎◌, inl, inr, ap, ◌∙◌, none, some,
  List, [], ◌∷◌, within, arith, u64, lt→ltb, le→ltb, le→leb, lt→leb_false,
}
use pquic.Sacks.{SackItem, Ret, recorded, update_loop}
use pquic.Sacks.Spec.{covered, Below}
use native.Mathlib.Decide.{dec_lt}

-- The range lies below the item before `sack`: the loop keeps the chain well formed, whatever malloc
-- answers.
update_loop-Below-some :
    (m : Bool) (ret : Ret) (p sack : SackItem) (later : List SackItem) (lo hi bound : ℕ)
    → Below bound (p ∷ sack ∷ later)
    → bound ≤ 2 ^ 64
    → lo ≤ hi
    → hi < p.start_of_sack_range
    → Below bound (update_loop m ret (some p) sack later lo hi).1
unfolding update_loop
update_loop-Below-some true ret p sack [] lo hi bound b hb le h = ground arith
update_loop-Below-some false ret p sack [] lo hi bound b hb le h = ground arith
update_loop-Below-some m ret p sack (next ∷ later) lo hi bound b hb le h = ground (
  arith,
  update_loop-Below-some m ret sack next later lo hi p.start_of_sack_range,
  update_loop-Below-some m recorded sack next later lo (sack.start_of_sack_range - 1)
      p.start_of_sack_range,
  update_loop-Below-some m recorded (record sack { end_of_sack_range = hi }) next later lo
      (sack.start_of_sack_range - 1) p.start_of_sack_range,
  update_loop-Below-some m recorded (record p { start_of_sack_range = sack.start_of_sack_range })
      next later lo (sack.start_of_sack_range - 1) bound,
)

-- How the pieces of each branch cover what they replace; `t` says whether the rest covers `n`.
module _ (s e lo hi n : ℕ) (t : Bool) where
  touch_above :
      s ≤ e
      → e < hi
      → lo ≤ e + 1
      → s ≤ lo
      → (within s hi n || t) ≡ ((within s e n || t) || within lo hi n)
  touch_above h k l m = ground arith

  span_above :
      s ≤ e
      → e < hi
      → lo < s
      → ((within s hi n || t) || within lo (s - 1) n) ≡ ((within s e n || t) || within lo hi n)
  span_above h k l = ground arith

  span_below :
      s ≤ hi
      → hi ≤ e
      → lo < s
      → ((within s e n || t) || within lo (s - 1) n) ≡ ((within s e n || t) || within lo hi n)
  span_below h k l = ground arith

  contained : s ≤ lo → hi ≤ e → (within s e n || t) ≡ ((within s e n || t) || within lo hi n)
  contained h k = ground arith

  -- The item above, from hi + 1 to `q`, swallows the current one.
  merge_above :
      (p q : ℕ)
      → p ≡ hi + 1
      → p ≤ q
      → s ≤ e
      → e < hi
      → lo ≤ e + 1
      → s ≤ lo
      → (within s q n || t) ≡ ((within p q n || (within s e n || t)) || within lo hi n)
  merge_above p q a b h k l m = ground arith

  merge_span :
      (p q : ℕ)
      → p ≡ hi + 1
      → p ≤ q
      → s ≤ e
      → e < hi
      → lo < s
      → ((within s q n || t) || within lo (s - 1) n)
        ≡ ((within p q n || (within s e n || t)) || within lo hi n)
  merge_span p q a b h k l = ground arith

extend_above :
    (p q lo hi n : ℕ) (t : Bool)
    → p ≡ hi + 1
    → p ≤ q
    → lo ≤ hi
    → (within lo q n || t) ≡ ((within p q n || t) || within lo hi n)
extend_above p q lo hi n t a b h = ground arith

or_assoc : (a b c : Bool) → (a || (b || c)) ≡ ((a || b) || c)
or_assoc a b c = ground arith

or_comm : (a b : Bool) → (a || b) ≡ (b || a)
or_comm a b = ground arith

joined_cases :
    (ps hi e : ℕ)
    → hi < ps
    → ps < 2 ^ 64
    → ((u64 (hi + 1) < ps) ⊎ (hi ≤ e)) ⊎ ((ps ≡ hi + 1) × (e < hi))
joined_cases ps hi e h k = omega arith

-- Without an item before: the cases of the loop, over what the rest of the loop does.
abbrev CoversBelow : SackItem → List SackItem → ℕ → Type 0
CoversBelow next later n =
    (ret : Ret) (p : SackItem) (lo hi bound : ℕ)
    → Below bound (p ∷ next ∷ later)
    → bound ≤ 2 ^ 64
    → lo ≤ hi
    → hi < p.start_of_sack_range
    → covered (update_loop true ret (some p) next later lo hi).1 n
      ≡ (covered (p ∷ next ∷ later) n || within lo hi n)

covered_step :
    (ret : Ret) (sack next : SackItem) (later : List SackItem) (lo hi bound n : ℕ)
    → CoversBelow next later n
    → Below bound (sack ∷ next ∷ later)
    → bound ≤ 2 ^ 64
    → lo ≤ hi
    → hi + 1 < bound
    → covered (update_loop true ret none sack (next ∷ later) lo hi).1 n
      ≡ (covered (sack ∷ next ∷ later) n || within lo hi n)
unfolding update_loop
covered_step ret sack next later lo hi bound n ih b hb le h = elim (dec_lt e hi) [
  | yes above ↦ elim (dec_lt (e + 1) lo) [
    | yes gap ↦
        rw (lt→ltb e hi above, lt→leb_false lo (u64 (e + 1)) (omega arith))
          (or_comm (within lo hi n) _)
    | no near ↦ elim (dec_lt lo s) [
      | yes down ↦
          rw (lt→ltb e hi above, le→leb lo (u64 (e + 1)) (omega arith), lt→leb_false s lo down)
            (ih recorded (record sack { end_of_sack_range = hi }) lo (s - 1) bound
                (h, omega arith, b.2) hb (omega arith) (omega arith)
              ∙ span_above s e lo hi n _ b.1 above down)
      | no stop ↦
          rw (lt→ltb e hi above, le→leb lo (u64 (e + 1)) (omega arith), le→leb s lo (omega arith))
            (touch_above s e lo hi n _ b.1 above (omega arith) (omega arith))
    ]
  ]
  | no inside ↦ elim (dec_lt hi s) [
    | yes further ↦
        rw (le→ltb e hi (omega arith), lt→leb_false s hi further)
          (ih ret sack lo hi bound b hb le further)
    | no reach ↦ elim (dec_lt lo s) [
      | yes down ↦
          rw (le→ltb e hi (omega arith), le→leb s hi (omega arith), lt→ltb lo s down)
            (ih recorded sack lo (s - 1) bound b hb (omega arith) (omega arith)
              ∙ span_below s e lo hi n _ (omega arith) (omega arith) down)
      | no stop ↦
          rw (le→ltb e hi (omega arith), le→leb s hi (omega arith), le→ltb lo s (omega arith))
            (contained s e lo hi n _ (omega arith) (omega arith))
    ]
  ]
]
  where
    open sack use {start_of_sack_range as s, end_of_sack_range as e}

-- An item before matters only where the range touches it from below and passes the current item.
update_loop-frame :
    (m : Bool) (ret : Ret) (p sack : SackItem) (later : List SackItem) (lo hi : ℕ)
    → (u64 (hi + 1) < p.start_of_sack_range) ⊎ (hi ≤ sack.end_of_sack_range)
    → (update_loop m ret (some p) sack later lo hi).1
      ≡ p ∷ (update_loop m ret none sack later lo hi).1
unfolding update_loop
update_loop-frame true ret p sack [] lo hi h = ground arith
update_loop-frame true ret p sack (next ∷ later) lo hi h = ground arith
update_loop-frame false ret p sack [] lo hi h = ground arith
update_loop-frame false ret p sack (next ∷ later) lo hi h = ground arith

covered_joined :
    (ret : Ret) (p sack next : SackItem) (later : List SackItem) (lo hi bound n : ℕ)
    → CoversBelow next later n
    → Below bound (p ∷ sack ∷ next ∷ later)
    → bound ≤ 2 ^ 64
    → lo ≤ hi
    → p.start_of_sack_range ≡ hi + 1
    → sack.end_of_sack_range < hi
    → covered (update_loop true ret (some p) sack (next ∷ later) lo hi).1 n
      ≡ (covered (p ∷ sack ∷ next ∷ later) n || within lo hi n)
unfolding update_loop
covered_joined ret p sack next later lo hi bound n ih b hb le joined above =
    elim (dec_lt (e + 1) lo) [
      | yes gap ↦
          rw
            (
              lt→ltb e hi above,
              lt→leb_false lo (u64 (e + 1)) (omega arith),
              le→leb ps (u64 (hi + 1)) (omega arith),
            )
            (extend_above ps pe lo hi n _ joined b.1 le)
      | no near ↦ elim (dec_lt lo s) [
        | yes down ↦
            rw
              (
                lt→ltb e hi above,
                le→leb lo (u64 (e + 1)) (omega arith),
                le→leb ps (u64 (hi + 1)) (omega arith),
                lt→leb_false s lo down,
              )
              (ih recorded (record p { start_of_sack_range = s }) lo (s - 1) bound
                  (b.0, omega arith, b.2.2) hb (omega arith) (omega arith)
                ∙ merge_span s e lo hi n _ ps pe joined b.1 (omega arith) above down)
        | no stop ↦
            rw
              (
                lt→ltb e hi above,
                le→leb lo (u64 (e + 1)) (omega arith),
                le→leb ps (u64 (hi + 1)) (omega arith),
                le→leb s lo (omega arith),
              )
              (merge_above s e lo hi n _ ps pe joined b.1 (omega arith) above (omega arith)
                (omega arith))
      ]
    ]
  where
    open p use {start_of_sack_range as ps, end_of_sack_range as pe}
    open sack use {start_of_sack_range as s, end_of_sack_range as e}

update_loop-covered-some :
    (ret : Ret) (p sack : SackItem) (later : List SackItem) (lo hi bound n : ℕ)
    → Below bound (p ∷ sack ∷ later)
    → bound ≤ 2 ^ 64
    → lo ≤ hi
    → hi < p.start_of_sack_range
    → covered (update_loop true ret (some p) sack later lo hi).1 n
      ≡ (covered (p ∷ sack ∷ later) n || within lo hi n)
update_loop-covered-some ret p sack [] lo hi bound n b hb le h = unfold update_loop in ground arith
update_loop-covered-some ret p sack (next ∷ later) lo hi bound n b hb le h =
    let ih : CoversBelow next later n = λ ret' p' lo' hi' bound' b' hb' le' h'.
      update_loop-covered-some ret' p' next later lo' hi' bound' n b' hb' le' h' in
    elim (joined_cases p.start_of_sack_range hi sack.end_of_sack_range h (omega arith)) [
      | inl apart ↦ rw (update_loop-frame true ret p sack (next ∷ later) lo hi apart) (
          ap (λ c. within p.start_of_sack_range p.end_of_sack_range n || c)
            (covered_step ret sack next later lo hi p.start_of_sack_range n ih b.2 (omega arith) le
              (omega arith))
          ∙ or_assoc (within p.start_of_sack_range p.end_of_sack_range n) _ _)
      | inr (joined, above) ↦
          covered_joined ret p sack next later lo hi bound n ih b hb le joined above
    ]

pub update_loop-covered :
    (ret : Ret) (sack : SackItem) (later : List SackItem) (lo hi bound n : ℕ)
    → Below bound (sack ∷ later)
    → bound ≤ 2 ^ 64
    → lo ≤ hi
    → hi + 1 < bound
    → covered (update_loop true ret none sack later lo hi).1 n
      ≡ (covered (sack ∷ later) n || within lo hi n)
update_loop-covered ret sack [] lo hi bound n b hb le h = unfold update_loop in ground arith
update_loop-covered ret sack (next ∷ later) lo hi bound n b hb le h =
    covered_step ret sack next later lo hi bound n
      (λ ret' p' lo' hi' bound' b' hb' le' h'.
        update_loop-covered-some ret' p' next later lo' hi' bound' n b' hb' le' h')
      b hb le h

pub update_loop-Below :
    (m : Bool) (ret : Ret) (sack : SackItem) (later : List SackItem) (lo hi bound : ℕ)
    → Below bound (sack ∷ later)
    → bound ≤ 2 ^ 64
    → lo ≤ hi
    → hi + 1 < bound
    → Below bound (update_loop m ret none sack later lo hi).1
unfolding update_loop
update_loop-Below true ret sack [] lo hi bound b hb le h = ground arith
update_loop-Below false ret sack [] lo hi bound b hb le h = ground arith
update_loop-Below m ret sack (next ∷ later) lo hi bound b hb le h = ground (
  arith,
  update_loop-Below-some m ret sack next later lo hi bound,
  update_loop-Below-some m recorded sack next later lo (sack.start_of_sack_range - 1) bound,
  update_loop-Below-some m recorded (record sack { end_of_sack_range = hi }) next later lo
      (sack.start_of_sack_range - 1) bound,
)
