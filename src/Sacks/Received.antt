-- ===== src/Sacks/Received.antt =====
-- The operations on the chain against the set of the packet numbers received.
use pquic.Base.{
  ℕ, ◌+◌, ◌-◌, ◌^◌, ◌≤◌, ◌<◌, ◌≡◌, refl, ◌∙◌, Bool, true, false, ◌||◌, inl, inr, List, [], ◌∷◌,
  within, arith, minus_one64, Bool-cases, ne→==_false, none, some,
}
use pquic.Sacks.{
  SackItem, SackList, PacketContext, Ret, duplicate, recorded, is_unused, update_loop,
  update_sack_list, record_pn_received, received_loop, is_pn_already_received, to_sacks,
}
use pquic.Sacks.Spec.{covered, Below, received, IsSackList}
use pquic.Sacks.Update.{update_loop-covered, update_loop-Below}

-- The update never empties the chain.
abbrev is_cons : List SackItem → Bool
is_cons [] = false
is_cons (s ∷ l) = true

update_loop-is_cons :
    (m : Bool) (ret : Ret) (p sack : SackItem) (later : List SackItem) (lo hi : ℕ)
    → is_cons (update_loop m ret (some p) sack later lo hi).1 ≡ true
unfolding update_loop
update_loop-is_cons true ret p sack [] lo hi = ground arith
update_loop-is_cons false ret p sack [] lo hi = ground arith
update_loop-is_cons m ret p sack (next ∷ later) lo hi = ground (
  arith,
  update_loop-is_cons m recorded (record p { start_of_sack_range = sack.start_of_sack_range }) next
      later lo (sack.start_of_sack_range - 1),
)

first_update-is_cons :
    (m : Bool) (ret : Ret) (sack : SackItem) (later : List SackItem) (lo hi : ℕ)
    → is_cons (update_loop m ret none sack later lo hi).1 ≡ true
unfolding update_loop
first_update-is_cons true ret sack [] lo hi = ground arith
first_update-is_cons false ret sack [] lo hi = ground arith
first_update-is_cons m ret sack (next ∷ later) lo hi = ground (
  arith,
  update_loop-is_cons m ret sack next later lo hi,
  update_loop-is_cons m recorded sack next later lo (sack.start_of_sack_range - 1),
  update_loop-is_cons m recorded (record sack { end_of_sack_range = hi }) next later lo
      (sack.start_of_sack_range - 1),
)

-- A well-formed chain as a SackList.
to_sacks-IsSackList :
    (s : SackItem) (items : List SackItem)
    → is_cons items ≡ true
    → Below (2 ^ 64) items
    → IsSackList (to_sacks s items)
unfolding to_sacks
to_sacks-IsSackList s [] h b = cc
to_sacks-IsSackList s (x ∷ l) h b =
    rw (ne→==_false x.start_of_sack_range minus_one64 (omega arith)) b

received-to_sacks :
    (s : SackItem) (items : List SackItem) (n : ℕ)
    → is_cons items ≡ true
    → Below (2 ^ 64) items
    → received (to_sacks s items) n ≡ covered items n
unfolding to_sacks
received-to_sacks s [] n h b = cc
received-to_sacks s (x ∷ l) n h b = rw (ne→==_false x.start_of_sack_range minus_one64 (omega arith))

-- Whatever malloc answers, the update with a range that is not empty and below 2^64 - 1 keeps a
-- well-formed chain well formed: ranges that are not empty, fall along the chain and leave a hole
-- between any two.
pub update_sack_list-IsSackList :
    (malloc_ok : Bool) (l : SackList) (lo hi : ℕ)
    → IsSackList l
    → lo ≤ hi
    → hi + 1 < 2 ^ 64
    → IsSackList (update_sack_list malloc_ok l lo hi).1
unfolding update_sack_list
update_sack_list-IsSackList m l lo hi v le h = elim (Bool-cases (is_unused l.first_sack_item)) [
  | inl unused ↦
      let alone : l.later ≡ [] = rw unused at v in
      rw (unused, ne→==_false lo minus_one64 (omega arith), alone) (omega arith)
  | inr used ↦ rw used (
      to_sacks-IsSackList l.first_sack_item _
        (first_update-is_cons m duplicate l.first_sack_item l.later lo hi)
        (update_loop-Below m duplicate l.first_sack_item l.later lo hi (2 ^ 64) (rw used at v)
          (omega arith) le h))
]

or_false : (b : Bool) → (b || false) ≡ b
or_false b = ground arith

-- Where memory can be had, the update of a well-formed chain adds the range, not empty and below
-- 2^64 - 1, and nothing else, to the set of the numbers received.
pub received-update_sack_list :
    (l : SackList) (lo hi n : ℕ)
    → IsSackList l
    → lo ≤ hi
    → hi + 1 < 2 ^ 64
    → received (update_sack_list true l lo hi).1 n ≡ (received l n || within lo hi n)
unfolding update_sack_list
received-update_sack_list l lo hi n v le h = elim (Bool-cases (is_unused l.first_sack_item)) [
  | inl unused ↦
      let alone : l.later ≡ [] = rw unused at v in
      rw (unused, ne→==_false lo minus_one64 (omega arith), alone) (or_false (within lo hi n))
  | inr used ↦ rw used (
      received-to_sacks l.first_sack_item _ n
        (first_update-is_cons true duplicate l.first_sack_item l.later lo hi)
        (update_loop-Below true duplicate l.first_sack_item l.later lo hi (2 ^ 64) (rw used at v)
          (omega arith) le h)
      ∙ update_loop-covered duplicate l.first_sack_item l.later lo hi (2 ^ 64) n (rw used at v)
          (omega arith) le h)
]

-- Where memory can be had, recording a packet below 2^64 - 1 on a well-formed chain adds its number,
-- and no other, to those received, and keeps the chain well formed.
pub received-record_pn_received :
    (ctx : PacketContext) (pn64 now n : ℕ)
    → IsSackList ctx.sacks
    → pn64 + 1 < 2 ^ 64
    → (received (record_pn_received true ctx pn64 now).1.sacks n
        ≡ (received ctx.sacks n || within pn64 pn64 n))
      × IsSackList (record_pn_received true ctx pn64 now).1.sacks
unfolding record_pn_received
received-record_pn_received ctx pn64 now n v h =
    elim (Bool-cases (is_unused ctx.sacks.first_sack_item)) [
      | inl unused ↦
          let alone : ctx.sacks.later ≡ [] = rw unused at v in
          rw (unused, ne→==_false pn64 minus_one64 (omega arith), alone)
            (or_false (within pn64 pn64 n), omega arith)
      | inr used ↦ rw used (
        rw used at (received-update_sack_list ctx.sacks pn64 pn64 n v (omega arith) h),
        update_sack_list-IsSackList true ctx.sacks pn64 pn64 v (omega arith) h,
      )
    ]

covered_above :
    (items : List SackItem) (bound n : ℕ) → Below bound items → bound ≤ n → covered items n ≡ false
covered_above [] bound n b h = refl
covered_above (s ∷ l) bound n b h = ground (arith, covered_above l s.start_of_sack_range n)

received_loop-covered :
    (items : List SackItem) (bound n : ℕ)
    → Below bound items
    → received_loop items n ≡ covered items n
unfolding received_loop
received_loop-covered [] bound n b = refl
received_loop-covered (s ∷ l) bound n b = ground (
  arith,
  received_loop-covered l s.start_of_sack_range n,
  covered_above l s.start_of_sack_range n,
)

-- On a well-formed chain the lookup, which stops at the first range that ends below the number,
-- finds exactly the numbers received.
pub is_pn_already_received-received :
    (l : SackList) (pn64 : ℕ) → IsSackList l → is_pn_already_received l pn64 ≡ received l pn64
unfolding is_pn_already_received
is_pn_already_received-received l pn64 v = elim (Bool-cases (is_unused l.first_sack_item)) [
  | inl unused ↦ rw unused
  | inr used ↦ rw used (received_loop-covered _ (2 ^ 64) pn64 (rw used at v))
]
