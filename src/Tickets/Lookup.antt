-- ===== src/Tickets/Lookup.antt =====
-- What storing a ticket does to the lookups.
use pquic.Base.{
  ℕ, ◌≢◌, not, length, ◌<◌, ◌≡◌, refl, inl, inr, ◌⊎◌, Bool, true, false, ◌&&◌, some, List, [], ◌∷◌,
  arith, All, ltb, leb, ◌==◌, if◌then◌else◌, Bool-cases, lt→ltb,
}
use pquic.Tickets.{
  StoredTicket, StoreRet, stored, invalid_ticket, no_memory, same_bytes, is_for, remove_old,
  valid_until, format_ticket, store_ticket, get_ticket,
}

same_bytes_refl : (xs : List ℕ) → same_bytes xs xs ≡ true
unfolding same_bytes
same_bytes_refl [] = refl
same_bytes_refl (x ∷ xs) = ground (arith, same_bytes_refl xs)

same_bytes_eq : (xs ys : List ℕ) → same_bytes xs ys ≡ true → xs ≡ ys
unfolding same_bytes
same_bytes_eq [] [] h = refl
same_bytes_eq [] (y ∷ ys) h = cc
same_bytes_eq (x ∷ xs) [] h = cc
same_bytes_eq (x ∷ xs) (y ∷ ys) h = ground (arith, same_bytes_eq xs ys)

and_true : (a b : Bool) → (a && b) ≡ true → (a ≡ true) × (b ≡ true)
and_true a b h = ground arith

other_names :
    (sni alpn other_sni other_alpn : List ℕ) (t : StoredTicket)
    → (same_bytes sni other_sni && same_bytes alpn other_alpn) ≡ false
    → is_for sni alpn t ≡ true
    → is_for other_sni other_alpn t ≡ false
other_names sni alpn other_sni other_alpn t h k =
    let (s, a) = and_true (same_bytes t.sni sni) (same_bytes t.alpn alpn) k in
    let same_sni = same_bytes_eq t.sni sni s in
    let same_alpn = same_bytes_eq t.alpn alpn a in rw (same_sni, same_alpn) h

-- A ticket for other names is not touched.
get_ticket-remove_old :
    (limit now : ℕ) (sni alpn other_sni other_alpn : List ℕ) (l : List StoredTicket)
    → (same_bytes sni other_sni && same_bytes alpn other_alpn) ≡ false
    → get_ticket (remove_old limit sni alpn l) now other_sni other_alpn
      ≡ get_ticket l now other_sni other_alpn
unfolding get_ticket remove_old
get_ticket-remove_old limit now sni alpn other_sni other_alpn [] h = refl
get_ticket-remove_old limit now sni alpn other_sni other_alpn (t ∷ l) h =
    let ih = get_ticket-remove_old limit now sni alpn other_sni other_alpn l h in
    elim (Bool-cases (leb t.time_valid_until limit && is_for sni alpn t)) [
      | inl gone ↦
          let other =
            other_names sni alpn other_sni other_alpn t h
              (and_true (leb t.time_valid_until limit) (is_for sni alpn t) gone).1 in
          rw (gone, other) (ground (arith, ih))
      | inr kept ↦ rw (kept, ih) refl
    ]

-- The chain holds tickets for the same names in the order of rising end of their life.
abbrev pub After : StoredTicket → StoredTicket → Type 0
After t u = (is_for t.sni t.alpn u ≡ false) ⊎ (t.time_valid_until < u.time_valid_until)

abbrev pub IsStore : List StoredTicket → Type 0
IsStore [] = Unit {0}
IsStore (t ∷ l) = All (After t) l × IsStore l

remove_old-All :
    (limit : ℕ) (sni alpn : List ℕ) (P : StoredTicket → Type 0) (l : List StoredTicket)
    → All P l
    → All P (remove_old limit sni alpn l)
unfolding remove_old
remove_old-All limit sni alpn P [] h = h
remove_old-All limit sni alpn P (t ∷ l) h =
    elim (Bool-cases (leb t.time_valid_until limit && is_for sni alpn t)) [
      | inl gone ↦ rw gone (remove_old-All limit sni alpn P l h.1)
      | inr kept ↦ rw kept (h.0, remove_old-All limit sni alpn P l h.1)
    ]

remove_old-IsStore :
    (limit : ℕ) (sni alpn : List ℕ) (l : List StoredTicket)
    → IsStore l
    → IsStore (remove_old limit sni alpn l)
unfolding remove_old
remove_old-IsStore limit sni alpn [] h = h
remove_old-IsStore limit sni alpn (t ∷ l) h =
    elim (Bool-cases (leb t.time_valid_until limit && is_for sni alpn t)) [
      | inl gone ↦ rw gone (remove_old-IsStore limit sni alpn l h.1)
      | inr kept ↦
          rw kept
            (remove_old-All limit sni alpn (After t) l h.0, remove_old-IsStore limit sni alpn l h.1)
    ]

later_only :
    (limit : ℕ) (sni alpn ticket : List ℕ) (t : StoredTicket)
    → (leb t.time_valid_until limit && is_for sni alpn t) ≡ false
    → After (record { sni = sni; alpn = alpn; ticket = ticket; time_valid_until = limit }) t
later_only limit sni alpn ticket t h = ground arith

remove_old-After :
    (limit : ℕ) (sni alpn ticket : List ℕ) (l : List StoredTicket)
    → All
        (After (record { sni = sni; alpn = alpn; ticket = ticket; time_valid_until = limit }))
        (remove_old limit sni alpn l)
unfolding remove_old
remove_old-After limit sni alpn ticket [] = tt
remove_old-After limit sni alpn ticket (t ∷ l) =
    elim (Bool-cases (leb t.time_valid_until limit && is_for sni alpn t)) [
      | inl gone ↦ rw gone (remove_old-After limit sni alpn ticket l)
      | inr kept ↦
          rw kept
            (later_only limit sni alpn ticket t kept, remove_old-After limit sni alpn ticket l)
    ]

abbrev new_ticket : List ℕ → List ℕ → List ℕ → StoredTicket
new_ticket sni alpn ticket = record {
  sni = sni;
  alpn = alpn;
  ticket = ticket;
  time_valid_until = valid_until ticket;
}

guarded :
    (a b : Bool) (l x : List StoredTicket) (last : StoreRet × List StoredTicket)
    → (last.1 ≡ x) ⊎ ((last.1 ≡ l) × (last.0 ≢ stored))
    → let r : StoreRet × List StoredTicket =
        if a then (invalid_ticket, l) else (if b then (invalid_ticket, l) else last) in
      (r.1 ≡ x) ⊎ ((r.1 ≡ l) × (r.0 ≢ stored))
guarded true b l x last h = inr (refl, λ e. cc)
guarded false true l x last h = inr (refl, λ e. cc)
guarded false false l x last h = h

-- The ticket is stored in front, or the chain stays as it is.
store_ticket_cases :
    (malloc_ok : Bool) (l : List StoredTicket) (now : ℕ) (sni alpn ticket : List ℕ)
    → ((store_ticket malloc_ok l now sni alpn ticket).1
        ≡ new_ticket sni alpn ticket ∷ remove_old (valid_until ticket) sni alpn l)
      ⊎ (((store_ticket malloc_ok l now sni alpn ticket).1 ≡ l)
          × ((store_ticket malloc_ok l now sni alpn ticket).0 ≢ stored))
unfolding store_ticket format_ticket
store_ticket_cases true l now sni alpn ticket =
    guarded (ltb (length ticket) 17) (not (now == 0) && ltb (valid_until ticket) now) l _
      (stored, new_ticket sni alpn ticket ∷ remove_old (valid_until ticket) sni alpn l) (inl refl)
store_ticket_cases false l now sni alpn ticket =
    guarded (ltb (length ticket) 17) (not (now == 0) && ltb (valid_until ticket) now) l _
      (no_memory, l) (inr (refl, λ e. cc))

-- Where the tickets for the same names stand in the order of rising end of their life, they stay so
-- whatever ticket comes and whatever malloc answers: no ticket is kept behind one for the same names
-- that lasts as long.
pub store_ticket-IsStore :
    (malloc_ok : Bool) (l : List StoredTicket) (now : ℕ) (sni alpn ticket : List ℕ)
    → IsStore l
    → IsStore (store_ticket malloc_ok l now sni alpn ticket).1
store_ticket-IsStore malloc_ok l now sni alpn ticket h =
    elim (store_ticket_cases malloc_ok l now sni alpn ticket) [
      | inl new ↦ rw new (
        remove_old-After (valid_until ticket) sni alpn ticket l,
        remove_old-IsStore (valid_until ticket) sni alpn l h,
      )
      | inr (same, failed) ↦ rw same h
    ]

-- A ticket that was stored is what a lookup of its names returns as long as it is valid.
pub get_ticket-store_ticket :
    (malloc_ok : Bool) (l : List StoredTicket) (now later : ℕ) (sni alpn ticket : List ℕ)
    → (store_ticket malloc_ok l now sni alpn ticket).0 ≡ stored
    → later < valid_until ticket
    → get_ticket (store_ticket malloc_ok l now sni alpn ticket).1 later sni alpn ≡ some ticket
unfolding get_ticket
get_ticket-store_ticket malloc_ok l now later sni alpn ticket h k =
    elim (store_ticket_cases malloc_ok l now sni alpn ticket) [
      | inl new ↦
          rw (new, lt→ltb later (valid_until ticket) k, same_bytes_refl sni, same_bytes_refl alpn)
            refl
      | inr (same, failed) ↦ absurd (failed h)
    ]

-- A lookup of other names returns what it returned before, whatever becomes of the ticket.
pub get_ticket-store_ticket_other :
    (malloc_ok : Bool) (l : List StoredTicket) (now later : ℕ)
    (sni alpn ticket other_sni other_alpn : List ℕ)
    → (same_bytes sni other_sni && same_bytes alpn other_alpn) ≡ false
    → get_ticket (store_ticket malloc_ok l now sni alpn ticket).1 later other_sni other_alpn
      ≡ get_ticket l later other_sni other_alpn
unfolding get_ticket
get_ticket-store_ticket_other malloc_ok l now later sni alpn ticket other_sni other_alpn h =
    elim (store_ticket_cases malloc_ok l now sni alpn ticket) [
      | inl new ↦
          let rest =
            get_ticket-remove_old (valid_until ticket) later sni alpn other_sni other_alpn l h in
          rw (new, h, rest) (ground arith)
      | inr (same, failed) ↦ rw same refl
    ]
