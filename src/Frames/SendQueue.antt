-- ===== src/Frames/SendQueue.antt =====
-- picoquic/frames.c: the bytes in the queue of a sender, and those that a frame takes from it.
use pquic.Base.{
  ℕ, zero, suc, ◌+◌, ◌≤◌, ◌≡◌, refl, ap, List, [], ◌∷◌, ◌++◌, length, take, drop, arith,
  length-drop, le→leb, lt→leb_false,
}
use native.Mathlib.Decide.{dec_lt}
use pquic.Frames.Advance.{drop-drop}
use pquic.Frames.Write.{SendData, advance}
use pquic.Frames.Reads.{append_assoc}

-- The bytes that are still to be sent.
abbrev pub unsent : List SendData → List ℕ
unsent [] = []
unsent (d ∷ later) = drop d.offset d.bytes ++ unsent later

pub take-drop : (n : ℕ) (xs : List ℕ) → take n xs ++ drop n xs ≡ xs
take-drop zero xs = refl
take-drop (suc n) [] = refl
take-drop (suc n) (x ∷ xs) = ap (◌∷◌ x) (take-drop n xs)

pub take_enough : (n : ℕ) (xs : List ℕ) → length xs ≤ n → take n xs ≡ xs
take_enough zero [] h = refl
take_enough zero (x ∷ xs) h = absurd (omega arith)
take_enough (suc n) [] h = refl
take_enough (suc n) (x ∷ xs) h = ap (◌∷◌ x) (take_enough n xs (omega arith))

-- What is sent and what is left are what was there.
pub unsent-advance :
    (count : ℕ) (d : SendData) (later : List SendData)
    → take count (drop d.offset d.bytes) ++ unsent (advance count (d ∷ later)) ≡ unsent (d ∷ later)
unfolding advance
unsent-advance count d later =
    let left = length-drop d.offset d.bytes in
    elim (dec_lt (d.offset + count) (length d.bytes)) [
      | yes more ↦
          rw
            (
              lt→leb_false (length d.bytes) (d.offset + count) more,
              ← drop-drop count d.offset d.bytes,
              ← append_assoc (take count (drop d.offset d.bytes))
                  (drop count (drop d.offset d.bytes)) (unsent later),
              take-drop count (drop d.offset d.bytes),
            )
            refl
      | no all ↦
          rw
            (
              le→leb (length d.bytes) (d.offset + count) (omega arith),
              take_enough count (drop d.offset d.bytes) (omega arith),
            )
            refl
    ]
