-- ===== src/Frames/Advance.antt =====
-- picoquic/frames.c, where the readers of integers leave the pointer.
use pquic.Base.{
  ℕ, zero, suc, ◌+◌, ◌-◌, ◌≤◌, ◌≡◌, refl, sym, ap, ◌∙◌, Option, none, some, List, [], ◌∷◌, drop,
  length, leb, arith, Bool-cases, length-drop, inl, inr, true, false, leb→le, Bool, bit_and,
}
use pquic.Frames.Reader.{
  Reader, and_then, frames_varint_decode, frames_varint_loop, frames_uint8_decode,
  frames_varint_skip, frames_uint16_decode, frames_uint64_decode, frames_take, check, room,
  frames_fixed_skip,
}
use pquic.Intformat.{first_byte_length}

-- `rest` begins `k` bytes further in the packet, for a `k` that is inside it.
abbrev pub IsRest : List ℕ → List ℕ → Type 0
IsRest bytes rest = (k : ℕ) × (k ≤ length bytes) × (rest ≡ drop k bytes)

module _ {ℓ} {A : Type ℓ} where
  -- What is read ends inside the packet, if something is read.
  abbrev pub Within : List ℕ → Option (A × List ℕ) → Type 0
  Within bytes none = Unit {0}
  Within bytes (some (a, rest)) = IsRest bytes rest

drop_nil : (n : ℕ) → drop {A = ℕ} n [] ≡ []
drop_nil zero = refl
drop_nil (suc n) = refl

pub drop-drop : (j k : ℕ) (bytes : List ℕ) → drop j (drop k bytes) ≡ drop (k + j) bytes
drop-drop j zero bytes = ap (λ n. drop n bytes) (omega arith)
drop-drop j (suc k) [] = drop_nil j ∙ sym (drop_nil (suc k + j))
drop-drop j (suc k) (b ∷ bytes) =
    let same : suc (k + j) ≡ suc k + j = omega arith in
    drop-drop j k bytes ∙ ap (λ n. drop n (b ∷ bytes)) same

pub IsRest-trans : (a b c : List ℕ) → IsRest a b → IsRest b c → IsRest a c
IsRest-trans a b c (k, in_a, eb) (j, in_b, ec) =
    let shorter : length b ≡ length a - k = ap length eb ∙ length-drop k a in
    (k + j, omega arith, ec ∙ ap (drop j) eb ∙ drop-drop j k a)

pub IsRest-length : (a b : List ℕ) → IsRest a b → length b ≤ length a
IsRest-length a b (k, inside, e) = omega (arith, ap length e, length-drop k a)

pub IsRest-refl : (a : List ℕ) → IsRest a a
IsRest-refl a = (0, omega arith, refl)

pub IsRest-next : (b : ℕ) (a rest : List ℕ) → IsRest a rest → IsRest (b ∷ a) rest
IsRest-next b a rest (k, inside, e) = (suc k, omega arith, e)

widen {ℓ} :
    {B : Type ℓ} (a b : List ℕ) (o : Option (B × List ℕ)) → IsRest a b → Within b o → Within a o
widen a b none r w = tt
widen a b (some (x, c)) r w = IsRest-trans a b c r w

module _ {ℓ κ} {A : Type ℓ} {B : Type κ} where
  pub bind-Within :
      (bytes : List ℕ) (o : Option (A × List ℕ)) (f : A → Reader B)
      → Within bytes o
      → ((a : A) (rest : List ℕ) → Within rest (f a rest))
      → Within bytes (and_then o f)
  bind-Within bytes none f w h = tt
  bind-Within bytes (some (a, rest)) f w h = widen bytes rest (f a rest) w (h a rest)

pub check-Within : (b : Bool) (bytes : List ℕ) → Within bytes (check b bytes)
check-Within true bytes = IsRest-refl bytes
check-Within false bytes = tt

pub room-Within : (size : ℕ) (bytes : List ℕ) → Within bytes (room size bytes)
room-Within size bytes = check-Within (leb size (length bytes)) bytes

pub frames_fixed_skip-Within :
    (size : ℕ) (bytes : List ℕ) → Within bytes (frames_fixed_skip size bytes)
unfolding frames_fixed_skip
frames_fixed_skip-Within size bytes = elim (Bool-cases (leb size (length bytes))) [
  | inl fits ↦ rw fits (size, leb→le size (length bytes) fits, refl)
  | inr long ↦ rw long tt
]

pub frames_take-Within : (size : ℕ) (bytes : List ℕ) → Within bytes (frames_take size bytes)
unfolding frames_take
frames_take-Within size bytes = elim (Bool-cases (leb size (length bytes))) [
  | inl fits ↦ rw fits (size, leb→le size (length bytes) fits, refl)
  | inr long ↦ rw long tt
]

pub frames_varint_skip-Within : (bytes : List ℕ) → Within bytes (frames_varint_skip bytes)
unfolding frames_varint_skip
frames_varint_skip-Within [] = tt
frames_varint_skip-Within (b ∷ bytes) = frames_fixed_skip-Within (first_byte_length b) (b ∷ bytes)

varint_loop-Within : (k v : ℕ) (bytes : List ℕ) → Within bytes (frames_varint_loop k v bytes)
unfolding frames_varint_loop
varint_loop-Within zero v bytes = IsRest-refl bytes
varint_loop-Within (suc k) v [] = tt
varint_loop-Within (suc k) v (b ∷ bytes) =
    widen {B = ℕ} (b ∷ bytes) bytes _ (1, omega arith, refl) (varint_loop-Within k _ bytes)

pub frames_varint_decode-Within : (bytes : List ℕ) → Within bytes (frames_varint_decode bytes)
unfolding frames_varint_decode
frames_varint_decode-Within [] = tt
frames_varint_decode-Within (b ∷ bytes) =
    elim (Bool-cases (leb (first_byte_length b) (length (b ∷ bytes)))) [
      | inl fits ↦ rw fits (
          widen {B = ℕ} (b ∷ bytes) bytes _ (1, omega arith, refl)
            (varint_loop-Within (first_byte_length b - 1) (bit_and b 0x3F) bytes))
      | inr long ↦ rw long tt
    ]

pub frames_uint8_decode-Within : (bytes : List ℕ) → Within bytes (frames_uint8_decode bytes)
unfolding frames_uint8_decode
frames_uint8_decode-Within [] = tt
frames_uint8_decode-Within (b ∷ bytes) = (1, omega arith, refl)

pub frames_uint16_decode-Within : (bytes : List ℕ) → Within bytes (frames_uint16_decode bytes)
unfolding frames_uint16_decode
frames_uint16_decode-Within [] = tt
frames_uint16_decode-Within (b ∷ []) = tt
frames_uint16_decode-Within (b ∷ c ∷ bytes) = (2, omega arith, refl)

pub frames_uint64_decode-Within : (bytes : List ℕ) → Within bytes (frames_uint64_decode bytes)
unfolding frames_uint64_decode
frames_uint64_decode-Within (b0 ∷ b1 ∷ b2 ∷ b3 ∷ b4 ∷ b5 ∷ b6 ∷ b7 ∷ bytes) = (8, omega arith, refl)
frames_uint64_decode-Within _ = tt
