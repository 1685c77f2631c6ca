-- ===== src/Frames/Reader.antt =====
-- picoquic/frames.c, the helpers that move a pointer over a packet. The pointer and `bytes_max` are the
-- list of the bytes between them, and NULL is `none`. A `Reader A` reads an `A` and returns it with
-- the bytes behind it.
use pquic.Base.{
  ℕ, Bool, true, false, zero, suc, ◌+◌, ◌-◌, ◌*◌, ◌^◌, Option, none, some, List, [], ◌∷◌, take,
  drop, length, bit_and, bit_or, leb, if◌then◌else◌, u64,
}
use pquic.Intformat.{first_byte_length}

abbrev pub Reader {ℓ} : Type ℓ → Type ℓ
Reader A = List ℕ → Option (A × List ℕ)

abbrev pub pure {ℓ} : {A : Type ℓ} → A → Reader A
pure a bytes = some (a, bytes)

-- The pointer of the step before is NULL, or the next step runs.
abbrev pub and_then {ℓ κ} :
    {A : Type ℓ} {B : Type κ} → Option (A × List ℕ) → (A → Reader B) → Option (B × List ℕ)
and_then none f = none
and_then (some (a, rest)) f = f a rest

module _ {ℓ κ} {A : Type ℓ} {B : Type κ} where
  infixl 1 ◌>>=◌ ◌>>◌
  abbrev pub ◌>>=◌ : Reader A → (A → Reader B) → Reader B
  p >>= f = λ bytes. and_then (p bytes) f

  abbrev pub ◌>>◌ : Reader A → Reader B → Reader B
  p >> q = p >>= λ _. q

-- (bytes += size) <= bytes_max ? bytes : NULL
unfoldable pub frames_fixed_skip : ℕ → Reader (Unit {0})
frames_fixed_skip size bytes = if leb size (length bytes) then some (tt, drop size bytes) else none

unfoldable pub frames_varint_skip : Reader (Unit {0})
unfolding frames_fixed_skip first_byte_length
frames_varint_skip [] = none
frames_varint_skip (b ∷ bytes) = frames_fixed_skip (first_byte_length b) (b ∷ bytes)

-- while (--length > 0) { v <<= 8; v += *bytes++; }, with the rounds that are left.
unfoldable pub frames_varint_loop : ℕ → ℕ → Reader ℕ
frames_varint_loop zero v bytes = some (v, bytes)
frames_varint_loop (suc k) v [] = none
frames_varint_loop (suc k) v (b ∷ bytes) = frames_varint_loop k (u64 (u64 (v * 2 ^ 8) + b)) bytes

unfoldable pub frames_varint_decode : Reader ℕ
unfolding frames_varint_loop first_byte_length
frames_varint_decode [] = none
frames_varint_decode (b ∷ bytes) =
    let length_of = first_byte_length b in
    if leb length_of (length (b ∷ bytes))
    then frames_varint_loop (length_of - 1) (bit_and b 0x3F) bytes
    else none

unfoldable pub frames_uint8_decode : Reader ℕ
frames_uint8_decode [] = none
frames_uint8_decode (b ∷ bytes) = some (b, bytes)

-- PICOPARSE_16
unfoldable pub parse16 : ℕ → ℕ → ℕ
parse16 b0 b1 = bit_or (b0 * 2 ^ 8) b1

-- PICOPARSE_32
unfoldable pub parse32 : ℕ → ℕ → ℕ → ℕ → ℕ
unfolding parse16
parse32 b0 b1 b2 b3 = bit_or (parse16 b0 b1 * 2 ^ 16) (parse16 b2 b3)

unfoldable pub frames_uint16_decode : Reader ℕ
unfolding parse16
frames_uint16_decode (b0 ∷ b1 ∷ bytes) = some (parse16 b0 b1, bytes)
frames_uint16_decode _ = none

-- PICOPARSE_64
unfoldable pub frames_uint64_decode : Reader ℕ
unfolding parse32
frames_uint64_decode (b0 ∷ b1 ∷ b2 ∷ b3 ∷ b4 ∷ b5 ∷ b6 ∷ b7 ∷ bytes) =
    some (bit_or (parse32 b0 b1 b2 b3 * 2 ^ 32) (parse32 b4 b5 b6 b7), bytes)
frames_uint64_decode _ = none

-- `size` bytes, which memcpy copies, where the packet has them.
unfoldable pub frames_take : ℕ → Reader (List ℕ)
frames_take size bytes =
    if leb size (length bytes) then some (take size bytes, drop size bytes) else none

unfoldable pub frames_length_data_skip : Reader (Unit {0})
unfolding frames_varint_decode frames_fixed_skip
frames_length_data_skip = do frames_fixed_skip (← frames_varint_decode)

-- The pointer is set to NULL unless the condition holds.
abbrev pub check : Bool → Reader (Unit {0})
check true bytes = some (tt, bytes)
check false bytes = none

-- bytes + size <= bytes_max
abbrev pub room : ℕ → Reader (Unit {0})
room size bytes = check (leb size (length bytes)) bytes
