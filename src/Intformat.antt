-- ===== src/Intformat.antt =====
-- picoquic/intformat.c and the macros PICOPARSE of picoquic_internal.h: integers on the wire. A buffer is the list of its bytes; a function that
-- writes returns the bytes that it wrote, whose number is the C function's result.
pub mod Varint
pub mod FixedWidth
use pquic.Base.{
  ℕ, zero, suc, ◌+◌, ◌-◌, ◌*◌, ◌/◌, ◌%◌, ◌^◌, Option, none, some, List, [], ◌∷◌, bit_and, bit_or,
  get_elem?, ltb, leb, ◌==◌, if◌then◌else◌, u8, u16, u64,
}
use mathlib.Core.Option

-- (b)[i]; the callers have checked that the buffer is longer.
abbrev pub byte : List ℕ → ℕ → ℕ
byte b i = elim (get_elem? b i) [ none ↦ 0 | some v ↦ v ]

-- PICOPARSE_16, PICOPARSE_32 and PICOPARSE_64 at an index.
unfoldable pub parse_16 : List ℕ → ℕ → ℕ
parse_16 b i = bit_or (byte b i * 2 ^ 8) (byte b (i + 1))

unfoldable pub parse_32 : List ℕ → ℕ → ℕ
unfolding parse_16
parse_32 b i = bit_or (parse_16 b i * 2 ^ 16) (parse_16 b (i + 2))

unfoldable pub parse_64 : List ℕ → ℕ → ℕ
unfolding parse_32
parse_64 b i = bit_or (parse_32 b i * 2 ^ 32) (parse_32 b (i + 4))

unfoldable pub format_16 : ℕ → List ℕ
format_16 n16 = u8 (n16 / 2 ^ 8) ∷ u8 n16 ∷ []

unfoldable pub format_32 : ℕ → List ℕ
format_32 n32 = u8 (n32 / 2 ^ 24) ∷ u8 (n32 / 2 ^ 16) ∷ u8 (n32 / 2 ^ 8) ∷ u8 n32 ∷ []

unfoldable pub format_64 : ℕ → List ℕ
format_64 n64 =
    u8 (n64 / 2 ^ 56)
    ∷ u8 (n64 / 2 ^ 48)
    ∷ u8 (n64 / 2 ^ 40)
    ∷ u8 (n64 / 2 ^ 32)
    ∷ u8 (n64 / 2 ^ 24)
    ∷ u8 (n64 / 2 ^ 16)
    ∷ u8 (n64 / 2 ^ 8)
    ∷ u8 n64
    ∷ []

-- Nothing is written where the number does not fit `max_bytes`.
unfoldable pub varint_encode : ℕ → ℕ → List ℕ
varint_encode max_bytes n64 =
    if ltb n64 16384
    then if ltb n64 64
      then if ltb 0 max_bytes then u8 n64 ∷ [] else []
      else if leb 2 max_bytes
      then u8 (bit_or (n64 / 2 ^ 8) 0x40) ∷ u8 n64 ∷ []
      else []
    else if ltb n64 1073741824
    then if leb 4 max_bytes
      then u8 (bit_or (n64 / 2 ^ 24) 0x80) ∷ u8 (n64 / 2 ^ 16) ∷ u8 (n64 / 2 ^ 8) ∷ u8 n64 ∷ []
      else []
    else if leb 8 max_bytes
    then u8 (bit_or (n64 / 2 ^ 56) 0xC0)
      ∷ u8 (n64 / 2 ^ 48)
      ∷ u8 (n64 / 2 ^ 40)
      ∷ u8 (n64 / 2 ^ 32)
      ∷ u8 (n64 / 2 ^ 24)
      ∷ u8 (n64 / 2 ^ 16)
      ∷ u8 (n64 / 2 ^ 8)
      ∷ u8 n64
      ∷ []
    else []

varint_encode_16 : ℕ → List ℕ
varint_encode_16 n16 = u8 (bit_and (bit_or (n16 / 2 ^ 8) 0x40) 0x7F) ∷ u8 n16 ∷ []

-- ((size_t)1) << ((bytes[0] & 0xC0) >> 6)
unfoldable pub first_byte_length : ℕ → ℕ
first_byte_length b = 2 ^ (bit_and b 0xC0 / 2 ^ 6)

-- for (i = 1; i < length; i++) { v <<= 8; v += *bytes++; }, with the rounds that are left.
-- `none` is a read outside the buffer.
unfoldable pub decode_loop : ℕ → List ℕ → ℕ → Option ℕ
decode_loop zero bytes v = some v
decode_loop (suc k) [] v = none
decode_loop (suc k) (b ∷ bytes) v = decode_loop k bytes (u64 (u64 (v * 2 ^ 8) + b))

-- The length and *n64; the length 0 where the number goes past `max_bytes`.
unfoldable pub varint_decode : List ℕ → ℕ → Option (ℕ × ℕ)
unfolding first_byte_length decode_loop
varint_decode [] max_bytes = none
varint_decode (b ∷ bytes) max_bytes =
    let length = first_byte_length b in
    if ltb max_bytes length
    then some (0, 0)
    else Option.map (λ n64. (length, n64)) (decode_loop (length - 1) bytes (bit_and b 0x3F))

unfoldable pub varint_skip : List ℕ → Option ℕ
unfolding first_byte_length
varint_skip [] = none
varint_skip (b ∷ bytes) = some (first_byte_length b)

unfoldable pub varint_len : ℕ → ℕ
varint_len val =
    if leb val 63
    then 1
    else if leb val 16383
    then 2
    else if leb val 1073741823
    then 4
    else if leb val 4611686018427387903
    then 8
    else 0

unfoldable pub headint_encode_32 : ℕ → List ℕ
headint_encode_32 sequence_number =
    u8 (bit_and (bit_or (sequence_number / 2 ^ 24) 0xC0) 0xFF)
    ∷ u8 (bit_and (sequence_number / 2 ^ 16) 0xFF)
    ∷ u8 (bit_and (sequence_number / 2 ^ 8) 0xFF)
    ∷ u8 (bit_and sequence_number 0xFF)
    ∷ []

-- The two longer forms: 14 bits in two bytes, 30 bits in four.
unfoldable pub headint_two : ℕ → List ℕ → Option (ℕ × ℕ)
headint_two b0 (b1 ∷ bytes) = some (2, bit_or (bit_and b0 0x3F * 2 ^ 8) b1)
headint_two b0 [] = none

unfoldable pub headint_four : ℕ → List ℕ → Option (ℕ × ℕ)
headint_four b0 (b1 ∷ b2 ∷ b3 ∷ bytes) =
    some (4, bit_or (bit_or (bit_or (bit_and b0 0x3F * 2 ^ 24) (b1 * 2 ^ 16)) (b2 * 2 ^ 8)) b3)
headint_four b0 _ = none

-- The length is 0 where `max_bytes` is too small.
unfoldable pub headint_decode : List ℕ → ℕ → Option (ℕ × ℕ)
unfolding headint_two headint_four
headint_decode [] max_bytes = none
headint_decode (b0 ∷ bytes) max_bytes =
    if bit_and b0 0x80 == 0
    then some (if leb 1 max_bytes then (1, bit_and b0 0x7F) else (0, 0))
    else if bit_and b0 0x40 == 0
    then if leb 2 max_bytes then headint_two b0 bytes else some (0, 0)
    else if leb 4 max_bytes
    then headint_four b0 bytes
    else some (0, 0)
