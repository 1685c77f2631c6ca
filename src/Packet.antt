-- ===== src/Packet.antt =====
-- picoquic/packet.c: the packet number, from the bytes of the header and what was received before.
pub mod Number
use pquic.Base.{
  ℕ, ◌+◌, ◌-◌, ◌^◌, ◌%◌, ◌*◌, Bool, true, false, ◌&&◌, Option, none, some, List, [], ◌∷◌, bit_and,
  bit_or, ltb, leb, ◌==◌, if◌then◌else◌, u64, sub64,
}
use pquic.Frames.Reader.{parse16, parse32}

-- ~x on uint64_t
abbrev pub not64 : ℕ → ℕ
not64 x = 2 ^ 64 - 1 - x

unfoldable pub get_packet_number64 : ℕ → ℕ → ℕ → ℕ
get_packet_number64 highest mask pn =
    let expected = u64 (highest + 1) in
    let not_mask_plus_one = u64 (not64 mask + 1) in
    let pn64 = bit_or (bit_and expected mask) pn in
    let below = expected - pn64 in
    let above = pn64 - expected in
    if ltb pn64 expected
    then (if ltb (sub64 not_mask_plus_one below) below
        then u64 (pn64 + not_mask_plus_one)
        else pn64)
    else (if leb (sub64 not_mask_plus_one above) above && ltb 0 (bit_and pn64 mask)
        then sub64 pn64 not_mask_plus_one
        else pn64)

-- The number of a packet as its first bytes write it: the low bits, the mask of the others, and how many
-- bytes it takes.
unfoldable pub decode_packet_number : List ℕ → Option (ℕ × ℕ × ℕ)
unfolding parse16 parse32
decode_packet_number (b0 ∷ b1 ∷ b2 ∷ b3 ∷ _) = some (
    if bit_and b0 0xC0 == 0x80
    then (bit_and (parse16 b0 b1) 0x3FFF, 0xFFFFFFFFFFFFC000, 2)
    else if bit_and b0 0xC0 == 0xC0
    then (bit_and (parse32 b0 b1 b2 b3) 0x3FFFFFFF, 0xFFFFFFFFC0000000, 4)
    else (bit_and b0 0x7F, 0xFFFFFFFFFFFFFF80, 1))
decode_packet_number _ = none
