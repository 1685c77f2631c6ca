-- ===== src/ConnectionId/RoundTrip.antt =====
-- picoquic/util.c, connection ids as numbers and their lengths in a header.
use pquic.Base.{
  ℕ, zero, suc, ◌+◌, ◌-◌, ◌*◌, ◌/◌, ◌%◌, ◌^◌, ◌≤◌, ◌<◌, ◌≡◌, refl, sym, ap, ◌∙◌, List, [], ◌∷◌,
  bit_and, bit_or, ltb, ◌==◌, if◌then◌else◌, u8, u64, arith, bit_or_disjoint, bit_and-low_byte,
  bit_and-low_four,
}
use pquic.ConnectionId.{
  create_packet_header_cnxid_lengths, parse_packet_header_cnxid_lengths, val64_loop,
  val64_connection_id, set64_loop, set64_connection_id,
}

high : ℕ → ℕ → ℕ
high zero v = v
high (suc k) v = high k (v / 256)

shift_in : (v b : ℕ) → v < 2 ^ 56 → b < 256 → bit_or (u64 (v * 2 ^ 8)) b ≡ v * 256 + b
shift_in v b h hb =
    let e : u64 (v * 2 ^ 8) ≡ v * 2 ^ 8 = omega arith in
    ap (λ (t : ℕ). bit_or t b) e ∙ bit_or_disjoint 8 v b hb

high-bound : (k v : ℕ) → v < 2 ^ 64 → high k v < 2 ^ 64
unfolding high
high-bound zero v h = h
high-bound (suc k) v h = high-bound k (v / 256) (omega arith)

-- The bytes that the one loop takes off, the other shifts in again.
loops :
    (k j n v : ℕ) (rest : List ℕ)
    → n ≡ k + j
    → v < 2 ^ 64
    → val64_loop n (set64_loop k v rest) (high k v) ≡ val64_loop j rest v
unfolding set64_loop high val64_loop
loops zero j n v rest e h = ap (λ t. val64_loop t rest v) (omega arith)
loops (suc k) j n v rest e h =
    let byte : u8 (bit_and v 0xFF) ≡ v % 256 = omega (arith, bit_and-low_byte v) in
    let one =
      loops k (suc j) n (v / 256) (u8 (bit_and v 0xFF) ∷ rest) (omega arith) (omega arith) in
    let joined : bit_or (u64 (v / 256 * 2 ^ 8)) (v % 256) ≡ v =
      shift_in (v / 256) (v % 256) (omega arith) (omega arith) ∙ omega arith in
    one ∙ rw (byte, joined) refl

high_zero : (v : ℕ) → v < 2 ^ 64 → high 8 v ≡ 0
unfolding high
high_zero v h = omega arith

-- The number of the id that is made from a number of 64 bits is that number.
pub val64_connection_id-set64_connection_id :
    (val64 : ℕ) → val64 < 2 ^ 64 → val64_connection_id (set64_connection_id val64) ≡ val64
unfolding val64_connection_id set64_connection_id val64_loop
val64_connection_id-set64_connection_id v h =
    ap (val64_loop 8 (set64_loop 8 v [])) (sym (high_zero v h)) ∙ loops 8 0 8 v [] refl h

-- A length as its digit in the byte.
digit : ℕ → ℕ
digit len = if ltb len 4 then 0 else len - 3

digit_below : (len : ℕ) → len ≤ 18 → digit len < 16
unfolding digit
digit_below len h = ground arith

-- The byte of two lengths, and what the reader takes from it.
lengths_byte :
    (d s : ℕ) → d ≤ 18 → s ≤ 18 → create_packet_header_cnxid_lengths d s ≡ digit d * 16 + digit s
unfolding create_packet_header_cnxid_lengths digit
lengths_byte d s hd hs =
    let small : u8 (digit d * 2 ^ 4) ≡ digit d * 2 ^ 4 = omega (arith, digit_below d hd) in
    ap (λ (t : ℕ). bit_or t (digit s)) small
    ∙ bit_or_disjoint 4 (digit d) (digit s) (omega (arith, digit_below s hs))

digit_read :
    (len : ℕ)
    → len ≤ 18
    → (if digit len == 0 then 0 else u8 (digit len + 3)) ≡ (if ltb len 4 then 0 else len)
unfolding digit
digit_read len h = ground arith

-- Lengths up to 18 go through one byte of the header and come back, those below four as zero.
pub parse_lengths-create_lengths :
    (dest_len srce_len : ℕ)
    → dest_len ≤ 18
    → srce_len ≤ 18
    → parse_packet_header_cnxid_lengths (create_packet_header_cnxid_lengths dest_len srce_len)
      ≡ (if ltb dest_len 4 then 0 else dest_len, if ltb srce_len 4 then 0 else srce_len)
unfolding parse_packet_header_cnxid_lengths
parse_lengths-create_lengths d s hd hs =
    let below_d = digit_below d hd in
    let below_s = digit_below s hs in
    let byte = digit d * 16 + digit s in
    let high_digit : byte / 2 ^ 4 ≡ digit d = omega arith in
    let low_digit : bit_and byte 0x0F ≡ digit s =
      bit_and-low_four byte (omega arith) ∙ omega arith in
    ap parse_packet_header_cnxid_lengths (lengths_byte d s hd hs)
    ∙ rw
        (parse_packet_header_cnxid_lengths, high_digit, low_digit, digit_read d hd, digit_read s hs)
        refl
