-- ===== src/ConnectionId.antt =====
-- picoquic/util.c: connection ids. An id is the list of its bytes, at most 18.
pub mod RoundTrip
use pquic.Base.{
  ℕ, zero, suc, ◌+◌, ◌-◌, ◌*◌, ◌/◌, ◌^◌, Bool, true, false, ◌||◌, List, [], ◌∷◌, length, take,
  bit_and, bit_or, ltb, leb, ◌==◌, if◌then◌else◌, u8, u64,
}
use pquic.Tickets.{same_bytes}

-- The two lengths in one byte.
unfoldable pub create_packet_header_cnxid_lengths : ℕ → ℕ → ℕ
create_packet_header_cnxid_lengths dest_len srce_len =
    bit_or (u8 ((if ltb dest_len 4 then 0 else dest_len - 3) * 2 ^ 4))
      (if ltb srce_len 4 then 0 else srce_len - 3)

unfoldable pub parse_packet_header_cnxid_lengths : ℕ → ℕ × ℕ
parse_packet_header_cnxid_lengths l_byte =
    let h1 = l_byte / 2 ^ 4 in
    let h2 = bit_and l_byte 0x0F in
    (if h1 == 0 then 0 else u8 (h1 + 3), if h2 == 0 then 0 else u8 (h2 + 3))

-- The bytes written, none where the buffer is too small.
unfoldable pub format_connection_id : ℕ → List ℕ → List ℕ
format_connection_id bytes_max cnx_id =
    if ltb bytes_max (length cnx_id) || length cnx_id == 0 then [] else cnx_id

-- The number of bytes read, and the id. The callers have checked that `len` bytes are there.
unfoldable pub parse_connection_id : List ℕ → ℕ → ℕ × List ℕ
parse_connection_id bytes len = if leb len 18 then (len, take len bytes) else (0, [])

unfoldable pub is_connection_id_null : List ℕ → Bool
is_connection_id_null cnx_id = length cnx_id == 0

-- Whether the result is 0.
unfoldable pub compare_connection_id : List ℕ → List ℕ → Bool
compare_connection_id cnx_id1 cnx_id2 = same_bytes cnx_id1 cnx_id2

-- The rounds of the loops that are left: a byte of the id is shifted in, or zeros where the id is shorter.
unfoldable pub val64_loop : ℕ → List ℕ → ℕ → ℕ
val64_loop zero bytes val64 = val64
val64_loop (suc k) [] val64 = val64_loop k [] (u64 (val64 * 2 ^ 8))
val64_loop (suc k) (b ∷ bytes) val64 = val64_loop k bytes (bit_or (u64 (val64 * 2 ^ 8)) b)

unfoldable pub val64_connection_id : List ℕ → ℕ
unfolding val64_loop
val64_connection_id cnx_id = val64_loop 8 cnx_id 0

-- The loop from the last of the eight bytes to the first, with the bytes written so far.
unfoldable pub set64_loop : ℕ → ℕ → List ℕ → List ℕ
set64_loop zero val64 bytes = bytes
set64_loop (suc k) val64 bytes = set64_loop k (val64 / 2 ^ 8) (u8 (bit_and val64 0xFF) ∷ bytes)

unfoldable pub set64_connection_id : ℕ → List ℕ
unfolding set64_loop
set64_connection_id val64 = set64_loop 8 val64 []
