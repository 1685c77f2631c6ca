-- ===== src/Tickets/Serialize.antt =====
-- picoquic/ticket_store.c: a ticket as bytes (picoquic_serialize_ticket and
-- picoquic_deserialize_ticket). The bytes past what was written are not part of the result.
use pquic.Base.{
  ℕ, ◌+◌, Bool, Option, none, some, List, ◌++◌, length, take, drop, ltb, if◌then◌else◌,
}
use pquic.Intformat.{format_16, format_64}
use pquic.Intformat.{parse_16, parse_64}
use pquic.Tickets.{StoredTicket, format_ticket}

unfoldable pub serialized_length : StoredTicket → ℕ
serialized_length t = 8 + 2 + 2 + 2 + length t.sni + length t.alpn + length t.ticket

-- `none` is PICOQUIC_ERROR_FRAME_BUFFER_TOO_SMALL, with *consumed = 0.
unfoldable pub serialize_ticket : StoredTicket → ℕ → Option (List ℕ)
unfolding serialized_length
serialize_ticket t bytes_max =
    if ltb bytes_max (serialized_length t)
    then none
    else some (
        format_64 t.time_valid_until
        ++ (format_16 (length t.sni)
            ++ (t.sni
                ++ (format_16 (length t.alpn)
                    ++ (t.alpn ++ (format_16 (length t.ticket) ++ t.ticket))))))

-- One of the three strings: its length and its place, and how far the reading is.
pub record StringField : Type 0 where
  pub string_length : ℕ
  pub string_index : ℕ
  pub byte_index : ℕ
  pub required_length : ℕ

-- if (required_length < bytes_max) { x_length = PICOPARSE_16(bytes + byte_index); ... }
unfoldable pub read_string_field : List ℕ → ℕ → ℕ → StringField
read_string_field bytes required_length byte_index =
    if ltb required_length (length bytes)
    then record {
      string_length = parse_16 bytes byte_index;
      string_index = byte_index + 2;
      byte_index = byte_index + 2 + parse_16 bytes byte_index;
      required_length = required_length + parse_16 bytes byte_index;
    }
    else record {
      string_length = 0;
      string_index = 0;
      byte_index = byte_index;
      required_length = required_length;
    }

-- The ticket with *consumed, PICOQUIC_ERROR_INVALID_TICKET or PICOQUIC_ERROR_MEMORY.
pub data TicketRead : Type 0 where
  ticket_read : StoredTicket → ℕ → TicketRead
  ticket_invalid ticket_no_memory : TicketRead

unfoldable pub string_at : List ℕ → StringField → List ℕ
string_at bytes field = take field.string_length (drop field.string_index bytes)

-- `length bytes` is bytes_max.
unfoldable pub deserialize_ticket : Bool → List ℕ → TicketRead
unfolding string_at
deserialize_ticket malloc_ok bytes =
    let time_valid_until = if ltb 14 (length bytes) then parse_64 bytes 0 else 0 in
    let sni = read_string_field bytes 14 (if ltb 14 (length bytes) then 8 else 0) in
    let alpn = read_string_field bytes sni.required_length sni.byte_index in
    let ticket = read_string_field bytes alpn.required_length alpn.byte_index in
    if ltb (length bytes) ticket.required_length
    then ticket_invalid
    else elim (format_ticket malloc_ok time_valid_until (string_at bytes sni) (string_at bytes alpn)
        (string_at bytes ticket)) [
          | none ↦ ticket_no_memory
          | some stored_ticket ↦ ticket_read stored_ticket ticket.required_length
        ]
