-- ===== src/Tickets/RoundTrip.antt =====
-- picoquic/ticket_store.c: reading a ticket back.
use pquic.Base.{
  ℕ, lt→ltb, ltb→lt, le→ltb, ◌+◌, ◌^◌, ◌≤◌, ◌<◌, ◌≡◌, refl, sym, ap, ◌∙◌, true, false, Bool-cases,
  inl, inr, some, List, [], ◌∷◌, ◌++◌, length, take, drop, ltb, arith, length-append,
}
use mathlib.Core.List.{append_assoc}
use pquic.Intformat.{format_16, format_64}
use pquic.Intformat.{parse_16, parse_64}
use pquic.Tickets.{StoredTicket, format_ticket}
use pquic.Tickets.Serialize.{
  serialized_length, serialize_ticket, StringField, string_at, read_string_field,
  deserialize_ticket, ticket_read,
}
use pquic.Intformat.FixedWidth.{parse_64-format_64, parse_16_after, string_after}

-- What a field is read as, where the required length is known to fit the buffer.
record IsRead (bytes s : List ℕ) (required_length next : ℕ) (field : StringField) : Type 0 where
  required : field.required_length ≡ required_length + length s
  string : string_at bytes field ≡ s
  following : field.required_length < length bytes → field.byte_index ≡ next

ltb→ge : (a b : ℕ) → ltb a b ≡ false → b ≤ a
ltb→ge a b h = ground arith

empty_string : (s : List ℕ) → length s ≤ 0 → [] ≡ s
empty_string [] h = refl
empty_string (x ∷ s) h = absurd (omega arith)

read_string_field-IsRead :
    (before s rest bytes : List ℕ) (required_length byte_index : ℕ)
    → length s < 65536
    → bytes ≡ before ++ (format_16 (length s) ++ (s ++ rest))
    → required_length + length s ≤ length bytes
    → (required_length < length bytes → byte_index ≡ length before)
    → IsRead bytes s required_length
        (length before + 2 + length s)
        (read_string_field bytes required_length byte_index)
unfolding read_string_field string_at
read_string_field-IsRead before s rest bytes required_length byte_index short e fits at =
    elim (Bool-cases (ltb required_length (length bytes))) [
      | inl more ↦
          let here : byte_index ≡ length before = at (ltb→lt _ _ more) in
          let value : parse_16 bytes byte_index ≡ length s =
            ap (parse_16 bytes) here
            ∙ ap (λ (b : List ℕ). parse_16 b (length before)) e
            ∙ parse_16_after before (length s) (s ++ rest) short in
          let text =
            ap (λ (b : List ℕ). take (length s) (drop (length before + 2) b)) e
            ∙ string_after before (length s) s rest in
          rw (more, value, here) (record { required = refl; string = text; following = λ _. refl })
      | inr done ↦
          let zero_length : length s ≤ 0 = omega (arith, ltb→ge _ _ done) in
          rw (done) (record {
            required = omega arith;
            string = empty_string s zero_length;
            following = λ h. absurd (omega (arith, ltb→ge _ _ done));
          })
    ]

-- A length and its string, then more.
string_then :
    (before s later : List ℕ) (n : ℕ)
    → before ++ (format_16 n ++ s) ++ later ≡ before ++ (format_16 n ++ (s ++ later))
unfolding format_16
string_then before s later n = append_assoc before (format_16 n ++ s) later

module _ (t : StoredTicket) where
  up_to_sni : List ℕ
  up_to_sni = format_64 t.time_valid_until ++ (format_16 (length t.sni) ++ t.sni)

  up_to_alpn : List ℕ
  up_to_alpn = up_to_sni ++ (format_16 (length t.alpn) ++ t.alpn)

  written : List ℕ
  written = up_to_alpn ++ (format_16 (length t.ticket) ++ t.ticket)

  length-up_to_sni : length up_to_sni ≡ 10 + length t.sni
  unfolding up_to_sni format_64 format_16
  length-up_to_sni = omega arith

  length-up_to_alpn : length up_to_alpn ≡ 12 + length t.sni + length t.alpn
  unfolding up_to_alpn format_16
  length-up_to_alpn =
      omega (arith, length-up_to_sni, length-append up_to_sni (format_16 (length t.alpn) ++ t.alpn))

  length-written : length written ≡ serialized_length t
  unfolding written format_16 serialized_length
  length-written =
      omega (
        arith,
        length-up_to_alpn,
        length-append up_to_alpn (format_16 (length t.ticket) ++ t.ticket),
      )

  serialize_ticket-written :
      (bytes_max : ℕ)
      → serialized_length t ≤ bytes_max
      → serialize_ticket t bytes_max ≡ some written
  unfolding serialize_ticket serialized_length written up_to_alpn up_to_sni
  serialize_ticket-written bytes_max fits =
      let inner =
        string_then (format_64 t.time_valid_until) t.sni
          (format_16 (length t.alpn) ++ (t.alpn ++ (format_16 (length t.ticket) ++ t.ticket)))
          (length t.sni) in
      let outer =
        string_then up_to_sni t.alpn (format_16 (length t.ticket) ++ t.ticket) (length t.alpn) in
      rw (le→ltb bytes_max (serialized_length t) fits) (ap some (sym (outer ∙ inner)))

module _ (t : StoredTicket) (rest : List ℕ) where
  ticket_from :
      written t ++ rest ≡ up_to_alpn t ++ (format_16 (length t.ticket) ++ (t.ticket ++ rest))
  unfolding written
  ticket_from = string_then (up_to_alpn t) t.ticket rest (length t.ticket)

  alpn_from :
      written t ++ rest
      ≡ up_to_sni t
        ++ (format_16 (length t.alpn)
            ++ (t.alpn ++ (format_16 (length t.ticket) ++ (t.ticket ++ rest))))
  unfolding up_to_alpn
  alpn_from =
      ticket_from
      ∙ string_then (up_to_sni t) t.alpn (format_16 (length t.ticket) ++ (t.ticket ++ rest))
          (length t.alpn)

  sni_from :
      written t ++ rest
      ≡ format_64 t.time_valid_until
        ++ (format_16 (length t.sni)
            ++ (t.sni
                ++ (format_16 (length t.alpn)
                    ++ (t.alpn ++ (format_16 (length t.ticket) ++ (t.ticket ++ rest))))))
  unfolding up_to_sni
  sni_from =
      alpn_from
      ∙ string_then (format_64 t.time_valid_until) t.sni
          (format_16 (length t.alpn)
            ++ (t.alpn ++ (format_16 (length t.ticket) ++ (t.ticket ++ rest))))
          (length t.sni)

-- A ticket that was written is read back, and as many bytes are consumed as were written, whatever
-- follows them, where its time and lengths fit their fields and there are more than 14 bytes.
pub deserialize_ticket-serialize_ticket :
    (t : StoredTicket) (bytes_max : ℕ) (rest : List ℕ)
    → t.time_valid_until < 2 ^ 64
    → length t.sni < 65536
    → length t.alpn < 65536
    → length t.ticket < 65536
    → serialized_length t ≤ bytes_max
    → 14 < serialized_length t + length rest
    → (bytes : List ℕ) × (serialize_ticket t bytes_max ≡ some bytes)
      × (length bytes ≡ serialized_length t)
      × (deserialize_ticket true (bytes ++ rest) ≡ ticket_read t (length bytes))
unfolding deserialize_ticket serialized_length format_ticket format_64
deserialize_ticket-serialize_ticket t bytes_max rest time s a k fits enough =
    let bytes = written t ++ rest in
    let total : length bytes ≡ serialized_length t + length rest =
      omega (arith, length-append (written t) rest, length-written t) in
    let enough_bytes : 14 < length bytes = omega (arith, total, enough) in
    let stamp : parse_64 bytes 0 ≡ t.time_valid_until =
      ap (λ (b : List ℕ). parse_64 b 0) (sni_from t rest)
      ∙ parse_64-format_64 t.time_valid_until _ time in
    let more : ltb 14 (length bytes) ≡ true = lt→ltb _ _ enough_bytes in
    let f1 = read_string_field bytes 14 8 in
    let sni : IsRead bytes t.sni 14 (8 + 2 + length t.sni) f1 =
      read_string_field-IsRead (format_64 t.time_valid_until) t.sni _ bytes 14 8 s (sni_from t rest)
        (omega (arith, total)) (λ _. refl) in
    let f2 = read_string_field bytes f1.required_length f1.byte_index in
    let alpn : IsRead bytes t.alpn f1.required_length (length (up_to_sni t) + 2 + length t.alpn)
        f2 =
      read_string_field-IsRead (up_to_sni t) t.alpn _ bytes f1.required_length f1.byte_index a
        (alpn_from t rest) (omega (arith, total, sni.required))
        (λ h. sni.following h ∙ omega (arith, length-up_to_sni t)) in
    let f3 = read_string_field bytes f2.required_length f2.byte_index in
    let ticket : IsRead bytes t.ticket f2.required_length
        (length (up_to_alpn t) + 2 + length t.ticket) f3 =
      read_string_field-IsRead (up_to_alpn t) t.ticket _ bytes f2.required_length f2.byte_index k
        (ticket_from t rest) (omega (arith, total, sni.required, alpn.required))
        (λ h. alpn.following h ∙ omega (arith, length-up_to_sni t, length-up_to_alpn t)) in
    let all_read : f3.required_length ≡ length (written t) =
      omega (arith, length-written t, sni.required, alpn.required, ticket.required) in
    let inside : ltb (length bytes) f3.required_length ≡ false =
      le→ltb _ _ (omega (arith, all_read, total, length-written t)) in
    (
      written t,
      serialize_ticket-written t bytes_max fits,
      length-written t,
      rw (more, inside, stamp, sni.string, alpn.string, ticket.string, all_read) refl,
    )
