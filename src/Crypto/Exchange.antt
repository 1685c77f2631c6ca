-- ===== src/Crypto/Exchange.antt =====
-- picoquic/frames.c, CRYPTO frames from the queue of the sender to the parser.
use pquic.Base.{
  ℕ, ◌+◌, ◌-◌, ◌^◌, ◌≤◌, ◌<◌, ◌≡◌, ◌&&◌, refl, sym, ap, ◌∙◌, Bool, true, false, some, List, ◌∷◌,
  ◌++◌, length, take, drop, ltb, arith, length-append, length-drop, length-take, le→leb,
  lt→leb_false, le→ltb, lt→ltb,
}
use native.Mathlib.Decide.{dec_lt}
use pquic.Intformat.{varint_encode, varint_len}
use pquic.Frames.FrameType
use pquic.Frames.Frame.{crypto, parsed, outcome}
use pquic.Frames.Write.{SendData, is_sent, advance, wrote}
use pquic.Frames.Parse.{crypto_hs_fields, parse_crypto_hs_frame}
use pquic.Frames.Decode.{Mallocs, parse_frame, find_parser, parsers}
use pquic.Frames.Reads.{
  length-varint_encode, append_assoc, frames_varint_decode-varint_encode, frames_take-append,
}
use pquic.Frames.SendQueue.{unsent, unsent-advance}
use pquic.Frames.Lengths.{varint_len_le, sub64_exact, varint_len_max, is_empty-fits}
use pquic.Crypto.{CryptoStream, data_length, crypto_frame, crypto_on, prepare_crypto_hs_frame}

-- The length that is chosen: what there is or what fits, never nothing, and the length as it is written fits
-- with the data.
record FitsSpace (available space : ℕ) (count m : ℕ) : Type 0 where
  chosen : data_length available space ≡ some (count, varint_encode m count)
  positive : 0 < count
  available_bytes : count ≤ available
  fits : varint_len count ≤ m
  room : varint_len count + count ≤ space

data_length-FitsSpace :
    (available space : ℕ)
    → 0 < available
    → available < 2 ^ 62
    → 9 ≤ space
    → (count : ℕ) × FitsSpace available space count space
unfolding data_length
data_length-FitsSpace available space some_bytes h room =
    let most = varint_len_max available h in
    let long = length-varint_encode available space h (omega arith) in
    let l_len = length (varint_encode space available) in
    elim (dec_lt (available + l_len) space) [
      | yes all ↦ (
        available,
        record {
          chosen = rw (lt→leb_false space (available + l_len) all) refl;
          positive = some_bytes;
          available_bytes = omega arith;
          fits = omega arith;
          room = omega arith;
        },
      )
      | no cut ↦
          let shorter = varint_len_le (space - l_len) available (omega arith) h in
          (
            space - l_len,
            record {
              chosen =
                  rw
                    (
                      le→leb space (available + l_len) (omega arith),
                      le→ltb space l_len (omega arith),
                    )
                    refl;
              positive = omega arith;
              available_bytes = omega arith;
              fits = omega arith;
              room = omega arith;
            },
          )
    ]

crypto_read :
    (offset m1 m2 : ℕ) (text rest : List ℕ)
    → offset < 2 ^ 62
    → length text < 2 ^ 62
    → varint_len offset ≤ m1
    → varint_len (length text) ≤ m2
    → crypto_hs_fields
        ((varint_encode m1 offset ++ (varint_encode m2 (length text) ++ text)) ++ rest)
      ≡ some (crypto offset (length text) text, rest)
unfolding crypto_hs_fields
crypto_read offset m1 m2 text rest h1 h2 f1 f2 =
    let l_len = varint_encode m2 (length text) in
    rw
      (
        append_assoc (varint_encode m1 offset) (l_len ++ text) rest,
        append_assoc l_len text rest,
        frames_varint_decode-varint_encode offset m1 (l_len ++ (text ++ rest)) h1 f1,
        frames_varint_decode-varint_encode (length text) m2 (text ++ rest) h2 f2,
        frames_take-append text rest,
      )
      refl

-- What the writer leaves: a frame that carries the first bytes of the queue, and the others in it.
record Sent (stream : CryptoStream) (d : SendData) (later : List SendData) (bytes_max count : ℕ)
    : Type 0 where
  result : prepare_crypto_hs_frame stream bytes_max ≡ (
    record stream {
      send_queue = advance count (d ∷ later);
      sent_offset = stream.sent_offset + count;
    },
    wrote (
        FrameType.crypto_hs
        ∷ (varint_encode (bytes_max - 1) stream.sent_offset
            ++ (varint_encode
                  (bytes_max - (1 + length (varint_encode (bytes_max - 1) stream.sent_offset)))
                  count
                ++ take count (drop d.offset d.bytes)))),
  )
  chosen :
      FitsSpace
        (length d.bytes - d.offset)
        (bytes_max - (1 + length (varint_encode (bytes_max - 1) stream.sent_offset)))
        count
        (bytes_max - (1 + length (varint_encode (bytes_max - 1) stream.sent_offset)))

pub and_false : (b : Bool) → (b && false) ≡ false
and_false true = refl
and_false false = refl

prepare_crypto_hs_frame-Sent :
    (stream : CryptoStream) (d : SendData) (later : List SendData) (bytes_max : ℕ)
    → stream.send_queue ≡ d ∷ later
    → d.offset < length d.bytes
    → length d.bytes < 2 ^ 62
    → stream.sent_offset < 2 ^ 62
    → 18 ≤ bytes_max
    → (count : ℕ) × Sent stream d later bytes_max count
unfolding prepare_crypto_hs_frame is_sent crypto_on crypto_frame
prepare_crypto_hs_frame-Sent stream d later bytes_max queue some_bytes short top room =
    let m1 = bytes_max - 1 in
    let l_off = varint_encode m1 stream.sent_offset in
    let most = varint_len_max stream.sent_offset top in
    let long = length-varint_encode stream.sent_offset m1 top (omega arith) in
    let space = bytes_max - (1 + length l_off) in
    let available = length d.bytes - d.offset in
    let (count, chosen) =
      data_length-FitsSpace available space (omega arith) (omega arith) (omega arith) in
    (
      count,
      record {
        result =
            rw
              (
                queue,
                lt→leb_false (length d.bytes) d.offset some_bytes,
                le→ltb bytes_max (1 + length l_off) (omega arith),
                is_empty-fits m1 stream.sent_offset top (omega arith),
                and_false (ltb 0 stream.sent_offset),
                le→ltb space 2 (omega arith),
                sub64_exact (length d.bytes) d.offset (omega arith) (omega arith),
                chosen.chosen,
                lt→ltb 0 count chosen.positive,
              )
              refl;
        chosen = chosen;
      },
    )

chosen_text :
    (d : SendData) (space count m : ℕ)
    → FitsSpace (length d.bytes - d.offset) space count m
    → length (take count (drop d.offset d.bytes)) ≡ count
chosen_text d space count m chosen = omega (
  arith,
  length-take count (drop d.offset d.bytes),
  length-drop d.offset d.bytes,
  chosen.available_bytes,
)

-- Where the first data of a queue are not all sent, the offset and their length are below 2^62, and 18 bytes
-- are free, the writer writes a frame that fits the buffer. The parser that is registered for its type
-- reads the offset up to which the stream was sent, and at least one byte, with whatever follows the frame.
-- These bytes and those that are then left in the queue are what the queue held, and the offset has
-- moved by their number.
pub parse_frame-prepare_crypto_hs_frame :
    (stream : CryptoStream) (d : SendData) (later : List SendData) (bytes_max : ℕ) (m : Mallocs)
    (rest : List ℕ)
    → stream.send_queue ≡ d ∷ later
    → d.offset < length d.bytes
    → length d.bytes < 2 ^ 62
    → stream.sent_offset < 2 ^ 62
    → 18 ≤ bytes_max
    → m.frame_ok ≡ true
    → (bytes : List ℕ) × (text : List ℕ) × ((prepare_crypto_hs_frame stream bytes_max).1
        ≡ wrote bytes)
      × (length bytes ≤ bytes_max)
      × (parse_frame m (bytes ++ rest)
          ≡ some (parsed true (crypto stream.sent_offset (length text) text) rest))
      × (1 ≤ length text)
      × (text ++ unsent (prepare_crypto_hs_frame stream bytes_max).0.send_queue
          ≡ unsent stream.send_queue)
      × ((prepare_crypto_hs_frame stream bytes_max).0.sent_offset
          ≡ stream.sent_offset + length text)
unfolding parse_frame find_parser parsers parse_crypto_hs_frame outcome
parse_frame-prepare_crypto_hs_frame stream d later bytes_max m rest queue some_bytes short top room
      ok =
    let (count, w) =
      prepare_crypto_hs_frame-Sent stream d later bytes_max queue some_bytes short top room in
    let m1 = bytes_max - 1 in
    let l_off = varint_encode m1 stream.sent_offset in
    let space = bytes_max - (1 + length l_off) in
    let text = take count (drop d.offset d.bytes) in
    let l_len = varint_encode space count in
    let most = varint_len_max stream.sent_offset top in
    let long = length-varint_encode stream.sent_offset m1 top (omega arith) in
    let size = chosen_text d space count space w.chosen in
    let small : count < 2 ^ 62 = omega (arith, w.chosen.available_bytes) in
    let long2 = length-varint_encode count space small w.chosen.fits in
    let sized : varint_len (length text) ≤ space =
      omega (arith, ap varint_len size, w.chosen.fits) in
    let read : crypto_hs_fields ((l_off ++ (l_len ++ text)) ++ rest)
        ≡ some (crypto stream.sent_offset (length text) text, rest) =
      ap (λ n. crypto_hs_fields ((l_off ++ (varint_encode space n ++ text)) ++ rest)) (sym size)
      ∙ crypto_read stream.sent_offset m1 space text rest top (omega arith) (omega arith) sized in
    (
      FrameType.crypto_hs ∷ (l_off ++ (l_len ++ text)),
      text,
      ap (λ r. r.1) w.result,
      omega (arith, w.chosen.room, length-append l_off (l_len ++ text), length-append l_len text),
      rw (ok, read) refl,
      omega (arith, w.chosen.positive),
      ap (λ r. text ++ unsent r.0.send_queue) w.result
          ∙ unsent-advance count d later
          ∙ ap unsent (sym queue),
      ap (λ r. r.0.sent_offset) w.result ∙ ap (λ n. stream.sent_offset + n) (sym size),
    )
