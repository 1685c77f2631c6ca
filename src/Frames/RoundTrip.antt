-- ===== src/Frames/RoundTrip.antt =====
-- picoquic/frames.c, the writers and parsers of resets, requests to stop and CONNECTION_CLOSE together.
use pquic.Base.{
  ℕ, ◌+◌, ◌-◌, ◌^◌, ◌≤◌, ◌<◌, ◌≡◌, refl, ap, ◌∙◌, some, List, [], ◌∷◌, ◌++◌, length, arith, true,
  false, length-append, lt→leb_false, le→ltb, u16,
}
use pquic.Intformat.{varint_encode, varint_len, format_16}
use pquic.Frames.Reader.{frames_take}
use pquic.Frames.Reads.{
  nonempty, length-varint_encode, append_assoc, length-format_16,
  frames_varint_decode-varint_encode, frames_uint16_decode-format_16, frames_take-append,
  varint_len_positive,
}
use pquic.Frames.Frame.{reset_stream, stop_sending, connection_close, parsed, outcome}
use pquic.Frames.Parse.{
  parse_reset_stream_frame, reset_stream_fields, stop_sending_fields, parse_stop_sending_frame,
  connection_close_fields, reason_phrase, parse_connection_close_frame,
}
use pquic.Frames.Decode.{Mallocs, parse_frame, find_parser, parsers}
use pquic.Frames.Write.{
  SendStream, wrote, reset_due, stop_due, prepare_stream_reset_frame, prepare_stop_sending_frame,
  prepare_connection_close_frame,
}

reset_stream_read :
    (id error offset m1 m2 : ℕ) (rest : List ℕ)
    → id < 2 ^ 62
    → offset < 2 ^ 62
    → varint_len id ≤ m1
    → varint_len offset ≤ m2
    → reset_stream_fields
        ((varint_encode m1 id ++ format_16 (u16 error) ++ varint_encode m2 offset) ++ rest)
      ≡ some (reset_stream id (u16 error) offset, rest)
unfolding reset_stream_fields
reset_stream_read id error offset m1 m2 rest hi ho f1 f2 =
    let e16 : u16 error < 2 ^ 16 = omega arith in
    rw
      (
        reset_stream_fields,
        append_assoc (varint_encode m1 id ++ format_16 (u16 error)) (varint_encode m2 offset) rest,
        append_assoc (varint_encode m1 id) (format_16 (u16 error))
            (varint_encode m2 offset ++ rest),
        frames_varint_decode-varint_encode id m1
            (format_16 (u16 error) ++ (varint_encode m2 offset ++ rest)) hi f1,
        frames_uint16_decode-format_16 (u16 error) (varint_encode m2 offset ++ rest) e16,
        frames_varint_decode-varint_encode offset m2 rest ho f2,
      )
      refl

not_due :
    (s : SendStream)
    → reset_due (record s { reset_sent = true; fin_sent = true; send_queue = [] }) ≡ false
unfolding reset_due
not_due s = ground arith

-- Where a reset of a stream is due, its number and the offset sent are below 2^62, and the buffer has four
-- bytes more than these take, the writer writes a frame that fits the buffer, the parser that is registered
-- for its type returns those numbers and the low 16 bits of the error with whatever follows the frame, and
-- no second reset is due.
pub parse_frame-prepare_stream_reset_frame :
    (stream : SendStream) (bytes_max : ℕ) (m : Mallocs) (rest : List ℕ)
    → reset_due stream ≡ true
    → stream.stream_id < 2 ^ 62
    → stream.sent_offset < 2 ^ 62
    → varint_len stream.stream_id + varint_len stream.sent_offset + 4 ≤ bytes_max
    → m.frame_ok ≡ true
    → (bytes : List ℕ) × ((prepare_stream_reset_frame stream bytes_max).1 ≡ wrote bytes)
      × (length bytes ≤ bytes_max)
      × (parse_frame m (bytes ++ rest)
          ≡ some (
              parsed true
                (reset_stream stream.stream_id (u16 stream.local_error) stream.sent_offset)
                rest))
      × (reset_due (prepare_stream_reset_frame stream bytes_max).0 ≡ false)
unfolding prepare_stream_reset_frame parse_frame find_parser parsers parse_reset_stream_frame
    outcome
parse_frame-prepare_stream_reset_frame stream bytes_max m rest due hi ho room ok =
    let l1 = varint_encode (bytes_max - 1) stream.stream_id in
    let m2 = bytes_max - (1 + length l1 + 2) in
    let l2 = varint_encode m2 stream.sent_offset in
    let p1 = varint_len_positive stream.stream_id hi in
    let p2 = varint_len_positive stream.sent_offset ho in
    let one = length-varint_encode stream.stream_id (bytes_max - 1) hi (omega arith) in
    let two = length-varint_encode stream.sent_offset m2 ho (omega arith) in
    let e : prepare_stream_reset_frame stream bytes_max ≡ (
      record stream { reset_sent = true; fin_sent = true; send_queue = [] },
      wrote (1 ∷ (l1 ++ format_16 (u16 stream.local_error) ++ l2)),
    ) =
      rw
        (
          prepare_stream_reset_frame,
          due,
          lt→leb_false bytes_max 2 (omega arith),
          nonempty l1 (omega arith),
          lt→leb_false bytes_max (1 + length l1 + 3) (omega arith),
          nonempty l2 (omega arith),
        )
        refl in
    (
      1 ∷ (l1 ++ format_16 (u16 stream.local_error) ++ l2),
      ap (λ r. r.1) e,
      omega (
        arith,
        length-append (l1 ++ format_16 (u16 stream.local_error)) l2,
        length-append l1 (format_16 (u16 stream.local_error)),
        length-format_16 (u16 stream.local_error),
      ),
      rw
          (
            ok,
            reset_stream_read stream.stream_id stream.local_error stream.sent_offset (bytes_max - 1)
                m2 rest hi ho (omega arith) (omega arith),
          )
          refl,
      ap (λ r. reset_due r.0) e ∙ not_due stream,
    )

stop_sending_read :
    (id error m1 : ℕ) (rest : List ℕ)
    → id < 2 ^ 62
    → varint_len id ≤ m1
    → stop_sending_fields ((varint_encode m1 id ++ format_16 (u16 error)) ++ rest)
      ≡ some (stop_sending id (u16 error), rest)
unfolding stop_sending_fields
stop_sending_read id error m1 rest hi f1 =
    let e16 : u16 error < 2 ^ 16 = omega arith in
    rw
      (
        stop_sending_fields,
        append_assoc (varint_encode m1 id) (format_16 (u16 error)) rest,
        frames_varint_decode-varint_encode id m1 (format_16 (u16 error) ++ rest) hi f1,
        frames_uint16_decode-format_16 (u16 error) rest e16,
      )
      refl

stop_not_due : (s : SendStream) → stop_due (record s { stop_sending_sent = true }) ≡ false
unfolding stop_due
stop_not_due s = ground arith

-- Where a request to stop sending is due, and the buffer has three bytes more than the number of the stream
-- takes, and at least seven, the writer writes a frame that fits the buffer, the parser that is registered
-- for its type returns the number and the low 16 bits of the error with whatever follows, and no second
-- request is due.
pub parse_frame-prepare_stop_sending_frame :
    (stream : SendStream) (bytes_max : ℕ) (m : Mallocs) (rest : List ℕ)
    → stop_due stream ≡ true
    → stream.stream_id < 2 ^ 62
    → varint_len stream.stream_id + 3 ≤ bytes_max
    → 7 ≤ bytes_max
    → m.frame_ok ≡ true
    → (bytes : List ℕ) × ((prepare_stop_sending_frame stream bytes_max).1 ≡ wrote bytes)
      × (length bytes ≤ bytes_max)
      × (parse_frame m (bytes ++ rest)
          ≡ some (parsed true (stop_sending stream.stream_id (u16 stream.local_stop_error)) rest))
      × (stop_due (prepare_stop_sending_frame stream bytes_max).0 ≡ false)
unfolding prepare_stop_sending_frame parse_frame find_parser parsers parse_stop_sending_frame
    outcome
parse_frame-prepare_stop_sending_frame stream bytes_max m rest due hi room seven ok =
    let l1 = varint_encode (bytes_max - 1) stream.stream_id in
    let e16 = format_16 (u16 stream.local_stop_error) in
    let one = length-varint_encode stream.stream_id (bytes_max - 1) hi (omega arith) in
    let e : prepare_stop_sending_frame stream bytes_max
        ≡ (record stream { stop_sending_sent = true }, wrote (0x0c ∷ (l1 ++ e16))) =
      rw (prepare_stop_sending_frame, due, le→ltb bytes_max 7 seven) refl in
    (
      0x0c ∷ (l1 ++ e16),
      ap (λ r. r.1) e,
      omega (arith, length-append l1 e16, length-format_16 (u16 stream.local_stop_error)),
      rw
          (
            ok,
            stop_sending_read stream.stream_id stream.local_stop_error (bytes_max - 1) rest hi
                (omega arith),
          )
          refl,
      ap (λ r. stop_due r.0) e ∙ stop_not_due stream,
    )

no_reason : (rest : List ℕ) → reason_phrase 0 rest ≡ some ([], rest)
unfolding reason_phrase
no_reason rest = rw (frames_take-append [] rest) refl

connection_close_read :
    (error frame_type m1 m2 : ℕ) (rest : List ℕ)
    → frame_type < 2 ^ 62
    → varint_len frame_type ≤ m1
    → 1 ≤ m2
    → connection_close_fields
        ((format_16 (u16 error) ++ varint_encode m1 frame_type ++ varint_encode m2 0) ++ rest)
      ≡ some (connection_close (u16 error) frame_type 0 [], rest)
unfolding connection_close_fields reason_phrase varint_len frames_take
connection_close_read error frame_type m1 m2 rest hf f1 f2 =
    let e16 : u16 error < 2 ^ 16 = omega arith in
    rw
      (
        connection_close_fields,
        append_assoc (format_16 (u16 error) ++ varint_encode m1 frame_type) (varint_encode m2 0)
            rest,
        append_assoc (format_16 (u16 error)) (varint_encode m1 frame_type)
            (varint_encode m2 0 ++ rest),
        frames_uint16_decode-format_16 (u16 error)
            (varint_encode m1 frame_type ++ (varint_encode m2 0 ++ rest)) e16,
        frames_varint_decode-varint_encode frame_type m1 (varint_encode m2 0 ++ rest) hf f1,
        frames_varint_decode-varint_encode 0 m2 rest (omega arith) f2,
      )
      (rw (no_reason rest) refl)

-- Where the buffer has four bytes more than the offending frame type takes, the writer writes a frame that fits the buffer, and the parser that is registered for its type returns the low 16
-- bits of the error, the offending frame type and an empty reason, with whatever follows the frame.
pub parse_frame-prepare_connection_close_frame :
    (local_error offending_frame_type bytes_max : ℕ) (m : Mallocs) (rest : List ℕ)
    → offending_frame_type < 2 ^ 62
    → varint_len offending_frame_type + 4 ≤ bytes_max
    → m.frame_ok ≡ true
    → (bytes : List ℕ) × (prepare_connection_close_frame local_error offending_frame_type bytes_max
        ≡ wrote bytes)
      × (length bytes ≤ bytes_max)
      × (parse_frame m (bytes ++ rest)
          ≡ some (parsed true (connection_close (u16 local_error) offending_frame_type 0 []) rest))
unfolding prepare_connection_close_frame parse_frame find_parser parsers
    parse_connection_close_frame outcome
parse_frame-prepare_connection_close_frame local_error frame_type bytes_max m rest hf room ok =
    let l1 = varint_encode (bytes_max - 3) frame_type in
    let m2 = bytes_max - 3 - length l1 in
    let l2 = varint_encode m2 0 in
    let p1 = varint_len_positive frame_type hf in
    let one = length-varint_encode frame_type (bytes_max - 3) hf (omega arith) in
    let two : length l2 ≡ 1 =
      length-varint_encode 0 m2 (omega arith) (unfold varint_len in omega arith)
      ∙ (unfold varint_len in refl) in
    let e16 = format_16 (u16 local_error) in
    (
      2 ∷ (e16 ++ l1 ++ l2),
      rw
          (
            prepare_connection_close_frame,
            lt→leb_false bytes_max 4 (omega arith),
            nonempty l1 (omega arith),
            nonempty l2 (omega arith),
          )
          refl,
      omega (
        arith,
        length-append (e16 ++ l1) l2,
        length-append e16 l1,
        length-format_16 (u16 local_error),
      ),
      rw
          (
            ok,
            connection_close_read local_error frame_type (bytes_max - 3) m2 rest hf (omega arith)
                (omega arith),
          )
          refl,
    )
