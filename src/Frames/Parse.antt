-- ===== src/Frames/Parse.antt =====
-- picoquic/frames.c, the parsers of the frames, operation PROTOOP_PARAM_PARSE_FRAME. Each takes whether
-- malloc gives memory and the packet from the frame's first byte on; `none` is an access outside the
-- packet or the frame, or through a NULL pointer.

use pquic.Base.{
  ℕ, ◌+◌, Bool, true, false, Option, none, some, List, [], ◌∷◌, take, drop, length, ltb, leb,
  if◌then◌else◌,
}
use pquic.Header.{Parsed, parse_stream_header, refused, header}
use pquic.Frames.Reader.{
  Reader, pure, ◌>>=◌, ◌>>◌, frames_varint_decode, frames_uint8_decode, frames_uint16_decode,
  frames_take, check, room,
}
use pquic.Frames.FrameType
use pquic.Frames.Frame.{
  Frame, Outcome, unallocated, refused_as, parsed, outcome, reset_stream, connection_close,
  application_close, new_connection_id, stop_sending, stream, crypto, new_token,
}

unfoldable pub reset_stream_fields : Reader Frame
reset_stream_fields = do
  stream_id ← frames_varint_decode
  app_error_code ← frames_uint16_decode
  final_offset ← frames_varint_decode
  pure (reset_stream stream_id app_error_code final_offset)

unfoldable pub parse_reset_stream_frame : Bool → List ℕ → Outcome
unfolding outcome reset_stream_fields
parse_reset_stream_frame malloc_ok bytes =
    outcome malloc_ok true FrameType.reset_stream (reset_stream_fields (drop 1 bytes))

unfoldable pub new_connection_id_fields : Reader Frame
new_connection_id_fields = do
  sequence ← frames_varint_decode
  id_len ← frames_uint8_decode
  check (leb id_len 18)
  room (id_len + 16)
  connection_id ← frames_take id_len
  stateless_reset_token ← frames_take 16
  pure (new_connection_id sequence connection_id stateless_reset_token)

unfoldable pub parse_new_connection_id_frame : Bool → List ℕ → Outcome
unfolding outcome new_connection_id_fields
parse_new_connection_id_frame malloc_ok bytes =
    outcome malloc_ok true FrameType.new_connection_id (new_connection_id_fields (drop 1 bytes))

-- After a decoding that failed the freed frame is read through NULL.
unfoldable pub new_token_read : Option (ℕ × List ℕ) → Option Outcome
unfolding refused_as parsed
new_token_read none = none
new_token_read (some (token_length, rest)) = some (
    if ltb (length rest) token_length
    then refused_as true FrameType.new_token
    else parsed true (new_token token_length (take token_length rest)) (drop token_length rest))

unfoldable pub parse_new_token_frame : Bool → List ℕ → Option Outcome
unfolding unallocated new_token_read
parse_new_token_frame false bytes = some (unallocated true)
parse_new_token_frame true bytes = new_token_read (frames_varint_decode (drop 1 bytes))

unfoldable pub stop_sending_fields : Reader Frame
stop_sending_fields = do
  stream_id ← frames_varint_decode
  application_error_code ← frames_uint16_decode
  pure (stop_sending stream_id application_error_code)

-- An error is reported under the type of another frame.
unfoldable pub parse_stop_sending_frame : Bool → List ℕ → Outcome
unfolding outcome stop_sending_fields
parse_stop_sending_frame malloc_ok bytes =
    outcome malloc_ok true FrameType.new_connection_id (stop_sending_fields (drop 1 bytes))

-- Where the header is refused the pointer is returned as it came, and there is no frame.
unfoldable pub stream_read : ℕ → List ℕ → Option Parsed → Option Outcome
unfolding parsed
stream_read first bytes none = none
stream_read first bytes (some (refused consumed)) = some (record {
  bytes = some (first ∷ bytes);
  frame = none;
  ack_needed = true;
  is_retransmittable = true;
  format_error = some first;
})
stream_read first bytes (some (header stream_id offset data_length fin consumed)) =
    let data_ptr = drop consumed (first ∷ bytes) in
    some (
      parsed true (stream stream_id offset data_length fin (take data_length data_ptr))
        (drop (consumed + data_length) (first ∷ bytes)))

unfoldable pub parse_stream_frame : Bool → List ℕ → Option Outcome
unfolding unallocated stream_read
parse_stream_frame false bytes = some (unallocated true)
parse_stream_frame true [] = none
parse_stream_frame true (first ∷ bytes) =
    stream_read first bytes (parse_stream_header (first ∷ bytes) (length (first ∷ bytes)))

unfoldable pub crypto_hs_fields : Reader Frame
crypto_hs_fields = do
  offset ← frames_varint_decode
  data_length ← frames_varint_decode
  crypto_data ← frames_take data_length
  pure (crypto offset data_length crypto_data)

unfoldable pub parse_crypto_hs_frame : Bool → List ℕ → Outcome
unfolding outcome crypto_hs_fields
parse_crypto_hs_frame malloc_ok bytes =
    outcome malloc_ok true FrameType.crypto_hs (crypto_hs_fields (drop 1 bytes))

-- At most REASONPHRASELENGTH_MAX bytes are kept; the pointer moves over all of them.
unfoldable pub reason_phrase : ℕ → Reader (List ℕ)
reason_phrase reason_phrase_length = do
  phrase ← frames_take reason_phrase_length
  pure (take (if leb reason_phrase_length 200 then reason_phrase_length else 200) phrase)

unfoldable pub connection_close_fields : Reader Frame
unfolding reason_phrase
connection_close_fields = do
  error_code ← frames_uint16_decode
  frame_type ← frames_varint_decode
  reason_phrase_length ← frames_varint_decode
  phrase ← reason_phrase reason_phrase_length
  pure (connection_close error_code frame_type reason_phrase_length phrase)

unfoldable pub parse_connection_close_frame : Bool → List ℕ → Outcome
unfolding outcome connection_close_fields
parse_connection_close_frame malloc_ok bytes =
    outcome malloc_ok true FrameType.connection_close (connection_close_fields (drop 1 bytes))

unfoldable pub application_close_fields : Reader Frame
unfolding reason_phrase
application_close_fields = do
  error_code ← frames_uint16_decode
  reason_phrase_length ← frames_varint_decode
  phrase ← reason_phrase reason_phrase_length
  pure (application_close error_code reason_phrase_length phrase)

unfoldable pub parse_application_close_frame : Bool → List ℕ → Outcome
unfolding outcome application_close_fields
parse_application_close_frame malloc_ok bytes =
    outcome malloc_ok true FrameType.application_close (application_close_fields (drop 1 bytes))
