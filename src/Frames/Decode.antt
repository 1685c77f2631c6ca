-- ===== src/Frames/Decode.antt =====
-- picoquic/frames.c, the table of the parsers and the loops over the frames of a packet. The parsers are
-- the default ones; the operation that processes a frame is a parameter, for a plugin may replace it, and
-- the operation received_segment has no effect unless one does.
use pquic.Base.{
  ℕ, zero, suc, ◌-◌, Bool, true, false, not, ◌&&◌, ◌||◌, Option, none, some, List, [], ◌∷◌, ◌++◌,
  drop, length, ◌==◌, if◌then◌else◌,
}
use pquic.Connection.{Cnx, connection_error}
use pquic.Frames.FrameType
use pquic.Frames.Frame.{Frame, Outcome}
use pquic.Frames.Parse.{
  parse_reset_stream_frame, parse_new_connection_id_frame, parse_new_token_frame,
  parse_stop_sending_frame, parse_stream_frame, parse_crypto_hs_frame, parse_connection_close_frame,
  parse_application_close_frame,
}
use pquic.Frames.Limits.{
  parse_max_data_frame, parse_max_stream_data_frame, parse_max_stream_id_frame, parse_blocked_frame,
  parse_stream_blocked_frame, parse_stream_id_blocked_frame,
}
use pquic.Frames.Control.{
  parse_padding_or_ping_frame, parse_path_challenge_frame, parse_path_response_frame,
  parse_plugin_validate_frame, parse_plugin_frame, parse_ack_frame_maybe_ecn, parse_unknown_frame,
}

-- Whether the calls of malloc for one frame give memory: for the frame, for the name in a
-- plugin_validate frame, and for the frame's place in the queue.
pub record Mallocs : Type 0 where
  pub frame_ok : Bool
  pub pid_ok : Bool
  pub queue_ok : Bool

abbrev pub Parser : Type 0
Parser = Mallocs → List ℕ → Option Outcome

-- A parser that makes no access outside what it has checked.
abbrev pub checked : (Bool → List ℕ → Outcome) → Parser
checked parse = λ m bytes. some (parse m.frame_ok bytes)

abbrev pub one_malloc : (Bool → List ℕ → Option Outcome) → Parser
one_malloc parse = λ m bytes. parse m.frame_ok bytes

-- The registered parsers. The C loop registers the eight types of STREAM frames.
unfoldable pub parsers : List (ℕ × Parser)
parsers =
    (FrameType.padding, one_malloc parse_padding_or_ping_frame)
    ∷ (FrameType.reset_stream, checked parse_reset_stream_frame)
    ∷ (FrameType.connection_close, checked parse_connection_close_frame)
    ∷ (FrameType.application_close, checked parse_application_close_frame)
    ∷ (FrameType.max_data, checked parse_max_data_frame)
    ∷ (FrameType.max_stream_data, checked parse_max_stream_data_frame)
    ∷ (FrameType.max_stream_id, checked parse_max_stream_id_frame)
    ∷ (FrameType.ping, one_malloc parse_padding_or_ping_frame)
    ∷ (FrameType.blocked, checked parse_blocked_frame)
    ∷ (FrameType.stream_blocked, checked parse_stream_blocked_frame)
    ∷ (FrameType.stream_id_blocked, checked parse_stream_id_blocked_frame)
    ∷ (FrameType.new_connection_id, checked parse_new_connection_id_frame)
    ∷ (FrameType.stop_sending, checked parse_stop_sending_frame)
    ∷ (FrameType.ack, one_malloc parse_ack_frame_maybe_ecn)
    ∷ (FrameType.path_challenge, checked parse_path_challenge_frame)
    ∷ (FrameType.path_response, checked parse_path_response_frame)
    ∷ (0x10, one_malloc parse_stream_frame)
    ∷ (0x11, one_malloc parse_stream_frame)
    ∷ (0x12, one_malloc parse_stream_frame)
    ∷ (0x13, one_malloc parse_stream_frame)
    ∷ (0x14, one_malloc parse_stream_frame)
    ∷ (0x15, one_malloc parse_stream_frame)
    ∷ (0x16, one_malloc parse_stream_frame)
    ∷ (0x17, one_malloc parse_stream_frame)
    ∷ (FrameType.crypto_hs, checked parse_crypto_hs_frame)
    ∷ (FrameType.new_token, one_malloc parse_new_token_frame)
    ∷ (FrameType.ack_ecn, one_malloc parse_ack_frame_maybe_ecn)
    ∷ (FrameType.plugin_validate, λ m bytes. parse_plugin_validate_frame m.frame_ok m.pid_ok bytes)
    ∷ (FrameType.plugin, one_malloc parse_plugin_frame)
    ∷ []

-- The operation registered for a type, or the default one.
unfoldable pub find_parser : ℕ → List (ℕ × Parser) → Parser
find_parser first_byte [] = λ m bytes. some parse_unknown_frame
find_parser first_byte ((param, parse) ∷ later) =
    let further = find_parser first_byte later in if param == first_byte then parse else further

-- The parser for the frame's first byte runs on the frame. Without a byte there is no type to read.
unfoldable pub parse_frame : Mallocs → List ℕ → Option Outcome
parse_frame m [] = none
parse_frame m (first_byte ∷ bytes) = find_parser first_byte parsers m (first_byte ∷ bytes)

-- What a loop ends with: a result, an access that C leaves undefined, or no end within the fuel.
pub data Run {ℓ} (A : Type ℓ) : Type ℓ where
  returned : A → Run A
  undefined : Run A
  out_of_fuel : Run A

-- The return value (bytes == NULL), *consumed and *pure_ack.
unfoldable pub skip_frame : Mallocs → List ℕ → Option (Bool × ℕ × Bool)
unfolding parse_frame
skip_frame m bytes = elim (parse_frame m bytes) [
  | none ↦ none
  | some o ↦ elim o.bytes [
    | none ↦ some (true, length bytes, not o.is_retransmittable)
    | some rest ↦ some (false, length bytes - length rest, not o.is_retransmittable)
  ]
]

-- picoquic_decode_closing_frames: whether an error ended it, and *closing_received. The bytes are those
-- from byte_index on.
unfoldable pub closing_loop : (ℕ → Mallocs) → ℕ → ℕ → List ℕ → Run (Bool × Bool)
unfolding skip_frame
closing_loop m zero i bytes = out_of_fuel
closing_loop m (suc fuel) i [] = returned (false, false)
closing_loop m (suc fuel) i (first_byte ∷ bytes) =
    let next : Run (Bool × Bool) = elim (skip_frame (m i) (first_byte ∷ bytes)) [
      | none ↦ undefined
      | some (true, consumed, pure_ack) ↦ returned (true, false)
      | some (false, consumed, pure_ack) ↦
          closing_loop m fuel (suc i) (drop consumed (first_byte ∷ bytes))
    ] in
    if first_byte == FrameType.connection_close || first_byte == FrameType.application_close
    then returned (false, true)
    else next

-- In the epochs of the handshake only these types are allowed.
unfoldable pub frame_allowed : ℕ → ℕ → Bool
frame_allowed epoch first_byte =
    epoch == 1
    || epoch == 3
    || first_byte == FrameType.padding
    || first_byte == FrameType.path_challenge
    || first_byte == FrameType.path_response
    || first_byte == FrameType.connection_close
    || first_byte == FrameType.crypto_hs
    || first_byte == FrameType.ack
    || first_byte == FrameType.ack_ecn

-- After the first loop of picoquic_decode_frames: the connection with the errors reported, whether
-- bytes is not NULL, ack_needed, and the queue of the frames with their first bytes.
pub record Scan : Type 0 where
  pub cnx : Cnx
  pub in_packet : Bool
  pub ack_needed : Bool
  pub frames : List (ℕ × Frame)

abbrev pub protocol_violation : ℕ
protocol_violation = 0xA

abbrev pub frame_format_error : ℕ
frame_format_error = 0x7

unfoldable pub report : Cnx → Option ℕ → Cnx
report cnx none = cnx
report cnx (some frame_type) = connection_error cnx frame_format_error frame_type

-- A frame joins the queue if a parser returned it with a pointer and malloc gives its place.
unfoldable pub enqueue : Bool → Scan → ℕ → Outcome → Scan × Option (List ℕ)
unfolding report
enqueue queue_ok s first_byte o =
    let seen = record s {
      cnx = report s.cnx o.format_error;
      ack_needed = s.ack_needed || o.ack_needed;
    } in
    elim o.bytes [
      | none ↦ (record seen { in_packet = false }, none)
      | some rest ↦ elim o.frame [
        | none ↦ (seen, some rest)
        | some frame ↦
            (if queue_ok
              then (record seen { frames = s.frames ++ ((first_byte, frame) ∷ []) }, some rest)
              else (record seen { in_packet = false }, none))
      ]
    ]

unfoldable pub parse_loop : (ℕ → Mallocs) → ℕ → ℕ → ℕ → Scan → List ℕ → Run Scan
unfolding frame_allowed enqueue
parse_loop m epoch zero i s bytes = out_of_fuel
parse_loop m epoch (suc fuel) i s [] = returned s
parse_loop m epoch (suc fuel) i s (first_byte ∷ bytes) =
    let next : Run Scan = elim (parse_frame (m i) (first_byte ∷ bytes)) [
      | none ↦ undefined
      | some o ↦
          let (seen, left) = enqueue (m i).queue_ok s first_byte o in
          elim left [ none ↦ returned seen | some rest ↦ parse_loop m epoch fuel (suc i) seen rest ]
    ] in
    if frame_allowed epoch first_byte
    then next
    else returned
        (record s { cnx = connection_error s.cnx protocol_violation first_byte; in_packet = false })

-- while (frames && bytes): the connection, whether bytes is still not NULL, and the queue's rest, which
-- nothing frees.
unfoldable pub process_loop :
    (ℕ → Frame → Cnx → Cnx × Bool) → Cnx → List (ℕ × Frame) → Cnx × Bool × List (ℕ × Frame)
process_loop process cnx [] = (cnx, true, [])
process_loop process cnx ((first_byte, frame) ∷ later) =
    let (processed, accepted) = process first_byte frame cnx in
    let rest = process_loop process processed later in
    if accepted then rest else (processed, false, later)

-- What picoquic_decode_frames leaves: the connection, the return value 0, whether ack_needed was set in
-- the packet context, and the frames that are never freed.
pub record Decoded : Type 0 where
  pub cnx : Cnx
  pub accepted : Bool
  pub sets_ack_needed : Bool
  pub leaked : List (ℕ × Frame)

unfoldable pub finish_decoding : (ℕ → Frame → Cnx → Cnx × Bool) → ℕ → Scan → Decoded
unfolding process_loop
finish_decoding process current_time s =
    let (processed, in_packet, leaked) = process_loop process s.cnx s.frames in
    if s.in_packet
    then record {
      cnx =
          if in_packet && s.ack_needed
          then record processed { latest_progress_time = current_time }
          else processed;
      accepted = in_packet;
      sets_ack_needed = in_packet && s.ack_needed;
      leaked = leaked;
    }
    else record { cnx = s.cnx; accepted = false; sets_ack_needed = false; leaked = s.frames }

abbrev pub new_scan : Cnx → Scan
new_scan cnx = record { cnx = cnx; in_packet = true; ack_needed = false; frames = [] }

unfoldable pub decode_frames :
    (ℕ → Frame → Cnx → Cnx × Bool)
    → (ℕ → Mallocs)
    → (fuel epoch current_time : ℕ) → Cnx
    → List ℕ
    → Run Decoded
unfolding parse_loop finish_decoding
decode_frames process m fuel epoch current_time cnx bytes =
    elim (parse_loop m epoch fuel 0 (new_scan cnx) bytes) [
      | returned s ↦ returned (finish_decoding process current_time s)
      | undefined ↦ undefined
      | out_of_fuel ↦ out_of_fuel
    ]
