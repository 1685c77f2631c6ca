-- ===== src/Frames/Limits.antt =====
-- picoquic/frames.c, the parsers of the frames that carry limits and of those that report a sender
-- blocked by them.

use mathlib.Core.Option
use pquic.Base.{
  not, bit_and, ◌==◌, [], ◌∷◌, if◌then◌else◌, ℕ, Bool, true, Option, none, some, List, drop,
}
use pquic.Frames.Reader.{
  frames_length_data_skip, Reader, pure, ◌>>=◌, ◌>>◌, frames_varint_decode, frames_varint_skip,
}
use pquic.Frames.FrameType
use pquic.Frames.Frame.{
  Frame, Outcome, outcome, max_data, max_stream_data, max_stream_id, blocked, stream_blocked,
  stream_id_blocked,
}

unfoldable pub max_data_fields : Reader Frame
max_data_fields = do maximum_data ← frames_varint_decode; pure (max_data maximum_data)

unfoldable pub parse_max_data_frame : Bool → List ℕ → Outcome
unfolding outcome max_data_fields
parse_max_data_frame malloc_ok bytes =
    outcome malloc_ok true FrameType.max_data (max_data_fields (drop 1 bytes))

unfoldable pub max_stream_data_fields : Reader Frame
max_stream_data_fields = do
  stream_id ← frames_varint_decode
  maximum_stream_data ← frames_varint_decode
  pure (max_stream_data stream_id maximum_stream_data)

unfoldable pub parse_max_stream_data_frame : Bool → List ℕ → Outcome
unfolding outcome max_stream_data_fields
parse_max_stream_data_frame malloc_ok bytes =
    outcome malloc_ok true FrameType.max_stream_data (max_stream_data_fields (drop 1 bytes))

unfoldable pub max_stream_id_fields : Reader Frame
max_stream_id_fields = do
  maximum_stream_id ← frames_varint_decode
  pure (max_stream_id maximum_stream_id)

unfoldable pub parse_max_stream_id_frame : Bool → List ℕ → Outcome
unfolding outcome max_stream_id_fields
parse_max_stream_id_frame malloc_ok bytes =
    outcome malloc_ok true FrameType.max_stream_id (max_stream_id_fields (drop 1 bytes))

unfoldable pub blocked_fields : Reader Frame
blocked_fields = do offset ← frames_varint_decode; pure (blocked offset)

unfoldable pub parse_blocked_frame : Bool → List ℕ → Outcome
unfolding outcome blocked_fields
parse_blocked_frame malloc_ok bytes =
    outcome malloc_ok true FrameType.blocked (blocked_fields (drop 1 bytes))

unfoldable pub stream_blocked_fields : Reader Frame
stream_blocked_fields = do
  stream_id ← frames_varint_decode
  offset ← frames_varint_decode
  pure (stream_blocked stream_id offset)

unfoldable pub parse_stream_blocked_frame : Bool → List ℕ → Outcome
unfolding outcome stream_blocked_fields
parse_stream_blocked_frame malloc_ok bytes =
    outcome malloc_ok true FrameType.stream_blocked (stream_blocked_fields (drop 1 bytes))

unfoldable pub stream_id_blocked_fields : Reader Frame
stream_id_blocked_fields = do stream_id ← frames_varint_decode; pure (stream_id_blocked stream_id)

unfoldable pub parse_stream_id_blocked_frame : Bool → List ℕ → Outcome
unfolding outcome stream_id_blocked_fields
parse_stream_id_blocked_frame malloc_ok bytes =
    outcome malloc_ok true FrameType.stream_id_blocked (stream_id_blocked_fields (drop 1 bytes))

-- The pointer that the decoder of the frame returns, with ack_needed, and the error reported.
pub record Skipped : Type 0 where
  pub bytes : Option (List ℕ)
  pub ack_needed : Bool
  pub format_error : Option ℕ

abbrev skipped : ℕ → Option (Unit {0} × List ℕ) → Skipped
skipped frame_type none = record { bytes = none; ack_needed = true; format_error = some frame_type }
skipped frame_type (some (_, rest)) = record {
  bytes = some rest;
  ack_needed = true;
  format_error = none;
}

unfoldable pub decode_stream_blocked_frame : List ℕ → Skipped
decode_stream_blocked_frame bytes =
    skipped FrameType.stream_blocked ((do frames_varint_skip; frames_varint_skip) (drop 1 bytes))

unfoldable pub decode_stream_id_blocked_frame : List ℕ → Skipped
decode_stream_id_blocked_frame bytes =
    skipped FrameType.stream_id_blocked (frames_varint_skip (drop 1 bytes))

unfoldable pub skip_new_token_frame : Reader (Unit {0})
skip_new_token_frame bytes = frames_length_data_skip (drop 1 bytes)

-- Without a length the frame takes what is left of the packet.
unfoldable pub skip_stream_frame : List ℕ → Option (List ℕ)
skip_stream_frame [] = none
skip_stream_frame (first ∷ bytes) =
    let len = not (bit_and first 2 == 0) in
    let off = not (bit_and first 4 == 0) in
    let numbers : Reader (Unit {0}) = do
      frames_varint_skip
      if off then frames_varint_skip else pure tt
    in elim (numbers bytes) [
      | none ↦ none
      | some (_, rest) ↦
          (if len then Option.map (λ p. p.1) (frames_length_data_skip rest) else some [])
    ]
