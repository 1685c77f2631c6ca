-- ===== src/Frames/Control.antt =====
-- picoquic/frames.c, the parsers of the frames without a stream: padding, path validation, plugins and
-- acknowledgements.

use pquic.Base.{
  ℕ, zero, suc, Bool, true, false, not, Option, none, some, List, [], ◌∷◌, take, drop, length, ltb,
  leb, ◌==◌, if◌then◌else◌,
}
use pquic.Frames.Reader.{
  frames_take, Reader, pure, ◌>>=◌, ◌>>◌, frames_varint_decode, frames_uint64_decode, check,
}
use pquic.Frames.FrameType
use pquic.Frames.Frame.{
  Frame, Outcome, unallocated, refused_as, parsed, outcome, padding_or_ping, ack, path_challenge,
  path_response, plugin_validate, plugin,
}

unfoldable pub run_length : ℕ → List ℕ → ℕ
run_length first_byte [] = 0
run_length first_byte (b ∷ bytes) =
    let further = suc (run_length first_byte bytes) in if b == first_byte then further else 0

-- A run of equal bytes is one frame.
unfoldable pub parse_padding_or_ping_frame : Bool → List ℕ → Option Outcome
unfolding unallocated parsed run_length
parse_padding_or_ping_frame false bytes = some (unallocated false)
parse_padding_or_ping_frame true [] = none
parse_padding_or_ping_frame true (first_byte ∷ bytes) =
    let is_ping = not (first_byte == 0) in
    let num_block = suc (run_length first_byte bytes) in
    some (parsed is_ping (padding_or_ping is_ping num_block) (drop num_block (first_byte ∷ bytes)))

unfoldable pub parse_path_challenge_frame : Bool → List ℕ → Outcome
unfolding unallocated refused_as parsed
parse_path_challenge_frame malloc_ok bytes =
    if not malloc_ok
    then unallocated false
    else if leb (length bytes) 8
    then refused_as false FrameType.path_challenge
    else parsed false (path_challenge (take 8 (drop 1 bytes))) (drop 9 bytes)

unfoldable pub path_response_fields : Reader Frame
path_response_fields = do data_value ← frames_uint64_decode; pure (path_response data_value)

unfoldable pub parse_path_response_frame : Bool → List ℕ → Outcome
unfolding outcome path_response_fields
parse_path_response_frame malloc_ok bytes =
    outcome malloc_ok false FrameType.path_response (path_response_fields (drop 1 bytes))

-- The two numbers of a plugin_validate frame, the second below 251.
unfoldable pub plugin_validate_numbers : Reader (ℕ × ℕ)
plugin_validate_numbers = do
  pid_id ← frames_varint_decode
  pid_len ← frames_varint_decode
  check (leb pid_len 250)
  pure (pid_id, pid_len)

-- The name is copied without a look at the end of the packet.
unfoldable pub plugin_validate_read : Bool → Option ((ℕ × ℕ) × List ℕ) → Option Outcome
unfolding unallocated refused_as parsed
plugin_validate_read pid_ok none = some (refused_as true FrameType.max_data)
plugin_validate_read false (some (_, rest)) = some (unallocated true)
plugin_validate_read true (some ((pid_id, pid_len), rest)) =
    if ltb (length rest) pid_len
    then none
    else some (parsed true (plugin_validate pid_id pid_len (take pid_len rest)) (drop pid_len rest))

-- The second flag is the malloc of pid.
unfoldable pub parse_plugin_validate_frame : Bool → Bool → List ℕ → Option Outcome
unfolding unallocated plugin_validate_read plugin_validate_numbers
parse_plugin_validate_frame false pid_ok bytes = some (unallocated true)
parse_plugin_validate_frame true pid_ok bytes =
    plugin_validate_read pid_ok (plugin_validate_numbers (drop 1 bytes))

-- The frame, with the length of its data.
unfoldable pub plugin_fields : ℕ → Reader (ℕ × Frame)
plugin_fields fin = do
  pid_id ← frames_varint_decode
  offset ← frames_varint_decode
  data_length ← frames_varint_decode
  plugin_data ← frames_take data_length
  pure (data_length, plugin fin pid_id offset data_length plugin_data)

-- The data are copied without a look at the end of the frame's 1500 bytes.
unfoldable pub plugin_read : Option ((ℕ × Frame) × List ℕ) → Option Outcome
unfolding refused_as parsed
plugin_read none = some (refused_as true FrameType.max_data)
plugin_read (some ((data_length, frame), rest)) =
    if ltb 1500 data_length then none else some (parsed true frame rest)

-- The byte behind the type is read without a look at the end of the packet.
unfoldable pub parse_plugin_frame : Bool → List ℕ → Option Outcome
unfolding unallocated plugin_read plugin_fields
parse_plugin_frame false bytes = some (unallocated true)
parse_plugin_frame true (_ ∷ fin ∷ bytes) = plugin_read (plugin_fields fin bytes)
parse_plugin_frame true _ = none

-- for (int i = 0; i < ack_block_count; i++), with the rounds that are left.
unfoldable pub ack_block_loop : ℕ → Reader (List (ℕ × ℕ))
ack_block_loop zero = pure []
ack_block_loop (suc k) = do
  gap ← frames_varint_decode
  additional_ack_block ← frames_varint_decode
  later ← ack_block_loop k
  pure ((gap, additional_ack_block) ∷ later)

-- The three counters of an ACK_ECN frame.
unfoldable pub ecn_loop : ℕ → Reader (List ℕ)
ecn_loop zero = pure []
ecn_loop (suc k) = do counter ← frames_varint_decode; later ← ecn_loop k; pure (counter ∷ later)

unfoldable pub ack_fields : Bool → Reader Frame
unfolding ack_block_loop ecn_loop
ack_fields is_ack_ecn = do
  largest_acknowledged ← frames_varint_decode
  ack_delay ← frames_varint_decode
  ecnx3 ← ecn_loop (if is_ack_ecn then 3 else 0)
  ack_block_count ← frames_varint_decode
  check (leb ack_block_count 63)
  first_ack_block ← frames_varint_decode
  ack_blocks ← ack_block_loop ack_block_count
  pure (
      ack is_ack_ecn largest_acknowledged ack_delay ecnx3 ack_block_count first_ack_block
        ack_blocks)

unfoldable pub parse_ack_frame_maybe_ecn : Bool → List ℕ → Option Outcome
unfolding outcome ack_fields
parse_ack_frame_maybe_ecn malloc_ok [] = none
parse_ack_frame_maybe_ecn malloc_ok (first_byte ∷ bytes) =
    let is_ack_ecn = first_byte == FrameType.ack_ecn in
    some (
      outcome malloc_ok false (if is_ack_ecn then FrameType.ack_ecn else FrameType.ack)
        (ack_fields is_ack_ecn bytes))

-- No parser is registered for the type.
unfoldable pub parse_unknown_frame : Outcome
unfolding unallocated
parse_unknown_frame = unallocated false
