-- ===== src/Frames/Frame.antt =====
-- picoquic/picoquic.h, the types of frames and the structures that the parsers fill; a pointer into the
-- packet with its length is the list of the bytes. And what a parser gives back.
use pquic.Base.{ℕ, Bool, true, false, Option, none, some, List}

pub data Frame : Type 0 where
  padding_or_ping : (is_ping : Bool) (num_block : ℕ) → Frame
  reset_stream : (stream_id app_error_code final_offset : ℕ) → Frame
  connection_close : (error_code frame_type reason_phrase_length : ℕ) → List ℕ → Frame
  application_close : (error_code reason_phrase_length : ℕ) → List ℕ → Frame
  max_data : (maximum_data : ℕ) → Frame
  max_stream_data : (stream_id maximum_stream_data : ℕ) → Frame
  max_stream_id : (maximum_stream_id : ℕ) → Frame
  blocked : (offset : ℕ) → Frame
  stream_blocked : (stream_id offset : ℕ) → Frame
  stream_id_blocked : (stream_id : ℕ) → Frame
  new_connection_id : (sequence : ℕ) (connection_id stateless_reset_token : List ℕ) → Frame
  stop_sending : (stream_id application_error_code : ℕ) → Frame
  ack :
      (is_ack_ecn : Bool) (largest_acknowledged ack_delay : ℕ) (ecnx3 : List ℕ)
      (ack_block_count first_ack_block : ℕ) (ack_blocks : List (ℕ × ℕ))
      → Frame
  path_challenge : List ℕ → Frame
  path_response : (data_value : ℕ) → Frame
  stream : (stream_id offset data_length : ℕ) → Bool → List ℕ → Frame
  crypto : (offset data_length : ℕ) → List ℕ → Frame
  new_token : (token_length : ℕ) → List ℕ → Frame
  plugin_validate : (pid_id pid_len : ℕ) → List ℕ → Frame
  plugin : (fin pid_id offset data_length : ℕ) → List ℕ → Frame

-- The pointer returned (NULL is `none`), the frame and the two flags saved as outputs, and the frame
-- type given to picoquic_connection_error with PICOQUIC_TRANSPORT_FRAME_FORMAT_ERROR, if it is called.
pub record Outcome : Type 0 where
  pub bytes : Option (List ℕ)
  pub frame : Option Frame
  pub ack_needed : Bool
  pub is_retransmittable : Bool
  pub format_error : Option ℕ

-- malloc of the frame failed.
unfoldable pub unallocated : Bool → Outcome
unallocated flags = record {
  bytes = none;
  frame = none;
  ack_needed = flags;
  is_retransmittable = flags;
  format_error = none;
}

unfoldable pub refused_as : Bool → ℕ → Outcome
refused_as flags frame_type = record {
  bytes = none;
  frame = none;
  ack_needed = flags;
  is_retransmittable = flags;
  format_error = some frame_type;
}

unfoldable pub parsed : Bool → Frame → List ℕ → Outcome
parsed flags frame rest = record {
  bytes = some rest;
  frame = some frame;
  ack_needed = flags;
  is_retransmittable = flags;
  format_error = none;
}

-- What the parsers have in common: without memory nothing is read; a NULL pointer is reported to the
-- connection under a frame type; else the frame is returned with the pointer behind it.
unfoldable pub outcome : Bool → Bool → ℕ → Option (Frame × List ℕ) → Outcome
unfolding unallocated refused_as parsed
outcome false flags frame_type read = unallocated flags
outcome true flags frame_type none = refused_as flags frame_type
outcome true flags frame_type (some (frame, rest)) = parsed flags frame rest
