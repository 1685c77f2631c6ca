-- ===== src/Frames/Progress.antt =====
-- picoquic/frames.c, how far each parser moves the pointer.
use pquic.Base.{
  ℕ, ◌≤◌, refl, inl, inr, Option, none, some, List, [], ◌∷◌, drop, length, leb, ltb, ◌==◌, arith,
  Bool-cases, true, false, Bool,
}
use pquic.Frames.Advance.{IsRest, IsRest-next, Within, IsRest-trans, frames_varint_decode-Within}
use pquic.Frames.Frame.{Frame, Outcome, unallocated, refused_as, parsed, outcome}
use pquic.Frames.Parse.{
  new_token_read, reset_stream_fields, new_connection_id_fields, stop_sending_fields,
  crypto_hs_fields, connection_close_fields, application_close_fields, parse_reset_stream_frame,
  parse_new_connection_id_frame, parse_new_token_frame, parse_stop_sending_frame,
  parse_crypto_hs_frame, parse_connection_close_frame, parse_application_close_frame,
}
use pquic.Frames.Limits.{
  max_data_fields, max_stream_data_fields, max_stream_id_fields, blocked_fields,
  stream_blocked_fields, stream_id_blocked_fields, parse_max_data_frame,
  parse_max_stream_data_frame, parse_max_stream_id_frame, parse_blocked_frame,
  parse_stream_blocked_frame, parse_stream_id_blocked_frame,
}
use pquic.Frames.Control.{
  plugin_validate_read, plugin_read, run_length, plugin_fields, parse_plugin_frame,
  path_response_fields, parse_padding_or_ping_frame, parse_path_challenge_frame,
  parse_path_response_frame, parse_plugin_validate_frame, parse_ack_frame_maybe_ecn,
}
use pquic.Frames.Decode.{Mallocs, Parser, checked}
use pquic.Frames.Fields.{
  plugin_fields-Within, reset_stream_fields-Within, stop_sending_fields-Within,
  new_connection_id_fields-Within, crypto_hs_fields-Within, connection_close_fields-Within,
  application_close_fields-Within, max_data_fields-Within, max_stream_data_fields-Within,
  max_stream_id_fields-Within, blocked_fields-Within, stream_blocked_fields-Within,
  stream_id_blocked_fields-Within, path_response_fields-Within, plugin_validate_numbers-Within,
  ack_fields-Within,
}

-- The pointer a parser returns, for a packet of one byte and `bytes`: NULL, or behind that byte.
abbrev pub MovesTo : List ℕ → Option (List ℕ) → Type 0
MovesTo bytes none = Unit {0}
MovesTo bytes (some rest) = IsRest bytes rest

abbrev pub Moves : List ℕ → Option Outcome → Type 0
Moves bytes none = Unit {0}
Moves bytes (some o) = MovesTo bytes o.bytes

abbrev pub Advances : Parser → Type 0
Advances parse =
    (m : Mallocs) (first_byte : ℕ) (bytes : List ℕ) → Moves bytes (parse m (first_byte ∷ bytes))

one_further : (b : ℕ) (bytes : List ℕ) (o : Option Outcome) → Moves bytes o → Moves (b ∷ bytes) o
one_further b bytes none h = tt
one_further b bytes (some o) h = further o.bytes h
  where
    further : (p : Option (List ℕ)) → MovesTo bytes p → MovesTo (b ∷ bytes) p
    further none h = tt
    further (some rest) h = IsRest-next b bytes rest h

outcome-MovesTo :
    (malloc_ok flags : Bool) (frame_type : ℕ) (bytes : List ℕ) (read : Option (Frame × List ℕ))
    → Within bytes read
    → MovesTo bytes (outcome malloc_ok flags frame_type read).bytes
unfolding outcome unallocated refused_as parsed
outcome-MovesTo false flags frame_type bytes read w = tt
outcome-MovesTo true flags frame_type bytes none w = tt
outcome-MovesTo true flags frame_type bytes (some (frame, rest)) w = w

pub parse_reset_stream_frame-Advances : Advances (checked parse_reset_stream_frame)
unfolding parse_reset_stream_frame
parse_reset_stream_frame-Advances m first_byte bytes =
    outcome-MovesTo m.frame_ok _ _ bytes (reset_stream_fields bytes)
      (reset_stream_fields-Within bytes)

pub parse_new_connection_id_frame-Advances : Advances (checked parse_new_connection_id_frame)
unfolding parse_new_connection_id_frame
parse_new_connection_id_frame-Advances m first_byte bytes =
    outcome-MovesTo m.frame_ok _ _ bytes (new_connection_id_fields bytes)
      (new_connection_id_fields-Within bytes)

pub parse_stop_sending_frame-Advances : Advances (checked parse_stop_sending_frame)
unfolding parse_stop_sending_frame
parse_stop_sending_frame-Advances m first_byte bytes =
    outcome-MovesTo m.frame_ok _ _ bytes (stop_sending_fields bytes)
      (stop_sending_fields-Within bytes)

pub parse_crypto_hs_frame-Advances : Advances (checked parse_crypto_hs_frame)
unfolding parse_crypto_hs_frame
parse_crypto_hs_frame-Advances m first_byte bytes =
    outcome-MovesTo m.frame_ok _ _ bytes (crypto_hs_fields bytes) (crypto_hs_fields-Within bytes)

pub parse_connection_close_frame-Advances : Advances (checked parse_connection_close_frame)
unfolding parse_connection_close_frame
parse_connection_close_frame-Advances m first_byte bytes =
    outcome-MovesTo m.frame_ok _ _ bytes (connection_close_fields bytes)
      (connection_close_fields-Within bytes)

pub parse_application_close_frame-Advances : Advances (checked parse_application_close_frame)
unfolding parse_application_close_frame
parse_application_close_frame-Advances m first_byte bytes =
    outcome-MovesTo m.frame_ok _ _ bytes (application_close_fields bytes)
      (application_close_fields-Within bytes)

pub parse_max_data_frame-Advances : Advances (checked parse_max_data_frame)
unfolding parse_max_data_frame
parse_max_data_frame-Advances m first_byte bytes =
    outcome-MovesTo m.frame_ok _ _ bytes (max_data_fields bytes) (max_data_fields-Within bytes)

pub parse_max_stream_data_frame-Advances : Advances (checked parse_max_stream_data_frame)
unfolding parse_max_stream_data_frame
parse_max_stream_data_frame-Advances m first_byte bytes =
    outcome-MovesTo m.frame_ok _ _ bytes (max_stream_data_fields bytes)
      (max_stream_data_fields-Within bytes)

pub parse_max_stream_id_frame-Advances : Advances (checked parse_max_stream_id_frame)
unfolding parse_max_stream_id_frame
parse_max_stream_id_frame-Advances m first_byte bytes =
    outcome-MovesTo m.frame_ok _ _ bytes (max_stream_id_fields bytes)
      (max_stream_id_fields-Within bytes)

pub parse_blocked_frame-Advances : Advances (checked parse_blocked_frame)
unfolding parse_blocked_frame
parse_blocked_frame-Advances m first_byte bytes =
    outcome-MovesTo m.frame_ok _ _ bytes (blocked_fields bytes) (blocked_fields-Within bytes)

pub parse_stream_blocked_frame-Advances : Advances (checked parse_stream_blocked_frame)
unfolding parse_stream_blocked_frame
parse_stream_blocked_frame-Advances m first_byte bytes =
    outcome-MovesTo m.frame_ok _ _ bytes (stream_blocked_fields bytes)
      (stream_blocked_fields-Within bytes)

pub parse_stream_id_blocked_frame-Advances : Advances (checked parse_stream_id_blocked_frame)
unfolding parse_stream_id_blocked_frame
parse_stream_id_blocked_frame-Advances m first_byte bytes =
    outcome-MovesTo m.frame_ok _ _ bytes (stream_id_blocked_fields bytes)
      (stream_id_blocked_fields-Within bytes)

pub parse_path_response_frame-Advances : Advances (checked parse_path_response_frame)
unfolding parse_path_response_frame
parse_path_response_frame-Advances m first_byte bytes =
    outcome-MovesTo m.frame_ok _ _ bytes (path_response_fields bytes)
      (path_response_fields-Within bytes)

run_length_le : (first_byte : ℕ) (bytes : List ℕ) → run_length first_byte bytes ≤ length bytes
unfolding run_length
run_length_le first_byte [] = omega arith
run_length_le first_byte (b ∷ bytes) = ground (arith, run_length_le first_byte bytes)

pub padding-Moves :
    (ok : Bool) (first_byte : ℕ) (bytes : List ℕ)
    → Moves bytes (parse_padding_or_ping_frame ok (first_byte ∷ bytes))
unfolding parse_padding_or_ping_frame unallocated parsed
padding-Moves true first_byte bytes =
    (run_length first_byte bytes, run_length_le first_byte bytes, refl)
padding-Moves false first_byte bytes = tt

pub path_challenge-Moves :
    (ok : Bool) (first_byte : ℕ) (bytes : List ℕ)
    → MovesTo bytes (parse_path_challenge_frame ok (first_byte ∷ bytes)).bytes
unfolding parse_path_challenge_frame unallocated parsed refused_as
path_challenge-Moves false first_byte bytes = tt
path_challenge-Moves true first_byte bytes =
    elim (Bool-cases (leb (length (first_byte ∷ bytes)) 8)) [
      | inl short ↦ rw short tt
      | inr long ↦ rw long (8, ground arith, refl)
    ]

pub ack-Moves :
    (ok : Bool) (first_byte : ℕ) (bytes : List ℕ)
    → Moves bytes (parse_ack_frame_maybe_ecn ok (first_byte ∷ bytes))
unfolding parse_ack_frame_maybe_ecn
ack-Moves ok first_byte bytes =
    outcome-MovesTo ok _ _ bytes _ (ack_fields-Within (first_byte == 0x1a) bytes)

-- A number of bytes behind what was read.
skip_more :
    (bytes rest : List ℕ) (size : ℕ)
    → IsRest bytes rest
    → size ≤ length rest
    → IsRest bytes (drop size rest)
skip_more bytes rest size r fits = IsRest-trans bytes rest (drop size rest) r (size, fits, refl)

new_token_read-Moves :
    (bytes : List ℕ) (o : Option (ℕ × List ℕ)) → Within bytes o → Moves bytes (new_token_read o)
unfolding new_token_read parsed refused_as
new_token_read-Moves bytes none w = tt
new_token_read-Moves bytes (some (n, rest)) w = elim (Bool-cases (ltb (length rest) n)) [
  | inl short ↦ rw short tt
  | inr long ↦ rw long (skip_more bytes rest n w (ground arith))
]

pub new_token-Moves :
    (ok : Bool) (first_byte : ℕ) (bytes : List ℕ)
    → Moves bytes (parse_new_token_frame ok (first_byte ∷ bytes))
unfolding parse_new_token_frame unallocated
new_token-Moves false first_byte bytes = tt
new_token-Moves true first_byte bytes =
    new_token_read-Moves bytes _ (frames_varint_decode-Within bytes)

plugin_validate_read-Moves :
    (bytes : List ℕ) (pid_ok : Bool) (o : Option ((ℕ × ℕ) × List ℕ))
    → Within bytes o
    → Moves bytes (plugin_validate_read pid_ok o)
unfolding plugin_validate_read parsed refused_as unallocated
plugin_validate_read-Moves bytes pid_ok none w = tt
plugin_validate_read-Moves bytes false (some ((pid_id, n), rest)) w = tt
plugin_validate_read-Moves bytes true (some ((pid_id, n), rest)) w =
    elim (Bool-cases (ltb (length rest) n)) [
      | inl short ↦ rw short tt
      | inr long ↦ rw long (skip_more bytes rest n w (ground arith))
    ]

pub plugin_validate-Moves :
    (ok pid_ok : Bool) (first_byte : ℕ) (bytes : List ℕ)
    → Moves bytes (parse_plugin_validate_frame ok pid_ok (first_byte ∷ bytes))
unfolding parse_plugin_validate_frame unallocated
plugin_validate-Moves false pid_ok first_byte bytes = tt
plugin_validate-Moves true pid_ok first_byte bytes =
    plugin_validate_read-Moves bytes pid_ok _ (plugin_validate_numbers-Within bytes)

plugin_read-Moves :
    (bytes : List ℕ) (o : Option ((ℕ × Frame) × List ℕ))
    → Within bytes o
    → Moves bytes (plugin_read o)
unfolding plugin_read parsed refused_as
plugin_read-Moves bytes none w = tt
plugin_read-Moves bytes (some ((n, frame), rest)) w = elim (Bool-cases (ltb 1500 n)) [
  | inl large ↦ rw large tt
  | inr small ↦ rw small w
]

pub plugin-Moves :
    (ok : Bool) (first_byte : ℕ) (bytes : List ℕ)
    → Moves bytes (parse_plugin_frame ok (first_byte ∷ bytes))
unfolding parse_plugin_frame unallocated
plugin-Moves false first_byte bytes = tt
plugin-Moves true first_byte [] = tt
plugin-Moves true first_byte (fin ∷ bytes) =
    one_further fin bytes _
      (plugin_read-Moves bytes (plugin_fields fin bytes) (plugin_fields-Within fin bytes))
