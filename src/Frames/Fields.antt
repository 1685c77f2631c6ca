-- ===== src/Frames/Fields.antt =====
-- picoquic/frames.c, where the readers of a frame's fields leave the pointer.
use pquic.Base.{ℕ, zero, suc, ◌+◌, List, leb, if◌then◌else◌, Bool}
use pquic.Frames.Reader.{
  Reader, and_then, frames_varint_decode, frames_uint8_decode, frames_uint16_decode, frames_take,
  check, room,
}
use pquic.Frames.Advance.{
  Within, IsRest-refl, bind-Within, check-Within, room-Within, frames_take-Within,
  frames_varint_decode-Within, frames_uint8_decode-Within, frames_uint16_decode-Within,
  frames_uint64_decode-Within,
}
use pquic.Frames.Frame.{Frame}
use pquic.Frames.Parse.{
  reset_stream_fields, new_connection_id_fields, stop_sending_fields, crypto_hs_fields,
  reason_phrase, connection_close_fields, application_close_fields,
}
use pquic.Frames.Limits.{
  max_data_fields, max_stream_data_fields, max_stream_id_fields, blocked_fields,
  stream_blocked_fields, stream_id_blocked_fields,
}
use pquic.Frames.Control.{
  path_response_fields, plugin_validate_numbers, plugin_fields, ack_block_loop, ecn_loop,
  ack_fields,
}

module _ {ℓ} {B : Type ℓ} (f : ℕ → Reader B)
    (h : (a : ℕ) (rest : List ℕ) → Within rest (f a rest)) where
  varint_then : (bytes : List ℕ) → Within bytes (and_then (frames_varint_decode bytes) f)
  varint_then bytes = bind-Within bytes _ f (frames_varint_decode-Within bytes) h

  uint8_then : (bytes : List ℕ) → Within bytes (and_then (frames_uint8_decode bytes) f)
  uint8_then bytes = bind-Within bytes _ f (frames_uint8_decode-Within bytes) h

  uint16_then : (bytes : List ℕ) → Within bytes (and_then (frames_uint16_decode bytes) f)
  uint16_then bytes = bind-Within bytes _ f (frames_uint16_decode-Within bytes) h

pub reset_stream_fields-Within : (bytes : List ℕ) → Within bytes (reset_stream_fields bytes)
unfolding reset_stream_fields
reset_stream_fields-Within = varint_then _ λ _. uint16_then _ λ _. varint_then _ λ _. IsRest-refl

pub stop_sending_fields-Within : (bytes : List ℕ) → Within bytes (stop_sending_fields bytes)
unfolding stop_sending_fields
stop_sending_fields-Within = varint_then _ λ _. uint16_then _ λ _. IsRest-refl

take_then :
    (size : ℕ) (f : List ℕ → Reader Frame)
    → ((a : List ℕ) (rest : List ℕ) → Within rest (f a rest))
    → (bytes : List ℕ) → Within bytes (and_then (frames_take size bytes) f)
take_then size f h bytes = bind-Within bytes _ f (frames_take-Within size bytes) h

check_then :
    (b : Bool) (f : Unit {0} → Reader Frame)
    → ((a : Unit {0}) (rest : List ℕ) → Within rest (f a rest))
    → (bytes : List ℕ) → Within bytes (and_then (check b bytes) f)
check_then b f h bytes = bind-Within bytes _ f (check-Within b bytes) h

room_then :
    (size : ℕ) (f : Unit {0} → Reader Frame)
    → ((a : Unit {0}) (rest : List ℕ) → Within rest (f a rest))
    → (bytes : List ℕ) → Within bytes (and_then (room size bytes) f)
room_then size f h bytes = bind-Within bytes _ f (room-Within size bytes) h

reason_phrase-Within : (size : ℕ) (bytes : List ℕ) → Within bytes (reason_phrase size bytes)
unfolding reason_phrase
reason_phrase-Within size bytes =
    bind-Within bytes _ _ (frames_take-Within size bytes) (λ _. IsRest-refl)

reason_then :
    (size : ℕ) (f : List ℕ → Reader Frame)
    → ((a : List ℕ) (rest : List ℕ) → Within rest (f a rest))
    → (bytes : List ℕ) → Within bytes (and_then (reason_phrase size bytes) f)
reason_then size f h bytes = bind-Within bytes _ f (reason_phrase-Within size bytes) h

pub new_connection_id_fields-Within :
    (bytes : List ℕ) → Within bytes (new_connection_id_fields bytes)
unfolding new_connection_id_fields
new_connection_id_fields-Within = varint_then _ λ _. uint8_then _ λ n.
    check_then (leb n 18) _
      λ _. room_then (n + 16) _ λ _. take_then n _ λ _. take_then 16 _ λ _. IsRest-refl

pub crypto_hs_fields-Within : (bytes : List ℕ) → Within bytes (crypto_hs_fields bytes)
unfolding crypto_hs_fields
crypto_hs_fields-Within = varint_then _ λ _. varint_then _ λ _. take_then _ _ λ _. IsRest-refl

pub connection_close_fields-Within : (bytes : List ℕ) → Within bytes (connection_close_fields bytes)
unfolding connection_close_fields
connection_close_fields-Within =
    uint16_then _ λ _. varint_then _ λ _. varint_then _ λ _. reason_then _ _ λ _. IsRest-refl

pub application_close_fields-Within :
    (bytes : List ℕ) → Within bytes (application_close_fields bytes)
unfolding application_close_fields
application_close_fields-Within =
    uint16_then _ λ _. varint_then _ λ _. reason_then _ _ λ _. IsRest-refl

pub max_data_fields-Within : (bytes : List ℕ) → Within bytes (max_data_fields bytes)
unfolding max_data_fields
max_data_fields-Within = varint_then _ λ _. IsRest-refl

pub max_stream_data_fields-Within : (bytes : List ℕ) → Within bytes (max_stream_data_fields bytes)
unfolding max_stream_data_fields
max_stream_data_fields-Within = varint_then _ λ _. varint_then _ λ _. IsRest-refl

pub max_stream_id_fields-Within : (bytes : List ℕ) → Within bytes (max_stream_id_fields bytes)
unfolding max_stream_id_fields
max_stream_id_fields-Within = varint_then _ λ _. IsRest-refl

pub blocked_fields-Within : (bytes : List ℕ) → Within bytes (blocked_fields bytes)
unfolding blocked_fields
blocked_fields-Within = varint_then _ λ _. IsRest-refl

pub stream_blocked_fields-Within : (bytes : List ℕ) → Within bytes (stream_blocked_fields bytes)
unfolding stream_blocked_fields
stream_blocked_fields-Within = varint_then _ λ _. varint_then _ λ _. IsRest-refl

pub stream_id_blocked_fields-Within :
    (bytes : List ℕ) → Within bytes (stream_id_blocked_fields bytes)
unfolding stream_id_blocked_fields
stream_id_blocked_fields-Within = varint_then _ λ _. IsRest-refl

pub path_response_fields-Within : (bytes : List ℕ) → Within bytes (path_response_fields bytes)
unfolding path_response_fields
path_response_fields-Within bytes =
    bind-Within bytes _ _ (frames_uint64_decode-Within bytes) (λ _. IsRest-refl)

pub plugin_validate_numbers-Within : (bytes : List ℕ) → Within bytes (plugin_validate_numbers bytes)
unfolding plugin_validate_numbers
plugin_validate_numbers-Within = varint_then _ λ _.
    varint_then _
      λ n bytes. bind-Within bytes _ _ (check-Within (leb n 250) bytes) (λ _. IsRest-refl)

pub plugin_fields-Within : (fin : ℕ) (bytes : List ℕ) → Within bytes (plugin_fields fin bytes)
unfolding plugin_fields
plugin_fields-Within fin = varint_then _ λ _. varint_then _ λ _.
    varint_then _ λ n bytes. bind-Within bytes _ _ (frames_take-Within n bytes) (λ _. IsRest-refl)

ack_block_loop-Within : (k : ℕ) (bytes : List ℕ) → Within bytes (ack_block_loop k bytes)
unfolding ack_block_loop
ack_block_loop-Within zero bytes = IsRest-refl bytes
ack_block_loop-Within (suc k) bytes =
    varint_then _
      (λ _.
        varint_then _
          λ _ rest. bind-Within rest _ _ (ack_block_loop-Within k rest) (λ _. IsRest-refl))
      bytes

ecn_loop-Within : (k : ℕ) (bytes : List ℕ) → Within bytes (ecn_loop k bytes)
unfolding ecn_loop
ecn_loop-Within zero bytes = IsRest-refl bytes
ecn_loop-Within (suc k) bytes =
    varint_then _ (λ _ rest. bind-Within rest _ _ (ecn_loop-Within k rest) (λ _. IsRest-refl)) bytes

pub ack_fields-Within : (is_ecn : Bool) (bytes : List ℕ) → Within bytes (ack_fields is_ecn bytes)
unfolding ack_fields
ack_fields-Within is_ecn = varint_then _ λ _. varint_then _ λ _ b1.
    bind-Within b1 _ _ (ecn_loop-Within (if is_ecn then 3 else 0) b1) λ _. varint_then _ λ count.
      check_then _ _ λ _.
        varint_then _ λ _ b2. bind-Within b2 _ _ (ack_block_loop-Within count b2) (λ _. IsRest-refl)
