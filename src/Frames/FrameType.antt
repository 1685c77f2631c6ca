-- ===== src/Frames/FrameType.antt =====
-- picoquic/picoquic.h, picoquic_frame_type_enum_t.
use pquic.Base.{ℕ}

abbrev pub padding : ℕ
padding = 0

abbrev pub reset_stream : ℕ
reset_stream = 1

abbrev pub connection_close : ℕ
connection_close = 2

abbrev pub application_close : ℕ
application_close = 3

abbrev pub max_data : ℕ
max_data = 4

abbrev pub max_stream_data : ℕ
max_stream_data = 5

abbrev pub max_stream_id : ℕ
max_stream_id = 6

abbrev pub ping : ℕ
ping = 7

abbrev pub blocked : ℕ
blocked = 8

abbrev pub stream_blocked : ℕ
stream_blocked = 9

abbrev pub stream_id_blocked : ℕ
stream_id_blocked = 0x0a

abbrev pub new_connection_id : ℕ
new_connection_id = 0x0b

abbrev pub stop_sending : ℕ
stop_sending = 0x0c

abbrev pub ack : ℕ
ack = 0x0d

abbrev pub path_challenge : ℕ
path_challenge = 0x0e

abbrev pub path_response : ℕ
path_response = 0x0f

abbrev pub stream_range_min : ℕ
stream_range_min = 0x10

abbrev pub stream_range_max : ℕ
stream_range_max = 0x17

abbrev pub crypto_hs : ℕ
crypto_hs = 0x18

abbrev pub new_token : ℕ
new_token = 0x19

abbrev pub ack_ecn : ℕ
ack_ecn = 0x1a

abbrev pub plugin_validate : ℕ
plugin_validate = 0x1e

abbrev pub plugin : ℕ
plugin = 0x1f
