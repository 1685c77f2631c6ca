-- ===== src/Transport/Tp.antt =====
-- picoquic_tp_enum of picoquic_internal.h: the types of the transport parameters.
use pquic.Base.{ℕ}

abbrev pub initial_max_stream_data_bidi_local : ℕ
initial_max_stream_data_bidi_local = 0

abbrev pub initial_max_data : ℕ
initial_max_data = 1

abbrev pub initial_max_bidi_streams : ℕ
initial_max_bidi_streams = 2

abbrev pub idle_timeout : ℕ
idle_timeout = 3

abbrev pub server_preferred_address : ℕ
server_preferred_address = 4

abbrev pub max_packet_size : ℕ
max_packet_size = 5

abbrev pub reset_secret : ℕ
reset_secret = 6

abbrev pub ack_delay_exponent : ℕ
ack_delay_exponent = 7

abbrev pub initial_max_uni_streams : ℕ
initial_max_uni_streams = 8

abbrev pub disable_migration : ℕ
disable_migration = 9

abbrev pub initial_max_stream_data_bidi_remote : ℕ
initial_max_stream_data_bidi_remote = 10

abbrev pub initial_max_stream_data_uni : ℕ
initial_max_stream_data_uni = 11

abbrev pub supported_plugins : ℕ
supported_plugins = 32

abbrev pub plugins_to_inject : ℕ
plugins_to_inject = 33
