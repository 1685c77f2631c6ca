-- ===== src/Transport/Receive.antt =====
-- picoquic/transport.c: the parameters of the peer (picoquic_receive_transport_extensions). The
-- operation that is run for an unknown parameter has no default implementation.
use pquic.Base.{
  ℕ, Bool, true, false, ◌||◌, not, Option, none, some, List, [], ◌∷◌, length, ltb, ◌==◌,
  if◌then◌else◌,
}
use pquic.Intformat.{byte, parse_16, parse_32}
use pquic.Connection.{StreamLimits, connection_error}
use pquic.Connection.Input.{update_stream_initial_remote}
use pquic.Transport.Tp
use pquic.Transport.{
  TransportParameters, Endpoint, decode_transport_param_stream_id, decode_preferred_address,
}

-- ret: 0, PICOQUIC_ERROR_DETECTED of picoquic_connection_error, or
-- PICOQUIC_ERROR_VERSION_NEGOTIATION_SPOOFED.
pub data ReceiveRet : Type 0 where
  received error_detected version_spoofed : ReceiveRet

abbrev pub is_zero : ReceiveRet → Bool
is_zero received = true
is_zero error_detected = false
is_zero version_spoofed = false

-- The endpoint, ret and present_flag.
pub record Receiving : Type 0 where
  pub endpoint : Endpoint
  pub ret : ReceiveRet
  pub present : List ℕ

-- ret = picoquic_connection_error(cnx, PICOQUIC_TRANSPORT_PARAMETER_ERROR, 0)
unfoldable pub parameter_error : Receiving → Receiving
parameter_error s =
    let e = s.endpoint in
    record s { endpoint = record e { cnx = connection_error e.cnx 0x8 0 }; ret = error_detected }

abbrev pub limits_of : TransportParameters → StreamLimits
limits_of tp = record {
  bidi_local = tp.initial_max_stream_data_bidi_local;
  bidi_remote = tp.initial_max_stream_data_bidi_remote;
  uni = tp.initial_max_stream_data_uni;
}

-- cnx->remote_parameters
unfoldable pub set_remote : Receiving → TransportParameters → Receiving
set_remote s tp =
    let e = s.endpoint in
    let cnx = e.cnx in
    record s {
      endpoint = record e { remote_tp = tp; cnx = record cnx { remote_parameters = limits_of tp } };
    }

-- picoquic_update_stream_initial_remote(cnx)
unfoldable pub update_streams : Receiving → Receiving
update_streams s =
    let e = s.endpoint in
    record s { endpoint = record e { cnx = update_stream_initial_remote e.cnx } }

-- A value of that length, or the error.
unfoldable pub expect : ℕ → List ℕ → Receiving → Receiving → Receiving
expect size value s done = if length value == size then done else parameter_error s

-- The limits on data, that the peer grants.
unfoldable pub receive_initial_max_data : List ℕ → Receiving → Receiving
receive_initial_max_data value s =
    let tp = s.endpoint.remote_tp in
    let noted = set_remote s (record tp { initial_max_data = parse_32 value 0 }) in
    let e = noted.endpoint in
    let cnx = e.cnx in
    expect 4 value s (record noted {
      endpoint = record e {
        cnx = record cnx {
          maxdata_remote = parse_32 value 0;
          max_stream_id_bidir_remote = e.local_tp.initial_max_stream_id_bidir;
        };
      };
    })

unfoldable pub receive_bidi_streams : ℕ → List ℕ → Receiving → Receiving
receive_bidi_streams extension_mode value s =
    let tp = s.endpoint.remote_tp in
    let id = decode_transport_param_stream_id (parse_16 value 0) extension_mode 0 in
    let noted = set_remote s (record tp { initial_max_stream_id_bidir = id }) in
    let e = noted.endpoint in
    let cnx = e.cnx in
    expect 2 value s (record noted {
      endpoint = record e { cnx = record cnx { max_stream_id_bidir_remote = id } };
    })

unfoldable pub receive_uni_streams : ℕ → List ℕ → Receiving → Receiving
receive_uni_streams extension_mode value s =
    let tp = s.endpoint.remote_tp in
    let id = decode_transport_param_stream_id (parse_16 value 0) extension_mode 2 in
    let noted = set_remote s (record tp { initial_max_stream_id_unidir = id }) in
    let e = noted.endpoint in
    let cnx = e.cnx in
    expect 2 value s (record noted {
      endpoint = record e { cnx = record cnx { max_stream_id_unidir_remote = id } };
    })

unfoldable pub receive_reset_secret : ℕ → List ℕ → Receiving → Receiving
receive_reset_secret extension_mode value s =
    let e = s.endpoint in
    if not (extension_mode == 1)
    then parameter_error s
    else expect 16 value s (record s { endpoint = record e { reset_secret = value } })

unfoldable pub receive_preferred_address : List ℕ → Receiving → Receiving
receive_preferred_address value s =
    let tp = s.endpoint.remote_tp in
    let (address, coded_length) =
      decode_preferred_address value (length value) tp.preferred_address in
    let noted = set_remote s (record tp { preferred_address = address }) in
    if not (coded_length == length value) then parameter_error noted else noted

-- malloc, and the text; nothing changes for an empty one. Without memory the field is NULL.
unfoldable pub text_received : Bool → List ℕ → Option (List ℕ) → Option (List ℕ)
text_received malloc_ok [] old = old
text_received malloc_ok (b ∷ value) old = if malloc_ok then some (b ∷ value) else none

-- The switch on the type of a parameter.
unfoldable pub receive_parameter : Bool → ℕ → ℕ → List ℕ → Receiving → Receiving
receive_parameter malloc_ok extension_mode type value s =
    let tp = s.endpoint.remote_tp in
    if type == Tp.initial_max_stream_data_bidi_local
    then update_streams (
        expect 4 value s
          (set_remote s (record tp { initial_max_stream_data_bidi_local = parse_32 value 0 })))
    else if type == Tp.initial_max_stream_data_bidi_remote
    then update_streams (
        expect 4 value s
          (set_remote s (record tp { initial_max_stream_data_bidi_remote = parse_32 value 0 })))
    else if type == Tp.initial_max_stream_data_uni
    then update_streams (
        expect 4 value s
          (set_remote s (record tp { initial_max_stream_data_uni = parse_32 value 0 })))
    else if type == Tp.initial_max_data
    then receive_initial_max_data value s
    else if type == Tp.initial_max_bidi_streams
    then receive_bidi_streams extension_mode value s
    else if type == Tp.idle_timeout
    then expect 2 value s (set_remote s (record tp { idle_timeout = parse_16 value 0 }))
    else if type == Tp.max_packet_size
    then expect 2 value s (set_remote s (record tp { max_packet_size = parse_16 value 0 }))
    else if type == Tp.reset_secret
    then receive_reset_secret extension_mode value s
    else if type == Tp.ack_delay_exponent
    then expect 1 value s (set_remote s (record tp { ack_delay_exponent = byte value 0 }))
    else if type == Tp.initial_max_uni_streams
    then receive_uni_streams extension_mode value s
    else if type == Tp.server_preferred_address
    then receive_preferred_address value s
    else if type == Tp.disable_migration
    then expect 0 value s (set_remote s (record tp { migration_disabled = true }))
    else if type == Tp.supported_plugins
    then set_remote s
        (record tp { supported_plugins = text_received malloc_ok value tp.supported_plugins })
    else if type == Tp.plugins_to_inject
    then set_remote s
        (record tp { plugins_to_inject = text_received malloc_ok value tp.plugins_to_inject })
    else s

abbrev pub elem : ℕ → List ℕ → Bool
elem type [] = false
elem type (t ∷ later) = type == t || elem type later

-- A type below 64 that is there already is an error; its parameter is taken all the same.
unfoldable pub note_present : ℕ → Receiving → Receiving
note_present type s =
    if ltb type 64
    then (if elem type s.present
        then parameter_error s
        else record s { present = type ∷ s.present })
    else s
