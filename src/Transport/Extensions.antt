-- ===== src/Transport/Extensions.antt =====
-- picoquic/transport.c: the whole of picoquic_receive_transport_extensions, from the versions to the
-- last checks.
use pquic.Base.{
  ℕ, zero, suc, ◌/◌, Bool, true, false, ◌&&◌, ◌||◌, not, none, List, bit_and, [], ◌∷◌, ◌++◌, length,
  take, drop, ltb, ◌==◌, if◌then◌else◌,
}
use pquic.Intformat.{byte, parse_16, parse_32}
use pquic.Transport.Tp
use pquic.Transport.{
  TransportParameters, PreferredAddress, Endpoint, supported_versions, version_at,
}
use pquic.Transport.Receive.{
  received, version_spoofed, is_zero, Receiving, parameter_error, set_remote, receive_parameter,
  elem, note_present,
}

-- A place in the function: the state and the bytes from byte_index on; or a read behind the buffer,
-- or a loop that is not at its end.
pub data Place : Type 0 where
  at_bytes : Receiving → List ℕ → Place
  outside_buffer out_of_fuel : Place

-- while (ret == 0 && byte_index < extensions_end), over the bytes up to extensions_end. `malloc_ok`
-- answers for the text of each type.
unfoldable pub receive_loop : (ℕ → Bool) → ℕ → ℕ → List ℕ → Receiving → Place
receive_loop malloc_ok extension_mode zero bytes s = out_of_fuel
receive_loop malloc_ok extension_mode (suc fuel) bytes s =
    let type = parse_16 bytes 0 in
    let size = parse_16 bytes 2 in
    let value = take size (drop 4 bytes) in
    let after =
      receive_parameter (malloc_ok type) extension_mode type value (note_present type s) in
    let later = receive_loop malloc_ok extension_mode fuel (drop size (drop 4 bytes)) after in
    if not (is_zero s.ret) || length bytes == 0
    then at_bytes s bytes
    else if ltb (length bytes) 4
    then at_bytes (parameter_error s) bytes
    else if ltb (length (drop 4 bytes)) size
    then at_bytes (parameter_error s) (drop 4 bytes)
    else if is_zero after.ret
    then later
    else at_bytes after (drop 4 bytes)

-- The versions of the server, those that are left: whether one is the version that was proposed,
-- and the bytes behind the last that was looked at.
unfoldable pub find_proposed : ℕ → ℕ → List ℕ → Bool × List ℕ
find_proposed proposed zero bytes = (false, bytes)
find_proposed proposed (suc k) bytes =
    let later = find_proposed proposed k (drop 4 bytes) in
    if parse_32 bytes 0 == proposed then (true, drop 4 bytes) else later

unfoldable pub client_hello_version : List ℕ → Receiving → Place
client_hello_version bytes s =
    let proposed = parse_32 bytes 0 in
    let version = version_at s.endpoint.version_index in
    if ltb (length bytes) 4
    then at_bytes (parameter_error s) bytes
    else if not (version == proposed) && elem proposed supported_versions
    then at_bytes (record s { ret = version_spoofed }) (drop 4 bytes)
    else at_bytes s (drop 4 bytes)

-- Behind the length of the list of versions.
unfoldable pub server_versions : ℕ → List ℕ → Receiving → Place
server_versions size bytes s =
    let e = s.endpoint in
    let found = find_proposed e.proposed_version (size / 4) bytes in
    if not (bit_and size 3 == 0) || ltb 252 size || ltb (length bytes) size
    then at_bytes (parameter_error s) bytes
    else if e.proposed_version == version_at e.version_index
    then at_bytes s (drop size bytes)
    else at_bytes (if found.0 then record s { ret = version_spoofed } else s) found.1

unfoldable pub server_extension_versions : List ℕ → Receiving → Place
server_extension_versions bytes s =
    let version = version_at s.endpoint.version_index in
    let behind = drop 4 bytes in
    if ltb (length bytes) 4
    then at_bytes (parameter_error s) bytes
    else if not (parse_32 bytes 0 == version)
    then at_bytes (record s { ret = version_spoofed }) behind
    else if length behind == 0
    then outside_buffer
    else server_versions (byte behind 0) (drop 1 behind) s

unfoldable pub receive_versions : ℕ → List ℕ → Receiving → Place
receive_versions extension_mode bytes s =
    if extension_mode == 0
    then client_hello_version bytes s
    else if extension_mode == 1
    then server_extension_versions bytes s
    else at_bytes s bytes

abbrev pub zeros : ℕ → List ℕ
zeros zero = []
zeros (suc n) = 0 ∷ zeros n

-- memset to 0, and ack_delay_exponent to 3
abbrev pub no_address : PreferredAddress
no_address = record {
  ip_version = 0;
  ip_address = zeros 16;
  port = 0;
  connection_id = [];
  reset_token = zeros 16;
}

abbrev pub default_parameters : TransportParameters
default_parameters = record {
  initial_max_stream_data_bidi_local = 0;
  initial_max_stream_data_bidi_remote = 0;
  initial_max_stream_data_uni = 0;
  initial_max_data = 0;
  initial_max_stream_id_bidir = 0;
  initial_max_stream_id_unidir = 0;
  idle_timeout = 0;
  max_packet_size = 0;
  ack_delay_exponent = 3;
  migration_disabled = false;
  preferred_address = no_address;
  supported_plugins = none;
  plugins_to_inject = none;
}

-- The bytes behind extensions_end are put back behind the place.
unfoldable pub before_bytes : List ℕ → Place → Place
before_bytes behind (at_bytes s bytes) = at_bytes s (bytes ++ behind)
before_bytes behind outside_buffer = outside_buffer
before_bytes behind out_of_fuel = out_of_fuel

-- From the size of the parameters to the end of the loop. The size is read too where the versions
-- were refused. A round takes four bytes at least.
unfoldable pub receive_all : (ℕ → Bool) → ℕ → List ℕ → Receiving → Place
receive_all malloc_ok extension_mode bytes s =
    let size = parse_16 bytes 0 in
    let body = drop 2 bytes in
    let cleared = set_remote s default_parameters in
    let params = take size body in
    if ltb (length bytes) 2
    then (if is_zero s.ret then at_bytes (parameter_error s) bytes else outside_buffer)
    else if ltb (length body) size
    then at_bytes (parameter_error cleared) body
    else before_bytes (drop size body)
        (receive_loop malloc_ok extension_mode (suc (length params)) params cleared)

-- The defaults of draft 13.
unfoldable pub draft_13_defaults : Receiving → Receiving
draft_13_defaults s =
    let tp = s.endpoint.remote_tp in
    let remote =
      if elem Tp.initial_max_stream_data_bidi_remote s.present
      then tp.initial_max_stream_data_bidi_remote
      else tp.initial_max_stream_data_bidi_local in
    let uni =
      if elem Tp.initial_max_stream_data_uni s.present
      then tp.initial_max_stream_data_uni
      else tp.initial_max_stream_data_bidi_local in
    if version_at s.endpoint.version_index == 0xFF00000D
    then set_remote s (record tp {
      initial_max_stream_data_bidi_remote = remote;
      initial_max_stream_data_uni = uni;
    })
    else s

-- The timeout is mandatory, and a client has no reset secret and no preferred address.
unfoldable pub check_presence : ℕ → Receiving → Receiving
check_presence extension_mode s =
    let timed =
      if is_zero s.ret && not (elem Tp.idle_timeout s.present) then parameter_error s else s in
    if is_zero timed.ret
      && extension_mode == 0
      && (elem Tp.reset_secret timed.present || elem Tp.server_preferred_address timed.present)
    then parameter_error timed
    else timed

-- The end of the function, where it is reached, with the bytes behind *consumed.
unfoldable pub finish : ℕ → Place → Place
unfolding draft_13_defaults check_presence
finish extension_mode (at_bytes s bytes) =
    at_bytes (check_presence extension_mode (draft_13_defaults s)) bytes
finish extension_mode outside_buffer = outside_buffer
finish extension_mode out_of_fuel = out_of_fuel

unfoldable pub and_then : Place → (List ℕ → Receiving → Place) → Place
and_then (at_bytes s bytes) f = f bytes s
and_then outside_buffer f = outside_buffer
and_then out_of_fuel f = out_of_fuel

unfoldable pub receive_transport_extensions : (ℕ → Bool) → Endpoint → ℕ → List ℕ → Place
unfolding finish and_then receive_all
receive_transport_extensions malloc_ok e extension_mode bytes =
    let s : Receiving = record {
      endpoint = record e { remote_parameters_received = true };
      ret = received;
      present = [];
    } in
    finish extension_mode
      (and_then (receive_versions extension_mode bytes s) (receive_all malloc_ok extension_mode))
