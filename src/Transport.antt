-- ===== src/Transport.antt =====
-- picoquic/transport.c: the transport parameters, with the types picoquic_tp_t and
-- picoquic_tp_preferred_address_t of picoquic_internal.h. A bit field of seen types is the list of
-- the types whose bit is set; a position in a buffer is the list of the bytes from it on.
pub mod Tp
pub mod Prepare
pub mod Receive
pub mod Extensions
pub mod Steps
pub mod Run
pub mod Sent
pub mod RoundTrip
pub mod Versions
pub mod Exchange
pub mod Ends
pub mod Errors
pub mod Address
use pquic.Base.{
  ℕ, zero, suc, ◌+◌, ◌-◌, ◌*◌, ◌/◌, Bool, true, false, ◌&&◌, ◌||◌, not, Option, none, some, List,
  bit_or, [], ◌∷◌, ◌++◌, length, take, drop, get_elem?, ltb, leb, ◌==◌, if◌then◌else◌, u8, u16, u32,
}
use pquic.Intformat.{byte, parse_16, format_16}
use pquic.ConnectionId.{format_connection_id, parse_connection_id}
use pquic.Connection.{Cnx}

pub record PreferredAddress : Type 0 where
  pub ip_version : ℕ
  pub ip_address : List ℕ
  pub port : ℕ
  pub connection_id : List ℕ
  pub reset_token : List ℕ

-- migration_disabled tells whether the number is not 0; a plugin string is none where it is NULL.
pub record TransportParameters : Type 0 where
  pub initial_max_stream_data_bidi_local : ℕ
  pub initial_max_stream_data_bidi_remote : ℕ
  pub initial_max_stream_data_uni : ℕ
  pub initial_max_data : ℕ
  pub initial_max_stream_id_bidir : ℕ
  pub initial_max_stream_id_unidir : ℕ
  pub idle_timeout : ℕ
  pub max_packet_size : ℕ
  pub ack_delay_exponent : ℕ
  pub migration_disabled : Bool
  pub preferred_address : PreferredAddress
  pub supported_plugins : Option (List ℕ)
  pub plugins_to_inject : Option (List ℕ)

-- The fields of a connection that the exchange of the parameters uses: those of Cnx, both sets of
-- parameters, the versions, and the secret of the first path.
pub record Endpoint : Type 0 where
  pub cnx : Cnx
  pub local_tp : TransportParameters
  pub remote_tp : TransportParameters
  pub remote_parameters_received : Bool
  pub proposed_version : ℕ
  pub version_index : ℕ
  pub reset_secret : List ℕ

-- PICOQUIC_INTERNAL_TEST_VERSION_1, PICOQUIC_EIGHT_INTEROP_VERSION, PICOQUIC_SEVENTH_INTEROP_VERSION
abbrev pub supported_versions : List ℕ
supported_versions = 0x50435130 ∷ 0xFF00000E ∷ 0xFF00000D ∷ []

-- picoquic_supported_versions[index].version
abbrev pub version_at : ℕ → ℕ
version_at index = byte supported_versions index

-- stream_type |= (extension_mode == 0) ? PICOQUIC_STREAM_ID_SERVER_INITIATED : ...
abbrev pub stream_type_of : ℕ → ℕ → ℕ
stream_type_of extension_mode direction = bit_or direction (if extension_mode == 0 then 1 else 0)

unfoldable pub decode_transport_param_stream_id : ℕ → ℕ → ℕ → ℕ
decode_transport_param_stream_id rank extension_mode direction =
    let stream_type = stream_type_of extension_mode direction in
    if ltb 0 rank then (if stream_type == 0 then 4 * rank else 4 * (rank - 1) + stream_type) else 0

unfoldable pub prepare_transport_param_stream_id : ℕ → ℕ → ℕ → ℕ
prepare_transport_param_stream_id stream_id extension_mode direction =
    let stream_type = stream_type_of extension_mode direction in
    if ltb 0 stream_id
    then (if stream_type == 0 then u16 (stream_id / 4) else u16 (stream_id / 4 + 1))
    else 0

abbrev pub ip_length_of : ℕ → ℕ
ip_length_of ip_version = if ip_version == 4 then 4 else 16

unfoldable pub length_preferred_address : PreferredAddress → ℕ
length_preferred_address a =
    if not (a.ip_version == 0)
    then u16 (1 + 1 + ip_length_of a.ip_version + 2 + 1 + length a.connection_id + 16)
    else 0

-- The bytes written, none where the buffer is too small.
unfoldable pub prepare_preferred_address : ℕ → PreferredAddress → List ℕ
prepare_preferred_address bytes_max a =
    let ip_length = ip_length_of a.ip_version in
    let coded_length = 1 + 1 + ip_length + 2 + 1 + length a.connection_id + 16 in
    let left = bytes_max - (1 + 1 + ip_length + 2 + 1) in
    if leb coded_length bytes_max
    then u8 a.ip_version
      ∷ ip_length
      ∷ (take ip_length a.ip_address
          ++ (format_16 a.port
              ++ (u8 (length a.connection_id)
                  ∷ (format_connection_id left a.connection_id ++ take 16 a.reset_token))))
    else []

-- The address and the token behind the address's length; `bytes` starts at the port, and
-- `byte_index` is its place.
unfoldable pub decode_address_rest : ℕ → ℕ → List ℕ → PreferredAddress → PreferredAddress × ℕ
decode_address_rest bytes_max byte_index bytes a =
    let with_port = record a { port = parse_16 bytes 0 } in
    let cnx_id_length = byte bytes 2 in
    let behind = drop 3 bytes in
    let parsed = parse_connection_id behind cnx_id_length in
    let with_id = record with_port { connection_id = parsed.1 } in
    if not (leb (byte_index + 3 + cnx_id_length + 16) bytes_max)
    then (with_port, 0)
    else if parsed.0 == cnx_id_length
    then (
      record with_id { reset_token = take 16 (drop cnx_id_length behind) },
      byte_index + 3 + cnx_id_length + 16,
    )
    else (with_id, 0)

-- The address afterwards, and the number of bytes read, 0 for a malformed parameter. `bytes` are
-- those from the parameter on, and `bytes_max` its length.
unfoldable pub decode_preferred_address : List ℕ → ℕ → PreferredAddress → PreferredAddress × ℕ
decode_preferred_address bytes bytes_max a =
    let ip_version = byte bytes 0 in
    let ip_length = byte bytes 1 in
    let versioned = record a { ip_version = ip_version } in
    let addressed = record versioned {
      ip_address = take ip_length (drop 2 bytes) ++ drop ip_length a.ip_address;
    } in
    if ltb bytes_max 21
    then (a, 0)
    else if (ip_length == 4 && ip_version == 4) || (ip_length == 16 && ip_version == 6)
    then decode_address_rest bytes_max (2 + ip_length) (drop (2 + ip_length) bytes) addressed
    else (versioned, 0)
