-- ===== src/Transport/Prepare.antt =====
-- picoquic/transport.c: the parameters that an endpoint sends (picoquic_prepare_transport_extensions).
use pquic.Base.{
  ℕ, ◌+◌, ◌-◌, ◌*◌, Bool, ◌&&◌, not, Option, none, some, List, [], ◌∷◌, ◌++◌, length, ltb, leb,
  ◌==◌, if◌then◌else◌, u8, u16,
}
use pquic.Transport.Tp
use pquic.Intformat.{format_16, format_32}
use pquic.Transport.{
  TransportParameters, PreferredAddress, Endpoint, supported_versions, version_at,
  prepare_transport_param_stream_id, length_preferred_address, prepare_preferred_address,
}

-- The names of a list of plugins with commas between them, and a 0 behind them.
names_from : List (List ℕ) → List ℕ
names_from [] = []
names_from (name ∷ names) = 44 ∷ (name ++ names_from names)

joined : List (List ℕ) → List ℕ
unfolding names_from
joined [] = []
joined (name ∷ names) = name ++ names_from names

-- The length fits 16 bits: there are at most 64 names of at most 100 bytes.
unfoldable pub list_transport_parameter : List (List ℕ) → List ℕ
unfolding joined
list_transport_parameter names =
    if ltb 0 (length (joined names)) then joined names ++ (0 ∷ []) else []

-- The text that is sent, and what the field of local_parameters is afterwards.
unfoldable pub plugins_transport_parameter :
    Bool → List (List ℕ) → Option (List ℕ) → List ℕ × Option (List ℕ)
plugins_transport_parameter malloc_ok [] old = ([], old)
plugins_transport_parameter malloc_ok (name ∷ names) old =
    let text = list_transport_parameter (name ∷ names) in
    if malloc_ok then (text, some text) else ([], none)

-- A parameter: its type, the length of its value, and the value.
abbrev pub parameter : ℕ → List ℕ → List ℕ
parameter type value = format_16 type ++ (format_16 (length value) ++ value)

abbrev pub parameter_if : Bool → ℕ → List ℕ → List ℕ
parameter_if test type value = if test then parameter type value else []

-- The parameters in front of the preferred address.
unfoldable pub first_parameters : ℕ → TransportParameters → List ℕ → List ℕ
first_parameters extension_mode tp secret =
    let bidir = prepare_transport_param_stream_id tp.initial_max_stream_id_bidir extension_mode 0 in
    let unidir =
      prepare_transport_param_stream_id tp.initial_max_stream_id_unidir extension_mode 2 in
    parameter Tp.initial_max_stream_data_bidi_local
      (format_32 tp.initial_max_stream_data_bidi_local)
    ++ (parameter Tp.initial_max_data (format_32 tp.initial_max_data)
        ++ (parameter_if (ltb 0 tp.initial_max_stream_id_bidir) Tp.initial_max_bidi_streams
              (format_16 bidir)
            ++ (parameter Tp.idle_timeout (format_16 (u16 tp.idle_timeout))
                ++ (parameter Tp.max_packet_size (format_16 (u16 tp.max_packet_size))
                    ++ (parameter_if (extension_mode == 1) Tp.reset_secret secret
                        ++ (parameter_if (not (tp.ack_delay_exponent == 3)) Tp.ack_delay_exponent
                              (u8 tp.ack_delay_exponent ∷ [])
                            ++ parameter_if (ltb 0 tp.initial_max_stream_id_unidir)
                                Tp.initial_max_uni_streams (format_16 unidir)))))))

-- The preferred address, where `byte_index` bytes are in front of it.
unfoldable pub address_parameter : ℕ → ℕ → PreferredAddress → List ℕ
address_parameter bytes_max byte_index address =
    let value = prepare_preferred_address (bytes_max - byte_index - 4) address in
    if not (address.ip_version == 0) && leb (byte_index + 4) bytes_max
    then parameter_if (ltb 0 (length value)) Tp.server_preferred_address value
    else []

-- The parameters behind it.
unfoldable pub last_parameters : TransportParameters → List ℕ → List ℕ → List ℕ
last_parameters tp supported to_inject =
    parameter_if tp.migration_disabled Tp.disable_migration []
    ++ (parameter_if (ltb 0 tp.initial_max_stream_data_bidi_remote)
          Tp.initial_max_stream_data_bidi_remote (format_32 tp.initial_max_stream_data_bidi_remote)
        ++ (parameter_if (ltb 0 tp.initial_max_stream_data_uni) Tp.initial_max_stream_data_uni
              (format_32 tp.initial_max_stream_data_uni)
            ++ (parameter_if (ltb 0 (length supported)) Tp.supported_plugins supported
                ++ parameter_if (ltb 0 (length to_inject)) Tp.plugins_to_inject to_inject)))

-- param_size
unfoldable pub parameters_size : ℕ → TransportParameters → List ℕ → List ℕ → ℕ
parameters_size extension_mode tp supported to_inject = u16 (
    (2 + 2 + 4)
    + (2 + 2 + 4)
    + (2 + 2 + 2)
    + (2 + 2 + 2)
    + (if not (tp.initial_max_stream_id_bidir == 0) then 2 + 2 + 2 else 0)
    + (if extension_mode == 1 then 2 + 2 + 16 else 0)
    + (if not (tp.ack_delay_exponent == 3) then 2 + 2 + 1 else 0)
    + (if not (tp.initial_max_stream_id_unidir == 0) then 2 + 2 + 2 else 0)
    + (if tp.migration_disabled then 2 + 2 else 0)
    + (if not (tp.preferred_address.ip_version == 0)
        then length_preferred_address tp.preferred_address
        else 0)
    + (if ltb 0 tp.initial_max_stream_data_bidi_remote then 2 + 2 + 4 else 0)
    + (if ltb 0 tp.initial_max_stream_data_uni then 2 + 2 + 4 else 0)
    + (if ltb 0 (length supported) then 2 + 2 + length supported else 0)
    + (if ltb 0 (length to_inject) then 2 + 2 + length to_inject else 0))

unfoldable pub all_versions : List ℕ → List ℕ
all_versions [] = []
all_versions (version ∷ later) = format_32 version ++ all_versions later

-- What stands in front of the parameters: the version that is proposed, or the one that is used and
-- those that are supported.
unfoldable pub version_header : ℕ → Endpoint → List ℕ
unfolding all_versions
version_header extension_mode e =
    if extension_mode == 0
    then format_32 e.proposed_version
    else if extension_mode == 1
    then format_32 (version_at e.version_index)
      ++ (u8 (4 * length supported_versions) ∷ all_versions supported_versions)
    else []

unfoldable pub header_size : ℕ → ℕ
header_size extension_mode =
    if extension_mode == 0
    then 4
    else if extension_mode == 1
    then 1 + 4 + 4 * length supported_versions
    else 0

-- The endpoint with the texts of its plugins, the bytes written, none for
-- PICOQUIC_ERROR_EXTENSION_BUFFER_TOO_SMALL, and *consumed. The two lists are quic's plugins.
unfoldable pub prepare_transport_extensions :
    Bool → List (List ℕ) → Bool → List (List ℕ) → Endpoint → ℕ → ℕ → Endpoint × Option (List ℕ) × ℕ
unfolding first_parameters address_parameter last_parameters parameters_size version_header
    header_size
prepare_transport_extensions malloc_ok plugins malloc_ok' plugins' e extension_mode bytes_max =
    let tp = e.local_tp in
    let (supported, field) = plugins_transport_parameter malloc_ok plugins tp.supported_plugins in
    let (to_inject, field') =
      plugins_transport_parameter malloc_ok' plugins' tp.plugins_to_inject in
    let noted = record tp { supported_plugins = field; plugins_to_inject = field' } in
    let param_size = parameters_size extension_mode tp supported to_inject in
    let min_size = header_size extension_mode + param_size + 2 in
    let before =
      version_header extension_mode e
      ++ (format_16 param_size ++ first_parameters extension_mode tp e.reset_secret) in
    let address = address_parameter bytes_max (length before) tp.preferred_address in
    let bytes = before ++ (address ++ last_parameters tp supported to_inject) in
    (record e { local_tp = noted }, if ltb bytes_max min_size then none else some bytes, min_size)
