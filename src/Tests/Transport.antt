-- ===== src/Tests/Transport.antt =====
-- Runs of the transport parameters: a server's extension on its way to a client.
use pquic.Base.{
  if◌then◌else◌, ℕ, ◌≡◌, refl, true, false, some, List, [], ◌∷◌, ◌++◌, length, arith, inl, inr,
}
use pquic.Intformat.{parse_32}
use pquic.Connection.{Cnx, connection_error}
use pquic.Tests.Streams.{server}
use pquic.Transport.{
  PreferredAddress, TransportParameters, Endpoint, prepare_preferred_address,
  decode_preferred_address,
}
use pquic.Transport.Prepare.{
  list_transport_parameter, plugins_transport_parameter, prepare_transport_extensions,
}
use pquic.Transport.Receive.{Receiving, received, parameter_error}
use pquic.Transport.Extensions.{
  zeros, default_parameters, at_bytes, outside_buffer, server_extension_versions, receive_versions,
  receive_transport_extensions,
}
use pquic.Transport.Versions.{VersionsAgree}
use pquic.Transport.Exchange.{receive-prepare_transport_extensions}
use pquic.Transport.RoundTrip.{IsSendable, as_received}
use pquic.Transport.Ends.{Ends}
use pquic.Transport.Errors.{is_error, receive_transport_extensions-IsMarked}
use pquic.Transport.Address.{IsAddress, decode_preferred_address-prepare_preferred_address}

-- Eight streams of either kind, and a text of plugins.
abbrev server_parameters : TransportParameters
server_parameters = record default_parameters {
  initial_max_stream_data_bidi_local = 65535;
  initial_max_stream_data_bidi_remote = 65536;
  initial_max_data = 0x100000;
  initial_max_stream_id_bidir = 32;
  initial_max_stream_id_unidir = 30;
  idle_timeout = 30;
  max_packet_size = 1440;
}

abbrev handshake : Cnx
handshake = record server { cnx_state = 5 }

abbrev server_endpoint : Endpoint
server_endpoint = record {
  cnx = handshake;
  local_tp = server_parameters;
  remote_tp = default_parameters;
  remote_parameters_received = false;
  proposed_version = 0xFF00000E;
  version_index = 1;
  reset_secret = zeros 16;
}

abbrev client_endpoint : Endpoint
client_endpoint = record server_endpoint { local_tp = default_parameters }

server_parameters-IsSendable : IsSendable 1 server_parameters (zeros 16)
server_parameters-IsSendable = record {
  bidi_local = omega arith;
  bidi_remote = omega arith;
  uni = omega arith;
  max_data = omega arith;
  bidir = omega arith;
  bidir_kind = λ _. refl;
  unidir = omega arith;
  unidir_kind = λ _. refl;
  idle_timeout = omega arith;
  max_packet_size = omega arith;
  ack_delay_exponent = omega arith;
  no_preferred_address = refl;
  secret_length = refl;
}

one_version : VersionsAgree 1 server_endpoint client_endpoint
one_version = record {
  client = λ e. absurd (omega arith);
  server = λ _. (refl, refl);
  newer = λ e. absurd (omega arith);
}

abbrev plugin_names : List (List ℕ)
plugin_names = (109 ∷ 112 ∷ []) ∷ (102 ∷ []) ∷ []

receive-prepare_transport_extensions_example :
    (bytes : List ℕ) × (s : Receiving) × ((prepare_transport_extensions true plugin_names true []
        server_endpoint 1 200).1
      ≡ some bytes)
    × ((prepare_transport_extensions true plugin_names true [] server_endpoint 1 200).2
        ≡ length bytes)
    × (receive_transport_extensions (λ _. true) client_endpoint 1 (bytes ++ (7 ∷ []))
        ≡ at_bytes s (7 ∷ []))
    × (s.ret ≡ received)
    × (s.endpoint.remote_tp
        ≡ record server_parameters { supported_plugins = some (109 ∷ 112 ∷ 44 ∷ 102 ∷ 0 ∷ []) })
unfolding list_transport_parameter as_received prepare_transport_extensions
    plugins_transport_parameter
receive-prepare_transport_extensions_example =
    receive-prepare_transport_extensions (λ _. true) 1 server_endpoint client_endpoint plugin_names
      [] 200 (7 ∷ []) (λ _. refl) (inr refl) one_version (omega arith) server_parameters-IsSendable
      (omega arith) (omega arith)

-- The agreed version, and nothing behind it.
four_bytes :
    receive_transport_extensions (λ _. true) client_endpoint 1 (255 ∷ 0 ∷ 0 ∷ 0x0E ∷ [])
    ≡ outside_buffer
unfolding receive_transport_extensions receive_versions server_extension_versions parse_32
four_bytes = refl

-- A client hello that is too short for its version, and for the size behind it.
abbrev refused : Receiving
refused = parameter_error (record {
  endpoint = record client_endpoint { remote_parameters_received = true };
  ret = received;
  present = [];
})

receive_transport_extensions-IsMarked_example :
    (refused.endpoint.cnx.cnx_state ≡ (if is_error refused.ret then 9 else 5))
    × (refused.endpoint.cnx.local_error
        ≡ (if is_error refused.ret then 0x8 else client_endpoint.cnx.local_error))
unfolding parameter_error connection_error receive_transport_extensions receive_versions
receive_transport_extensions-IsMarked_example =
    receive_transport_extensions-IsMarked (λ _. true) client_endpoint 2 (1 ∷ []) (1 ∷ []) refused
      (omega arith) refl

abbrev address : PreferredAddress
address = record {
  ip_version = 4;
  ip_address = 10 ∷ 0 ∷ 0 ∷ 1 ∷ zeros 12;
  port = 4433;
  connection_id = 1 ∷ 2 ∷ 3 ∷ 4 ∷ [];
  reset_token = zeros 16;
}

address-IsAddress : IsAddress address
address-IsAddress = record {
  ip_version = inl refl;
  ip_address = refl;
  port = omega arith;
  connection_id = omega arith;
  reset_token = refl;
}

decode_preferred_address-prepare_preferred_address_example :
    decode_preferred_address
      (prepare_preferred_address 60 address)
      (length (prepare_preferred_address 60 address))
      address
    ≡ (address, length (prepare_preferred_address 60 address))
decode_preferred_address-prepare_preferred_address_example =
    decode_preferred_address-prepare_preferred_address address address 60 address-IsAddress
      (omega arith)
