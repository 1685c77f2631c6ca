-- ===== src/Transport/Steps.antt =====
-- What a parameter that is well formed does to the parameters of the peer.
use pquic.Base.{
  ℕ, ◌+◌, ◌-◌, ◌*◌, ◌/◌, ◌%◌, ◌^◌, ◌<◌, ◌≡◌, refl, true, some, List, [], ◌∷◌, length, ltb, ◌==◌,
  if◌then◌else◌, arith, u8, u16,
}
use pquic.Intformat.{format_16, format_32}
use pquic.Intformat.FixedWidth.{parse_16-format_16, parse_32-format_32}
use pquic.Transport.{
  TransportParameters, stream_type_of, decode_transport_param_stream_id,
  prepare_transport_param_stream_id,
}
use pquic.Transport.Receive.{
  Receiving, expect, set_remote, update_streams, receive_initial_max_data, receive_bidi_streams,
  receive_uni_streams, receive_reset_secret, text_received, receive_parameter,
}

-- The parameter changes the parameters of the peer from `tp` to `tp'`, and is no error.
pub record Sets (extension_mode type : ℕ) (value : List ℕ) (tp tp' : TransportParameters)
    : Type 0 where
  pub ret : (s : Receiving) → (receive_parameter true extension_mode type value s).ret ≡ s.ret
  pub present :
      (s : Receiving) → (receive_parameter true extension_mode type value s).present ≡ s.present
  pub version :
      (s : Receiving)
      → (receive_parameter true extension_mode type value s).endpoint.version_index
        ≡ s.endpoint.version_index
  pub remote :
      (s : Receiving)
      → s.endpoint.remote_tp ≡ tp
      → (receive_parameter true extension_mode type value s).endpoint.remote_tp ≡ tp'

of_kind :
    (kind id : ℕ)
    → 0 < id
    → id < 4 * 65535
    → id % 4 ≡ kind
    → (let rank = if ltb 0 id then (if kind == 0 then u16 (id / 4) else u16 (id / 4 + 1)) else 0 in
        if ltb 0 rank then (if kind == 0 then 4 * rank else 4 * (rank - 1) + kind) else 0)
      ≡ id
of_kind kind id positive small e = ground arith

-- A stream's number of the kind that the limit is for.
pub decode_stream_id-prepare_stream_id :
    (mode direction id : ℕ)
    → 0 < id
    → id < 4 * 65535
    → id % 4 ≡ stream_type_of mode direction
    → decode_transport_param_stream_id
        (prepare_transport_param_stream_id id mode direction)
        mode
        direction
      ≡ id
unfolding decode_transport_param_stream_id prepare_transport_param_stream_id
decode_stream_id-prepare_stream_id mode direction id positive small kind =
    of_kind (stream_type_of mode direction) id positive small kind

pub prepare_stream_id-le :
    (id mode direction : ℕ) → prepare_transport_param_stream_id id mode direction < 65536
unfolding prepare_transport_param_stream_id
prepare_stream_id-le id mode direction = ground arith

u16_small : (n : ℕ) → n < 2 ^ 16 → u16 n ≡ n
u16_small n h = omega arith

u8_small : (n : ℕ) → n < 256 → u8 n ≡ n
u8_small n h = omega arith

module _ (mode : ℕ) (tp : TransportParameters) where
  pub bidi_local-Sets :
      (n : ℕ)
      → n < 2 ^ 32
      → Sets mode 0 (format_32 n) tp (record tp { initial_max_stream_data_bidi_local = n })
  unfolding receive_parameter expect set_remote update_streams format_32
  bidi_local-Sets n h = record {
    ret = λ s. refl;
    present = λ s. refl;
    version = λ s. refl;
    remote = λ s e. rw (parse_32-format_32 n [] h, e) refl;
  }

  pub bidi_remote-Sets :
      (n : ℕ)
      → n < 2 ^ 32
      → Sets mode 10 (format_32 n) tp (record tp { initial_max_stream_data_bidi_remote = n })
  unfolding receive_parameter expect set_remote update_streams format_32
  bidi_remote-Sets n h = record {
    ret = λ s. refl;
    present = λ s. refl;
    version = λ s. refl;
    remote = λ s e. rw (parse_32-format_32 n [] h, e) refl;
  }

  pub uni-Sets :
      (n : ℕ)
      → n < 2 ^ 32
      → Sets mode 11 (format_32 n) tp (record tp { initial_max_stream_data_uni = n })
  unfolding receive_parameter expect set_remote update_streams format_32
  uni-Sets n h = record {
    ret = λ s. refl;
    present = λ s. refl;
    version = λ s. refl;
    remote = λ s e. rw (parse_32-format_32 n [] h, e) refl;
  }

  pub max_data-Sets :
      (n : ℕ) → n < 2 ^ 32 → Sets mode 1 (format_32 n) tp (record tp { initial_max_data = n })
  unfolding receive_parameter expect set_remote receive_initial_max_data format_32
  max_data-Sets n h = record {
    ret = λ s. refl;
    present = λ s. refl;
    version = λ s. refl;
    remote = λ s e. rw (parse_32-format_32 n [] h, e) refl;
  }

  pub idle_timeout-Sets :
      (n : ℕ) → n < 2 ^ 16 → Sets mode 3 (format_16 (u16 n)) tp (record tp { idle_timeout = n })
  unfolding receive_parameter expect set_remote format_16
  idle_timeout-Sets n h = record {
    ret = λ s. refl;
    present = λ s. refl;
    version = λ s. refl;
    remote = λ s e. rw (u16_small n h, parse_16-format_16 n [] h, e) refl;
  }

  pub max_packet_size-Sets :
      (n : ℕ) → n < 2 ^ 16 → Sets mode 5 (format_16 (u16 n)) tp (record tp { max_packet_size = n })
  unfolding receive_parameter expect set_remote format_16
  max_packet_size-Sets n h = record {
    ret = λ s. refl;
    present = λ s. refl;
    version = λ s. refl;
    remote = λ s e. rw (u16_small n h, parse_16-format_16 n [] h, e) refl;
  }

  pub ack_delay_exponent-Sets :
      (n : ℕ) → n < 256 → Sets mode 7 (u8 n ∷ []) tp (record tp { ack_delay_exponent = n })
  unfolding receive_parameter expect set_remote
  ack_delay_exponent-Sets n h = record {
    ret = λ s. refl;
    present = λ s. refl;
    version = λ s. refl;
    remote = λ s e. rw (u8_small n h, e) refl;
  }

  pub bidi_streams-Sets :
      (n : ℕ)
      → 0 < n
      → n < 4 * 65535
      → n % 4 ≡ stream_type_of mode 0
      → Sets mode 2
          (format_16 (prepare_transport_param_stream_id n mode 0))
          tp
          (record tp { initial_max_stream_id_bidir = n })
  unfolding receive_parameter expect set_remote receive_bidi_streams format_16
  bidi_streams-Sets n positive small kind = record {
    ret = λ s. refl;
    present = λ s. refl;
    version = λ s. refl;
    remote = λ s e.
        let rank = prepare_transport_param_stream_id n mode 0 in
        rw
          (
            parse_16-format_16 rank [] (prepare_stream_id-le n mode 0),
            decode_stream_id-prepare_stream_id mode 0 n positive small kind,
            e,
          )
          refl;
  }

  pub uni_streams-Sets :
      (n : ℕ)
      → 0 < n
      → n < 4 * 65535
      → n % 4 ≡ stream_type_of mode 2
      → Sets mode 8
          (format_16 (prepare_transport_param_stream_id n mode 2))
          tp
          (record tp { initial_max_stream_id_unidir = n })
  unfolding receive_parameter expect set_remote receive_uni_streams format_16
  uni_streams-Sets n positive small kind = record {
    ret = λ s. refl;
    present = λ s. refl;
    version = λ s. refl;
    remote = λ s e.
        let rank = prepare_transport_param_stream_id n mode 2 in
        rw
          (
            parse_16-format_16 rank [] (prepare_stream_id-le n mode 2),
            decode_stream_id-prepare_stream_id mode 2 n positive small kind,
            e,
          )
          refl;
  }

  pub reset_secret-Sets :
      (secret : List ℕ) → mode ≡ 1 → length secret ≡ 16 → Sets mode 6 (secret) tp (tp)
  unfolding receive_parameter expect set_remote receive_reset_secret
  reset_secret-Sets secret server size = record {
    ret = λ s. rw (server, size) refl;
    present = λ s. rw (server, size) refl;
    version = λ s. rw (server, size) refl;
    remote = λ s e. rw (server, size) e;
  }

  pub disable_migration-Sets : Sets mode 9 ([]) tp (record tp { migration_disabled = true })
  unfolding receive_parameter expect set_remote
  disable_migration-Sets = record {
    ret = λ s. refl;
    present = λ s. refl;
    version = λ s. refl;
    remote = λ s e. rw e refl;
  }

  pub supported_plugins-Sets :
      (b : ℕ) (text : List ℕ)
      → Sets mode 32 (b ∷ text) tp (record tp { supported_plugins = some (b ∷ text) })
  unfolding receive_parameter expect set_remote text_received
  supported_plugins-Sets b text = record {
    ret = λ s. refl;
    present = λ s. refl;
    version = λ s. refl;
    remote = λ s e. rw e refl;
  }

  pub plugins_to_inject-Sets :
      (b : ℕ) (text : List ℕ)
      → Sets mode 33 (b ∷ text) tp (record tp { plugins_to_inject = some (b ∷ text) })
  unfolding receive_parameter expect set_remote text_received
  plugins_to_inject-Sets b text = record {
    ret = λ s. refl;
    present = λ s. refl;
    version = λ s. refl;
    remote = λ s e. rw e refl;
  }
