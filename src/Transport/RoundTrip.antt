-- ===== src/Transport/RoundTrip.antt =====
-- The parameters that one endpoint sends, as the other receives them.
use pquic.Base.{
  ℕ, ◌*◌, ◌%◌, ◌^◌, ◌<◌, ◌≡◌, refl, sym, ap, Bool, true, false, not, Option, none, some, List, [],
  ◌∷◌, ◌++◌, length, ltb, ◌==◌, arith, u8, u16, ltb→lt, ==_iff,
}
use pquic.Intformat.{format_16, format_32}
use pquic.Transport.{TransportParameters, stream_type_of, prepare_transport_param_stream_id}
use pquic.Transport.Prepare.{parameter_if}
use pquic.Transport.Extensions.{default_parameters, no_address}
use pquic.Transport.Sent.{texts, numbers, optional, required, everything}
use pquic.Transport.Steps.{
  Sets, bidi_local-Sets, bidi_remote-Sets, uni-Sets, max_data-Sets, idle_timeout-Sets,
  max_packet_size-Sets, ack_delay_exponent-Sets, bidi_streams-Sets, uni_streams-Sets,
  reset_secret-Sets, disable_migration-Sets, supported_plugins-Sets, plugins_to_inject-Sets,
}
use pquic.Transport.Run.{Follows, Runs, Runs-end, Runs-raise, Runs-parameter, Runs-parameter_if}

-- The numbers fit their fields, the limits on streams are numbers of streams of the right kind, and
-- there is no preferred address.
pub record IsSendable (mode : ℕ) (tp : TransportParameters) (secret : List ℕ) : Type 0 where
  pub bidi_local : tp.initial_max_stream_data_bidi_local < 2 ^ 32
  pub bidi_remote : tp.initial_max_stream_data_bidi_remote < 2 ^ 32
  pub uni : tp.initial_max_stream_data_uni < 2 ^ 32
  pub max_data : tp.initial_max_data < 2 ^ 32
  pub bidir : tp.initial_max_stream_id_bidir < 4 * 65535
  pub bidir_kind :
      0 < tp.initial_max_stream_id_bidir
      → tp.initial_max_stream_id_bidir % 4 ≡ stream_type_of mode 0
  pub unidir : tp.initial_max_stream_id_unidir < 4 * 65535
  pub unidir_kind :
      0 < tp.initial_max_stream_id_unidir
      → tp.initial_max_stream_id_unidir % 4 ≡ stream_type_of mode 2
  pub idle_timeout : tp.idle_timeout < 2 ^ 16
  pub max_packet_size : tp.max_packet_size < 2 ^ 16
  pub ack_delay_exponent : tp.ack_delay_exponent < 256
  pub no_preferred_address : tp.preferred_address.ip_version ≡ 0
  pub secret_length : length secret ≡ 16

-- A text that is not empty.
abbrev pub sent_text : List ℕ → Option (List ℕ)
sent_text [] = none
sent_text (b ∷ text) = some (b ∷ text)

-- What the peer has of the parameters.
unfoldable pub as_received : TransportParameters → List ℕ → List ℕ → TransportParameters
as_received tp supported to_inject = record tp {
  preferred_address = no_address;
  supported_plugins = sent_text supported;
  plugins_to_inject = sent_text to_inject;
}

zero_of_test : (n : ℕ) → ltb 0 n ≡ false → 0 ≡ n
zero_of_test n h = ground arith

three_of_test : (n : ℕ) → not (n == 3) ≡ false → 3 ≡ n
three_of_test n h = ground arith

length-format_16 : (n : ℕ) → length (format_16 n) < 65536
unfolding format_16
length-format_16 n = omega arith

length-format_32 : (n : ℕ) → length (format_32 n) < 65536
unfolding format_32
length-format_32 n = omega arith

module _ (mode : ℕ) (tp : TransportParameters) where
  supported-Sets :
      (text : List ℕ)
      → ltb 0 (length text) ≡ true
      → Sets mode 32 text tp (record tp { supported_plugins = sent_text text })
  supported-Sets [] h = cc
  supported-Sets (b ∷ text) h = supported_plugins-Sets mode tp b text

  to_inject-Sets :
      (text : List ℕ)
      → ltb 0 (length text) ≡ true
      → Sets mode 33 text tp (record tp { plugins_to_inject = sent_text text })
  to_inject-Sets [] h = cc
  to_inject-Sets (b ∷ text) h = plugins_to_inject-Sets mode tp b text

  migration-Sets :
      (test : Bool) → test ≡ true → Sets mode 9 [] tp (record tp { migration_disabled = test })
  migration-Sets true h = disable_migration-Sets mode tp
  migration-Sets false h = cc

client_sends_none : {mode : ℕ} → mode ≡ 1 → Follows mode 6 6
client_sends_none e = ground arith

no_text : (text : List ℕ) → ltb 0 (length text) ≡ false → none ≡ sent_text text
no_text [] h = refl
no_text (b ∷ text) h = absurd (ground arith)

module _ (tp : TransportParameters) where
  abbrev with_bidi_local : TransportParameters
  with_bidi_local = record default_parameters {
    initial_max_stream_data_bidi_local = tp.initial_max_stream_data_bidi_local;
  }

  abbrev with_max_data : TransportParameters
  with_max_data = record with_bidi_local { initial_max_data = tp.initial_max_data }

  abbrev with_bidir : TransportParameters
  with_bidir = record with_max_data { initial_max_stream_id_bidir = tp.initial_max_stream_id_bidir }

  abbrev with_timeout : TransportParameters
  with_timeout = record with_bidir { idle_timeout = tp.idle_timeout }

  abbrev with_packet_size : TransportParameters
  with_packet_size = record with_timeout { max_packet_size = tp.max_packet_size }

  abbrev with_exponent : TransportParameters
  with_exponent = record with_packet_size { ack_delay_exponent = tp.ack_delay_exponent }

  abbrev with_unidir : TransportParameters
  with_unidir = record with_exponent {
    initial_max_stream_id_unidir = tp.initial_max_stream_id_unidir;
  }

  abbrev with_migration : TransportParameters
  with_migration = record with_unidir { migration_disabled = tp.migration_disabled }

  abbrev with_bidi_remote : TransportParameters
  with_bidi_remote = record with_migration {
    initial_max_stream_data_bidi_remote = tp.initial_max_stream_data_bidi_remote;
  }

-- The loop over what is sent.
module _ (malloc_ok : ℕ → Bool) (every_ok : (type : ℕ) → malloc_ok type ≡ true) (mode index : ℕ)
    (tp : TransportParameters) (supported to_inject secret : List ℕ)
    (ok : IsSendable mode tp secret) (short : length supported < 65536)
    (short' : length to_inject < 65536) where
  abbrev pub Reads : ℕ → List ℕ → TransportParameters → Type 0
  Reads bound bytes sofar =
      Runs malloc_ok every_ok mode index bound bytes sofar (as_received tp supported to_inject)

  -- The last two.
  after_uni : TransportParameters
  after_uni = record tp {
    preferred_address = no_address;
    supported_plugins = none;
    plugins_to_inject = none;
  }

  texts-Reads : Reads 12 (texts mode tp supported to_inject secret) after_uni
  unfolding texts after_uni as_received
  texts-Reads =
      let with_supported = record after_uni { supported_plugins = sent_text supported } in
      let last = as_received tp supported to_inject in
      Runs-parameter_if malloc_ok every_ok mode index (ltb 0 (length supported)) 12 32 supported _
        after_uni with_supported last (ground arith) (omega arith) short
        (supported-Sets mode after_uni supported)
        (λ h.
          ap (λ (o : Option (List ℕ)). record after_uni { supported_plugins = o })
            (no_text supported h))
        (Runs-parameter_if malloc_ok every_ok mode index (ltb 0 (length to_inject)) 33 33 to_inject
          [] with_supported last last (ground arith) (omega arith) short'
          (to_inject-Sets mode with_supported to_inject)
          (λ h.
            ap (λ (o : Option (List ℕ)). record with_supported { plugins_to_inject = o })
              (no_text to_inject h))
          (Runs-end malloc_ok every_ok mode index 34 last (omega arith) (omega arith)))

  numbers-Reads : Reads 9 (numbers mode tp supported to_inject secret) (with_unidir tp)
  unfolding numbers after_uni
  numbers-Reads =
      let remote = tp.initial_max_stream_data_bidi_remote in
      let uni = tp.initial_max_stream_data_uni in
      Runs-parameter_if malloc_ok every_ok mode index tp.migration_disabled 9 9 [] _
        (with_unidir tp) (with_migration tp) _ (ground arith) (omega arith) (omega arith)
        (migration-Sets mode (with_unidir tp) tp.migration_disabled)
        (λ h. ap (λ (b : Bool). record (with_unidir tp) { migration_disabled = b }) (sym h))
        (Runs-parameter_if malloc_ok every_ok mode index (ltb 0 remote) 10 10 (format_32 remote) _
          (with_migration tp) (with_bidi_remote tp) _ (ground arith) (omega arith)
          (length-format_32 remote)
          (λ h. bidi_remote-Sets mode (with_migration tp) remote ok.bidi_remote)
          (λ h.
            ap (λ (n : ℕ). record (with_migration tp) { initial_max_stream_data_bidi_remote = n })
              (zero_of_test tp.initial_max_stream_data_bidi_remote h))
          (Runs-parameter_if malloc_ok every_ok mode index (ltb 0 uni) 11 11 (format_32 uni) _
            (with_bidi_remote tp) after_uni _ (ground arith) (omega arith) (length-format_32 uni)
            (λ h. uni-Sets mode (with_bidi_remote tp) uni ok.uni)
            (λ h.
              ap (λ (n : ℕ). record (with_bidi_remote tp) { initial_max_stream_data_uni = n })
                (zero_of_test tp.initial_max_stream_data_uni h))
            (texts-Reads)))

  optional-Reads : Reads 7 (optional mode tp supported to_inject secret) (with_packet_size tp)
  unfolding optional
  optional-Reads =
      let exponent = tp.ack_delay_exponent in
      let unidir = tp.initial_max_stream_id_unidir in
      let rank = prepare_transport_param_stream_id unidir mode 2 in
      Runs-parameter_if malloc_ok every_ok mode index (not (exponent == 3)) 7 7 (u8 exponent ∷ []) _
        (with_packet_size tp) (with_exponent tp) _ (ground arith) (omega arith) (omega arith)
        (λ h. ack_delay_exponent-Sets mode (with_packet_size tp) exponent ok.ack_delay_exponent)
        (λ h.
          ap (λ (n : ℕ). record (with_packet_size tp) { ack_delay_exponent = n })
            (three_of_test exponent h))
        (Runs-parameter_if malloc_ok every_ok mode index (ltb 0 unidir) 8 8 (format_16 rank) _
          (with_exponent tp) (with_unidir tp) _ (ground arith) (omega arith) (length-format_16 rank)
          (λ h.
            uni_streams-Sets mode (with_exponent tp) unidir (ltb→lt _ _ h) ok.unidir
              (ok.unidir_kind (ltb→lt _ _ h)))
          (λ h.
            ap (λ (n : ℕ). record (with_exponent tp) { initial_max_stream_id_unidir = n })
              (zero_of_test unidir h))
          (numbers-Reads))

  secret-Reads :
      (test : Bool)
      → (test ≡ true → mode ≡ 1)
      → Reads 6
          (parameter_if test 6 secret ++ optional mode tp supported to_inject secret)
          (with_packet_size tp)
  secret-Reads true server =
      Runs-parameter malloc_ok every_ok mode index 6 6 secret
        (optional mode tp supported to_inject secret) (with_packet_size tp) (with_packet_size tp) _
        (client_sends_none (server refl)) (omega (arith, ok.secret_length))
        (reset_secret-Sets mode (with_packet_size tp) secret (server refl) ok.secret_length)
        optional-Reads
  secret-Reads false server =
      Runs-raise malloc_ok every_ok mode index 6 7 (optional mode tp supported to_inject secret)
        (with_packet_size tp) _ (omega arith) (λ _. omega arith) optional-Reads

  required-Reads : Reads 3 (required mode tp supported to_inject secret) (with_bidir tp)
  unfolding required
  required-Reads =
      let timeout = tp.idle_timeout in
      let packet_size = tp.max_packet_size in
      Runs-parameter malloc_ok every_ok mode index 3 3 (format_16 (u16 timeout)) _ (with_bidir tp)
        (with_timeout tp) _ (ground arith) (length-format_16 (u16 timeout))
        (idle_timeout-Sets mode (with_bidir tp) timeout ok.idle_timeout)
        (Runs-parameter malloc_ok every_ok mode index 4 5 (format_16 (u16 packet_size)) _
          (with_timeout tp) (with_packet_size tp) _ (ground arith)
          (length-format_16 (u16 packet_size))
          (max_packet_size-Sets mode (with_timeout tp) packet_size ok.max_packet_size)
          (secret-Reads (mode == 1) (==_iff mode 1).0))

  pub everything-Reads : Reads 0 (everything mode tp supported to_inject secret) default_parameters
  unfolding everything
  everything-Reads =
      let local = tp.initial_max_stream_data_bidi_local in
      let max_data = tp.initial_max_data in
      let bidir = tp.initial_max_stream_id_bidir in
      let rank = prepare_transport_param_stream_id bidir mode 0 in
      Runs-parameter malloc_ok every_ok mode index 0 0 (format_32 local) _ default_parameters
        (with_bidi_local tp) _ (ground arith) (length-format_32 local)
        (bidi_local-Sets mode default_parameters local ok.bidi_local)
        (Runs-parameter malloc_ok every_ok mode index 1 1 (format_32 max_data) _
          (with_bidi_local tp) (with_max_data tp) _ (ground arith) (length-format_32 max_data)
          (max_data-Sets mode (with_bidi_local tp) max_data ok.max_data)
          (Runs-parameter_if malloc_ok every_ok mode index (ltb 0 bidir) 2 2 (format_16 rank) _
            (with_max_data tp) (with_bidir tp) _ (ground arith) (omega arith)
            (length-format_16 rank)
            (λ h.
              bidi_streams-Sets mode (with_max_data tp) bidir (ltb→lt _ _ h) ok.bidir
                (ok.bidir_kind (ltb→lt _ _ h)))
            (λ h.
              ap (λ (n : ℕ). record (with_max_data tp) { initial_max_stream_id_bidir = n })
                (zero_of_test bidir h))
            required-Reads))
