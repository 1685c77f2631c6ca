-- ===== src/Transport/Exchange.antt =====
-- The parameters of one endpoint written, and read by the other.
use pquic.Base.{
  ℕ, suc, ◌+◌, ◌^◌, ◌≤◌, ◌<◌, ◌≡◌, ◌≢◌, ◌⊎◌, refl, sym, ap, ◌∙◌, Bool, true, false, some, List,
  Option, [], ◌∷◌, ◌++◌, length, ltb, ◌==◌, arith, inl, inr, ==_iff, le→ltb, Bool-cases,
  ne→==_false, length-append, take-append, drop-append,
}
use mathlib.Core.List.{append_assoc}
use pquic.Intformat.{format_16, format_32}
use pquic.Intformat.FixedWidth.{parse_16-format_16}
use pquic.Transport.{PreferredAddress, TransportParameters, Endpoint, version_at}
use pquic.Transport.Prepare.{
  first_parameters, address_parameter, last_parameters, header_size, version_header, all_versions,
  plugins_transport_parameter, list_transport_parameter, prepare_transport_extensions,
}
use pquic.Transport.Receive.{Receiving, received, is_zero, set_remote}
use pquic.Transport.Extensions.{
  at_bytes, receive_loop, default_parameters, before_bytes, receive_all, draft_13_defaults,
  check_presence, finish, and_then, receive_transport_extensions,
}
use pquic.Transport.Versions.{VersionsAgree, receive_versions-version_header}
use pquic.Transport.Run.{IsAt, Runs}
use pquic.Transport.RoundTrip.{IsSendable, as_received, everything-Reads}
use pquic.Transport.Sent.{everything, everything-parameters, parameters_size-length}

module _ (malloc_ok : ℕ → Bool) (every_ok : (type : ℕ) → malloc_ok type ≡ true) where
  receive_all_end :
      (mode : ℕ) (bytes behind : List ℕ) (s s' : Receiving)
      → length bytes < 65536
      → receive_loop malloc_ok mode (suc (length bytes)) bytes (set_remote s default_parameters)
        ≡ at_bytes s' []
      → receive_all malloc_ok mode (format_16 (length bytes) ++ (bytes ++ behind)) s
        ≡ at_bytes s' behind
  unfolding receive_all before_bytes format_16
  receive_all_end mode bytes behind s s' short e =
      let rest = bytes ++ behind in
      let size = parse_16-format_16 (length bytes) rest short in
      let total = length-append bytes behind in
      let long : ltb (length (format_16 (length bytes) ++ rest)) 2 ≡ false =
        le→ltb _ _ (omega arith) in
      let inside : ltb (length rest) (length bytes) ≡ false = le→ltb _ _ (omega (arith, total)) in
      rw (size, long, inside, take-append bytes behind, drop-append bytes behind, e) refl

  cleared-IsAt :
      (mode : ℕ) (s : Receiving)
      → s.ret ≡ received
      → s.present ≡ []
      → IsAt mode 0 s.endpoint.version_index default_parameters (set_remote s default_parameters)
  unfolding set_remote
  cleared-IsAt mode s clean none_seen = record {
    ret = clean;
    remote = refl;
    version = refl;
    below = rw none_seen tt;
    timed = λ l. absurd (omega arith);
    address = rw none_seen refl;
    secret = λ m. rw none_seen refl;
  }

  receive_all-Runs :
      (mode : ℕ) (tp : TransportParameters) (bytes behind : List ℕ) (s : Receiving)
      → Runs malloc_ok every_ok mode s.endpoint.version_index 0 bytes default_parameters tp
      → s.ret ≡ received
      → s.present ≡ []
      → length bytes < 65536
      → (s' : Receiving) × (receive_all malloc_ok mode
            (format_16 (length bytes) ++ (bytes ++ behind))
            s
          ≡ at_bytes s' behind)
        × IsAt mode 64 s.endpoint.version_index tp s'
  receive_all-Runs mode tp bytes behind s runs clean none_seen short =
      let (s', e, end) =
        runs (set_remote s default_parameters) (cleared-IsAt mode s clean none_seen)
          (suc (length bytes)) (omega arith) in
      (s', receive_all_end mode bytes behind s s' short e, end)

  finish-IsAt :
      (mode index : ℕ) (tp : TransportParameters) (behind : List ℕ) (s : Receiving)
      → IsAt mode 64 index tp s
      → version_at index ≢ 0xFF00000D
      → finish mode (at_bytes s behind) ≡ at_bytes s behind
  unfolding finish draft_13_defaults check_presence
  finish-IsAt mode index tp behind s at newer =
      let old : (version_at s.endpoint.version_index == 0xFF00000D) ≡ false =
        ne→==_false _ _ (λ e. newer (ap version_at (sym at.version) ∙ e)) in
      let clean : is_zero s.ret ≡ true = ap is_zero at.ret in
      let timed = at.timed (omega arith) in
      elim (Bool-cases (mode == 0)) [
        | inl client ↦
            rw (old, clean, timed, clean, client, at.secret ((==_iff mode 0).0 client), at.address)
              refl
        | inr server ↦ rw (old, clean, timed, clean, server) refl
      ]

sent_plugins :
    (names : List (List ℕ)) (old : Option (List ℕ))
    → (plugins_transport_parameter true names old).0 ≡ list_transport_parameter names
unfolding plugins_transport_parameter list_transport_parameter
sent_plugins [] old = refl
sent_plugins (name ∷ names) old = refl

length-version_header :
    (mode : ℕ) (sender : Endpoint)
    → (mode ≡ 0) ⊎ (mode ≡ 1)
    → length (version_header mode sender) ≡ header_size mode
unfolding version_header header_size format_32 all_versions
length-version_header mode sender (inl client) = rw client refl
length-version_header mode sender (inr server) = rw server refl

-- Without a preferred address.
no_address_parameter :
    (bytes_max byte_index : ℕ) (a : PreferredAddress)
    → a.ip_version ≡ 0
    → address_parameter bytes_max byte_index a ≡ []
unfolding address_parameter
no_address_parameter bytes_max byte_index a h =
    let absent : (a.ip_version == 0) ≡ true = (==_iff _ _).1 h in rw absent refl

joined_parts :
    (header size first last all : List ℕ)
    → first ++ last ≡ all
    → (header ++ (size ++ first)) ++ last ≡ header ++ (size ++ all)
joined_parts header size first last all e =
    append_assoc header (size ++ first) last
    ∙ ap (λ (b : List ℕ). header ++ b)
        (append_assoc size first last ∙ ap (λ (b : List ℕ). size ++ b) e)

module _ (mode : ℕ) (sender : Endpoint) (plugins plugins' : List (List ℕ)) where
  sent : List ℕ
  sent =
      everything mode sender.local_tp (list_transport_parameter plugins)
        (list_transport_parameter plugins') sender.reset_secret

  prepare_transport_extensions-size :
      (bytes_max : ℕ)
      → IsSendable mode sender.local_tp sender.reset_secret
      → length (list_transport_parameter plugins) + length (list_transport_parameter plugins')
        < 65000
      → ((prepare_transport_extensions true plugins true plugins' sender mode bytes_max).2
          ≡ header_size mode + length sent + 2)
        × (length sent < 65536)
  unfolding prepare_transport_extensions sent
  prepare_transport_extensions-size bytes_max ok small =
      let text = list_transport_parameter plugins in
      let text' = list_transport_parameter plugins' in
      let (size, short) =
        parameters_size-length mode sender.local_tp text text' sender.reset_secret
          ok.no_preferred_address ok.secret_length small in
      (rw (sent_plugins plugins, sent_plugins plugins', size) refl, short)

  prepare_transport_extensions-sent :
      (bytes_max : ℕ)
      → IsSendable mode sender.local_tp sender.reset_secret
      → length (list_transport_parameter plugins) + length (list_transport_parameter plugins')
        < 65000
      → header_size mode + length sent + 2 ≤ bytes_max
      → (prepare_transport_extensions true plugins true plugins' sender mode bytes_max).1
        ≡ some (version_header mode sender ++ (format_16 (length sent) ++ sent))
  unfolding prepare_transport_extensions sent
  prepare_transport_extensions-sent bytes_max ok small fits =
      let tp = sender.local_tp in
      let text = list_transport_parameter plugins in
      let text' = list_transport_parameter plugins' in
      let (size, short) =
        parameters_size-length mode tp text text' sender.reset_secret ok.no_preferred_address
          ok.secret_length small in
      let enough : ltb bytes_max (header_size mode + length sent + 2) ≡ false = le→ltb _ _ fits in
      let absent = λ (index : ℕ).
        no_address_parameter bytes_max index tp.preferred_address ok.no_preferred_address in
      let joined =
        joined_parts (version_header mode sender) (format_16 (length sent))
          (first_parameters mode tp sender.reset_secret) (last_parameters tp text text') sent
          (everything-parameters mode tp text text' sender.reset_secret) in
      rw (sent_plugins plugins, sent_plugins plugins', size, enough, absent _) (ap some joined)

-- The state at the beginning.
start : Endpoint → Receiving
start e = record {
  endpoint = record e { remote_parameters_received = true };
  ret = received;
  present = [];
}

-- The parameters that are sent, without a preferred address, in a client hello or a server's
-- extension arrive: the message has the size that is announced, the peer reads all of it without an
-- error, and has then the parameters of the sender and the texts of its plugins, where the numbers
-- fit their fields, there is memory and room, and both sides use one version newer than draft 13.
pub receive-prepare_transport_extensions :
    (malloc_ok : ℕ → Bool) (mode : ℕ) (sender receiver : Endpoint)
    (plugins plugins' : List (List ℕ)) (bytes_max : ℕ) (behind : List ℕ)
    → ((type : ℕ) → malloc_ok type ≡ true)
    → (mode ≡ 0) ⊎ (mode ≡ 1)
    → VersionsAgree mode sender receiver
    → sender.proposed_version < 2 ^ 32
    → IsSendable mode sender.local_tp sender.reset_secret
    → length (list_transport_parameter plugins) + length (list_transport_parameter plugins') < 65000
    → (prepare_transport_extensions true plugins true plugins' sender mode bytes_max).2 ≤ bytes_max
    → let prepared =
        prepare_transport_extensions true plugins true plugins' sender mode bytes_max in
      (bytes : List ℕ) × (s : Receiving) × (prepared.1 ≡ some bytes)
      × (prepared.2 ≡ length bytes)
      × (receive_transport_extensions malloc_ok receiver mode (bytes ++ behind) ≡ at_bytes s behind)
      × (s.ret ≡ received)
      × (s.endpoint.remote_tp
          ≡ as_received sender.local_tp
              (list_transport_parameter plugins)
              (list_transport_parameter plugins'))
unfolding receive_transport_extensions and_then start format_16 sent
receive-prepare_transport_extensions malloc_ok mode sender receiver plugins plugins' bytes_max
      behind every_ok which agree proposed ok small room =
    let all = sent mode sender plugins plugins' in
    let text = list_transport_parameter plugins in
    let text' = list_transport_parameter plugins' in
    let (size, short) =
      prepare_transport_extensions-size mode sender plugins plugins' bytes_max ok small in
    let header = version_header mode sender in
    let bytes = header ++ (format_16 (length all) ++ all) in
    let total = length-append header (format_16 (length all) ++ all) in
    let header_length = length-version_header mode sender which in
    let (s, e, end) =
      receive_all-Runs malloc_ok every_ok mode (as_received sender.local_tp text text') all behind
        (start receiver)
        (everything-Reads malloc_ok every_ok mode receiver.version_index sender.local_tp text text'
          sender.reset_secret ok (omega arith) (omega arith))
        refl refl short in
    let joined =
      append_assoc header (format_16 (length all) ++ all) behind
      ∙ ap (λ (b : List ℕ). header ++ b) (append_assoc (format_16 (length all)) all behind) in
    let versions =
      receive_versions-version_header mode sender receiver
        (format_16 (length all) ++ (all ++ behind)) (start receiver) which agree proposed refl
        refl in
    let finished =
      finish-IsAt malloc_ok every_ok mode receiver.version_index _ behind s end agree.newer in
    (
      bytes,
      s,
      prepare_transport_extensions-sent mode sender plugins plugins' bytes_max ok small
          (omega (arith, size)),
      omega (arith, size, total, header_length),
      rw (joined, versions, e) finished,
      end.ret,
      end.remote,
    )
