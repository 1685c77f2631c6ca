-- ===== src/Transport/Errors.antt =====
-- An error in the parameters ends the handshake.
use mathlib.Core.Path.{subst}
use pquic.Base.{
  ◌∙◌, refl, ℕ, zero, suc, ◌<◌, ◌/◌, ◌&&◌, ◌≡◌, Bool, true, false, not, List, ◌==◌, take, drop, [],
  if◌then◌else◌, arith, ◌||◌,
}
use pquic.Intformat.{parse_16}
use pquic.Connection.{connection_error}
use pquic.Connection.Input.{update_stream_initial_remote}
use pquic.Transport.Tp
use pquic.Transport.{version_at, Endpoint, TransportParameters}
use pquic.Transport.Receive.{
  ReceiveRet, Receiving, received, error_detected, version_spoofed, is_zero, parameter_error,
  set_remote, update_streams, expect, receive_initial_max_data, receive_bidi_streams,
  receive_uni_streams, receive_reset_secret, receive_preferred_address, receive_parameter,
  note_present, elem,
}
use pquic.Transport.Extensions.{
  Place, at_bytes, outside_buffer, out_of_fuel, receive_loop, client_hello_version, server_versions,
  find_proposed, server_extension_versions, receive_versions, before_bytes, default_parameters,
  receive_all, finish, draft_13_defaults, check_presence, and_then, receive_transport_extensions,
}

-- PICOQUIC_ERROR_DETECTED
abbrev pub is_error : ReceiveRet → Bool
is_error received = false
is_error error_detected = true
is_error version_spoofed = false

module _ (old_state old_error : ℕ) where
  -- The connection is not ready yet, and an error, and nothing else, is noted in it.
  pub record IsMarked (s : Receiving) : Type 0 where
    pub early : s.endpoint.cnx.cnx_state < 12
    pub state : s.endpoint.cnx.cnx_state ≡ (if is_error s.ret then 9 else old_state)
    pub error : s.endpoint.cnx.local_error ≡ (if is_error s.ret then 0x8 else old_error)

  parameter_error-IsMarked : (s : Receiving) → IsMarked s → IsMarked (parameter_error s)
  unfolding parameter_error connection_error
  parameter_error-IsMarked s m = ground (arith, m.early)

  set_remote-IsMarked :
      (s : Receiving) (tp : TransportParameters) → IsMarked s → IsMarked (set_remote s tp)
  unfolding set_remote
  set_remote-IsMarked s tp m = record { early = m.early; state = m.state; error = m.error }

  update_streams-IsMarked : (s : Receiving) → IsMarked s → IsMarked (update_streams s)
  unfolding update_streams update_stream_initial_remote
  update_streams-IsMarked s m = record { early = m.early; state = m.state; error = m.error }

  expect-IsMarked :
      (size : ℕ) (value : List ℕ) (s done : Receiving)
      → IsMarked s
      → IsMarked done
      → IsMarked (expect size value s done)
  unfolding expect
  expect-IsMarked size value s done m m' = ground (arith, parameter_error-IsMarked s m)

  note_present-IsMarked : (type : ℕ) (s : Receiving) → IsMarked s → IsMarked (note_present type s)
  unfolding note_present
  note_present-IsMarked type s m = ground (arith, parameter_error-IsMarked s m)

  choose-IsMarked :
      (test : Bool) (s s' : Receiving)
      → IsMarked s
      → IsMarked s'
      → IsMarked (if test then s else s')
  choose-IsMarked true s s' m m' = m
  choose-IsMarked false s s' m m' = m'

  -- The fields that the handlers set besides the parameters.
  receive_initial_max_data-IsMarked :
      (value : List ℕ) (s : Receiving) → IsMarked s → IsMarked (receive_initial_max_data value s)
  unfolding receive_initial_max_data set_remote
  receive_initial_max_data-IsMarked value s m =
      expect-IsMarked 4 value s _ m (record { early = m.early; state = m.state; error = m.error })

  receive_bidi_streams-IsMarked :
      (mode : ℕ) (value : List ℕ) (s : Receiving)
      → IsMarked s
      → IsMarked (receive_bidi_streams mode value s)
  unfolding receive_bidi_streams set_remote
  receive_bidi_streams-IsMarked mode value s m =
      expect-IsMarked 2 value s _ m (record { early = m.early; state = m.state; error = m.error })

  receive_uni_streams-IsMarked :
      (mode : ℕ) (value : List ℕ) (s : Receiving)
      → IsMarked s
      → IsMarked (receive_uni_streams mode value s)
  unfolding receive_uni_streams set_remote
  receive_uni_streams-IsMarked mode value s m =
      expect-IsMarked 2 value s _ m (record { early = m.early; state = m.state; error = m.error })

  receive_reset_secret-IsMarked :
      (mode : ℕ) (value : List ℕ) (s : Receiving)
      → IsMarked s
      → IsMarked (receive_reset_secret mode value s)
  unfolding receive_reset_secret
  receive_reset_secret-IsMarked mode value s m =
      choose-IsMarked _ _ _ (parameter_error-IsMarked s m) (
        expect-IsMarked 16 value s _ m
          (record { early = m.early; state = m.state; error = m.error }))

  receive_preferred_address-IsMarked :
      (value : List ℕ) (s : Receiving) → IsMarked s → IsMarked (receive_preferred_address value s)
  unfolding receive_preferred_address
  receive_preferred_address-IsMarked value s m =
      let noted = set_remote-IsMarked s _ m in
      choose-IsMarked _ _ _ (parameter_error-IsMarked _ noted) noted

  set_checked-IsMarked :
      (size : ℕ) (value : List ℕ) (s : Receiving) (tp : TransportParameters)
      → IsMarked s
      → IsMarked (expect size value s (set_remote s tp))
  set_checked-IsMarked size value s tp m =
      expect-IsMarked size value s _ m (set_remote-IsMarked s tp m)

  receive_parameter-IsMarked :
      (malloc_ok : Bool) (mode type : ℕ) (value : List ℕ) (s : Receiving)
      → IsMarked s
      → IsMarked (receive_parameter malloc_ok mode type value s)
  unfolding receive_parameter
  receive_parameter-IsMarked malloc_ok mode type value s m =
      let limit = λ (tp : TransportParameters).
        update_streams-IsMarked _ (set_checked-IsMarked 4 value s tp m) in
      let number =
        λ (size : ℕ) (tp : TransportParameters). set_checked-IsMarked size value s tp m in
      choose-IsMarked (type == 0) _ _ (limit _) (
        choose-IsMarked (type == 10) _ _ (limit _) (
          choose-IsMarked (type == 11) _ _ (limit _) (
            choose-IsMarked (type == 1) _ _ (receive_initial_max_data-IsMarked value s m) (
              choose-IsMarked (type == 2) _ _ (receive_bidi_streams-IsMarked mode value s m) (
                choose-IsMarked (type == 3) _ _ (number 2 _) (
                  choose-IsMarked (type == 5) _ _ (number 2 _) (
                    choose-IsMarked (type == 6) _ _ (receive_reset_secret-IsMarked mode value s m) (
                      choose-IsMarked (type == 7) _ _ (number 1 _) (
                        choose-IsMarked (type == 8) _ _
                          (receive_uni_streams-IsMarked mode value s m)
                          (choose-IsMarked (type == 4) _ _
                            (receive_preferred_address-IsMarked value s m)
                            (choose-IsMarked (type == 9) _ _ (number 0 _) (
                              choose-IsMarked (type == 32) _ _ (set_remote-IsMarked s _ m) (
                                choose-IsMarked (type == 33) _ _ (set_remote-IsMarked s _ m)
                                  m)))))))))))))

  -- Of a place that is reached.
  data Marks : Place → Type 0 where
    reached : {s : Receiving} {bytes : List ℕ} → IsMarked s → Marks (at_bytes s bytes)
    outside : Marks outside_buffer
    unfinished : Marks out_of_fuel

  choose-Marks : (test : Bool) (p q : Place) → Marks p → Marks q → Marks (if test then p else q)
  choose-Marks true p q m m' = m
  choose-Marks false p q m m' = m'

  receive_loop-Marks :
      (malloc_ok : ℕ → Bool) (mode fuel : ℕ) (bytes : List ℕ) (s : Receiving)
      → IsMarked s
      → Marks (receive_loop malloc_ok mode fuel bytes s)
  unfolding receive_loop
  receive_loop-Marks malloc_ok mode zero bytes s m = unfinished
  receive_loop-Marks malloc_ok mode (suc fuel) bytes s m =
      let failed = parameter_error-IsMarked s m in
      let type = parse_16 bytes 0 in
      let size = parse_16 bytes 2 in
      let value = take size (drop 4 bytes) in
      let noted = note_present-IsMarked type s m in
      let after = receive_parameter-IsMarked (malloc_ok type) mode type value _ noted in
      let later = receive_loop-Marks malloc_ok mode fuel (drop size (drop 4 bytes)) _ after in
      search (choose-Marks, reached, m, failed, later, after)

  -- Nothing has been refused yet.
  spoofed-IsMarked :
      (s : Receiving)
      → IsMarked s
      → s.ret ≡ received
      → IsMarked (record s { ret = version_spoofed })
  spoofed-IsMarked s m ok = record {
    early = m.early;
    state = m.state ∙ rw ok refl;
    error = m.error ∙ rw ok refl;
  }

  client_hello_version-Marks :
      (bytes : List ℕ) (s : Receiving)
      → IsMarked s
      → s.ret ≡ received
      → Marks (client_hello_version bytes s)
  unfolding client_hello_version
  client_hello_version-Marks bytes s m ok =
      search (choose-Marks, reached, parameter_error-IsMarked s m, spoofed-IsMarked s m ok, m)

  server_versions-Marks :
      (size : ℕ) (bytes : List ℕ) (s : Receiving)
      → IsMarked s
      → s.ret ≡ received
      → Marks (server_versions size bytes s)
  unfolding server_versions
  server_versions-Marks size bytes s m ok =
      let found = find_proposed s.endpoint.proposed_version (size / 4) bytes in
      let looked = choose-IsMarked found.0 _ _ (spoofed-IsMarked s m ok) m in
      search (choose-Marks, reached, parameter_error-IsMarked s m, looked, m)

  server_extension_versions-Marks :
      (bytes : List ℕ) (s : Receiving)
      → IsMarked s
      → s.ret ≡ received
      → Marks (server_extension_versions bytes s)
  unfolding server_extension_versions
  server_extension_versions-Marks bytes s m ok = search (
    choose-Marks,
    reached,
    outside,
    server_versions-Marks,
    parameter_error-IsMarked s m,
    spoofed-IsMarked s m ok,
    m,
    ok,
  )

  receive_versions-Marks :
      (mode : ℕ) (bytes : List ℕ) (s : Receiving)
      → IsMarked s
      → s.ret ≡ received
      → Marks (receive_versions mode bytes s)
  unfolding receive_versions
  receive_versions-Marks mode bytes s m ok =
      search
        (choose-Marks, client_hello_version-Marks, server_extension_versions-Marks, reached, m, ok)

  before_bytes-Marks : (behind : List ℕ) (p : Place) → Marks p → Marks (before_bytes behind p)
  unfolding before_bytes
  before_bytes-Marks behind (at_bytes s bytes) (reached m) = reached m
  before_bytes-Marks behind outside_buffer m = outside
  before_bytes-Marks behind out_of_fuel m = unfinished

  receive_all-Marks :
      (malloc_ok : ℕ → Bool) (mode : ℕ) (bytes : List ℕ) (s : Receiving)
      → IsMarked s
      → Marks (receive_all malloc_ok mode bytes s)
  unfolding receive_all
  receive_all-Marks malloc_ok mode bytes s m =
      let failed = parameter_error-IsMarked s m in
      let cleared = set_remote-IsMarked s default_parameters m in
      let cleared_failed = parameter_error-IsMarked _ cleared in
      let loop =
        λ (fuel : ℕ) (params : List ℕ). receive_loop-Marks malloc_ok mode fuel params _ cleared in
      search (choose-Marks, reached, outside, failed, cleared_failed, before_bytes-Marks, loop)

  draft_13_defaults-IsMarked : (s : Receiving) → IsMarked s → IsMarked (draft_13_defaults s)
  unfolding draft_13_defaults
  draft_13_defaults-IsMarked s m =
      let draft_13 = version_at s.endpoint.version_index == 0xFF00000D in
      choose-IsMarked draft_13 _ _ (set_remote-IsMarked s _ m) m

  check_presence-IsMarked :
      (mode : ℕ) (s : Receiving) → IsMarked s → IsMarked (check_presence mode s)
  unfolding check_presence
  check_presence-IsMarked mode s m =
      let untimed = is_zero s.ret && not (elem Tp.idle_timeout s.present) in
      let timed = if untimed then parameter_error s else s in
      let m' = choose-IsMarked untimed _ _ (parameter_error-IsMarked s m) m in
      let foreign =
        is_zero timed.ret
        && mode == 0
        && (elem Tp.reset_secret timed.present || elem Tp.server_preferred_address timed.present) in
      choose-IsMarked foreign _ _ (parameter_error-IsMarked timed m') m'

  finish-Marks : (mode : ℕ) (p : Place) → Marks p → Marks (finish mode p)
  unfolding finish
  finish-Marks mode (at_bytes s bytes) (reached m) =
      reached (check_presence-IsMarked mode _ (draft_13_defaults-IsMarked s m))
  finish-Marks mode outside_buffer m = outside
  finish-Marks mode out_of_fuel m = unfinished

  and_then-Marks :
      (p : Place) (f : List ℕ → Receiving → Place)
      → Marks p
      → ((bytes : List ℕ) (s : Receiving) → IsMarked s → Marks (f bytes s))
      → Marks (and_then p f)
  unfolding and_then
  and_then-Marks (at_bytes s bytes) f (reached m) h = h bytes s m
  and_then-Marks outside_buffer f m h = outside
  and_then-Marks out_of_fuel f m h = unfinished

  at_place : (s : Receiving) (bytes : List ℕ) → Marks (at_bytes s bytes) → IsMarked s
  at_place s bytes (reached m) = m

-- Where the connection is not ready and the function returns, the connection has failed in its handshake with the
-- transport parameter error if the value returned is that of an error of the connection; otherwise, where the
-- parameters are taken or a version is refused, the state and the error of the connection are as before.
pub receive_transport_extensions-IsMarked :
    (malloc_ok : ℕ → Bool) (e : Endpoint) (mode : ℕ) (bytes rest : List ℕ) (s : Receiving)
    → e.cnx.cnx_state < 12
    → receive_transport_extensions malloc_ok e mode bytes ≡ at_bytes s rest
    → (s.endpoint.cnx.cnx_state ≡ (if is_error s.ret then 9 else e.cnx.cnx_state))
      × (s.endpoint.cnx.local_error ≡ (if is_error s.ret then 0x8 else e.cnx.local_error))
unfolding receive_transport_extensions
receive_transport_extensions-IsMarked malloc_ok e mode bytes rest s early h =
    let start : Receiving = record {
      endpoint = record e { remote_parameters_received = true };
      ret = received;
      present = [];
    } in
    let old = e.cnx.cnx_state in
    let old_error = e.cnx.local_error in
    let m : IsMarked old old_error start = record { early = early; state = refl; error = refl } in
    let all = finish-Marks old old_error mode _ (
      and_then-Marks old old_error _ (receive_all malloc_ok mode)
        (receive_versions-Marks old old_error mode bytes start m refl)
        (receive_all-Marks old old_error malloc_ok mode)) in
    let marked = at_place old old_error s rest (subst (Marks old old_error) h all) in
    (marked.state, marked.error)
