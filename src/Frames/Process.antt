-- ===== src/Frames/Process.antt =====
-- picoquic/frames.c, the processing of parsed frames, operation PROTOOP_PARAM_PROCESS_FRAME, for the
-- frames that change the connection or its streams.
use mathlib.Core.Bool.{xor}
use pquic.Base.{ℕ, Bool, true, false, ◌||◌, none, some, [], ◌∷◌, ◌++◌, ltb, if◌then◌else◌}
use pquic.Stream.{StreamHead}
use pquic.Connection.{
  Cnx, stop_sending_event, close_event, application_close_event, connection_error,
  find_or_create_stream, is_bidir, is_client_stream, client_ready, closing_received, disconnected,
  stream_id_error,
}
use pquic.Connection.Input.{
  store, stream_network_input, process_stream_reset_frame, process_max_data_frame,
  process_max_stream_data_frame,
}
use pquic.Frames.FrameType
use pquic.Frames.Frame.{
  Frame, padding_or_ping, reset_stream, connection_close, application_close, max_data,
  max_stream_data, max_stream_id, blocked, stream_blocked, stream_id_blocked, new_connection_id,
  stop_sending, stream, new_token,
}

-- The application hears of the request once.
unfoldable pub stop_on : Cnx → StreamHead → ℕ → Cnx × Bool
stop_on cnx s application_error_code =
    let stopped = record s {
      stop_sending_received = true;
      remote_stop_error = application_error_code;
      stop_sending_signalled = true;
    } in
    let told =
      if s.stop_sending_signalled
      then cnx.events
      else cnx.events ++ (stop_sending_event s.stream_id ∷ []) in
    if s.stop_sending_received || s.reset_requested
    then (cnx, true)
    else (record (store cnx stopped) { events = told }, true)

-- Like the other operations it returns the connection, and whether the frame was accepted (return
-- value 0).
unfoldable pub process_stop_sending_frame : Bool → Cnx → ℕ → ℕ → Cnx × Bool
process_stop_sending_frame malloc_ok cnx stream_id application_error_code =
    let (opened, found) = find_or_create_stream malloc_ok cnx stream_id true in
    elim found [ none ↦ (opened, false) | some s ↦ stop_on opened s application_error_code ]

-- The state after a peer's close.
unfoldable pub closed_state : ℕ → ℕ
closed_state cnx_state = if ltb cnx_state client_ready then disconnected else closing_received

unfoldable pub process_connection_close_frame : Cnx → ℕ → Cnx
unfolding closed_state
process_connection_close_frame cnx error_code = record cnx {
  remote_error = error_code;
  cnx_state = closed_state cnx.cnx_state;
  events = cnx.events ++ (close_event ∷ []);
}

unfoldable pub process_application_close_frame : Cnx → ℕ → Cnx
unfolding closed_state
process_application_close_frame cnx error_code = record cnx {
  remote_application_error = error_code;
  cnx_state = closed_state cnx.cnx_state;
  events = cnx.events ++ (application_close_event ∷ []);
}

-- The larger of a limit and a new one.
abbrev raised : ℕ → ℕ → ℕ
raised max_id new = if ltb max_id new then new else max_id

unfoldable pub process_max_stream_id_frame : Cnx → ℕ → Cnx × Bool
process_max_stream_id_frame cnx id =
    let bidir = record cnx {
      max_stream_id_bidir_remote = raised cnx.max_stream_id_bidir_remote id;
    } in
    let unidir = record cnx {
      max_stream_id_unidir_remote = raised cnx.max_stream_id_unidir_remote id;
    } in
    if xor cnx.client_mode (is_client_stream id)
    then (connection_error cnx stream_id_error FrameType.max_stream_id, false)
    else if is_bidir id
    then (bidir, true)
    else (unidir, true)

-- The rest belongs to operations on other state: PING and path validation to the path, acknowledgements to
-- its packets, CRYPTO frames to the streams of the handshake, and the frames of plugins.
unfoldable pub process_frame : (Frame → Cnx → Cnx × Bool) → Bool → ℕ → Frame → Cnx → Cnx × Bool
unfolding process_stop_sending_frame process_connection_close_frame process_application_close_frame
    process_max_stream_id_frame
process_frame other malloc_ok now (padding_or_ping false _) cnx = (cnx, true)
process_frame other malloc_ok now (reset_stream stream_id app_error_code final_offset) cnx =
    process_stream_reset_frame malloc_ok cnx stream_id app_error_code final_offset
process_frame other malloc_ok now (connection_close error_code _ _ _) cnx =
    (process_connection_close_frame cnx error_code, true)
process_frame other malloc_ok now (application_close error_code _ _) cnx =
    (process_application_close_frame cnx error_code, true)
process_frame other malloc_ok now (max_data maximum_data) cnx =
    (process_max_data_frame cnx maximum_data, true)
process_frame other malloc_ok now (max_stream_data stream_id maximum_stream_data) cnx =
    process_max_stream_data_frame malloc_ok cnx stream_id maximum_stream_data
process_frame other malloc_ok now (max_stream_id maximum_stream_id) cnx =
    process_max_stream_id_frame cnx maximum_stream_id
process_frame other malloc_ok now (blocked _) cnx = (cnx, true)
process_frame other malloc_ok now (stream_blocked _ _) cnx = (cnx, true)
process_frame other malloc_ok now (stream_id_blocked _) cnx = (cnx, true)
process_frame other malloc_ok now (new_connection_id _ _ _) cnx = (cnx, true)
process_frame other malloc_ok now (new_token _ _) cnx = (cnx, true)
process_frame other malloc_ok now (stop_sending stream_id application_error_code) cnx =
    process_stop_sending_frame malloc_ok cnx stream_id application_error_code
process_frame other malloc_ok now (stream stream_id offset _ fin bytes) cnx =
    stream_network_input malloc_ok cnx stream_id offset fin bytes now
process_frame other malloc_ok now frame cnx = other frame cnx
