-- ===== src/Connection/Input.antt =====
-- picoquic_stream_network_input and the frames that change streams, in picoquic/frames.c.
use pquic.Base.{
  ℕ, ◌+◌, Bool, true, false, not, ◌&&◌, ◌||◌, none, some, List, [], ◌∷◌, ◌++◌, length, map, ltb,
  ◌==◌, if◌then◌else◌,
}
use pquic.Stream.{StreamHead, queue_network_input, stream_data_callback}
use pquic.Connection.{
  is_bidir, is_local, Cnx, data_event, reset_event, connection_error, put_stream, find_stream,
  find_or_create_stream, flow_control_check_stream_offset, final_offset_error, memory_error,
}

abbrev pub store : Cnx → StreamHead → Cnx
store cnx stream = record cnx { streams = put_stream stream cnx.streams }

-- The end of the frame against what is known of the stream's end and against flow control. The flag
-- of a fin is set before the offset is checked, and stays.
unfoldable pub admit : Cnx → StreamHead → ℕ → Bool → ℕ → Cnx × StreamHead × Bool
admit cnx stream new_fin_offset fin current_time =
    let conflict =
      if fin
      then not (stream.fin_offset == new_fin_offset)
      else ltb stream.fin_offset new_fin_offset in
    let ended = if fin then record stream { fin_received = true } else stream in
    let advanced = if fin then record cnx { latest_progress_time = current_time } else cnx in
    if stream.fin_received
    then (if conflict
        then (connection_error cnx final_offset_error 0, stream, false)
        else (cnx, stream, true))
    else (if ltb stream.fin_offset new_fin_offset
        then flow_control_check_stream_offset advanced ended new_fin_offset
        else (advanced, ended, true))

-- The data joins the queue, and the application is called if there is news.
unfoldable pub queue_and_notify : Bool → Cnx → StreamHead → ℕ → List ℕ → Bool → ℕ → Cnx × Bool
queue_and_notify malloc_ok cnx stream offset bytes should_notify current_time =
    let q = queue_network_input malloc_ok stream offset bytes in
    let queued = record stream { stream_data = q.blocks } in
    let advanced =
      if q.new_data_available then record cnx { latest_progress_time = current_time } else cnx in
    let (told, calls) = stream_data_callback queued in
    if q.no_memory
    then (connection_error (store cnx queued) memory_error 0, false)
    else (if should_notify || q.new_data_available
        then (
          record (store advanced told) {
            events = cnx.events ++ map (data_event stream.stream_id) calls;
          },
          true,
        )
        else (store advanced queued, true))

unfoldable pub network_input_on : Bool → Cnx → StreamHead → ℕ → Bool → List ℕ → ℕ → Cnx × Bool
network_input_on malloc_ok cnx stream offset fin bytes current_time =
    let (admitted, stream', accepted) = admit cnx stream (offset + length bytes) fin current_time in
    let should_notify = fin && not stream.fin_received in
    if accepted
    then queue_and_notify malloc_ok admitted stream' offset bytes should_notify current_time
    else (store admitted stream', false)

-- A STREAM frame: the connection afterwards, and whether the frame was accepted (return value 0).
unfoldable pub stream_network_input : Bool → Cnx → ℕ → ℕ → Bool → List ℕ → ℕ → Cnx × Bool
stream_network_input malloc_ok cnx stream_id offset fin bytes current_time =
    let (opened, found) = find_or_create_stream malloc_ok cnx stream_id true in
    elim found [
      | none ↦ (opened, false)
      | some stream ↦ network_input_on malloc_ok opened stream offset fin bytes current_time
    ]

unfoldable pub reset_on : Cnx → StreamHead → ℕ → ℕ → Cnx × Bool
reset_on cnx stream app_error_code final_offset =
    let (checked, stream', accepted) = flow_control_check_stream_offset cnx stream final_offset in
    let reset = record stream' { reset_received = true; remote_error = app_error_code } in
    if (stream.fin_received || stream.reset_received) && not (final_offset == stream.fin_offset)
    then (connection_error cnx final_offset_error 0x01, false)
    else (if not accepted
        then (store checked stream', false)
        else (if stream.reset_received then (store checked stream', true) else (
          record (store checked reset) {
            events = cnx.events ++ (reset_event stream.stream_id ∷ []);
          },
          true,
        )))

-- A RESET_STREAM frame; the flag reset_signalled is set with reset_received.
unfoldable pub process_stream_reset_frame : Bool → Cnx → ℕ → ℕ → ℕ → Cnx × Bool
process_stream_reset_frame malloc_ok cnx stream_id app_error_code final_offset =
    let (opened, found) = find_or_create_stream malloc_ok cnx stream_id true in
    elim found [
      | none ↦ (opened, false)
      | some stream ↦ reset_on opened stream app_error_code final_offset
    ]

unfoldable pub process_max_data_frame : Cnx → ℕ → Cnx
process_max_data_frame cnx maximum_data =
    if ltb cnx.maxdata_remote maximum_data
    then record cnx { maxdata_remote = maximum_data }
    else cnx

unfoldable pub process_max_stream_data_frame : Bool → Cnx → ℕ → ℕ → Cnx × Bool
process_max_stream_data_frame malloc_ok cnx stream_id maximum_stream_data =
    let (opened, found) = find_stream malloc_ok cnx stream_id true in
    elim found [
      | none ↦ (connection_error opened memory_error 0x05, false)
      | some stream ↦
          (if ltb stream.maxdata_remote maximum_stream_data
            then (store opened (record stream { maxdata_remote = maximum_stream_data }), true)
            else (opened, true))
    ]

-- The limit of a stream of ours, where the peer's parameter has a larger one.
unfoldable pub raise_remote : Cnx → StreamHead → StreamHead
raise_remote cnx stream =
    let limit =
      if is_bidir stream.stream_id
      then cnx.remote_parameters.bidi_remote
      else cnx.remote_parameters.uni in
    if is_local stream.stream_id cnx.client_mode && ltb stream.maxdata_remote limit
    then record stream { maxdata_remote = limit }
    else stream

unfoldable pub remote_loop : Cnx → List StreamHead → List StreamHead
remote_loop cnx [] = []
remote_loop cnx (stream ∷ later) = raise_remote cnx stream ∷ remote_loop cnx later

unfoldable pub update_stream_initial_remote : Cnx → Cnx
update_stream_initial_remote cnx = record cnx { streams = remote_loop cnx cnx.streams }
