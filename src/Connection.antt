-- ===== src/Connection.antt =====
-- picoquic/frames.c and quicctx.c, the streams of a connection: their creation, the receipt of STREAM,
-- RESET_STREAM, MAX_DATA and MAX_STREAM_DATA frames, and flow control. The list of streams is the
-- chain of `next_stream`; a stream is changed through its place there. Protocol operations run their
-- default implementation, and the application's callback calls nothing back.
pub mod Streams
pub mod Accounting
pub mod FlowControl
pub mod Limits
pub mod Input
use pquic.Base.{
  ℕ, ◌+◌, ◌-◌, ◌*◌, ◌/◌, ◌%◌, ◌≢◌, Bool, true, false, not, ◌&&◌, ◌||◌, Option, none, some, List, [],
  ◌∷◌, ◌++◌, length, map, ltb, leb, ◌==◌, if◌then◌else◌,
}
use mathlib.Core.Bool.{xor}
use pquic.Stream.{
  StreamData, StreamHead, Queued, Delivery, queue_network_input, stream_data_callback,
}

-- The enumerators of picoquic_state_enum that are compared or set here.
abbrev pub handshake_failure : ℕ
handshake_failure = 9

abbrev pub client_ready : ℕ
client_ready = 12

abbrev pub server_ready : ℕ
server_ready = 13

abbrev pub disconnecting : ℕ
disconnecting = 14

abbrev pub closing_received : ℕ
closing_received = 15

abbrev pub disconnected : ℕ
disconnected = 18

abbrev pub flow_control_error : ℕ
flow_control_error = 0x3

abbrev pub stream_id_error : ℕ
stream_id_error = 0x4

abbrev pub final_offset_error : ℕ
final_offset_error = 0x6

abbrev pub memory_error : ℕ
memory_error = 0x400 + 5

-- The initial limits of picoquic_tp_t for new streams.
pub record StreamLimits : Type 0 where
  pub bidi_local : ℕ
  pub bidi_remote : ℕ
  pub uni : ℕ

-- A call of the application's callback: for a stream data, picoquic_callback_stream_reset or
-- picoquic_callback_stop_sending; for the connection picoquic_callback_close or
-- picoquic_callback_application_close.
pub data Event : Type 0 where
  data_event : ℕ → Delivery → Event
  reset_event : ℕ → Event
  stop_sending_event : ℕ → Event
  close_event application_close_event : Event

-- The fields of picoquic_cnx_t that these operations use, and the calls of the callback so far.
pub record Cnx : Type 0 where
  pub client_mode : Bool
  pub cnx_state : ℕ
  pub local_error : ℕ
  pub offending_frame_type : ℕ
  pub remote_error : ℕ
  pub remote_application_error : ℕ
  pub maxdata_local : ℕ
  pub maxdata_remote : ℕ
  pub data_received : ℕ
  pub max_stream_id_bidir_local : ℕ
  pub max_stream_id_unidir_local : ℕ
  pub max_stream_id_bidir_remote : ℕ
  pub max_stream_id_unidir_remote : ℕ
  pub local_parameters : StreamLimits
  pub remote_parameters : StreamLimits
  pub latest_progress_time : ℕ
  pub streams : List StreamHead
  pub events : List Event

unfoldable pub connection_error : Cnx → ℕ → ℕ → Cnx
connection_error cnx error frame_type =
    let failed =
      if cnx.cnx_state == client_ready || cnx.cnx_state == server_ready
      then record cnx { local_error = error; cnx_state = disconnecting }
      else (if ltb cnx.cnx_state client_ready
          then record cnx { local_error = error; cnx_state = handshake_failure }
          else cnx) in
    record failed { offending_frame_type = frame_type }

abbrev pub is_bidir : ℕ → Bool
is_bidir id = id / 2 % 2 == 0

abbrev pub is_client_stream : ℕ → Bool
is_client_stream id = id % 2 == 0

-- ((id) ^ (client_mode)) & 1
abbrev pub is_local : ℕ → Bool → Bool
is_local id client_mode = xor (id % 2 == 1) client_mode

unfoldable pub new_stream : Cnx → ℕ → StreamHead
new_stream cnx id = record {
  stream_id = id;
  consumed_offset = 0;
  fin_offset = 0;
  maxdata_local =
      if is_local id cnx.client_mode
      then (if is_bidir id then cnx.local_parameters.bidi_local else 0)
      else (if is_bidir id then cnx.local_parameters.bidi_remote else cnx.local_parameters.uni);
  maxdata_remote =
      if is_local id cnx.client_mode
      then (if is_bidir id then cnx.remote_parameters.bidi_remote else cnx.remote_parameters.uni)
      else (if is_bidir id then cnx.remote_parameters.bidi_local else 0);
  remote_error = 0;
  remote_stop_error = 0;
  reset_received = false;
  fin_notified = false;
  fin_sent = false;
  fin_received = false;
  fin_signalled = false;
  reset_requested = false;
  stop_sending_received = false;
  stop_sending_signalled = false;
  stream_data = [];
}

-- The streams are kept in the order of their numbers.
unfoldable pub insert_stream : StreamHead → List StreamHead → List StreamHead
insert_stream stream [] = stream ∷ []
insert_stream stream (next ∷ later) =
    let further = next ∷ insert_stream stream later in
    if ltb next.stream_id stream.stream_id then further else stream ∷ next ∷ later

unfoldable pub find_in : ℕ → List StreamHead → Option StreamHead
find_in id [] = none
find_in id (s ∷ later) =
    let further = find_in id later in if s.stream_id == id then some s else further

-- A stream that changed, at its place in the chain.
unfoldable pub put_stream : StreamHead → List StreamHead → List StreamHead
put_stream s [] = []
put_stream s (t ∷ later) =
    let further = t ∷ put_stream s later in
    if t.stream_id == s.stream_id then s ∷ later else further

unfoldable pub create_stream : Cnx → ℕ → Cnx × StreamHead
create_stream cnx id =
    let stream = new_stream cnx id in
    (record cnx { streams = insert_stream stream cnx.streams }, stream)

-- picoquic_find_stream; `create` makes the stream where it is missing.
unfoldable pub find_stream : Bool → Cnx → ℕ → Bool → Cnx × Option StreamHead
find_stream malloc_ok cnx id create = elim (find_in id cnx.streams) [
  | some s ↦ (cnx, some s)
  | none ↦
      (if create && malloc_ok
        then ((create_stream cnx id).0, some (create_stream cnx id).1)
        else (cnx, none))
]

-- A stream of the peer's that the connection does not know, if its number is allowed.
unfoldable pub accept_stream : Bool → Cnx → ℕ → Bool → Cnx × Option StreamHead
accept_stream malloc_ok cnx id is_remote =
    let expect_client_stream = xor cnx.client_mode is_remote in
    let max_stream =
      if is_bidir id then cnx.max_stream_id_bidir_local else cnx.max_stream_id_unidir_local in
    let (opened, stream) = create_stream cnx id in
    let finished = record stream { fin_notified = true; fin_sent = true } in
    if xor (is_client_stream id) expect_client_stream || ltb max_stream id
    then (connection_error cnx stream_id_error 0, none)
    else (if not malloc_ok
        then (connection_error cnx memory_error 0, none)
        else (if is_bidir id
            then (opened, some stream)
            else (record opened { streams = put_stream finished opened.streams }, some finished)))

unfoldable pub find_or_create_stream : Bool → Cnx → ℕ → Bool → Cnx × Option StreamHead
find_or_create_stream malloc_ok cnx id is_remote = elim (find_in id cnx.streams) [
  | some s ↦ (cnx, some s)
  | none ↦ accept_stream malloc_ok cnx id is_remote
]

-- The connection, the stream, and whether the offset was accepted (return value 0).
unfoldable pub flow_control_check_stream_offset : Cnx → StreamHead → ℕ → Cnx × StreamHead × Bool
flow_control_check_stream_offset cnx stream new_fin_offset =
    let new_bytes = new_fin_offset - stream.fin_offset in
    if ltb stream.maxdata_local new_fin_offset
    then (connection_error cnx flow_control_error 0, stream, false)
    else (if ltb stream.fin_offset new_fin_offset
        then (if ltb cnx.maxdata_local new_bytes
              || ltb (cnx.maxdata_local - new_bytes) cnx.data_received
            then (connection_error cnx flow_control_error 0, stream, false)
            else (
              record cnx { data_received = cnx.data_received + new_bytes },
              record stream { fin_offset = new_fin_offset },
              true,
            ))
        else (cnx, stream, true))
