-- ===== src/Tests/Streams.antt =====
-- Runs of the receiving side of a stream and of the connection's flow control.
use pquic.Base.{◌≡◌, refl, true, false, [], ◌∷◌, get_elem?, arith, inr}
use pquic.Stream.{
  StreamData, StreamHead, queue_loop, consumed_start, place, room_before, skip_block, callback_loop,
  deliver, late_fin, queue_network_input, stream_data_callback,
}
use pquic.Stream.Blocks.{IsBlocks, byte_at}
use pquic.Stream.Queue.{queue_network_input-IsBlocks}
use pquic.Stream.Bytes.{OldOrFrame, queue_network_input-byte_at}
use pquic.Stream.Complete.{HasByte, queue_network_input-HasByte}
use pquic.Stream.Deliver.{text, stream_data_callback-byte_at}
use mathlib.Core.Bool.{xor}
use pquic.Connection.{
  Cnx, StreamLimits, find_or_create_stream, find_in, accept_stream, create_stream, new_stream,
  flow_control_check_stream_offset,
}
use pquic.Connection.Input.{stream_network_input, network_input_on, admit, queue_and_notify}
use pquic.Connection.Accounting.{IsAccounted}
use pquic.Connection.FlowControl.{stream_network_input-IsAccounted}

abbrev island : StreamData
island = record { offset = 6; bytes = 60 ∷ 70 ∷ [] }

-- Two bytes are consumed, and those at 6 and 7 wait.
abbrev waiting : StreamHead
waiting = record {
  stream_id = 0;
  consumed_offset = 2;
  fin_offset = 8;
  maxdata_local = 1000;
  maxdata_remote = 1000;
  remote_error = 0;
  remote_stop_error = 0;
  reset_received = false;
  fin_notified = false;
  fin_sent = false;
  fin_received = true;
  fin_signalled = false;
  reset_requested = false;
  stop_sending_received = false;
  stop_sending_signalled = false;
  stream_data = island ∷ [];
}

-- The gap is filled.
abbrev filled : StreamHead
filled = record waiting {
  stream_data = record { offset = 2; bytes = 20 ∷ 30 ∷ 40 ∷ 50 ∷ [] } ∷ island ∷ [];
}

fills :
    (queue_network_input true waiting 0 (0 ∷ 10 ∷ 20 ∷ 30 ∷ 40 ∷ 50 ∷ 60 ∷ [])).blocks
    ≡ filled.stream_data
unfolding queue_network_input queue_loop consumed_start place room_before skip_block
fills = refl

delivers : text (stream_data_callback filled).1 ≡ 20 ∷ 30 ∷ 40 ∷ 50 ∷ 60 ∷ 70 ∷ []
unfolding stream_data_callback callback_loop deliver late_fin
delivers = refl

queue_network_input-IsBlocks_example :
    IsBlocks 2 (queue_network_input true waiting 4 (40 ∷ 50 ∷ [])).blocks
queue_network_input-IsBlocks_example =
    queue_network_input-IsBlocks true waiting 4 (40 ∷ 50 ∷ []) (omega arith)

queue_network_input-byte_at_example :
    OldOrFrame 4
      (40 ∷ 50 ∷ [])
      5
      (byte_at waiting.stream_data 5)
      (byte_at (queue_network_input true waiting 4 (40 ∷ 50 ∷ [])).blocks 5)
queue_network_input-byte_at_example =
    queue_network_input-byte_at true waiting 4 5 (40 ∷ 50 ∷ []) (omega arith)

queue_network_input-HasByte_example :
    HasByte (queue_network_input true waiting 4 (40 ∷ 50 ∷ [])).blocks 5
queue_network_input-HasByte_example =
    queue_network_input-HasByte waiting 4 5 (40 ∷ 50 ∷ []) (inr (omega arith), tt) (omega arith)
      (omega arith) (omega arith)

stream_data_callback-byte_at_example :
    get_elem? (text (stream_data_callback filled).1) 5 ≡ byte_at filled.stream_data 7
unfolding stream_data_callback callback_loop deliver late_fin
stream_data_callback-byte_at_example =
    stream_data_callback-byte_at filled 5 (omega arith) (omega arith)

abbrev limits : StreamLimits
limits = record { bidi_local = 500; bidi_remote = 600; uni = 700 }

abbrev pub server : Cnx
server = record {
  client_mode = false;
  cnx_state = 13;
  local_error = 0;
  offending_frame_type = 0;
  remote_error = 0;
  remote_application_error = 0;
  maxdata_local = 20;
  maxdata_remote = 20;
  data_received = 8;
  max_stream_id_bidir_local = 16;
  max_stream_id_unidir_local = 18;
  max_stream_id_bidir_remote = 9;
  max_stream_id_unidir_remote = 11;
  local_parameters = limits;
  remote_parameters = limits;
  latest_progress_time = 0;
  streams = waiting ∷ [];
  events = [];
}

pub server-IsAccounted : IsAccounted server
server-IsAccounted = record { counted = refl; allowed = omega arith; ordered = omega arith }

-- Stream 4 opens with three bytes; ten more on it go past what the connection allows.
opens : (stream_network_input true server 4 0 false (1 ∷ 2 ∷ 3 ∷ []) 50).0.data_received ≡ 11
unfolding stream_network_input find_or_create_stream find_in accept_stream xor network_input_on
    admit create_stream new_stream flow_control_check_stream_offset queue_and_notify
    queue_network_input queue_loop place consumed_start room_before
opens = refl

stream_network_input-IsAccounted_example :
    IsAccounted (stream_network_input true server 4 0 true (1 ∷ 2 ∷ 3 ∷ []) 50).0
stream_network_input-IsAccounted_example =
    stream_network_input-IsAccounted true server 4 0 true (1 ∷ 2 ∷ 3 ∷ []) 50 server-IsAccounted
