-- ===== src/Tests/Output.antt =====
-- Runs of the writer of STREAM frames.
use pquic.Base.{ℕ, ◌≡◌, refl, false, true, List, [], ◌∷◌, arith}
use pquic.Intformat.{varint_encode}
use pquic.Frames.Write.{SendStream, advance, wrote, reset_due}
use pquic.Tests.Crypto.{first_text, second_text}
use pquic.Output.{send_stop_sending, prepare_stream_frame}
use pquic.Output.Sent.{IsWithin}
use pquic.Output.FlowControl.{prepare_stream_frame-IsWithin}

abbrev page : SendStream
page = record {
  stream_id = 4;
  local_error = 0;
  sent_offset = 101;
  local_stop_error = 0;
  maxdata_local = 0;
  maxdata_remote = 110;
  reset_requested = false;
  reset_sent = false;
  fin_notified = true;
  fin_sent = false;
  stop_sending_requested = false;
  stop_sending_sent = false;
  fin_received = false;
  reset_received = false;
  send_queue = first_text ∷ second_text ∷ [];
}

prepare_stream_frame-IsWithin_example :
    (text : List ℕ) × IsWithin page 500 400 20 text (prepare_stream_frame page 500 400 20)
unfolding reset_due send_stop_sending
prepare_stream_frame-IsWithin_example =
    prepare_stream_frame-IsWithin page 500 400 20 refl refl (omega arith) (omega arith)
      (omega arith) (omega arith) (omega arith) (omega arith)

-- The stream, its offset 101, two bytes, and what is left.
page_frame : prepare_stream_frame page 500 400 20 ≡ record {
  stream = record page { send_queue = second_text ∷ []; sent_offset = 103 };
  data_sent = 402;
  written = wrote (0x16 ∷ 4 ∷ 64 ∷ 101 ∷ 2 ∷ 11 ∷ 12 ∷ []);
}
unfolding prepare_stream_frame varint_encode reset_due advance
page_frame = refl

-- Stream 0 is sent beyond the limit of the connection.
stream_zero_beyond :
    (prepare_stream_frame (record page { stream_id = 0 }) 500 500 20).data_sent ≡ 502
unfolding prepare_stream_frame varint_encode reset_due advance
stream_zero_beyond = refl

-- Behind it, the difference wraps around and no limit holds for the other streams.
other_streams_beyond : (prepare_stream_frame page 500 502 20).data_sent ≡ 504
unfolding prepare_stream_frame varint_encode reset_due advance
other_streams_beyond = refl
