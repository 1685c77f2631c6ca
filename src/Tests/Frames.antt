-- ===== src/Tests/Frames.antt =====
-- Runs of the frames of a packet.
use pquic.Base.{
  ℕ, ◌≤◌, ◌≡◌, refl, true, false, some, [], ◌∷◌, ◌++◌, length, arith, u16, List, ◌+◌, Bool,
}
use pquic.Intformat.{varint_decode, varint_len}
use pquic.Connection.{Cnx}
use pquic.Connection.Accounting.{IsAccounted}
use pquic.Connection.Input.{process_max_data_frame}
use pquic.Frames.Reader.{frames_varint_decode}
use pquic.Frames.Reads.{as_read, frames_varint_decode-varint_decode}
use pquic.Frames.Frame.{Frame, parsed}
use pquic.Frames.Decode.{Mallocs, parse_frame, decode_frames}
use pquic.Frames.Write.{
  SendStream, wrote, prepare_stream_reset_frame, prepare_max_data_frame, reset_due,
}
use pquic.Frames.Process.{process_frame}
use pquic.Frames.Invariants.{Returns}
use pquic.Frames.Accounts.{decode_frames-IsAccounted}
use pquic.Frames.RoundTrip.{parse_frame-prepare_stream_reset_frame}
use pquic.Frames.LimitsRoundTrip.{process_max_data_frame-prepare_max_data_frame}
use pquic.Tests.Streams.{server, server-IsAccounted}

abbrev given : Mallocs
given = record { frame_ok = true; pid_ok = true; queue_ok = true }

abbrev ignore : Frame → Cnx → Cnx × Bool
ignore frame cnx = (cnx, true)

-- MAX_DATA 25, PING, and the first byte of a STREAM frame.
abbrev cut_packet : List ℕ
cut_packet = 4 ∷ 25 ∷ 7 ∷ 0x10 ∷ []

decode_frames-IsAccounted_example :
    Returns
      (λ d. IsAccounted d.cnx)
      (decode_frames
        (λ b frame. process_frame ignore true 100 frame)
        (λ i. given)
        9
        3
        100
        server
        (4 ∷ 25 ∷ 0x12 ∷ 4 ∷ 2 ∷ 1 ∷ 2 ∷ []))
decode_frames-IsAccounted_example =
    decode_frames-IsAccounted ignore (λ b frame. true) (λ i. given) 9 3 100 server
      (4 ∷ 25 ∷ 0x12 ∷ 4 ∷ 2 ∷ 1 ∷ 2 ∷ []) (λ frame cnx a. a) server-IsAccounted

abbrev reset_wanted : SendStream
reset_wanted = record {
  stream_id = 4;
  local_error = 70000;
  sent_offset = 300;
  local_stop_error = 0;
  maxdata_local = 1000;
  maxdata_remote = 100;
  fin_notified = false;
  reset_requested = true;
  reset_sent = false;
  fin_sent = false;
  stop_sending_requested = false;
  stop_sending_sent = false;
  fin_received = false;
  reset_received = false;
  send_queue = record { bytes = 1 ∷ 2 ∷ []; offset = 0 } ∷ [];
}

parse_frame-prepare_stream_reset_frame_example :
    (bytes : List ℕ) × ((prepare_stream_reset_frame reset_wanted 10).1 ≡ wrote bytes)
    × (length bytes ≤ 10)
    × (parse_frame given (bytes ++ (7 ∷ []))
        ≡ some (parsed true (Frame.reset_stream 4 (u16 70000) 300) (7 ∷ [])))
    × (reset_due (prepare_stream_reset_frame reset_wanted 10).0 ≡ false)
unfolding varint_len reset_due
parse_frame-prepare_stream_reset_frame_example =
    parse_frame-prepare_stream_reset_frame reset_wanted 10 given (7 ∷ []) refl (omega arith)
      (omega arith) (omega arith) refl

process_max_data_frame-prepare_max_data_frame_example :
    (new_max : ℕ) × (bytes : List ℕ) × (prepare_max_data_frame 20 80 8 ≡ (new_max, wrote bytes))
    × (new_max ≡ 20 + 80)
    × (length bytes ≤ 8)
    × (parse_frame given (bytes ++ (7 ∷ [])) ≡ some (parsed true (Frame.max_data new_max) (7 ∷ [])))
    × ((process_max_data_frame server new_max).maxdata_remote ≡ new_max)
unfolding varint_len
process_max_data_frame-prepare_max_data_frame_example =
    process_max_data_frame-prepare_max_data_frame 20 80 8 given (7 ∷ []) server (omega arith)
      (omega arith) refl (omega arith)

frames_varint_decode-varint_decode_example :
    frames_varint_decode (0x7B ∷ 0xBD ∷ 5 ∷ [])
    ≡ as_read (0x7B ∷ 0xBD ∷ 5 ∷ []) (varint_decode (0x7B ∷ 0xBD ∷ 5 ∷ []) 3)
frames_varint_decode-varint_decode_example = frames_varint_decode-varint_decode 0x7B (0xBD ∷ 5 ∷ [])
