-- ===== src/Frames/Accounts.antt =====
-- picoquic/frames.c, the processing of frames and the accounts of flow control.
use pquic.Base.{
  ◌||◌, ltb, ℕ, ◌≡◌, refl, Bool, true, false, Option, none, some, List, [], ◌∷◌, ◌++◌,
  if◌then◌else◌, arith,
}
use pquic.Stream.{StreamHead}
use pquic.Connection.{
  stream_id_error, memory_error, Cnx, stop_sending_event, connection_error, find_in, find_stream,
  find_or_create_stream,
}
use pquic.Connection.Accounting.{
  connection_error_keeps, find_stream-IsOpened, IsAccounted, connection_error-IsAccounted, IsOpened,
  find_or_create_stream-IsOpened, store-IsAccounted,
}
use pquic.Connection.FlowControl.{
  stream_network_input-IsAccounted, process_stream_reset_frame-IsAccounted, when_opened,
  events-IsAccounted, if-IsAccounted,
}
use pquic.Connection.Input.{store, process_max_data_frame, process_max_stream_data_frame}
use pquic.Frames.Frame.{
  Frame, padding_or_ping, reset_stream, connection_close, application_close, max_data, ack,
  path_challenge, path_response, crypto, plugin_validate, plugin, max_stream_data, max_stream_id,
  blocked, stream_blocked, stream_id_blocked, new_connection_id, stop_sending, stream, new_token,
}
use pquic.Frames.Decode.{Mallocs, decode_frames}
use pquic.Frames.Process.{
  process_connection_close_frame, process_application_close_frame, stop_on,
  process_stop_sending_frame, process_max_stream_id_frame, process_frame,
}
use pquic.Frames.Invariants.{Returns, decode_frames_keeps}

same_accounts :
    (cnx cnx' : Cnx)
    → cnx'.streams ≡ cnx.streams
    → cnx'.data_received ≡ cnx.data_received
    → cnx'.maxdata_local ≡ cnx.maxdata_local
    → IsAccounted cnx
    → IsAccounted cnx'
same_accounts cnx cnx' s d m a = record {
  counted = rw (s, d) a.counted;
  allowed = rw (d, m) a.allowed;
  ordered = rw s a.ordered;
}

stop_on-IsAccounted :
    (cnx : Cnx) (s : StreamHead) (code : ℕ)
    → IsAccounted cnx
    → find_in s.stream_id cnx.streams ≡ some s
    → IsAccounted (stop_on cnx s code).0
unfolding stop_on
stop_on-IsAccounted cnx s code a f =
    let stopped = record s {
      stop_sending_received = true;
      remote_stop_error = code;
      stop_sending_signalled = true;
    } in
    let told =
      if s.stop_sending_signalled
      then cnx.events
      else cnx.events ++ (stop_sending_event s.stream_id ∷ []) in
    let kept = store-IsAccounted cnx cnx s stopped a f (refl, refl, refl, omega arith, a.allowed) in
    if-IsAccounted (s.stop_sending_received || s.reset_requested) (cnx, true)
      (record (store cnx stopped) { events = told }, true) a
      (events-IsAccounted (store cnx stopped) told kept)

process_stop_sending_frame-IsAccounted :
    (malloc_ok : Bool) (cnx : Cnx) (id code : ℕ)
    → IsAccounted cnx
    → IsAccounted (process_stop_sending_frame malloc_ok cnx id code).0
unfolding process_stop_sending_frame
process_stop_sending_frame-IsAccounted malloc_ok cnx id code a =
    when_opened (find_or_create_stream malloc_ok cnx id true) (λ c s. stop_on c s code)
      (find_or_create_stream-IsOpened malloc_ok cnx id true a) (λ c s. stop_on-IsAccounted c s code)

process_max_stream_id_frame-IsAccounted :
    (cnx : Cnx) (id : ℕ) → IsAccounted cnx → IsAccounted (process_max_stream_id_frame cnx id).0
unfolding process_max_stream_id_frame
process_max_stream_id_frame-IsAccounted cnx id a =
    let (s, d, m) = connection_error_keeps cnx stream_id_error 6 in
    same_accounts cnx (process_max_stream_id_frame cnx id).0 (ground arith) (ground arith)
      (ground arith) a

process_max_data_frame-IsAccounted :
    (cnx : Cnx) (n : ℕ) → IsAccounted cnx → IsAccounted (process_max_data_frame cnx n)
unfolding process_max_data_frame
process_max_data_frame-IsAccounted cnx n a =
    same_accounts cnx (process_max_data_frame cnx n) (ground arith) (ground arith) (ground arith) a

process_max_stream_data_frame-IsAccounted :
    (malloc_ok : Bool) (cnx : Cnx) (id n : ℕ)
    → IsAccounted cnx
    → IsAccounted (process_max_stream_data_frame malloc_ok cnx id n).0
unfolding process_max_stream_data_frame
process_max_stream_data_frame-IsAccounted malloc_ok cnx id n a =
    on_opened (find_stream malloc_ok cnx id true) (find_stream-IsOpened malloc_ok cnx id true a)
  where
    on_opened :
        (o : Cnx × Option StreamHead)
        → IsOpened o
        → IsAccounted
            (elim o.1 as (λ _. Cnx × Bool) [
              | none ↦ (connection_error o.0 memory_error 0x05, false)
              | some s ↦
                  (if ltb s.maxdata_remote n
                    then (store o.0 (record s { maxdata_remote = n }), true)
                    else (o.0, true))
            ]).0
    on_opened (c, none) (k, f) = connection_error-IsAccounted c memory_error 0x05 k
    on_opened (c, some s) (k, f) =
        if-IsAccounted (ltb s.maxdata_remote n) (store c (record s { maxdata_remote = n }), true)
          (c, true)
          (store-IsAccounted c c s (record s { maxdata_remote = n }) k (f s refl)
            (refl, refl, refl, omega arith, k.allowed))
          k

-- The operations that process the frames, with those on other state as a parameter that keeps the accounts.
process_frame_keeps :
    (other : Frame → Cnx → Cnx × Bool) (malloc_ok : Bool) (now : ℕ) (frame : Frame) (cnx : Cnx)
    → ((frame : Frame) (cnx : Cnx) → IsAccounted cnx → IsAccounted (other frame cnx).0)
    → IsAccounted cnx
    → IsAccounted (process_frame other malloc_ok now frame cnx).0
unfolding process_frame process_connection_close_frame process_application_close_frame
process_frame_keeps other ok now (padding_or_ping false n) cnx keeps a = a
process_frame_keeps other ok now (padding_or_ping true n) cnx keeps a = keeps _ cnx a
process_frame_keeps other ok now (reset_stream id code offset) cnx keeps a =
    process_stream_reset_frame-IsAccounted ok cnx id code offset a
process_frame_keeps other ok now (connection_close code _ _ _) cnx keeps a =
    same_accounts cnx (process_connection_close_frame cnx code) refl refl refl a
process_frame_keeps other ok now (application_close code _ _) cnx keeps a =
    same_accounts cnx (process_application_close_frame cnx code) refl refl refl a
process_frame_keeps other ok now (max_data n) cnx keeps a =
    process_max_data_frame-IsAccounted cnx n a
process_frame_keeps other ok now (max_stream_data id n) cnx keeps a =
    process_max_stream_data_frame-IsAccounted ok cnx id n a
process_frame_keeps other ok now (max_stream_id id) cnx keeps a =
    process_max_stream_id_frame-IsAccounted cnx id a
process_frame_keeps other ok now (blocked _) cnx keeps a = a
process_frame_keeps other ok now (stream_blocked _ _) cnx keeps a = a
process_frame_keeps other ok now (stream_id_blocked _) cnx keeps a = a
process_frame_keeps other ok now (new_connection_id _ _ _) cnx keeps a = a
process_frame_keeps other ok now (new_token _ _) cnx keeps a = a
process_frame_keeps other ok now (stop_sending id code) cnx keeps a =
    process_stop_sending_frame-IsAccounted ok cnx id code a
process_frame_keeps other ok now (stream id offset _ fin bytes) cnx keeps a =
    stream_network_input-IsAccounted ok cnx id offset fin bytes now a
process_frame_keeps other ok now (ack _ _ _ _ _ _ _) cnx keeps a = keeps _ cnx a
process_frame_keeps other ok now (path_challenge _) cnx keeps a = keeps _ cnx a
process_frame_keeps other ok now (path_response _) cnx keeps a = keeps _ cnx a
process_frame_keeps other ok now (crypto _ _ _) cnx keeps a = keeps _ cnx a
process_frame_keeps other ok now (plugin_validate _ _ _) cnx keeps a = keeps _ cnx a
process_frame_keeps other ok now (plugin _ _ _ _ _) cnx keeps a = keeps _ cnx a

-- Where the connection has counted exactly the bytes up to the ends of its streams, no more than it allowed
-- the peer, and has each stream once and in order, and the operations on other state leave this so, it is so
-- after the decoding of any packet that returns, accepted or refused, and whatever malloc answers.
pub decode_frames-IsAccounted :
    (other : Frame → Cnx → Cnx × Bool) (malloc_ok : ℕ → Frame → Bool) (m : ℕ → Mallocs)
    (fuel epoch now : ℕ) (cnx : Cnx) (bytes : List ℕ)
    → ((frame : Frame) (cnx : Cnx) → IsAccounted cnx → IsAccounted (other frame cnx).0)
    → IsAccounted cnx
    → Returns
        (λ d. IsAccounted d.cnx)
        (decode_frames
          (λ b frame. process_frame other (malloc_ok b frame) now frame)
          m
          fuel
          epoch
          now
          cnx
          bytes)
decode_frames-IsAccounted other malloc_ok m fuel epoch now cnx bytes keeps a =
    decode_frames_keeps (λ b frame. process_frame other (malloc_ok b frame) now frame) m fuel epoch
      now cnx bytes (λ b frame c. process_frame_keeps other (malloc_ok b frame) now frame c keeps) a
