-- ===== src/Frames/Write.antt =====
-- picoquic/frames.c, the functions that write the frames, and the requests for a reset of a stream and for
-- its sender to stop. A function that writes returns the bytes that it wrote, whose number is *consumed.
use pquic.Base.{
  ℕ, ◌+◌, ◌-◌, Bool, true, false, not, ◌&&◌, ◌||◌, Option, none, some, List, [], ◌∷◌, ◌++◌, length,
  ltb, leb, if◌then◌else◌, u16, u64, sub64,
}
use pquic.Intformat.{varint_encode, format_16, format_64}
use pquic.Frames.FrameType

-- The return value 0 with the bytes, or PICOQUIC_ERROR_FRAME_BUFFER_TOO_SMALL.
pub data Written : Type 0 where
  wrote : List ℕ → Written
  too_small : Written

abbrev pub is_empty : List ℕ → Bool
is_empty [] = true
is_empty (b ∷ bytes) = false

-- picoquic_stream_data: the bytes, and how many of them were sent.
pub record SendData : Type 0 where
  pub bytes : List ℕ
  pub offset : ℕ

-- What the writers of a stream read and change of picoquic_stream_head.
pub record SendStream : Type 0 where
  pub stream_id : ℕ
  pub local_error : ℕ
  pub sent_offset : ℕ
  pub local_stop_error : ℕ
  pub maxdata_local : ℕ
  pub maxdata_remote : ℕ
  pub reset_requested : Bool
  pub reset_sent : Bool
  pub fin_notified : Bool
  pub fin_sent : Bool
  pub stop_sending_requested : Bool
  pub stop_sending_sent : Bool
  pub fin_received : Bool
  pub reset_received : Bool
  pub send_queue : List SendData

-- send_queue->length <= send_queue->offset, or there is no queue
unfoldable pub is_sent : List SendData → Bool
is_sent [] = true
is_sent (d ∷ later) = leb (length d.bytes) d.offset

-- The queue once `count` more bytes of its first data are sent.
unfoldable pub advance : ℕ → List SendData → List SendData
advance count [] = []
advance count (d ∷ later) =
    if leb (length d.bytes) (d.offset + count)
    then later
    else record d { offset = d.offset + count } ∷ later

-- A reset was asked for and is still to be sent.
unfoldable pub reset_due : SendStream → Bool
reset_due stream = stream.reset_requested && not stream.reset_sent

unfoldable pub stop_due : SendStream → Bool
stop_due stream =
    stream.stop_sending_requested
    && not stream.stop_sending_sent
    && not stream.fin_received
    && not stream.reset_received

unfoldable pub prepare_stream_reset_frame : SendStream → ℕ → SendStream × Written
prepare_stream_reset_frame stream bytes_max =
    let l1 = varint_encode (bytes_max - 1) stream.stream_id in
    let l2 = varint_encode (bytes_max - (1 + length l1 + 2)) stream.sent_offset in
    let sent = record stream { reset_sent = true; fin_sent = true; send_queue = [] } in
    if not (reset_due stream)
    then (stream, wrote [])
    else if leb bytes_max 2 || is_empty l1 || leb bytes_max (1 + length l1 + 3) || is_empty l2
    then (stream, too_small)
    else (sent, wrote (FrameType.reset_stream ∷ l1 ++ format_16 (u16 stream.local_error) ++ l2))

-- The two bytes of the error code are written whether there is room for them or not.
unfoldable pub prepare_stop_sending_frame : SendStream → ℕ → SendStream × Written
prepare_stop_sending_frame stream bytes_max =
    if ltb bytes_max 7
    then (stream, too_small)
    else if not (stop_due stream)
    then (stream, wrote [])
    else (
      record stream { stop_sending_sent = true },
      wrote (
          FrameType.stop_sending ∷ varint_encode (bytes_max - 1) stream.stream_id
          ++ format_16 (u16 stream.local_stop_error)),
    )

-- An empty reason.
unfoldable pub prepare_connection_close_frame : (local_error offending_frame_type : ℕ) → ℕ → Written
prepare_connection_close_frame local_error offending_frame_type bytes_max =
    let l1 = varint_encode (bytes_max - 3) offending_frame_type in
    let l2 = varint_encode (bytes_max - 3 - length l1) 0 in
    if leb bytes_max 4 || is_empty l1 || is_empty l2
    then too_small
    else wrote (FrameType.connection_close ∷ format_16 (u16 local_error) ++ l1 ++ l2)

-- The flag is that of version PICOQUIC_SEVENTH_INTEROP_VERSION, which has a frame type here.
unfoldable pub prepare_application_close_frame : Bool → (application_error : ℕ) → ℕ → Written
prepare_application_close_frame seventh application_error bytes_max =
    let frame_type = if seventh && ltb 3 bytes_max then 0 ∷ [] else [] in
    let l1 = varint_encode (bytes_max - 3 - length frame_type) 0 in
    if leb bytes_max 4 || is_empty l1
    then too_small
    else wrote (FrameType.application_close ∷ format_16 (u16 application_error) ++ frame_type ++ l1)

-- cnx->maxdata_local afterwards, with the frame. On an error *consumed is 1 or 0, and nothing uses it.
unfoldable pub prepare_max_data_frame : (maxdata_local maxdata_increase : ℕ) → ℕ → ℕ × Written
prepare_max_data_frame maxdata_local maxdata_increase bytes_max =
    let new_max = u64 (maxdata_local + maxdata_increase) in
    let l1 = varint_encode (bytes_max - 1) new_max in
    if ltb bytes_max 1 || is_empty l1
    then (maxdata_local, too_small)
    else (new_max, wrote (FrameType.max_data ∷ l1))

-- The room is computed as size_t: in an empty buffer it wraps around.
unfoldable pub prepare_max_stream_data_frame : SendStream → ℕ → ℕ → SendStream × Written
prepare_max_stream_data_frame stream bytes_max new_max_data =
    let l1 = varint_encode (sub64 bytes_max 1) stream.stream_id in
    let l2 = varint_encode (sub64 (sub64 bytes_max 1) (length l1)) new_max_data in
    if is_empty l1 || is_empty l2 then (stream, too_small) else (
      record stream { maxdata_local = new_max_data },
      wrote (FrameType.max_stream_data ∷ l1 ++ l2),
    )

-- A frame that was queued as its bytes.
unfoldable pub prepare_misc_frame : List ℕ → ℕ → Written
prepare_misc_frame misc_frame bytes_max =
    if ltb bytes_max (length misc_frame) then too_small else wrote misc_frame

-- The queue of those frames afterwards. With no frame queued the header is read through NULL.
unfoldable pub prepare_first_misc_frame : List (List ℕ) → ℕ → Option (List (List ℕ) × Written)
prepare_first_misc_frame [] bytes_max = none
prepare_first_misc_frame (misc_frame ∷ later) bytes_max =
    elim (prepare_misc_frame misc_frame bytes_max) [
      | wrote bytes ↦ some (later, wrote bytes)
      | too_small ↦ some (misc_frame ∷ later, too_small)
    ]

unfoldable pub prepare_path_challenge_frame : (challenge : ℕ) → ℕ → Written
prepare_path_challenge_frame challenge bytes_max =
    if ltb bytes_max 9 then too_small else wrote (FrameType.path_challenge ∷ format_64 challenge)

unfoldable pub write_plugin_validate_frame : (pid_id : ℕ) → List ℕ → ℕ → Written
write_plugin_validate_frame pid_id pid max_bytes =
    let l1 = varint_encode (sub64 max_bytes 1) pid_id in
    let l2 = varint_encode (sub64 (sub64 max_bytes 1) (length l1)) (length pid) in
    if is_empty l1 || is_empty l2 || ltb max_bytes (1 + length l1 + length l2 + length pid)
    then too_small
    else wrote (FrameType.plugin_validate ∷ l1 ++ l2 ++ pid)
