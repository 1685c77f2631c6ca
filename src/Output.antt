-- ===== src/Output.antt =====
-- picoquic/frames.c, prepare_stream_frame: the STREAM frames that carry the bytes of the application.
pub mod Length
pub mod Sent
pub mod FlowControl
use pquic.Base.{
  ℕ, ◌+◌, ◌-◌, Bool, true, false, not, ◌&&◌, ◌||◌, Option, none, some, List, [], ◌∷◌, ◌++◌, length,
  take, drop, ltb, leb, ◌==◌, if◌then◌else◌, sub64,
}
use pquic.Intformat.{varint_encode}
use pquic.Frames.FrameType
use pquic.Frames.Write.{
  SendData, SendStream, is_sent, advance, Written, wrote, too_small, is_empty, reset_due,
  prepare_stream_reset_frame, prepare_stop_sending_frame,
}

-- What the writer changes: the stream, and data_sent of the connection.
pub record Output : Type 0 where
  pub stream : SendStream
  pub data_sent : ℕ
  pub written : Written

-- STREAM_SEND_STOP_SENDING
unfoldable pub send_stop_sending : SendStream → Bool
send_stop_sending stream = stream.stop_sending_requested && not stream.stop_sending_sent

-- STREAM_SEND_FIN
unfoldable pub send_fin : SendStream → Bool
send_fin stream = stream.fin_notified && not stream.fin_sent

abbrev pub no_queue : List SendData → Bool
no_queue [] = true
no_queue (d ∷ later) = false

-- send_queue->length - send_queue->offset, 0 where there is no queue
unfoldable pub available_in : List SendData → ℕ
available_in [] = 0
available_in (d ∷ later) = sub64 (length d.bytes) d.offset

-- send_queue->bytes + send_queue->offset
unfoldable pub bytes_in : List SendData → List ℕ
bytes_in [] = []
bytes_in (d ∷ later) = drop d.offset d.bytes

-- A limit on a number of bytes.
unfoldable pub at_most : ℕ → ℕ → ℕ
at_most limit n = if ltb limit n then limit else n

-- The number of bytes that the limits of the stream and of the connection allow.
unfoldable pub allowed : SendStream → ℕ → ℕ → ℕ
unfolding available_in at_most
allowed stream maxdata_remote data_sent =
    let on_stream =
      at_most (sub64 stream.maxdata_remote stream.sent_offset) (available_in stream.send_queue) in
    if stream.stream_id == 0 then on_stream else at_most (sub64 maxdata_remote data_sent) on_stream

-- Whether the length is written, the length, and its bytes; none for an error. The operation
-- stream_always_encode_length answers false.
unfoldable pub stream_length : ℕ → ℕ → Option (Bool × ℕ × List ℕ)
stream_length count space =
    let l_len = varint_encode space count in
    let shorter = space - length l_len in
    if leb space count
    then some (false, space, [])
    else if is_empty l_len || (length l_len == space && ltb 0 count)
    then none
    else if ltb space (count + length l_len)
    then some (true, shorter, varint_encode space shorter)
    else some (true, count, l_len)

-- The queue and the offset once `count` bytes are sent.
unfoldable pub stream_sent : SendStream → ℕ → SendStream
stream_sent stream count =
    if ltb 0 count
    then record stream {
      send_queue = advance count stream.send_queue;
      sent_offset = stream.sent_offset + count;
    }
    else stream

-- The first byte, with the bits of the offset, the length and the end.
unfoldable pub stream_type_byte : Bool → Bool → Bool → ℕ
stream_type_byte off len fin =
    FrameType.stream_range_min
    + (if off then 4 else 0)
    + (if len then 2 else 0)
    + (if fin then 1 else 0)

-- From the length to the end of the function; `numbers` are the bytes behind the first.
unfoldable pub stream_frame : SendStream → ℕ → List ℕ → Option (Bool × ℕ × List ℕ) → Output
unfolding stream_sent stream_type_byte bytes_in
stream_frame stream data_sent numbers none = record {
  stream = stream;
  data_sent = data_sent;
  written = too_small;
}
stream_frame stream data_sent numbers (some (len, count, l_len)) =
    let sent = stream_sent stream count in
    let fin = sent.fin_notified && no_queue sent.send_queue in
    let first = stream_type_byte (ltb 0 stream.sent_offset) len fin in
    let bytes = first ∷ (numbers ++ (l_len ++ take count (bytes_in stream.send_queue))) in
    if fin
    then record {
      stream = record sent { fin_sent = true };
      data_sent = data_sent + count;
      written = wrote bytes;
    }
    else if count == 0
    then record { stream = sent; data_sent = data_sent; written = too_small }
    else record { stream = sent; data_sent = data_sent + count; written = wrote bytes }

-- What is written besides data.
abbrev pub other_frame : ℕ → SendStream × Written → Output
other_frame data_sent (stream, written) = record {
  stream = stream;
  data_sent = data_sent;
  written = written;
}

-- `maxdata_remote` and `data_sent` are those of the connection.
unfoldable pub prepare_stream_frame : SendStream → ℕ → ℕ → ℕ → Output
unfolding send_stop_sending send_fin allowed stream_length stream_frame is_sent
prepare_stream_frame stream maxdata_remote data_sent bytes_max =
    let l_stream = varint_encode (bytes_max - 1) stream.stream_id in
    let l_off =
      if ltb 0 stream.sent_offset
      then varint_encode (bytes_max - (1 + length l_stream)) stream.sent_offset
      else [] in
    let byte_index = 1 + length l_stream + length l_off in
    let space = bytes_max - byte_index in
    let chosen =
      if ltb space 2 || (no_queue stream.send_queue && not (send_fin stream))
      then some (false, 0, [])
      else stream_length (allowed stream maxdata_remote data_sent) space in
    if reset_due stream
    then other_frame data_sent (prepare_stream_reset_frame stream bytes_max)
    else if send_stop_sending stream
    then other_frame data_sent (prepare_stop_sending_frame stream bytes_max)
    else if is_sent stream.send_queue && (not stream.fin_notified || stream.fin_sent)
    then record { stream = stream; data_sent = data_sent; written = wrote [] }
    else if ltb bytes_max byte_index
        || is_empty l_stream
        || (ltb 0 stream.sent_offset && is_empty l_off)
    then record { stream = stream; data_sent = data_sent; written = too_small }
    else stream_frame stream data_sent (l_stream ++ l_off) chosen
