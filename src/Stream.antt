-- ===== src/Stream.antt =====
-- picoquic/frames.c, the receiving side of a stream: the queue of blocks that wait for their turn, the
-- delivery to the application in order. Offsets and lengths are
-- below 2^62 (the range of a varint) and 2^16 (a packet), so that no sum of them wraps in 64 bits; the
-- model adds them as numbers.
pub mod Blocks
pub mod Queue
pub mod Bytes
pub mod Complete
pub mod Deliver
use pquic.Base.{
  ℕ, zero, suc, ◌+◌, ◌-◌, Bool, true, false, not, ◌&&◌, List, [], ◌∷◌, length, take, drop, ltb, leb,
  if◌then◌else◌,
}

-- picoquic_stream_data: a block and the offset of its first byte; its length is that of `bytes`.
pub record StreamData : Type 0 where
  pub offset : ℕ
  pub bytes : List ℕ

-- The fields of picoquic_stream_head that the receiver uses; the flags are Booleans.
pub record StreamHead : Type 0 where
  pub stream_id : ℕ
  pub consumed_offset : ℕ
  pub fin_offset : ℕ
  pub maxdata_local : ℕ
  pub maxdata_remote : ℕ
  pub remote_error : ℕ
  pub remote_stop_error : ℕ
  pub reset_received : Bool
  pub fin_notified : Bool
  pub fin_sent : Bool
  pub fin_received : Bool
  pub fin_signalled : Bool
  pub reset_requested : Bool
  pub stop_sending_received : Bool
  pub stop_sending_signalled : Bool
  pub stream_data : List StreamData

abbrev pub end_of : StreamData → ℕ
end_of d = d.offset + length d.bytes

-- Where the first byte of the frame that is not consumed stands.
unfoldable pub consumed_start : ℕ → ℕ → ℕ → ℕ
consumed_start consumed offset len =
    if leb offset consumed
    then (if leb (offset + len) consumed then len else consumed - offset)
    else 0

-- What a block that begins at or before the frame's next byte leaves of it.
unfoldable pub skip_block : StreamData → ℕ → ℕ → ℕ → ℕ
skip_block next offset len start =
    if leb (offset + len) (end_of next)
    then len
    else (if ltb offset (end_of next) then end_of next - offset else start)

-- The number of bytes that fit before the next block.
unfoldable pub room_before : List StreamData → ℕ → ℕ → ℕ → ℕ
room_before [] offset len start = len - start
room_before (next ∷ later) offset len start =
    if ltb next.offset (offset + len)
    then len - start - (offset + len - next.offset)
    else len - start

-- What queueing a frame changes: the blocks, *new_data_available, and whether malloc failed.
pub record Queued : Type 0 where
  pub blocks : List StreamData
  pub new_data_available : Bool
  pub no_memory : Bool

-- A new block in front of the rest of the chain.
unfoldable pub place : Bool → ℕ → List ℕ → ℕ → List StreamData → Queued
place malloc_ok offset bytes start rest =
    let room = room_before rest offset (length bytes) start in
    let block : StreamData = record {
      offset = offset + start;
      bytes = take room (drop start bytes);
    } in
    if ltb start (length bytes) && ltb 0 room
    then (if malloc_ok
        then record { blocks = block ∷ rest; new_data_available = true; no_memory = false }
        else record { blocks = rest; new_data_available = false; no_memory = true })
    else record { blocks = rest; new_data_available = false; no_memory = false }

abbrev behind : StreamData → Queued → Queued
behind d q = record q { blocks = d ∷ q.blocks }

-- The while loop of picoquic_queue_network_input, and the insertion behind it.
unfoldable pub queue_loop : Bool → ℕ → List ℕ → ℕ → List StreamData → Queued
queue_loop malloc_ok offset bytes start [] = place malloc_ok offset bytes start []
queue_loop malloc_ok offset bytes start (next ∷ later) =
    let further =
      queue_loop malloc_ok offset bytes (skip_block next offset (length bytes) start) later in
    if ltb start (length bytes) && leb next.offset (offset + start)
    then behind next further
    else place malloc_ok offset bytes start (next ∷ later)

unfoldable pub queue_network_input : Bool → StreamHead → ℕ → List ℕ → Queued
queue_network_input malloc_ok stream offset bytes =
    queue_loop malloc_ok offset bytes (consumed_start stream.consumed_offset offset (length bytes))
      stream.stream_data

-- One call of the application's callback: the bytes, and picoquic_callback_stream_fin or no event.
pub record Delivery : Type 0 where
  pub delivered : List ℕ
  pub fin : Bool

-- Everything was consumed up to the end, and the application does not know yet.
abbrev pub fin_due : StreamHead → Bool
fin_due s = leb s.fin_offset s.consumed_offset && s.fin_received && not s.fin_signalled

-- One round of the loop of picoquic_stream_data_callback: `data` leaves the queue.
unfoldable pub deliver : StreamHead → StreamData → List StreamData → StreamHead × Delivery
deliver stream d later =
    let start = stream.consumed_offset - d.offset in
    let consumed = record stream {
      consumed_offset = stream.consumed_offset + (length d.bytes - start);
      stream_data = later;
    } in
    let fin_now = fin_due consumed in
    (
      record consumed { fin_signalled = if fin_now then true else stream.fin_signalled },
      record { delivered = drop start d.bytes; fin = fin_now },
    )

-- The case where the fin frame carries no data.
unfoldable pub late_fin : StreamHead → StreamHead × List Delivery
late_fin stream =
    if fin_due stream
    then (record stream { fin_signalled = true }, record { delivered = []; fin = true } ∷ [])
    else (stream, [])

unfoldable pub callback_loop : StreamHead → List StreamData → StreamHead × List Delivery
callback_loop stream [] = late_fin stream
callback_loop stream (d ∷ later) =
    let now = deliver stream d later in
    let rest = callback_loop now.0 later in
    if leb d.offset stream.consumed_offset then (rest.0, now.1 ∷ rest.1) else late_fin stream

unfoldable pub stream_data_callback : StreamHead → StreamHead × List Delivery
stream_data_callback stream = callback_loop stream stream.stream_data
