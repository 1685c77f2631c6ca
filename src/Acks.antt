-- ===== src/Acks.antt =====
-- picoquic/frames.c, acknowledgements: the frame that is written from the ranges of received packets, and
-- the calls that its receiver makes for it.
pub mod Blocks
pub mod Calls
pub mod Ranges
pub mod Counters
pub mod Parts
pub mod Exchange
use pquic.Base.{
  ℕ, ◌+◌, ◌-◌, ◌/◌, ◌^◌, Bool, true, false, ◌||◌, List, [], ◌∷◌, ◌++◌, length, take, drop, ltb, leb,
  ◌==◌, if◌then◌else◌, u8, sub64,
}
use pquic.Intformat.{varint_encode}
use pquic.Sacks.{SackItem, SackList, PacketContext, is_unused}
use pquic.Frames.FrameType
use pquic.Frames.Write.{Written, wrote, too_small, is_empty}

-- The fields of picoquic_packet_context_t that the writer reads and changes.
pub record AckContext : Type 0 where
  pub packets : PacketContext
  pub highest_ack_sent : ℕ
  pub highest_ack_time : ℕ
  pub ack_needed : Bool

-- What the writer reads of the connection: its exponent, and the counters of marked packets.
pub record AckSource : Type 0 where
  pub ack_delay_exponent : ℕ
  pub ecn_ect0_total_local : ℕ
  pub ecn_ect1_total_local : ℕ
  pub ecn_ce_total_local : ℕ

-- The delay that is written: since the largest packet arrived, in units of the exponent.
unfoldable pub scaled_delay : AckSource → AckContext → ℕ → ℕ
scaled_delay source ctx current_time =
    let stamp = ctx.packets.time_stamp_largest_received in
    if ltb stamp current_time then (current_time - stamp) / 2 ^ source.ack_delay_exponent else 0

-- The counters, where `left` bytes are free; none where one does not fit. The third stands as far
-- behind the second as the first is long: the second is cut there, or filled up with what the buffer
-- held (`old`, the bytes behind the delay). Where the place of the third is behind the buffer, the number of
-- the free bytes wraps around and it is written there.
unfoldable pub ecn_counters : AckSource → ℕ → List ℕ → List ℕ
ecn_counters source left old =
    let l_ect0 = varint_encode left source.ecn_ect0_total_local in
    let room = left - length l_ect0 in
    let l_ect1 = varint_encode room source.ecn_ect1_total_local in
    let room_ce =
      if ltb room (length l_ect0) then room + 2 ^ 64 - length l_ect0 else room - length l_ect0 in
    let l_ce = varint_encode room_ce source.ecn_ce_total_local in
    let second = take (length l_ect0) (l_ect1 ++ drop (length l_ect0 + length l_ect1) old) in
    if is_empty l_ect0 || is_empty l_ect1 || is_empty l_ce then [] else l_ect0 ++ (second ++ l_ce)

-- The loop over the later ranges, with the lowest number that is acknowledged so far: the number of
-- blocks and their bytes.
unfoldable pub block_loop : ℕ → ℕ → ℕ → ℕ → List SackItem → ℕ × List ℕ
block_loop bytes_max byte_index num_block lowest [] = (num_block, [])
block_loop bytes_max byte_index num_block lowest (next ∷ later) =
    let ack_gap = sub64 (sub64 lowest next.end_of_sack_range) 2 in
    let ack_range = sub64 next.end_of_sack_range next.start_of_sack_range in
    let l_gap = varint_encode (bytes_max - byte_index) ack_gap in
    let l_range = varint_encode (bytes_max - byte_index - length l_gap) ack_range in
    let after = byte_index + (length l_gap + length l_range) in
    let rest = block_loop bytes_max after (num_block + 1) next.start_of_sack_range later in
    if leb 63 num_block || is_empty l_gap || is_empty l_range
    then (num_block, [])
    else (rest.0, l_gap ++ (l_range ++ rest.1))

-- The frame, where there is something to acknowledge and `bytes_max` is 13 at least. No bytes are
-- written by varint_encode where none are free, which is the case that the code tests first.
unfoldable pub ack_frame : AckSource → AckContext → Bool → ℕ → ℕ → List ℕ → Written
unfolding scaled_delay ecn_counters block_loop
ack_frame source ctx is_ecn current_time bytes_max old =
    let first = ctx.packets.sacks.first_sack_item in
    let l_largest = varint_encode (bytes_max - 1) first.end_of_sack_range in
    let l_delay =
      varint_encode (bytes_max - (1 + length l_largest)) (scaled_delay source ctx current_time) in
    let before = length l_largest + length l_delay in
    let counters =
      if is_ecn
      then ecn_counters source (bytes_max - (1 + before)) (drop (1 + before) old)
      else [] in
    let byte_index = 1 + before + length counters + 1 in
    let ack_range = sub64 first.end_of_sack_range first.start_of_sack_range in
    let l_first_range = varint_encode (bytes_max - byte_index) ack_range in
    let behind = byte_index + length l_first_range in
    let (num_block, blocks) =
      block_loop bytes_max behind 0 first.start_of_sack_range ctx.packets.sacks.later in
    if (if is_ecn then is_empty counters else false)
      || is_empty l_delay
      || is_empty l_largest
      || is_empty l_first_range
      || ltb bytes_max behind
    then too_small
    else wrote (
        (if is_ecn then FrameType.ack_ecn else FrameType.ack)
        ∷ (l_largest ++ (l_delay ++ (counters ++ (u8 num_block ∷ (l_first_range ++ blocks))))))

-- The context once the frame is written.
unfoldable pub ack_sent : AckContext → ℕ → AckContext
ack_sent ctx current_time = record ctx {
  highest_ack_sent = ctx.packets.sacks.first_sack_item.end_of_sack_range;
  highest_ack_time = current_time;
  ack_needed = false;
}

unfoldable pub note_written : AckContext → ℕ → Written → AckContext × Written
note_written ctx current_time (wrote bytes) = (ack_sent ctx current_time, wrote bytes)
note_written ctx current_time too_small = (ctx, too_small)

-- `old` is what the buffer holds.
unfoldable pub prepare_ack_frame_maybe_ecn :
    AckSource → AckContext → Bool → ℕ → ℕ → List ℕ → AckContext × Written
unfolding ack_frame note_written
prepare_ack_frame_maybe_ecn source ctx is_ecn current_time bytes_max old =
    if is_unused ctx.packets.sacks.first_sack_item
    then (record ctx { ack_needed = false }, wrote [])
    else if ltb bytes_max 13
    then (ctx, too_small)
    else note_written ctx current_time (ack_frame source ctx is_ecn current_time bytes_max old)
