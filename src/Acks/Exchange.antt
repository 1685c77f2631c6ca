-- ===== src/Acks/Exchange.antt =====
-- picoquic/frames.c, acknowledgements from the chain of received ranges to the calls of the peer.
use pquic.Base.{
  ℕ, ◌+◌, ◌-◌, ◌*◌, ◌^◌, ◌≤◌, ◌<◌, ◌≡◌, ◌≢◌, refl, ap, ◌∙◌, Bool, true, false, ◌||◌, some, List, [],
  ◌∷◌, ◌++◌, length, take, arith, within, if◌then◌else◌, lt→leb_false, le→ltb, ne→==_false,
}
use pquic.Sacks.{SackItem, is_unused}
use pquic.Sacks.Spec.{Below, covered, received}
use pquic.Frames.FrameType
use pquic.Frames.Frame.{Frame, parsed, outcome}
use pquic.Frames.Write.{wrote}
use pquic.Frames.Control.{ack_fields, parse_ack_frame_maybe_ecn}
use pquic.Acks.{
  AckContext, AckSource, scaled_delay, ack_frame, ack_sent, note_written,
  prepare_ack_frame_maybe_ecn,
}
use pquic.Acks.Calls.{
  AckCall, set_ecn_remote, update_rtt, process_ack_range, check_spurious_retransmission,
  connection_error_call, process_ack, process_ack_frame_maybe_ecn,
}
use pquic.Acks.Ranges.{range_calls, take-Below, acknowledge_range-item, ack_loop-range_calls}
use pquic.Frames.Decode.{Mallocs, parse_frame, find_parser, parsers}
use pquic.Acks.Counters.{counters_of}
use pquic.Acks.Parts.{IsAckable, ack_of, start_of, end_of, IsSackList-Below, ack_frame-AckWritten}

-- The calls for a frame that carries the ranges.
abbrev pub peer_calls : AckSource → AckContext → Bool → ℕ → List SackItem → List AckCall
peer_calls source ctx is_ecn current_time ranges =
    (if is_ecn then set_ecn_remote (counters_of source is_ecn) ∷ [] else [])
    ++ (update_rtt (end_of ctx) (scaled_delay source ctx current_time) ∷ range_calls ranges)

prepared :
    (source : AckSource) (ctx : AckContext) (is_ecn : Bool) (current_time bytes_max : ℕ)
    (old bytes : List ℕ)
    → is_unused ctx.packets.sacks.first_sack_item ≡ false
    → 13 ≤ bytes_max
    → ack_frame source ctx is_ecn current_time bytes_max old ≡ wrote bytes
    → prepare_ack_frame_maybe_ecn source ctx is_ecn current_time bytes_max old
      ≡ (ack_sent ctx current_time, wrote bytes)
unfolding prepare_ack_frame_maybe_ecn note_written
prepared source ctx is_ecn current_time bytes_max old bytes used room e =
    rw (used, le→ltb bytes_max 13 room, e) refl

parse_of :
    (is_ecn : Bool) (m : Mallocs) (bytes : List ℕ) (frame : Frame) (rest : List ℕ)
    → m.frame_ok ≡ true
    → ack_fields is_ecn bytes ≡ some (frame, rest)
    → parse_frame m ((if is_ecn then FrameType.ack_ecn else FrameType.ack) ∷ bytes)
      ≡ some (parsed false frame rest)
unfolding parse_frame find_parser parsers parse_ack_frame_maybe_ecn outcome
parse_of true m bytes frame rest ok e = rw (ok, e) refl
parse_of false m bytes frame rest ok e = rw (ok, e) refl

process_ack-peer_calls :
    (source : AckSource) (ctx : AckContext) (is_ecn : Bool)
    (current_time epoch send_sequence count : ℕ)
    → IsAckable source ctx is_ecn current_time
    → epoch ≢ 1
    → end_of ctx < send_sequence
    → process_ack_frame_maybe_ecn epoch send_sequence (ack_of source ctx is_ecn current_time count)
      ≡ peer_calls source ctx is_ecn current_time
          (ctx.packets.sacks.first_sack_item ∷ take count ctx.packets.sacks.later)
unfolding process_ack_frame_maybe_ecn process_ack
process_ack-peer_calls source ctx is_ecn current_time epoch send_sequence count v other sent =
    let first = ctx.packets.sacks.first_sack_item in
    let below = IsSackList-Below ctx.packets.sacks v.used v.is_sack_list in
    let later = take-Below count (start_of ctx) ctx.packets.sacks.later below.2 in
    rw
      (
        ne→==_false epoch 1 other,
        lt→leb_false send_sequence (end_of ctx) sent,
        le→ltb (end_of ctx + 1) (end_of ctx - start_of ctx + 1) (omega arith),
        ack_loop-range_calls (if is_ecn then FrameType.ack_ecn else FrameType.ack) (start_of ctx)
            (end_of ctx) (take count ctx.packets.sacks.later) below.1 later,
        acknowledge_range-item first (range_calls (take count ctx.packets.sacks.later)) below.1,
      )
      refl

-- Where there is something to acknowledge, the ranges are well formed, the largest number and the time are
-- below 2^62, the counters of an ACK_ECN frame fit, the first two in as many bytes, and 50 bytes are free,
-- the writer writes a frame that fits the buffer and notes it. The parser that is registered for its type
-- reads it with whatever follows, where memory for the frame can be had, and a peer that has sent the largest
-- number takes, outside of 0-RTT, the counters, the largest number with the delay, and exactly the ranges of
-- a beginning of the chain, in their order.
pub process_ack_frame_maybe_ecn-prepare_ack_frame_maybe_ecn :
    (source : AckSource) (ctx : AckContext) (is_ecn : Bool) (current_time bytes_max : ℕ)
    (old : List ℕ) (epoch send_sequence : ℕ) (m : Mallocs) (rest : List ℕ)
    → IsAckable source ctx is_ecn current_time
    → 50 ≤ bytes_max
    → epoch ≢ 1
    → end_of ctx < send_sequence
    → m.frame_ok ≡ true
    → (bytes : List ℕ) × (frame : Frame) × (count : ℕ) × (prepare_ack_frame_maybe_ecn source ctx
          is_ecn current_time bytes_max old
        ≡ (ack_sent ctx current_time, wrote bytes))
      × (length bytes ≤ bytes_max)
      × (parse_frame m (bytes ++ rest) ≡ some (parsed false frame rest))
      × (process_ack_frame_maybe_ecn epoch send_sequence frame
          ≡ peer_calls source ctx is_ecn current_time
              (ctx.packets.sacks.first_sack_item ∷ take count ctx.packets.sacks.later))
process_ack_frame_maybe_ecn-prepare_ack_frame_maybe_ecn source ctx is_ecn current_time bytes_max old
      epoch send_sequence m rest v room other sent ok =
    let w = ack_frame-AckWritten source ctx is_ecn current_time bytes_max old v room in
    (
      (if is_ecn then FrameType.ack_ecn else FrameType.ack) ∷ w.bytes,
      ack_of source ctx is_ecn current_time w.count,
      w.count,
      prepared source ctx is_ecn current_time bytes_max old _ v.used (omega arith) w.written,
      omega (arith, w.fits),
      parse_of is_ecn m (w.bytes ++ rest) _ rest ok (w.reads rest),
      process_ack-peer_calls source ctx is_ecn current_time epoch send_sequence w.count v other
          sent,
    )

-- Some call acknowledges the number.
abbrev pub acknowledged : List AckCall → ℕ → Bool
acknowledged [] n = false
acknowledged (process_ack_range highest range ∷ calls) n =
    within (highest + 1 - range) highest n || acknowledged calls n
acknowledged (set_ecn_remote counters ∷ calls) n = acknowledged calls n
acknowledged (update_rtt largest delay ∷ calls) n = acknowledged calls n
acknowledged (check_spurious_retransmission first last ∷ calls) n = acknowledged calls n
acknowledged (connection_error_call error frame_type ∷ calls) n = acknowledged calls n

acknowledged-range_calls :
    (bound n : ℕ) (items : List SackItem)
    → Below bound items
    → acknowledged (range_calls items) n ≡ covered items n
acknowledged-range_calls bound n [] b = refl
acknowledged-range_calls bound n (s ∷ later) b =
    let range = s.end_of_sack_range - s.start_of_sack_range + 1 in
    let start : s.end_of_sack_range + 1 - range ≡ s.start_of_sack_range = omega arith in
    rw (start, acknowledged-range_calls s.start_of_sack_range n later b.2) refl

acknowledged-peer_calls :
    (source : AckSource) (ctx : AckContext) (is_ecn : Bool) (current_time n : ℕ)
    → IsAckable source ctx is_ecn current_time
    → acknowledged
        (peer_calls source ctx is_ecn current_time
          (ctx.packets.sacks.first_sack_item ∷ ctx.packets.sacks.later))
        n
      ≡ received ctx.packets.sacks n
acknowledged-peer_calls source ctx true current_time n v = rw v.used (
    acknowledged-range_calls (2 ^ 64) n
      (ctx.packets.sacks.first_sack_item ∷ ctx.packets.sacks.later)
      (IsSackList-Below ctx.packets.sacks v.used v.is_sack_list))
acknowledged-peer_calls source ctx false current_time n v = rw v.used (
    acknowledged-range_calls (2 ^ 64) n
      (ctx.packets.sacks.first_sack_item ∷ ctx.packets.sacks.later)
      (IsSackList-Below ctx.packets.sacks v.used v.is_sack_list))

-- Where there is something to acknowledge, the ranges are well formed, those behind the first are 63 at most,
-- the largest number and the time are below 2^62, the counters of an ACK_ECN frame fit, the first two in as
-- many bytes, and 50 bytes and 16 for each range behind the first are free, a frame is written and noted. The
-- parser that is registered for its type reads it where memory for the frame can be had, and a peer that has
-- sent the largest number acknowledges by it, outside of 0-RTT, exactly the numbers that were received.
pub acknowledged-received :
    (source : AckSource) (ctx : AckContext) (is_ecn : Bool) (current_time bytes_max : ℕ)
    (old : List ℕ) (epoch send_sequence : ℕ) (m : Mallocs) (rest : List ℕ) (n : ℕ)
    → IsAckable source ctx is_ecn current_time
    → length ctx.packets.sacks.later ≤ 63
    → 50 + 16 * length ctx.packets.sacks.later ≤ bytes_max
    → epoch ≢ 1
    → end_of ctx < send_sequence
    → m.frame_ok ≡ true
    → (bytes : List ℕ) × (frame : Frame) × (prepare_ack_frame_maybe_ecn source ctx is_ecn
          current_time bytes_max old
        ≡ (ack_sent ctx current_time, wrote bytes))
      × (parse_frame m (bytes ++ rest) ≡ some (parsed false frame rest))
      × (acknowledged (process_ack_frame_maybe_ecn epoch send_sequence frame) n
          ≡ received ctx.packets.sacks n)
acknowledged-received source ctx is_ecn current_time bytes_max old epoch send_sequence m rest n v
      few wide other sent ok =
    let room : 50 ≤ bytes_max = omega arith in
    let w = ack_frame-AckWritten source ctx is_ecn current_time bytes_max old v room in
    let calls =
      process_ack-peer_calls source ctx is_ecn current_time epoch send_sequence w.count v other
        sent in
    (
      (if is_ecn then FrameType.ack_ecn else FrameType.ack) ∷ w.bytes,
      ack_of source ctx is_ecn current_time w.count,
      prepared source ctx is_ecn current_time bytes_max old _ v.used (omega arith) w.written,
      parse_of is_ecn m (w.bytes ++ rest) _ rest ok (w.reads rest),
      ap (λ c. acknowledged c n) calls
          ∙ ap
              (λ l.
                acknowledged
                  (peer_calls source ctx is_ecn current_time
                    (ctx.packets.sacks.first_sack_item ∷ l))
                  n)
              (w.complete few wide)
          ∙ acknowledged-peer_calls source ctx is_ecn current_time n v,
    )
