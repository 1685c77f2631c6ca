-- ===== src/Tests/Acks.antt =====
-- Runs of the acknowledgements: two ranges of packets on their way to the peer.
use pquic.Base.{ℕ, ◌≤◌, ◌≡◌, refl, false, true, some, List, [], ◌∷◌, ◌++◌, length, take, arith}
use pquic.Intformat.{varint_encode, varint_len}
use pquic.Sacks.{SackList}
use pquic.Sacks.Spec.{received}
use pquic.Frames.Frame.{Frame, parsed}
use pquic.Frames.Write.{wrote}
use pquic.Frames.Decode.{Mallocs, parse_frame}
use pquic.Acks.{AckContext, AckSource, ack_sent, prepare_ack_frame_maybe_ecn}
use pquic.Acks.Calls.{process_ack_frame_maybe_ecn}
use pquic.Acks.Counters.{HasCounters}
use pquic.Acks.Parts.{IsAckable}
use pquic.Acks.Exchange.{
  peer_calls, process_ack_frame_maybe_ecn-prepare_ack_frame_maybe_ecn, acknowledged,
  acknowledged-received,
}

-- 20..30 and 3..7 were received.
abbrev ranges : SackList
ranges = record {
  first_sack_item = record { start_of_sack_range = 20; end_of_sack_range = 30 };
  later = record { start_of_sack_range = 3; end_of_sack_range = 7 } ∷ [];
}

abbrev context : AckContext
context = record {
  packets = record { sacks = ranges; time_stamp_largest_received = 100 };
  highest_ack_sent = 7;
  highest_ack_time = 50;
  ack_needed = true;
}

abbrev source : AckSource
source = record {
  ack_delay_exponent = 3;
  ecn_ect0_total_local = 4;
  ecn_ect1_total_local = 0;
  ecn_ce_total_local = 100;
}

source-HasCounters : HasCounters source
unfolding varint_len
source-HasCounters = record {
  ect0 = omega arith;
  ect1 = omega arith;
  ce = omega arith;
  same_length = refl;
}

context-IsAckable : IsAckable source context true 180
context-IsAckable = record {
  used = refl;
  is_sack_list = omega arith;
  largest = omega arith;
  time = omega arith;
  counters = λ e. source-HasCounters;
}

abbrev pub memory : Mallocs
memory = record { frame_ok = true; pid_ok = true; queue_ok = true }

process_ack_frame_maybe_ecn-prepare_ack_frame_maybe_ecn_example :
    (bytes : List ℕ) × (frame : Frame) × (count : ℕ) × (prepare_ack_frame_maybe_ecn source context
        true 180 60 []
      ≡ (ack_sent context 180, wrote bytes))
    × (length bytes ≤ 60)
    × (parse_frame memory (bytes ++ (7 ∷ [])) ≡ some (parsed false frame (7 ∷ [])))
    × (process_ack_frame_maybe_ecn 3 31 frame
        ≡ peer_calls source context true 180 (ranges.first_sack_item ∷ take count ranges.later))
process_ack_frame_maybe_ecn-prepare_ack_frame_maybe_ecn_example =
    process_ack_frame_maybe_ecn-prepare_ack_frame_maybe_ecn source context true 180 60 [] 3 31
      memory (7 ∷ []) context-IsAckable (omega arith) (omega arith) (omega arith) refl

acknowledged-received_example :
    (bytes : List ℕ) × (frame : Frame) × (prepare_ack_frame_maybe_ecn source context true 180 70 []
      ≡ (ack_sent context 180, wrote bytes))
    × (parse_frame memory (bytes ++ []) ≡ some (parsed false frame []))
    × (acknowledged (process_ack_frame_maybe_ecn 3 31 frame) 5 ≡ received ranges 5)
acknowledged-received_example =
    acknowledged-received source context true 180 70 [] 3 31 memory [] 5 context-IsAckable
      (omega arith) (omega arith) (omega arith) (omega arith) refl

-- The type,  30, 80 / 8, the counters, one block, 30 - 20, and the gap and the block behind it.
two_ranges_frame :
    (prepare_ack_frame_maybe_ecn source context true 180 60 []).1
    ≡ wrote (26 ∷ 30 ∷ 10 ∷ 4 ∷ 0 ∷ 64 ∷ 100 ∷ 1 ∷ 10 ∷ 11 ∷ 4 ∷ [])
unfolding prepare_ack_frame_maybe_ecn varint_encode
two_ranges_frame = refl

-- With 100 for the first counter the second is followed by a byte that the buffer held (9).
second_counter_misplaced :
    (prepare_ack_frame_maybe_ecn
      (record source { ecn_ect0_total_local = 100 })
      context
      true
      180
      60
      (9 ∷ 9 ∷ 9 ∷ 9 ∷ 9 ∷ 9 ∷ 9 ∷ [])).1
    ≡ wrote (26 ∷ 30 ∷ 10 ∷ 64 ∷ 100 ∷ 0 ∷ 9 ∷ 64 ∷ 100 ∷ 1 ∷ 10 ∷ 11 ∷ 4 ∷ [])
unfolding prepare_ack_frame_maybe_ecn varint_encode
second_counter_misplaced = refl
