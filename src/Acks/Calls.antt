-- ===== src/Acks/Calls.antt =====
-- picoquic/frames.c, process_ack_frame_maybe_ecn: the operations that the receiver of an
-- acknowledgement runs, in their order. They act on the retransmission queue.
use pquic.Base.{ℕ, ◌+◌, ◌-◌, Bool, ◌||◌, List, [], ◌∷◌, ◌++◌, ltb, leb, ◌==◌, if◌then◌else◌}
use pquic.Frames.FrameType
use pquic.Frames.Frame.{Frame, ack}

-- The last is picoquic_connection_error, behind which the function returns 1.
pub data AckCall : Type 0 where
  set_ecn_remote : List ℕ → AckCall
  update_rtt : ℕ → ℕ → AckCall
  process_ack_range check_spurious_retransmission connection_error_call : ℕ → ℕ → AckCall

-- A range of `range` numbers up to `largest`. process_ack_range returns 0.
unfoldable pub acknowledge_range : ℕ → ℕ → List AckCall
acknowledge_range largest range =
    process_ack_range largest range
    ∷ (if ltb 0 range then check_spurious_retransmission (largest + 1 - range) largest ∷ [] else [])

-- The loop over the blocks (gap, additional_ack_block); a frame has ack_block_count of them.
unfoldable pub ack_loop : ℕ → ℕ → ℕ → List (ℕ × ℕ) → List AckCall
unfolding acknowledge_range
ack_loop first_byte largest range [] = []
ack_loop first_byte largest range ((gap, additional) ∷ blocks) =
    let block_to_block = gap + 1 + range in
    let next = largest - block_to_block in
    let later = ack_loop first_byte next (additional + 1) blocks in
    if ltb largest block_to_block
    then connection_error_call 0x7 first_byte ∷ []
    else if ltb (next + 1) (additional + 1)
    then connection_error_call 0x7 first_byte ∷ []
    else acknowledge_range next (additional + 1) ++ later

-- From the fields of the frame.
unfoldable pub process_ack : ℕ → ℕ → Bool → ℕ → ℕ → List ℕ → ℕ → List (ℕ × ℕ) → List AckCall
unfolding ack_loop
process_ack epoch send_sequence is_ack_ecn largest ack_delay ecnx3 first_ack_block blocks =
    let first_byte = if is_ack_ecn then FrameType.ack_ecn else FrameType.ack in
    let range = first_ack_block + 1 in
    let ecn = if is_ack_ecn then set_ecn_remote ecnx3 ∷ [] else [] in
    let ranges =
      if ltb (largest + 1) range
      then connection_error_call 0x7 first_byte ∷ []
      else acknowledge_range largest range ++ ack_loop first_byte largest range blocks in
    if epoch == 1 || leb send_sequence largest
    then connection_error_call 0xA first_byte ∷ []
    else ecn ++ (update_rtt largest ack_delay ∷ ranges)

-- The operation is run on acknowledgements only.
unfoldable pub process_ack_frame_maybe_ecn : ℕ → ℕ → Frame → List AckCall
unfolding process_ack
process_ack_frame_maybe_ecn epoch send_sequence
      (ack is_ack_ecn largest ack_delay ecnx3 ack_block_count first_ack_block blocks) =
    process_ack epoch send_sequence is_ack_ecn largest ack_delay ecnx3 first_ack_block blocks
process_ack_frame_maybe_ecn epoch send_sequence frame = []
