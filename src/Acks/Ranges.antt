-- ===== src/Acks/Ranges.antt =====
-- picoquic/frames.c, acknowledgements: the calls of the receiver for the blocks of ranges.
use pquic.Base.{
  ℕ, zero, suc, ◌+◌, ◌-◌, ◌≤◌, ◌≡◌, refl, ap, ◌∙◌, List, [], ◌∷◌, ◌++◌, take, arith, le→ltb, lt→ltb,
}
use pquic.Sacks.{SackItem}
use pquic.Sacks.Spec.{Below}
use pquic.Acks.Calls.{
  AckCall, process_ack_range, check_spurious_retransmission, acknowledge_range, ack_loop,
}
use pquic.Acks.Blocks.{gap_blocks}

-- The calls for ranges.
abbrev pub range_calls : List SackItem → List AckCall
range_calls [] = []
range_calls (s ∷ later) =
    process_ack_range s.end_of_sack_range (s.end_of_sack_range - s.start_of_sack_range + 1)
    ∷ check_spurious_retransmission s.start_of_sack_range s.end_of_sack_range
    ∷ range_calls later

pub take-Below :
    (k bound : ℕ) (items : List SackItem) → Below bound items → Below bound (take k items)
take-Below zero bound items b = tt
take-Below (suc k) bound [] b = tt
take-Below (suc k) bound (s ∷ later) b = (b.0, b.1, take-Below k s.start_of_sack_range later b.2)

pub acknowledge_range-item :
    (s : SackItem) (calls : List AckCall)
    → s.start_of_sack_range ≤ s.end_of_sack_range
    → acknowledge_range s.end_of_sack_range (s.end_of_sack_range - s.start_of_sack_range + 1)
        ++ calls
      ≡ process_ack_range s.end_of_sack_range (s.end_of_sack_range - s.start_of_sack_range + 1)
        ∷ check_spurious_retransmission s.start_of_sack_range s.end_of_sack_range
        ∷ calls
unfolding acknowledge_range
acknowledge_range-item s calls h =
    let range = s.end_of_sack_range - s.start_of_sack_range + 1 in
    let first : s.end_of_sack_range + 1 - range ≡ s.start_of_sack_range = omega arith in
    rw (lt→ltb 0 range (omega arith), first) refl

pub ack_loop-range_calls :
    (first_byte start last : ℕ) (items : List SackItem)
    → start ≤ last
    → Below start items
    → ack_loop first_byte last (last - start + 1) (gap_blocks start items) ≡ range_calls items
unfolding ack_loop
ack_loop-range_calls first_byte start last [] h b = refl
ack_loop-range_calls first_byte start last (s ∷ later) h b =
    let block_to_block = start - s.end_of_sack_range - 2 + 1 + (last - start + 1) in
    let next : last - block_to_block ≡ s.end_of_sack_range = omega arith in
    rw
      (
        le→ltb last block_to_block (omega arith),
        next,
        le→ltb (s.end_of_sack_range + 1) (s.end_of_sack_range - s.start_of_sack_range + 1)
            (omega arith),
      )
      (acknowledge_range-item s _ b.1
        ∙ ap
            (λ c.
              process_ack_range s.end_of_sack_range
                (s.end_of_sack_range - s.start_of_sack_range + 1)
              ∷ check_spurious_retransmission s.start_of_sack_range s.end_of_sack_range
              ∷ c)
            (ack_loop-range_calls first_byte s.start_of_sack_range s.end_of_sack_range later b.1
              b.2))
