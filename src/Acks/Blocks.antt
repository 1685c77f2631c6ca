-- ===== src/Acks/Blocks.antt =====
-- picoquic/frames.c: the later ranges of an acknowledgement, from their writer to the loop that reads them.
use pquic.Base.{
  ℕ, suc, ◌+◌, ◌-◌, ◌*◌, ◌^◌, ◌≤◌, ◌<◌, ◌≡◌, refl, sym, ap, some, List, [], ◌∷◌, ◌++◌, length, take,
  arith, length-append, le→leb, lt→leb_false,
}
use native.Mathlib.Decide.{dec_lt}
use pquic.Intformat.{varint_encode, varint_len}
use pquic.Sacks.{SackItem}
use pquic.Sacks.Spec.{Below}
use pquic.Frames.Control.{ack_block_loop}
use pquic.Frames.Reads.{length-varint_encode, append_assoc, frames_varint_decode-varint_encode}
use pquic.Frames.Lengths.{sub64_exact, varint_len_max, is_empty-too_small, is_empty-fits}
use pquic.Acks.{block_loop}

-- The blocks of ranges that follow the number `lowest`.
abbrev pub gap_blocks : ℕ → List SackItem → List (ℕ × ℕ)
gap_blocks lowest [] = []
gap_blocks lowest (s ∷ later) =
    (lowest - s.end_of_sack_range - 2, s.end_of_sack_range - s.start_of_sack_range)
    ∷ gap_blocks s.start_of_sack_range later

-- What the loop over the ranges wrote: the blocks of the first `count` of them, in the space that there
-- is, and of all of them where they are at most 63 and 16 bytes are free for each.
pub record BlocksWritten (bytes_max byte_index num_block lowest : ℕ) (items : List SackItem)
    (result : ℕ × List ℕ) : Type 0 where
  pub count : ℕ
  pub number : result.0 ≡ num_block + count
  pub at_most : result.0 ≤ 63
  pub fits : byte_index + length result.1 ≤ bytes_max
  pub reads :
      (rest : List ℕ)
      → ack_block_loop count (result.1 ++ rest) ≡ some (gap_blocks lowest (take count items), rest)
  pub complete :
      num_block + length items ≤ 63
      → byte_index + 16 * length items ≤ bytes_max
      → take count items ≡ items

-- Nothing is written.
no_blocks :
    (bytes_max byte_index num_block lowest : ℕ) (items : List SackItem) (result : ℕ × List ℕ)
    → num_block ≤ 63
    → byte_index ≤ bytes_max
    → result ≡ (num_block, [])
    → (num_block + length items ≤ 63 → byte_index + 16 * length items ≤ bytes_max → items ≡ [])
    → BlocksWritten bytes_max byte_index num_block lowest items result
unfolding ack_block_loop
no_blocks bytes_max byte_index num_block lowest items result h f e c =
    let number : result.0 ≡ num_block = ap (λ r. r.0) e in
    let none_left : result.1 ≡ [] = ap (λ r. r.1) e in
    record {
      count = 0;
      number = omega arith;
      at_most = omega arith;
      fits = rw none_left (omega arith);
      reads = λ rest. rw none_left refl;
      complete = λ few room. sym (c few room);
    }

-- One block in front of the others.
more_blocks :
    (bytes_max byte_index num_block lowest m1 m2 : ℕ) (s : SackItem) (later : List SackItem)
    (rest : ℕ × List ℕ)
    → s.end_of_sack_range + 1 < lowest
    → lowest < 2 ^ 62
    → varint_len (lowest - s.end_of_sack_range - 2) ≤ m1
    → varint_len (s.end_of_sack_range - s.start_of_sack_range) ≤ m2
    → BlocksWritten bytes_max
        (byte_index
          + (length (varint_encode m1 (lowest - s.end_of_sack_range - 2))
              + length (varint_encode m2 (s.end_of_sack_range - s.start_of_sack_range))))
        (num_block + 1)
        s.start_of_sack_range
        later
        rest
    → BlocksWritten bytes_max byte_index num_block lowest (s ∷ later) (
      rest.0,
      varint_encode m1 (lowest - s.end_of_sack_range - 2)
          ++ (varint_encode m2 (s.end_of_sack_range - s.start_of_sack_range) ++ rest.1),
    )
unfolding ack_block_loop
more_blocks bytes_max byte_index num_block lowest m1 m2 s later rest below top f1 f2 w =
    let gap = lowest - s.end_of_sack_range - 2 in
    let range = s.end_of_sack_range - s.start_of_sack_range in
    let l_gap = varint_encode m1 gap in
    let l_range = varint_encode m2 range in
    let len1 = length-varint_encode gap m1 (omega arith) f1 in
    let len2 = length-varint_encode range m2 (omega arith) f2 in
    let max1 = varint_len_max gap (omega arith) in
    let max2 = varint_len_max range (omega arith) in
    record {
      count = suc w.count;
      number = omega (arith, w.number);
      at_most = w.at_most;
      fits =
          omega
            (arith, w.fits, length-append l_gap (l_range ++ rest.1), length-append l_range rest.1);
      reads = λ behind.
          rw
            (
              append_assoc l_gap (l_range ++ rest.1) behind,
              append_assoc l_range rest.1 behind,
              frames_varint_decode-varint_encode gap m1 (l_range ++ (rest.1 ++ behind))
                  (omega arith) f1,
              frames_varint_decode-varint_encode range m2 (rest.1 ++ behind) (omega arith) f2,
              w.reads behind,
            )
            refl;
      complete = λ few room. ap (◌∷◌ s) (w.complete (omega arith) (omega arith));
    }

pub block_loop-BlocksWritten :
    (bytes_max byte_index num_block lowest : ℕ) (items : List SackItem)
    → Below lowest items
    → lowest < 2 ^ 62
    → byte_index ≤ bytes_max
    → num_block ≤ 63
    → BlocksWritten bytes_max byte_index num_block lowest items
        (block_loop bytes_max byte_index num_block lowest items)
unfolding block_loop
block_loop-BlocksWritten bytes_max byte_index num_block lowest [] below top fits few =
    no_blocks bytes_max byte_index num_block lowest [] _ few fits refl (λ a b. refl)
block_loop-BlocksWritten bytes_max byte_index num_block lowest (s ∷ later) below top fits few =
    let gap = lowest - s.end_of_sack_range - 2 in
    let range = s.end_of_sack_range - s.start_of_sack_range in
    let m1 = bytes_max - byte_index in
    let l_gap = varint_encode m1 gap in
    let m2 = m1 - length l_gap in
    let l_range = varint_encode m2 range in
    let max1 = varint_len_max gap (omega arith) in
    let max2 = varint_len_max range (omega arith) in
    let none_written =
      no_blocks bytes_max byte_index num_block lowest (s ∷ later) (num_block, []) few fits refl in
    rw
      (
        sub64_exact lowest s.end_of_sack_range (omega arith) (omega arith),
        sub64_exact (lowest - s.end_of_sack_range) 2 (omega arith) (omega arith),
        sub64_exact s.end_of_sack_range s.start_of_sack_range (omega arith) (omega arith),
      )
      (elim (dec_lt num_block 63) [
        | no full ↦
            rw (le→leb 63 num_block (omega arith)) (none_written (λ a b. absurd (omega arith)))
        | yes free ↦ elim (dec_lt m1 (varint_len gap)) [
          | yes short ↦
              rw (lt→leb_false 63 num_block free, is_empty-too_small m1 gap (omega arith) short)
                (none_written (λ a b. absurd (omega arith)))
          | no fits1 ↦
              let len1 = length-varint_encode gap m1 (omega arith) (omega arith) in
              elim (dec_lt m2 (varint_len range)) [
                | yes short ↦
                    rw
                      (
                        lt→leb_false 63 num_block free,
                        is_empty-fits m1 gap (omega arith) (omega arith),
                        is_empty-too_small m2 range (omega arith) short,
                      )
                      (none_written (λ a b. absurd (omega arith)))
                | no fits2 ↦
                    let len2 = length-varint_encode range m2 (omega arith) (omega arith) in
                    rw
                      (
                        lt→leb_false 63 num_block free,
                        is_empty-fits m1 gap (omega arith) (omega arith),
                        is_empty-fits m2 range (omega arith) (omega arith),
                      )
                      (more_blocks bytes_max byte_index num_block lowest m1 m2 s later _
                        (omega arith) top (omega arith) (omega arith)
                        (block_loop-BlocksWritten bytes_max
                          (byte_index + (length l_gap + length l_range)) (num_block + 1)
                          s.start_of_sack_range later below.2 (omega arith) (omega arith)
                          (omega arith)))
              ]
        ]
      ])
