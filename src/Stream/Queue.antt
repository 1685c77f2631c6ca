-- ===== src/Stream/Queue.antt =====
-- Queueing a frame: the blocks stay well formed, what was queued stays as it is, and what is new is
-- the frame's own.
use pquic.Base.{
  ℕ, ◌+◌, ◌≤◌, ◌<◌, ◌≡◌, ◌⊎◌, inl, inr, Bool, true, false, ◌&&◌, List, [], ◌∷◌, length, take, drop,
  arith, ltb, leb, Bool-cases, lt→ltb,
}
use pquic.Stream.{
  StreamData, StreamHead, end_of, consumed_start, skip_block, room_before, place, queue_loop,
  queue_network_input,
}
use pquic.Stream.Blocks.{IsBlocks, length-slice}

pub stopped :
    (d : StreamData) (offset len start : ℕ)
    → (ltb start len && leb d.offset (offset + start)) ≡ false
    → start < len
    → offset + start < d.offset
stopped d offset len start h k = ground arith

-- The frame's next byte lies behind the block that was passed, or nothing of the frame is left.
pub skip_block_progress :
    (d : StreamData) (offset len start lo : ℕ)
    → (ltb start len && leb d.offset (offset + start)) ≡ true
    → (end_of d ≤ offset + skip_block d offset len start) ⊎ (len ≤ skip_block d offset len start)
unfolding skip_block
skip_block_progress d offset len start lo h = ground arith

-- The next block, if any, begins behind the frame's next byte.
abbrev pub Ahead : ℕ → List StreamData → Type 0
Ahead x [] = Unit {0}
Ahead x (d ∷ l) = x < d.offset

pub room_before_bounds :
    (l : List StreamData) (offset len start lo : ℕ)
    → start < len
    → IsBlocks lo l
    → Ahead (offset + start) l
    → (0 < room_before l offset len start)
      × (room_before l offset len start + start ≤ len)
      × IsBlocks (offset + start + room_before l offset len start) l
unfolding room_before
room_before_bounds [] offset len start lo h b a = omega arith
room_before_bounds (d ∷ l) offset len start lo h b a = ground arith

abbrev pub slice : ℕ → List ℕ → ℕ → List StreamData → StreamData
slice offset bytes start l = record {
  offset = offset + start;
  bytes = take (room_before l offset (length bytes) start) (drop start bytes);
}

-- The chain is left alone, or a block is placed in front of it.
pub place_cases :
    (m : Bool) (offset start : ℕ) (bytes : List ℕ) (l : List StreamData)
    → ((place m offset bytes start l).blocks ≡ l)
      ⊎ ((start < length bytes)
          × ((place m offset bytes start l).blocks ≡ slice offset bytes start l ∷ l))
unfolding place
place_cases true offset start bytes l = ground arith
place_cases false offset start bytes l = ground arith

pub place_blocks :
    (offset start : ℕ) (bytes : List ℕ) (l : List StreamData)
    → start < length bytes
    → 0 < room_before l offset (length bytes) start
    → (place true offset bytes start l).blocks ≡ slice offset bytes start l ∷ l
unfolding place
place_blocks offset start bytes l h r = rw (lt→ltb start (length bytes) h, lt→ltb 0 _ r)

pub slice-IsBlocks :
    (offset start lo : ℕ) (bytes : List ℕ) (l : List StreamData)
    → start < length bytes
    → lo ≤ offset + start
    → IsBlocks lo l
    → Ahead (offset + start) l
    → IsBlocks lo (slice offset bytes start l ∷ l)
slice-IsBlocks offset start lo bytes l h k b a =
    let (some_room, fits, rest) = room_before_bounds l offset (length bytes) start lo h b a in
    let len = length-slice (room_before l offset (length bytes) start) start bytes fits in
    (k, omega (arith, len), rw len rest)

pub consumed_start_bounds :
    (consumed offset len : ℕ)
    → (consumed ≤ offset + consumed_start consumed offset len)
      ⊎ (len ≤ consumed_start consumed offset len)
unfolding consumed_start
consumed_start_bounds consumed offset len = ground arith

-- The loop keeps the queue well formed.
queue_loop-IsBlocks :
    (m : Bool) (offset start lo : ℕ) (bytes : List ℕ) (l : List StreamData)
    → IsBlocks lo l
    → (lo ≤ offset + start) ⊎ (length bytes ≤ start)
    → IsBlocks lo (queue_loop m offset bytes start l).blocks
unfolding queue_loop
queue_loop-IsBlocks m offset start lo bytes [] b h = elim (place_cases m offset start bytes []) [
  | inl same ↦ rw same b
  | inr (short, new) ↦
      rw new (slice-IsBlocks offset start lo bytes [] short (omega arith) b (omega arith))
]
queue_loop-IsBlocks m offset start lo bytes (d ∷ l) b h =
    elim (Bool-cases (ltb start (length bytes) && leb d.offset (offset + start))) [
      | inl go ↦ rw go (
        b.0,
        b.1,
        queue_loop-IsBlocks m offset (skip_block d offset (length bytes) start) (end_of d) bytes l
            b.2 (skip_block_progress d offset (length bytes) start lo go),
      )
      | inr stop ↦ elim (place_cases m offset start bytes (d ∷ l)) [
        | inl same ↦ rw (stop, same) b
        | inr (short, new) ↦
            rw (stop, new)
              (slice-IsBlocks offset start lo bytes (d ∷ l) short (omega arith) b
                (stopped d offset (length bytes) start stop short))
      ]
    ]

-- Whatever malloc answers, queueing a frame on a queue whose blocks are in order, not empty and apart,
-- and do not begin before what was consumed, keeps them so.
pub queue_network_input-IsBlocks :
    (m : Bool) (stream : StreamHead) (offset : ℕ) (bytes : List ℕ)
    → IsBlocks stream.consumed_offset stream.stream_data
    → IsBlocks stream.consumed_offset (queue_network_input m stream offset bytes).blocks
unfolding queue_network_input
queue_network_input-IsBlocks m stream offset bytes b =
    queue_loop-IsBlocks m offset _ stream.consumed_offset bytes stream.stream_data b
      (consumed_start_bounds stream.consumed_offset offset (length bytes))
