-- ===== src/Stream/Bytes.antt =====
-- The bytes of the stream that queueing a frame makes available, and those that it loses.
use pquic.Base.{
  ℕ, ◌+◌, ◌-◌, ◌≤◌, ◌<◌, ◌≡◌, refl, ap, ◌∙◌, ◌⊎◌, inl, inr, Bool, true, ◌&&◌, Option, none, List,
  [], ◌∷◌, length, get_elem?, arith, ltb, leb, Bool-cases,
}
use pquic.Stream.{
  StreamData, StreamHead, end_of, skip_block, room_before, place, queue_loop, queue_network_input,
}
use pquic.Stream.Blocks.{
  IsBlocks, holds, byte_at, IsBlocks-mono, byte_at_below, length-slice, get_elem?-slice,
}
use pquic.Stream.Queue.{Ahead, room_before_bounds, slice, place_cases, stopped}

-- The queue has the byte that it had, or had none there and has the frame's.
abbrev pub OldOrFrame : ℕ → List ℕ → ℕ → Option ℕ → Option ℕ → Type 0
OldOrFrame offset bytes x before after =
    (after ≡ before)
    ⊎ ((before ≡ none)
        × (offset ≤ x)
        × (x < offset + length bytes)
        × (after ≡ get_elem? bytes (x - offset)))

holds_bounds : (d : StreamData) (x : ℕ) → holds d x ≡ true → (d.offset ≤ x) × (x < end_of d)
holds_bounds d x h = ground arith

byte_at-behind :
    (d : StreamData) (l l' : List StreamData) (offset x : ℕ) (bytes : List ℕ) {lo : ℕ}
    → IsBlocks lo (d ∷ l)
    → OldOrFrame offset bytes x (byte_at l x) (byte_at l' x)
    → OldOrFrame offset bytes x (byte_at (d ∷ l) x) (byte_at (d ∷ l') x)
unfolding byte_at
byte_at-behind d l l' offset x bytes b h = elim (Bool-cases (holds d x)) [
  | inl inside ↦ rw inside (inl refl)
  | inr outside ↦ rw outside h
]

byte_at-slice :
    (offset start x : ℕ) (bytes : List ℕ) (l : List StreamData)
    → start < length bytes
    → Ahead (offset + start) l
    → IsBlocks 0 l
    → holds (slice offset bytes start l) x ≡ true
    → (byte_at (slice offset bytes start l ∷ l) x ≡ get_elem? bytes (x - offset))
      × (byte_at l x ≡ none)
      × (offset + start ≤ x)
      × (x < offset + length bytes)
byte_at-slice offset start x bytes l h a b inside =
    let (some_room, fits, rest) = room_before_bounds l offset (length bytes) start 0 h b a in
    let len = length-slice (room_before l offset (length bytes) start) start bytes fits in
    let (from, to) = holds_bounds (slice offset bytes start l) x inside in
    (
      unfold byte_at in
          rw inside (
            get_elem?-slice _ start (x - (offset + start)) (x - offset) bytes (omega (arith, len))
              (omega arith)),
      byte_at_below _ x l rest (omega (arith, len)),
      from,
      omega (arith, len),
    )

byte_at-place :
    (m : Bool) (offset start x lo : ℕ) (bytes : List ℕ) (l : List StreamData)
    → IsBlocks lo l
    → (start < length bytes → Ahead (offset + start) l)
    → OldOrFrame offset bytes x (byte_at l x) (byte_at (place m offset bytes start l).blocks x)
byte_at-place m offset start x lo bytes l b a = elim (place_cases m offset start bytes l) [
  | inl same ↦ inl (ap (λ c. byte_at c x) same)
  | inr (short, new) ↦ elim (Bool-cases (holds (slice offset bytes start l) x)) [
    | inl inside ↦
        let (frame, old, from, to) =
          byte_at-slice offset start x bytes l short (a short)
            (IsBlocks-mono 0 lo l (omega arith) b) inside in
        inr (old, omega arith, to, ap (λ c. byte_at c x) new ∙ frame)
    | inr outside ↦ inl (ap (λ c. byte_at c x) new ∙ unfold byte_at in rw outside)
  ]
]

byte_at-queue_loop :
    (m : Bool) (offset start x lo : ℕ) (bytes : List ℕ) (l : List StreamData)
    → IsBlocks lo l
    → OldOrFrame offset bytes x (byte_at l x) (byte_at (queue_loop m offset bytes start l).blocks x)
unfolding queue_loop
byte_at-queue_loop m offset start x lo bytes [] b =
    byte_at-place m offset start x lo bytes [] b (λ _. tt)
byte_at-queue_loop m offset start x lo bytes (d ∷ l) b =
    elim (Bool-cases (ltb start (length bytes) && leb d.offset (offset + start))) [
      | inl go ↦ rw go (
          byte_at-behind d l _ offset x bytes b (
            byte_at-queue_loop m offset (skip_block d offset (length bytes) start) x (end_of d)
              bytes l b.2))
      | inr stop ↦ rw stop (
          byte_at-place m offset start x lo bytes (d ∷ l) b
            (stopped d offset (length bytes) start stop))
    ]

-- Whatever malloc answers, queueing a frame on a well-formed queue changes no byte that the queue
-- has, and adds bytes of the frame only, at their own offsets.
pub queue_network_input-byte_at :
    (m : Bool) (stream : StreamHead) (offset x : ℕ) (bytes : List ℕ)
    → IsBlocks stream.consumed_offset stream.stream_data
    → OldOrFrame offset bytes x
        (byte_at stream.stream_data x)
        (byte_at (queue_network_input m stream offset bytes).blocks x)
unfolding queue_network_input
queue_network_input-byte_at m stream offset x bytes b =
    byte_at-queue_loop m offset _ x stream.consumed_offset bytes stream.stream_data b
