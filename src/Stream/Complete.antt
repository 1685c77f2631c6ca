-- ===== src/Stream/Complete.antt =====
-- Which bytes of a frame are kept: all of them if no queued block begins inside the frame, and none
-- from the first such block on otherwise.
use pquic.Base.{
  ℕ, ◌+◌, ◌-◌, ◌≤◌, ◌<◌, ◌≡◌, refl, ◌∙◌, ◌⊎◌, true, some, List, [], ◌∷◌, length, arith, All,
  get_elem?-some, lt→ltb, le→ltb, le→leb, lt→leb_false,
}
use native.Mathlib.Decide.{dec_lt, dec_le}
use pquic.Stream.{
  StreamData, StreamHead, end_of, consumed_start, skip_block, room_before, place, queue_loop,
  queue_network_input,
}
use pquic.Stream.Blocks.{byte_at, byte_at_past, length-slice}
use pquic.Stream.Queue.{Ahead, slice, place_blocks}

-- No block begins inside the frame, behind its first byte.
abbrev pub IsClear : ℕ → ℕ → List StreamData → Type 0
IsClear offset len = All (λ d. (d.offset ≤ offset) ⊎ (offset + len ≤ d.offset))

abbrev pub HasByte : List StreamData → ℕ → Type 0
HasByte l x = (v : ℕ) × (byte_at l x ≡ some v)

room_before_clear :
    (l : List StreamData) (offset len start : ℕ)
    → IsClear offset len l
    → Ahead (offset + start) l
    → room_before l offset len start ≡ len - start
unfolding room_before
room_before_clear [] offset len start c a = refl
room_before_clear (d ∷ l) offset len start c a = rw (le→ltb d.offset (offset + len) (omega arith))

holds-HasByte :
    (d : StreamData) (l : List StreamData) (x : ℕ) → d.offset ≤ x → x < end_of d → HasByte (d ∷ l) x
unfolding byte_at
holds-HasByte d l x h k =
    rw (le→leb d.offset x h, lt→ltb x (end_of d) k)
      (get_elem?-some (x - d.offset) d.bytes (omega arith))

behind-HasByte :
    (d : StreamData) (l : List StreamData) (x : ℕ) → end_of d ≤ x → HasByte l x → HasByte (d ∷ l) x
behind-HasByte d l x h k = (k.0, byte_at_past d l x h ∙ k.1)

place-HasByte :
    (offset start x : ℕ) (bytes : List ℕ) (l : List StreamData)
    → IsClear offset (length bytes) l
    → Ahead (offset + start) l
    → offset + start ≤ x
    → x < offset + length bytes
    → HasByte (place true offset bytes start l).blocks x
place-HasByte offset start x bytes l c a from to =
    let room = room_before_clear l offset (length bytes) start c a in
    rw (place_blocks offset start bytes l (omega arith) (omega (arith, room))) (
      holds-HasByte (slice offset bytes start l) l x from (
        omega (
          arith,
          room,
          length-slice (room_before l offset (length bytes) start) start bytes
              (omega (arith, room)),
        )))

skip_block_reach :
    (d : StreamData) (offset len start x : ℕ)
    → end_of d ≤ x
    → offset + start ≤ x
    → x < offset + len
    → offset + skip_block d offset len start ≤ x
unfolding skip_block
skip_block_reach d offset len start x h k l = ground arith

queue_loop-HasByte :
    (offset start x : ℕ) (bytes : List ℕ) (l : List StreamData)
    → IsClear offset (length bytes) l
    → offset + start ≤ x
    → x < offset + length bytes
    → HasByte (queue_loop true offset bytes start l).blocks x
unfolding queue_loop
queue_loop-HasByte offset start x bytes [] c from to =
    place-HasByte offset start x bytes [] c (omega arith) from to
queue_loop-HasByte offset start x bytes (d ∷ l) c from to =
    elim (dec_le d.offset (offset + start)) [
      | yes go ↦
          rw (lt→ltb start (length bytes) (omega arith), le→leb d.offset (offset + start) go)
            (elim (dec_lt x (end_of d)) [
              | yes inside ↦ holds-HasByte d _ x (omega arith) inside
              | no beyond ↦ behind-HasByte d _ x (omega arith) (
                  queue_loop-HasByte offset (skip_block d offset (length bytes) start) x bytes l c.1
                    (skip_block_reach d offset (length bytes) start x (omega arith) from to) to)
            ])
      | no stop ↦
          rw
            (
              lt→ltb start (length bytes) (omega arith),
              lt→leb_false d.offset (offset + start) (omega arith),
            )
            (place-HasByte offset start x bytes (d ∷ l) c (omega arith) from to)
    ]

-- Where memory can be had and no queued block begins inside the frame, every byte of the frame that
-- was not consumed yet is available afterwards.
pub queue_network_input-HasByte :
    (stream : StreamHead) (offset x : ℕ) (bytes : List ℕ)
    → IsClear offset (length bytes) stream.stream_data
    → offset ≤ x
    → x < offset + length bytes
    → stream.consumed_offset ≤ x
    → HasByte (queue_network_input true stream offset bytes).blocks x
unfolding queue_network_input
queue_network_input-HasByte stream offset x bytes c from to fresh =
    queue_loop-HasByte offset _ x bytes stream.stream_data c
      (reach stream.consumed_offset offset (length bytes) x from to fresh) to
  where
    reach :
        (consumed o len y : ℕ)
        → o ≤ y
        → y < o + len
        → consumed ≤ y
        → o + consumed_start consumed o len ≤ y
    reach consumed o len y h k l = unfold consumed_start in ground arith
