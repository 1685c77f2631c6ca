-- ===== src/Stream/Deliver.antt =====
-- The delivery to the application: the bytes of the stream, in order and without a gap, as far as the
-- queue has them.
use pquic.Base.{
  ℕ, ◌+◌, ◌-◌, ◌≤◌, ◌<◌, ◌≡◌, refl, ap, sym, ◌∙◌, inl, inr, Bool, ◌&&◌, ◌||◌, List, [], ◌∷◌, ◌++◌,
  length, get_elem?, arith, leb, if◌then◌else◌, Bool-cases, length-append, get_elem?-append_left,
  get_elem?-append_right, lt→ltb, le→leb, lt→leb_false,
}
use pquic.Stream.{
  StreamData, StreamHead, Delivery, end_of, deliver, late_fin, callback_loop, stream_data_callback,
}
use pquic.Stream.Blocks.{IsBlocks, byte_at, byte_at_past}
use pquic.Stream.Queue.{Ahead}
use native.Mathlib.Decide.{dec_lt, dec_le}

-- What the application got, call after call, and how often it was told of the end.
abbrev pub text : List Delivery → List ℕ
text [] = []
text (d ∷ l) = d.delivered ++ text l

abbrev pub fins : List Delivery → ℕ
fins [] = 0
fins (d ∷ l) = (if d.fin then 1 else 0) + fins l

abbrev bit : Bool → ℕ
bit b = if b then 1 else 0

late_fin_keeps :
    (s : StreamHead)
    → ((late_fin s).0.consumed_offset ≡ s.consumed_offset)
      × ((late_fin s).0.stream_data ≡ s.stream_data)
      × (text (late_fin s).1 ≡ [])
unfolding late_fin
late_fin_keeps s = ground arith

-- A block at the consumed offset is delivered whole.
deliver_whole :
    (s : StreamHead) (d : StreamData) (l : List StreamData)
    → d.offset ≡ s.consumed_offset
    → ((deliver s d l).0.consumed_offset ≡ end_of d)
      × ((deliver s d l).0.stream_data ≡ l)
      × ((deliver s d l).1.delivered ≡ d.bytes)
unfolding deliver
deliver_whole s d l e =
    let z : s.consumed_offset - d.offset ≡ 0 = omega arith in rw z (omega arith, refl, refl)

abbrev pub IsState : ℕ → StreamHead × List Delivery → Type 0
IsState consumed r =
    (r.0.consumed_offset ≡ consumed + length (text r.1))
    × IsBlocks r.0.consumed_offset r.0.stream_data
    × Ahead r.0.consumed_offset r.0.stream_data

stop-IsState :
    (s : StreamHead) (l : List StreamData)
    → s.stream_data ≡ l
    → IsBlocks s.consumed_offset l
    → Ahead s.consumed_offset l
    → IsState s.consumed_offset (late_fin s)
stop-IsState s l e b a = let (c, d, t) = late_fin_keeps s in rw (t, c, d, e) (omega arith, b, a)

callback_loop-IsState :
    (s : StreamHead) (l : List StreamData)
    → s.stream_data ≡ l
    → IsBlocks s.consumed_offset l
    → IsState s.consumed_offset (callback_loop s l)
unfolding callback_loop
callback_loop-IsState s [] e b = stop-IsState s [] e b tt
callback_loop-IsState s (d ∷ l) e b = elim (dec_le d.offset s.consumed_offset) [
  | yes now ↦
      let (c, q, t) = deliver_whole s d l (omega arith) in
      let (c', b', a') = callback_loop-IsState (deliver s d l).0 l q (rw c b.2) in
      rw (le→leb d.offset s.consumed_offset now) (
        omega (
          arith,
          c',
          c,
          ap length t,
          length-append (deliver s d l).1.delivered (text (callback_loop (deliver s d l).0 l).1),
        ),
        b',
        a',
      )
  | no later ↦
      rw (lt→leb_false d.offset s.consumed_offset (omega arith))
        (stop-IsState s (d ∷ l) e b (omega arith))
]

-- After the delivery from a well-formed queue the consumed offset has moved by the bytes that the
-- application was given, the queue is well formed, and the first block that is left, if any, begins
-- behind a gap.
pub stream_data_callback-IsState :
    (s : StreamHead)
    → IsBlocks s.consumed_offset s.stream_data
    → IsState s.consumed_offset (stream_data_callback s)
unfolding stream_data_callback
stream_data_callback-IsState s b = callback_loop-IsState s s.stream_data refl b

byte_at_head :
    (d : StreamData) (l : List StreamData) (i x : ℕ)
    → x ≡ d.offset + i
    → i < length d.bytes
    → byte_at (d ∷ l) x ≡ get_elem? d.bytes i
unfolding byte_at
byte_at_head d l i x e h =
    rw (le→leb d.offset x (omega arith), lt→ltb x (end_of d) (omega arith))
      (ap (get_elem? d.bytes) (omega arith))

text-byte_at :
    (s : StreamHead) (l : List StreamData) (i : ℕ)
    → s.stream_data ≡ l
    → IsBlocks s.consumed_offset l
    → i < length (text (callback_loop s l).1)
    → get_elem? (text (callback_loop s l).1) i ≡ byte_at l (s.consumed_offset + i)
unfolding callback_loop
text-byte_at s [] i e b h = absurd (omega (arith, h, ap length (late_fin_keeps s).2))
text-byte_at s (d ∷ l) i e b h = elim (dec_le d.offset s.consumed_offset) [
  | yes now ↦
      let (c, q, t) = deliver_whole s d l (omega arith) in
      rw (le→leb d.offset s.consumed_offset now, t)
        (elim (dec_lt i (length d.bytes)) [
          | yes inside ↦
              get_elem?-append_left d.bytes _ i inside
              ∙ sym (byte_at_head d l i (s.consumed_offset + i) (omega arith) inside)
          | no beyond ↦
              let j : i ≡ length d.bytes + (i - length d.bytes) = omega arith in
              ap (get_elem? (d.bytes ++ text (callback_loop (deliver s d l).0 l).1)) j
              ∙ get_elem?-append_right d.bytes _ (i - length d.bytes)
              ∙ text-byte_at (deliver s d l).0 l (i - length d.bytes) q (rw c b.2) (
                  omega (
                    arith,
                    rw (le→leb d.offset s.consumed_offset now, t) at h,
                    length-append d.bytes (text (callback_loop (deliver s d l).0 l).1),
                  ))
              ∙ ap (byte_at l) (omega (arith, c))
              ∙ sym (byte_at_past d l (s.consumed_offset + i) (omega arith))
        ])
  | no later ↦ absurd (
      omega (
        arith,
        rw (lt→leb_false d.offset s.consumed_offset (omega arith)) at h,
        ap length (late_fin_keeps s).2,
      ))
]

-- The i-th byte that the application gets from a well-formed queue is the byte that the queue has at
-- the consumed offset plus i.
pub stream_data_callback-byte_at :
    (s : StreamHead) (i : ℕ)
    → IsBlocks s.consumed_offset s.stream_data
    → i < length (text (stream_data_callback s).1)
    → get_elem? (text (stream_data_callback s).1) i ≡ byte_at s.stream_data (s.consumed_offset + i)
unfolding stream_data_callback
stream_data_callback-byte_at s i b h = text-byte_at s s.stream_data i refl b h

-- What the application knows of the end of the stream.
abbrev pub IsFin : StreamHead → StreamHead × List Delivery → Type 0
IsFin s r =
    (r.0.fin_signalled
      ≡ (s.fin_signalled || (s.fin_received && leb s.fin_offset r.0.consumed_offset)))
    × (fins r.1 + bit s.fin_signalled ≡ bit r.0.fin_signalled)
    × (s.consumed_offset ≤ r.0.consumed_offset)

late_fin-IsFin : (s : StreamHead) → IsFin s (late_fin s)
unfolding late_fin
late_fin-IsFin s = ground arith

deliver_fin :
    (s : StreamHead) (d : StreamData) (l : List StreamData)
    → let s' = (deliver s d l).0 in
      (s'.fin_signalled
        ≡ (s.fin_signalled || (s.fin_received && leb s.fin_offset s'.consumed_offset)))
      × ((if (deliver s d l).1.fin then 1 else 0) + bit s.fin_signalled ≡ bit s'.fin_signalled)
      × (s.consumed_offset ≤ s'.consumed_offset)
      × (s'.fin_received ≡ s.fin_received)
      × (s'.fin_offset ≡ s.fin_offset)
unfolding deliver
deliver_fin s d l = ground arith

fin_chain :
    (a b c r : Bool) (fin one two three : ℕ)
    → b ≡ (a || (r && leb fin two))
    → c ≡ (b || (r && leb fin three))
    → two ≤ three
    → c ≡ (a || (r && leb fin three))
fin_chain a b c r fin one two three h k l = ground arith

callback_loop-IsFin : (s : StreamHead) (l : List StreamData) → IsFin s (callback_loop s l)
unfolding callback_loop
callback_loop-IsFin s [] = late_fin-IsFin s
callback_loop-IsFin s (d ∷ l) = elim (Bool-cases (leb d.offset s.consumed_offset)) [
  | inl now ↦
      let (a, n, m, r, o) = deliver_fin s d l in
      let (a', n', m') = callback_loop-IsFin (deliver s d l).0 l in
      rw now (
        fin_chain s.fin_signalled (deliver s d l).0.fin_signalled _ s.fin_received s.fin_offset 0
            (deliver s d l).0.consumed_offset _ a (rw (r, o) at a') m',
        omega (arith, n, n'),
        omega (arith, m, m'),
      )
  | inr later ↦ rw later (late_fin-IsFin s)
]

-- After a delivery the end has been signalled if it was before, or if it is known and everything up
-- to it is consumed, and not otherwise; the delivery signals it once if it was not signalled before,
-- and never again. The consumed offset does not fall.
pub stream_data_callback-IsFin : (s : StreamHead) → IsFin s (stream_data_callback s)
unfolding stream_data_callback
stream_data_callback-IsFin s = callback_loop-IsFin s s.stream_data

callback_loop_keeps :
    (s : StreamHead) (l : List StreamData)
    → ((callback_loop s l).0.stream_id ≡ s.stream_id)
      × ((callback_loop s l).0.fin_offset ≡ s.fin_offset)
unfolding callback_loop deliver late_fin
callback_loop_keeps s [] = ground arith
callback_loop_keeps s (d ∷ l) = ground (arith, callback_loop_keeps (deliver s d l).0 l)

-- The delivery leaves the number of the stream and its end alone.
pub stream_data_callback_keeps :
    (s : StreamHead)
    → ((stream_data_callback s).0.stream_id ≡ s.stream_id)
      × ((stream_data_callback s).0.fin_offset ≡ s.fin_offset)
unfolding stream_data_callback
stream_data_callback_keeps s = callback_loop_keeps s s.stream_data
