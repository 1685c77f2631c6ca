-- ===== src/Header/Bounds.antt =====
-- A STREAM header is read inside the packet, and its data lies inside the packet.
use pquic.Base.{
  ℕ, zero, suc, ◌+◌, ◌-◌, ◌^◌, ◌≤◌, ◌<◌, ◌≡◌, refl, ◌⊎◌, inl, inr, Bool, true, false, not, ◌||◌,
  ◌&&◌, Option, some, List, [], ◌∷◌, length, drop, arith, All, IsByte, ltb, ◌==◌, if◌then◌else◌,
  length-drop, lt→ltb, le→ltb, Bool-cases, bit_and,
}
use native.Mathlib.Decide.{dec_lt}
use pquic.Intformat.{varint_decode}
use pquic.Intformat.Varint.{refuses, reads, varint_decode-Decodes}
use pquic.Header.{Parsed, refused, header, read_at, with_length, with_offset, parse_stream_header}

-- What the reader returns: an integer that ends inside the packet, or nothing.
abbrev IsRead : ℕ → ℕ → Option (ℕ × ℕ) → Type 0
IsRead bytes_max byte_index r =
    (l : ℕ) × (n : ℕ) × (r ≡ some (l, n)) × ((l ≡ 0) ⊎ (byte_index + l ≤ bytes_max)) × (n < 2 ^ 62)

pub drop-IsByte : (i : ℕ) (bytes : List ℕ) → All IsByte bytes → All IsByte (drop i bytes)
drop-IsByte zero bytes h = h
drop-IsByte (suc i) [] h = h
drop-IsByte (suc i) (b ∷ bytes) h = drop-IsByte i bytes h.1

decode-IsRead :
    (bytes : List ℕ) (left bytes_max byte_index : ℕ)
    → All IsByte bytes
    → left ≤ length bytes
    → 0 < left
    → byte_index + left ≡ bytes_max
    → IsRead bytes_max byte_index (varint_decode bytes left)
decode-IsRead [] left bytes_max byte_index a h k e = absurd (omega arith)
decode-IsRead (b ∷ bytes) left bytes_max byte_index a h k e =
    elim (varint_decode-Decodes b left bytes a h) [
      | refuses r ↦ (0, 0, r, inl refl, omega arith)
      | reads l n r from to short small ↦ (l, n, r, inr (omega arith), small)
    ]

read_at-IsRead :
    (bytes : List ℕ) (bytes_max byte_index : ℕ)
    → All IsByte bytes
    → bytes_max ≤ length bytes
    → IsRead bytes_max byte_index (read_at bytes bytes_max byte_index)
unfolding read_at
read_at-IsRead bytes bytes_max byte_index a h = elim (dec_lt byte_index bytes_max) [
  | yes k ↦ rw (lt→ltb byte_index bytes_max k) (
      decode-IsRead (drop byte_index bytes) (bytes_max - byte_index) bytes_max byte_index
        (drop-IsByte byte_index bytes a) (omega (arith, length-drop byte_index bytes)) (omega arith)
        (omega arith))
  | no k ↦ rw (le→ltb byte_index bytes_max (omega arith)) (0, 0, refl, inl refl, omega arith)
]

-- A header is accepted with its data inside the packet, or refused at a place inside the packet.
pub data IsParsed (bytes_max : ℕ) : Option Parsed → Type 0 where
  is_refused : (consumed : ℕ) → consumed ≤ bytes_max → IsParsed bytes_max (some (refused consumed))
  is_header :
      (stream_id offset data_length : ℕ) (fin : Bool) (consumed : ℕ)
      → 2 ≤ consumed
      → consumed + data_length ≤ bytes_max
      → stream_id < 2 ^ 62
      → offset < 2 ^ 62
      → IsParsed bytes_max (some (header stream_id offset data_length fin consumed))

judge_length :
    (bytes_max i l n stream_id offset : ℕ) (fin : Bool)
    → 2 ≤ i
    → i ≤ bytes_max
    → stream_id < 2 ^ 62
    → offset < 2 ^ 62
    → IsParsed bytes_max (
        some (
          if l == 0 || ltb bytes_max (i + l)
          then refused bytes_max
          else (if ltb bytes_max (i + l + n)
              then refused (i + l)
              else header stream_id offset n fin (i + l))))
judge_length bytes_max i l n stream_id offset fin two inside s o =
    elim (Bool-cases (l == 0 || ltb bytes_max (i + l))) [
      | inl bad ↦ rw bad (is_refused bytes_max (omega arith))
      | inr good ↦
          let fits : i + l ≤ bytes_max = ground arith in
          elim (dec_lt bytes_max (i + l + n)) [
            | yes long ↦ rw (good, lt→ltb bytes_max (i + l + n) long) (is_refused (i + l) fits)
            | no short ↦
                rw (good, le→ltb bytes_max (i + l + n) (omega arith))
                  (is_header stream_id offset n fin (i + l) (omega arith) (omega arith) s o)
          ]
    ]

with_length-IsParsed :
    (bytes : List ℕ) (bytes_max i stream_id offset : ℕ) (len fin : Bool)
    → All IsByte bytes
    → bytes_max ≤ length bytes
    → 2 ≤ i
    → i ≤ bytes_max
    → stream_id < 2 ^ 62
    → offset < 2 ^ 62
    → IsParsed bytes_max (with_length bytes bytes_max len (stream_id, offset) fin i)
unfolding with_length
with_length-IsParsed bytes bytes_max i stream_id offset false fin a h two inside s o =
    is_header stream_id offset (bytes_max - i) fin i two (omega arith) s o
with_length-IsParsed bytes bytes_max i stream_id offset true fin a h two inside s o =
    let (l, n, e, ends, small) = read_at-IsRead bytes bytes_max i a h in
    rw e (judge_length bytes_max i l n stream_id offset fin two inside s o)

maybe_offset-IsRead :
    (bytes : List ℕ) (bytes_max i : ℕ) (off : Bool)
    → All IsByte bytes
    → bytes_max ≤ length bytes
    → IsRead bytes_max i (if off then read_at bytes bytes_max i else some (0, 0))
maybe_offset-IsRead bytes bytes_max i true a h = read_at-IsRead bytes bytes_max i a h
maybe_offset-IsRead bytes bytes_max i false a h = (0, 0, refl, inl refl, omega arith)

with_offset-IsParsed :
    (bytes : List ℕ) (bytes_max l_stream stream_id : ℕ) (len off fin : Bool)
    → All IsByte bytes
    → bytes_max ≤ length bytes
    → stream_id < 2 ^ 62
    → IsParsed bytes_max (with_offset bytes bytes_max len off fin (l_stream, stream_id))
unfolding with_offset
with_offset-IsParsed bytes bytes_max l_stream stream_id len off fin a h s =
    let (l, n, e, ends, small) = maybe_offset-IsRead bytes bytes_max (1 + l_stream) off a h in
    elim (Bool-cases (ltb bytes_max (1 + l_stream + l) || l_stream == 0 || (off && l == 0))) [
      | inl bad ↦ rw (with_offset, e, bad) (is_refused bytes_max (omega arith))
      | inr good ↦
          rw (with_offset, e, good)
            (with_length-IsParsed bytes bytes_max (1 + l_stream + l) stream_id n len fin a h
              (ground arith) (ground arith) s small)
    ]

-- In a packet of bytes that is not empty the header of a STREAM frame is read without a read outside
-- the packet. It is refused, at a place inside the packet, or has at least two bytes, numbers below
-- 2^62, and data that ends inside the packet.
pub parse_stream_header-IsParsed :
    (bytes : List ℕ) (bytes_max : ℕ)
    → All IsByte bytes
    → 0 < bytes_max
    → bytes_max ≤ length bytes
    → IsParsed bytes_max (parse_stream_header bytes bytes_max)
unfolding parse_stream_header
parse_stream_header-IsParsed [] bytes_max a some_left h = absurd (omega arith)
parse_stream_header-IsParsed (first ∷ bytes) bytes_max a some_left h =
    let (l, n, e, ends, small) = read_at-IsRead (first ∷ bytes) bytes_max 1 a h in
    rw (parse_stream_header, e)
      (with_offset-IsParsed (first ∷ bytes) bytes_max l n (not (bit_and first 2 == 0))
        (not (bit_and first 4 == 0)) (not (bit_and first 1 == 0)) a h small)
