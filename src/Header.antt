-- ===== src/Header.antt =====
-- picoquic/frames.c, picoquic_parse_stream_header: the first byte of a STREAM frame, and the numbers
-- behind it.
pub mod Bounds
use mathlib.Core.Option
use pquic.Base.{
  ℕ, ◌+◌, ◌-◌, Bool, ◌&&◌, ◌||◌, not, Option, none, some, List, [], ◌∷◌, drop, bit_and, ltb, ◌==◌,
  if◌then◌else◌,
}
use pquic.Intformat.{varint_decode}

-- The return value -1 with *consumed, or 0 with what was read.
pub data Parsed : Type 0 where
  refused : ℕ → Parsed
  header : (stream_id offset data_length : ℕ) → Bool → (consumed : ℕ) → Parsed

-- The length and the value of the integer at `byte_index`, if anything is left there.
unfoldable pub read_at : List ℕ → ℕ → ℕ → Option (ℕ × ℕ)
read_at bytes bytes_max byte_index =
    if ltb byte_index bytes_max
    then varint_decode (drop byte_index bytes) (bytes_max - byte_index)
    else some (0, 0)

-- The length of the data: all that is left of the packet, or what the frame says.
unfoldable pub with_length : List ℕ → ℕ → Bool → (ℕ × ℕ) → Bool → ℕ → Option Parsed
with_length bytes bytes_max len (stream_id, offset) fin byte_index =
    if not len
    then some (header stream_id offset (bytes_max - byte_index) fin byte_index)
    else elim (read_at bytes bytes_max byte_index) [
      | none ↦ none
      | some (l_len, n) ↦ some (
          if l_len == 0 || ltb bytes_max (byte_index + l_len)
          then refused bytes_max
          else (if ltb bytes_max (byte_index + l_len + n)
              then refused (byte_index + l_len)
              else header stream_id offset n fin (byte_index + l_len)))
    ]

-- `none` is a read outside the packet.
unfoldable pub with_offset : List ℕ → ℕ → Bool → Bool → Bool → (ℕ × ℕ) → Option Parsed
with_offset bytes bytes_max len off fin (l_stream, stream_id) =
    elim (if off then read_at bytes bytes_max (1 + l_stream) else some (0, 0)) [
      | none ↦ none
      | some (l_off, offset) ↦
          (if ltb bytes_max (1 + l_stream + l_off) || l_stream == 0 || (off && l_off == 0)
            then some (refused bytes_max)
            else with_length bytes bytes_max len (stream_id, offset) fin (1 + l_stream + l_off))
    ]

unfoldable pub parse_stream_header : List ℕ → ℕ → Option Parsed
parse_stream_header [] bytes_max = none
parse_stream_header (first ∷ bytes) bytes_max =
    let len = not (bit_and first 2 == 0) in
    let off = not (bit_and first 4 == 0) in
    let fin = not (bit_and first 1 == 0) in
    elim (read_at (first ∷ bytes) bytes_max 1) [
      | none ↦ none
      | some l_stream ↦ with_offset (first ∷ bytes) bytes_max len off fin l_stream
    ]
