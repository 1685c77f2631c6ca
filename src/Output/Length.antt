-- ===== src/Output/Length.antt =====
-- picoquic/frames.c, STREAM frames: the number of bytes that is chosen for one.
use pquic.Base.{
  ℕ, ◌+◌, ◌-◌, ◌^◌, ◌≤◌, ◌<◌, ◌≡◌, ◌≢◌, ◌&&◌, ◌||◌, not, refl, sym, ◌∙◌, Bool, false, Option, none,
  some, List, [], ◌∷◌, length, ltb, ◌==◌, arith, if◌then◌else◌, length-drop, le→leb, lt→leb_false,
  le→ltb, lt→ltb, ne→==_false, Bool-cases, inl, inr,
}
use native.Mathlib.Decide.{dec_lt}
use pquic.Intformat.{varint_encode, varint_len}
use pquic.Frames.Write.{SendData, SendStream}
use pquic.Frames.Reads.{length-varint_encode}
use pquic.Frames.Lengths.{varint_len_le, sub64_exact, is_empty-fits, is_empty-too_small}
use pquic.Output.{send_fin, no_queue, available_in, bytes_in, at_most, allowed, stream_length}

-- The first data of a queue are not sent beyond their end.
abbrev pub IsQueue : List SendData → Type 0
IsQueue [] = Unit {0}
IsQueue (d ∷ later) = (d.offset ≤ length d.bytes) × (length d.bytes < 2 ^ 62)

-- No more than the limit, and the length with the data in the space.
abbrev pub FitsLimit : ℕ → ℕ → Option (Bool × ℕ × List ℕ) → Type 0
FitsLimit limit space none = Unit {0}
FitsLimit limit space (some (len, count, l_len)) = (count ≤ limit) × (length l_len + count ≤ space)

stream_length-FitsLimit :
    (limit space : ℕ) → limit < 2 ^ 62 → FitsLimit limit space (stream_length limit space)
unfolding stream_length
stream_length-FitsLimit limit space h = elim (dec_lt limit space) [
  | no all ↦ rw (le→leb space limit (omega arith)) (omega arith, omega arith)
  | yes less ↦ elim (dec_lt space (varint_len limit)) [
    | yes short ↦ rw (lt→leb_false space limit less, is_empty-too_small space limit h short) tt
    | no fits ↦
        let l_len = varint_encode space limit in
        let long = length-varint_encode limit space h (omega arith) in
        let shut = lt→leb_false space limit less in
        let some_bytes = is_empty-fits space limit h (omega arith) in
        elim (Bool-cases (length l_len == space && ltb 0 limit)) [
          | inl silly ↦ rw (shut, some_bytes, silly) tt
          | inr fine ↦ elim (dec_lt space (limit + length l_len)) [
            | yes cut ↦
                let shorter = space - length l_len in
                let less' = varint_len_le shorter limit (omega arith) h in
                let long' = length-varint_encode shorter space (omega arith) (omega arith) in
                rw (shut, some_bytes, fine, lt→ltb space (limit + length l_len) cut)
                  (omega arith, omega arith)
            | no good ↦
                rw (shut, some_bytes, fine, le→ltb space (limit + length l_len) (omega arith))
                  (omega arith, omega arith)
          ]
        ]
  ]
]

-- The limits, and what there is.
pub allowed-bounds :
    (stream : SendStream) (maxdata_remote data_sent : ℕ)
    → stream.stream_id ≢ 0
    → IsQueue stream.send_queue
    → stream.sent_offset ≤ stream.maxdata_remote
    → stream.maxdata_remote < 2 ^ 62
    → data_sent ≤ maxdata_remote
    → maxdata_remote < 2 ^ 62
    → (stream.sent_offset + allowed stream maxdata_remote data_sent ≤ stream.maxdata_remote)
      × (data_sent + allowed stream maxdata_remote data_sent ≤ maxdata_remote)
      × (allowed stream maxdata_remote data_sent ≤ available_in stream.send_queue)
unfolding allowed at_most
allowed-bounds stream maxdata_remote data_sent other queue within_stream top within_cnx top' =
    rw
      (
        ne→==_false stream.stream_id 0 other,
        sub64_exact stream.maxdata_remote stream.sent_offset within_stream (omega arith),
        sub64_exact maxdata_remote data_sent within_cnx (omega arith),
      )
      (ground arith)

pub available_in-length :
    (queue : List SendData) → IsQueue queue → available_in queue ≡ length (bytes_in queue)
unfolding available_in bytes_in
available_in-length [] h = refl
available_in-length (d ∷ later) h =
    sub64_exact (length d.bytes) d.offset h.0 (omega arith) ∙ sym (length-drop d.offset d.bytes)

-- What is written for a stream with data, once its numbers fit.
pub choice-FitsLimit :
    (stream : SendStream) (maxdata_remote data_sent space : ℕ)
    → allowed stream maxdata_remote data_sent < 2 ^ 62
    → FitsLimit (allowed stream maxdata_remote data_sent) space (
        if ltb space 2 || (no_queue stream.send_queue && not (send_fin stream))
        then some (false, 0, [])
        else stream_length (allowed stream maxdata_remote data_sent) space)
choice-FitsLimit stream maxdata_remote data_sent space h =
    elim (Bool-cases (ltb space 2 || (no_queue stream.send_queue && not (send_fin stream)))) [
      | inl nothing ↦ rw nothing (omega arith, omega arith)
      | inr some_room ↦
          rw some_room (stream_length-FitsLimit (allowed stream maxdata_remote data_sent) space h)
    ]
