-- ===== src/Output/FlowControl.antt =====
-- picoquic/frames.c, STREAM frames: what a frame takes from the stream, and the limits of the peer.
use pquic.Base.{
  ℕ, ◌+◌, ◌-◌, ◌^◌, ◌≤◌, ◌<◌, ◌≡◌, ◌≢◌, ◌&&◌, ◌||◌, not, refl, sym, ◌∙◌, ap, Bool, true, false,
  Option, none, some, List, [], ◌++◌, length, take, ltb, ◌==◌, arith, if◌then◌else◌, length-append,
  le→ltb, lt→ltb, ne→==_false, Bool-cases, inl, inr,
}
use native.Mathlib.Decide.{dec_lt}
use pquic.Intformat.{varint_encode}
use pquic.Frames.Write.{SendStream, is_sent, wrote, too_small, is_empty, reset_due}
use pquic.Output.Length.{IsQueue, FitsLimit, allowed-bounds, available_in-length, choice-FitsLimit}
use pquic.Output.Sent.{
  IsWithin, nothing_sent, remaining, stream_sent_as, stream_sent_none, frame_sent,
}
use pquic.Output.{
  send_stop_sending, no_queue, available_in, bytes_in, allowed, stream_frame, prepare_stream_frame,
}

stream_frame-IsWithin :
    (stream : SendStream) (maxdata_remote data_sent bytes_max limit space : ℕ) (numbers : List ℕ)
    (chosen : Option (Bool × ℕ × List ℕ))
    → IsQueue stream.send_queue
    → stream.sent_offset + limit ≤ stream.maxdata_remote
    → data_sent + limit ≤ maxdata_remote
    → limit ≤ available_in stream.send_queue
    → 1 + length numbers + space ≤ bytes_max
    → FitsLimit limit space chosen
    → (text : List ℕ) × IsWithin stream maxdata_remote data_sent bytes_max text
        (stream_frame stream data_sent numbers chosen)
unfolding stream_frame
stream_frame-IsWithin stream maxdata_remote data_sent bytes_max limit space numbers none q a b c d
      e =
    (
      [],
      nothing_sent stream maxdata_remote data_sent bytes_max too_small (omega arith) (omega arith)
          (refl, refl),
    )
stream_frame-IsWithin stream maxdata_remote data_sent bytes_max limit space numbers
      (some (len, count, l_len)) q a b c d e =
    let enough = available_in-length stream.send_queue q in
    let left = remaining count stream.send_queue in
    let sent = stream_sent_as stream count in
    let text = take count (bytes_in stream.send_queue) in
    elim (Bool-cases (stream.fin_notified && no_queue left)) [
      | inl fin ↦ (
        text,
        rw (sent, fin)
            (frame_sent stream maxdata_remote data_sent bytes_max count len true numbers l_len fin
              (omega arith) (omega arith) (omega arith) (omega arith)),
      )
      | inr more ↦ elim (dec_lt 0 count) [
        | yes some_bytes ↦ (
          text,
          rw (sent, more, ne→==_false count 0 (omega arith))
              (frame_sent stream maxdata_remote data_sent bytes_max count len false numbers l_len
                more (omega arith) (omega arith) (omega arith) (omega arith)),
        )
        | no nothing ↦
            let none_left : count ≡ 0 = omega arith in
            let is_none : (count == 0) ≡ true = ap (λ c. c == 0) none_left in
            let same = sym sent ∙ stream_sent_none stream count none_left in
            (
              [],
              rw (sent, more, is_none, same)
                  (nothing_sent stream maxdata_remote data_sent bytes_max too_small (omega arith)
                    (omega arith) (refl, refl)),
            )
      ]
    ]

-- For a stream but the one with number 0, that is not to be reset or stopped, whose queue is well formed, and
-- where the offset and the bytes sent on the connection are within the limits of the peer, the writer
-- stays within both limits as they were given. The text that its frame carries is what the queue loses, and the
-- offset and the count of the connection grow by its length. The frame fits the buffer; it ends with the
-- text, and its first byte tells whether there is an offset and whether the end of the stream is reached, which
-- is also when fin_sent is set. Where no frame is written, no field of the stream changes.
pub prepare_stream_frame-IsWithin :
    (stream : SendStream) (maxdata_remote data_sent bytes_max : ℕ)
    → reset_due stream ≡ false
    → send_stop_sending stream ≡ false
    → stream.stream_id ≢ 0
    → IsQueue stream.send_queue
    → stream.sent_offset ≤ stream.maxdata_remote
    → stream.maxdata_remote < 2 ^ 62
    → data_sent ≤ maxdata_remote
    → maxdata_remote < 2 ^ 62
    → (text : List ℕ) × IsWithin stream maxdata_remote data_sent bytes_max text
        (prepare_stream_frame stream maxdata_remote data_sent bytes_max)
unfolding prepare_stream_frame
prepare_stream_frame-IsWithin stream maxdata_remote data_sent bytes_max no_reset no_stop other queue
      within_stream top within_cnx top' =
    let l_stream = varint_encode (bytes_max - 1) stream.stream_id in
    let l_off =
      if ltb 0 stream.sent_offset
      then varint_encode (bytes_max - (1 + length l_stream)) stream.sent_offset
      else [] in
    let byte_index = 1 + length l_stream + length l_off in
    let space = bytes_max - byte_index in
    let limit = allowed stream maxdata_remote data_sent in
    let (a, b, c) =
      allowed-bounds stream maxdata_remote data_sent other queue within_stream top within_cnx
        top' in
    rw (no_reset, no_stop)
      (elim (Bool-cases
        (is_sent stream.send_queue && (not stream.fin_notified || stream.fin_sent))) [
          | inl idle ↦ (
            [],
            rw idle (
                nothing_sent stream maxdata_remote data_sent bytes_max (wrote []) within_stream
                  within_cnx (refl, refl)),
          )
          | inr busy ↦ elim (dec_lt bytes_max byte_index) [
            | yes short ↦ (
              [],
              rw (busy, lt→ltb bytes_max byte_index short)
                  (nothing_sent stream maxdata_remote data_sent bytes_max too_small within_stream
                    within_cnx (refl, refl)),
            )
            | no fits ↦
                elim (Bool-cases
                  (is_empty l_stream || (ltb 0 stream.sent_offset && is_empty l_off))) [
                    | inl cut ↦ (
                      [],
                      rw (busy, le→ltb bytes_max byte_index (omega arith), cut)
                          (nothing_sent stream maxdata_remote data_sent bytes_max too_small
                            within_stream within_cnx (refl, refl)),
                    )
                    | inr whole ↦
                        rw (busy, le→ltb bytes_max byte_index (omega arith), whole)
                          (stream_frame-IsWithin stream maxdata_remote data_sent bytes_max limit
                            space (l_stream ++ l_off) _ queue a b c
                            (omega (arith, length-append l_stream l_off))
                            (choice-FitsLimit stream maxdata_remote data_sent space (omega arith)))
                  ]
          ]
        ])
