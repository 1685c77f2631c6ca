-- ===== src/Crypto.antt =====
-- picoquic/frames.c, prepare_crypto_hs_frame: the CRYPTO frames that carry the bytes of a stream of the
-- handshake.
pub mod Exchange
use pquic.Base.{
  ℕ, ◌+◌, ◌-◌, Bool, true, false, not, ◌&&◌, ◌||◌, Option, none, some, List, [], ◌∷◌, ◌++◌, length,
  take, drop, ltb, leb, ◌==◌, if◌then◌else◌, sub64,
}
use pquic.Intformat.{varint_encode}
use pquic.Frames.FrameType
use pquic.Frames.Write.{SendData, is_sent, advance, Written, wrote, too_small, is_empty}

-- The fields of picoquic_stream_head that the writer reads and changes.
pub record CryptoStream : Type 0 where
  pub send_queue : List SendData
  pub sent_offset : ℕ
  pub fin_notified : Bool
  pub fin_sent : Bool

-- The number of bytes to send, and that number as it is written; none where the first trial takes more
-- than there is.
unfoldable pub data_length : ℕ → ℕ → Option (ℕ × List ℕ)
data_length available space =
    let l_len = varint_encode space available in
    let shorter = space - length l_len in
    if leb space (available + length l_len)
    then (if ltb space (length l_len) then none else some (shorter, varint_encode space shorter))
    else some (available, l_len)

-- The frame with `count` bytes, or the error where there are none.
unfoldable pub crypto_frame :
    CryptoStream → SendData → List SendData → List ℕ → Option (ℕ × List ℕ) → CryptoStream × Written
unfolding advance
crypto_frame stream d later l_off none = (stream, too_small)
crypto_frame stream d later l_off (some (count, l_len)) =
    if ltb 0 count
    then (
      record stream {
        send_queue = advance count (d ∷ later);
        sent_offset = stream.sent_offset + count;
      },
      wrote (FrameType.crypto_hs ∷ (l_off ++ (l_len ++ take count (drop d.offset d.bytes)))),
    )
    else (stream, too_small)

unfoldable pub crypto_on : CryptoStream → List ℕ → ℕ → List SendData → CryptoStream × Written
unfolding data_length crypto_frame
crypto_on stream l_off space [] = (stream, too_small)
crypto_on stream l_off space (d ∷ later) =
    crypto_frame stream d later l_off (data_length (sub64 (length d.bytes) d.offset) space)

unfoldable pub prepare_crypto_hs_frame : CryptoStream → ℕ → CryptoStream × Written
unfolding is_sent crypto_on
prepare_crypto_hs_frame stream bytes_max =
    let l_off = varint_encode (bytes_max - 1) stream.sent_offset in
    let byte_index = 1 + length l_off in
    let space = bytes_max - byte_index in
    if is_sent stream.send_queue && (not stream.fin_notified || stream.fin_sent)
    then (stream, wrote [])
    else if ltb bytes_max byte_index || (ltb 0 stream.sent_offset && is_empty l_off)
    then (stream, too_small)
    else if ltb space 2
    then (stream, too_small)
    else crypto_on stream l_off space stream.send_queue
