-- ===== src/Tests/Crypto.antt =====
-- Runs of the writer of CRYPTO frames.
use pquic.Base.{ℕ, ◌+◌, ◌≤◌, ◌≡◌, refl, false, true, some, List, [], ◌∷◌, ◌++◌, length, arith}
use pquic.Intformat.{varint_encode}
use pquic.Frames.Frame.{crypto, parsed}
use pquic.Frames.Write.{wrote}
use pquic.Frames.Decode.{parse_frame}
use pquic.Tests.Acks.{memory}
use pquic.Frames.Write.{SendData}
use pquic.Crypto.{CryptoStream, data_length, prepare_crypto_hs_frame}
use pquic.Frames.SendQueue.{unsent}
use pquic.Crypto.Exchange.{parse_frame-prepare_crypto_hs_frame}

-- One byte of the first text was sent.
abbrev pub first_text : SendData
first_text = record { bytes = 10 ∷ 11 ∷ 12 ∷ []; offset = 1 }

abbrev pub second_text : SendData
second_text = record { bytes = 20 ∷ []; offset = 0 }

abbrev handshake : CryptoStream
handshake = record {
  send_queue = first_text ∷ second_text ∷ [];
  sent_offset = 101;
  fin_notified = false;
  fin_sent = false;
}

parse_frame-prepare_crypto_hs_frame_example :
    (bytes : List ℕ) × (text : List ℕ) × ((prepare_crypto_hs_frame handshake 20).1 ≡ wrote bytes)
    × (length bytes ≤ 20)
    × (parse_frame memory (bytes ++ (7 ∷ []))
        ≡ some (parsed true (crypto 101 (length text) text) (7 ∷ [])))
    × (1 ≤ length text)
    × (text ++ unsent (prepare_crypto_hs_frame handshake 20).0.send_queue ≡ 11 ∷ 12 ∷ 20 ∷ [])
    × ((prepare_crypto_hs_frame handshake 20).0.sent_offset ≡ 101 + length text)
parse_frame-prepare_crypto_hs_frame_example =
    parse_frame-prepare_crypto_hs_frame handshake first_text (second_text ∷ []) 20 memory (7 ∷ [])
      refl (omega arith) (omega arith) (omega arith) (omega arith) refl

-- The offset 101, the length, two bytes, and what is left.
handshake_frame : prepare_crypto_hs_frame handshake 20 ≡ (
  record handshake { send_queue = second_text ∷ []; sent_offset = 103 },
  wrote (0x18 ∷ 64 ∷ 101 ∷ 2 ∷ 11 ∷ 12 ∷ []),
)
unfolding prepare_crypto_hs_frame varint_encode
handshake_frame = refl

-- In a space of three bytes the length of 20000 bytes does not fit, and four bytes are written.
three_bytes_overrun : data_length 20000 3 ≡ some (3, 3 ∷ [])
unfolding data_length varint_encode
three_bytes_overrun = refl
