-- ===== src/Output/Sent.antt =====
-- picoquic/frames.c, STREAM frames: what one takes from the queue of the stream.
use pquic.Base.{
  ℕ, Bool, true, ◌&&◌, if◌then◌else◌, ltb, zero, suc, ◌+◌, ◌≤◌, ◌<◌, ◌≡◌, refl, sym, ap, List, [],
  ◌∷◌, ◌++◌, length, take, arith, length-append, length-take, lt→ltb,
}
use pquic.Frames.Write.{SendData, SendStream, advance, Written, wrote, too_small}
use pquic.Frames.Reads.{append_assoc}
use pquic.Frames.SendQueue.{unsent, unsent-advance}
use pquic.Output.{Output, bytes_in, no_queue, stream_sent, stream_type_byte}

-- The end of the stream is reached: the application has announced it, and nothing is left to be sent.
abbrev pub ends : SendStream → SendStream → Bool
ends stream after = stream.fin_notified && no_queue after.send_queue

-- Without a frame there is no text, and no field of the stream changes. A frame is a first byte with the bits
-- of the stream, a header and the text; of the stream, the queue, the offset and, where the end is reached,
-- fin_sent change.
abbrev pub Carries : SendStream → SendStream → ℕ → List ℕ → Written → Type 0
Carries stream after bytes_max text too_small = (text ≡ []) × (after ≡ stream)
Carries stream after bytes_max text (wrote []) = (text ≡ []) × (after ≡ stream)
Carries stream after bytes_max text (wrote (first ∷ bytes)) =
    (header : List ℕ) × (len : Bool) × (bytes ≡ header ++ text)
    × (suc (length bytes) ≤ bytes_max)
    × (first ≡ stream_type_byte (ltb 0 stream.sent_offset) len (ends stream after))
    × (after ≡ record stream {
      send_queue = after.send_queue;
      sent_offset = stream.sent_offset + length text;
      fin_sent = if ends stream after then true else stream.fin_sent;
    })

-- The text that the frame carries is what the queue loses, the offset and data_sent move by its length, and
-- both stay within the limits that the peer had given.
pub record IsWithin (stream : SendStream) (maxdata_remote data_sent bytes_max : ℕ) (text : List ℕ)
    (o : Output) : Type 0 where
  stream_limit : o.stream.sent_offset ≤ stream.maxdata_remote
  connection_limit : o.data_sent ≤ maxdata_remote
  sent_offset : o.stream.sent_offset ≡ stream.sent_offset + length text
  counted : o.data_sent ≡ data_sent + length text
  content : text ++ unsent o.stream.send_queue ≡ unsent stream.send_queue
  carried : Carries stream o.stream bytes_max text o.written

-- Nothing is sent.
pub nothing_sent :
    (stream : SendStream) (maxdata_remote data_sent bytes_max : ℕ) (written : Written)
    → stream.sent_offset ≤ stream.maxdata_remote
    → data_sent ≤ maxdata_remote
    → Carries stream stream bytes_max [] written
    → IsWithin stream maxdata_remote data_sent bytes_max []
        (record { stream = stream; data_sent = data_sent; written = written })
nothing_sent stream maxdata_remote data_sent bytes_max written h h' c = record {
  stream_limit = h;
  connection_limit = h';
  sent_offset = omega arith;
  counted = omega arith;
  content = refl;
  carried = c;
}

advance-content :
    (count : ℕ) (queue : List SendData)
    → 0 < count
    → count ≤ length (bytes_in queue)
    → take count (bytes_in queue) ++ unsent (advance count queue) ≡ unsent queue
unfolding bytes_in
advance-content count [] h b = absurd (omega arith)
advance-content count (d ∷ later) h b = unsent-advance count d later

-- The queue behind `count` bytes.
abbrev pub remaining : ℕ → List SendData → List SendData
remaining count queue = if ltb 0 count then advance count queue else queue

pub stream_sent_as :
    (stream : SendStream) (count : ℕ)
    → stream_sent stream count ≡ record stream {
      send_queue = remaining count stream.send_queue;
      sent_offset = stream.sent_offset + count;
    }
unfolding stream_sent
stream_sent_as stream zero = ap (λ offset. record stream { sent_offset = offset }) (omega arith)
stream_sent_as stream (suc k) = rw (lt→ltb 0 (suc k) (omega arith)) refl

remaining-content :
    (count : ℕ) (queue : List SendData)
    → count ≤ length (bytes_in queue)
    → take count (bytes_in queue) ++ unsent (remaining count queue) ≡ unsent queue
remaining-content zero queue h = refl
remaining-content (suc k) queue h =
    rw (lt→ltb 0 (suc k) (omega arith)) (advance-content (suc k) queue (omega arith) h)

pub stream_sent_none :
    (stream : SendStream) (count : ℕ) → count ≡ 0 → stream_sent stream count ≡ stream
unfolding stream_sent
stream_sent_none stream count e = rw e refl

-- The text is sent, in a frame with other bytes in front of it.
pub frame_sent :
    (stream : SendStream) (maxdata_remote data_sent bytes_max count : ℕ) (len fin : Bool)
    (numbers l_len : List ℕ)
    → (stream.fin_notified && no_queue (remaining count stream.send_queue)) ≡ fin
    → count ≤ length (bytes_in stream.send_queue)
    → stream.sent_offset + count ≤ stream.maxdata_remote
    → data_sent + count ≤ maxdata_remote
    → 1 + length numbers + (length l_len + count) ≤ bytes_max
    → IsWithin stream maxdata_remote data_sent bytes_max
        (take count (bytes_in stream.send_queue))
        (record {
          stream = record stream {
            send_queue = remaining count stream.send_queue;
            sent_offset = stream.sent_offset + count;
            fin_sent = if fin then true else stream.fin_sent;
          };
          data_sent = data_sent + count;
          written = wrote (
              stream_type_byte (ltb 0 stream.sent_offset) len fin
              ∷ (numbers ++ (l_len ++ take count (bytes_in stream.send_queue))));
        })
frame_sent stream maxdata_remote data_sent bytes_max count len fin numbers l_len ending enough a b
      room =
    let text = take count (bytes_in stream.send_queue) in
    let size = length-take count (bytes_in stream.send_queue) in
    let sized : length text ≡ count = omega arith in
    record {
      stream_limit = a;
      connection_limit = b;
      sent_offset = omega arith;
      counted = omega arith;
      content = remaining-content count stream.send_queue enough;
      carried = (
        numbers ++ l_len,
        len,
        sym (append_assoc numbers l_len text),
        omega (arith, length-append numbers (l_len ++ text), length-append l_len text),
        rw ending refl,
        rw (ending, sized) refl,
      );
    }
