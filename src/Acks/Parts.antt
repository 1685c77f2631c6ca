-- ===== src/Acks/Parts.antt =====
-- picoquic/frames.c, acknowledgements: the frame that is written, and its fields as they are read.
use pquic.Base.{
  ℕ, ◌+◌, ◌-◌, ◌*◌, ◌^◌, ◌≤◌, ◌<◌, ◌≡◌, refl, ap, ◌∙◌, Bool, true, false, some, List, ◌∷◌, ◌++◌,
  length, take, drop, arith, u8, if◌then◌else◌, length-append, le→leb, le→ltb, lt→ltb,
}
use native.Mathlib.Decide.{dec_lt}
use native.Mathlib.Nat.{div-le_self}
use pquic.Intformat.{varint_encode, varint_len}
use pquic.Sacks.{SackList, is_unused}
use pquic.Sacks.Spec.{Below, IsSackList}
use pquic.Frames.FrameType
use pquic.Frames.Frame.{Frame, ack}
use pquic.Frames.Write.{Written, wrote}
use pquic.Frames.Control.{ack_block_loop, ecn_loop, ack_fields}
use pquic.Frames.Reads.{length-varint_encode, append_assoc, frames_varint_decode-varint_encode}
use pquic.Acks.{AckContext, AckSource, scaled_delay, ack_frame}
use pquic.Acks.Blocks.{gap_blocks, BlocksWritten, block_loop-BlocksWritten}
use pquic.Frames.Lengths.{sub64_exact, varint_len_max, is_empty-fits}
use pquic.Acks.Counters.{
  HasCounters, counters_of, counter_bytes, CountersWritten, counter_bytes-CountersWritten,
  count_read,
}

-- A packet context and the frame for it, where the range and the counters fit.
pub record IsAckable (source : AckSource) (ctx : AckContext) (is_ecn : Bool) (current_time : ℕ)
    : Type 0 where
  pub used : is_unused ctx.packets.sacks.first_sack_item ≡ false
  pub is_sack_list : IsSackList ctx.packets.sacks
  pub largest : ctx.packets.sacks.first_sack_item.end_of_sack_range < 2 ^ 62
  pub time : current_time < 2 ^ 62
  pub counters : is_ecn ≡ true → HasCounters source

scaled_delay-bound :
    (source : AckSource) (ctx : AckContext) (current_time : ℕ)
    → current_time < 2 ^ 62
    → scaled_delay source ctx current_time < 2 ^ 62
unfolding scaled_delay
scaled_delay-bound source ctx current_time h =
    let stamp = ctx.packets.time_stamp_largest_received in
    let exponent = source.ack_delay_exponent in
    elim (dec_lt stamp current_time) [
      | yes after ↦
          rw (lt→ltb stamp current_time after)
            (omega (arith, div-le_self (current_time - stamp) (2 ^ exponent)))
      | no before ↦ rw (le→ltb stamp current_time (omega arith)) (omega arith)
    ]

-- The frame that the parser makes of the first `count` of the later ranges.
abbrev pub ack_of : AckSource → AckContext → Bool → ℕ → ℕ → Frame
ack_of source ctx is_ecn current_time count =
    let first = ctx.packets.sacks.first_sack_item in
    ack is_ecn first.end_of_sack_range (scaled_delay source ctx current_time)
      (counters_of source is_ecn) count (first.end_of_sack_range - first.start_of_sack_range)
      (gap_blocks first.start_of_sack_range (take count ctx.packets.sacks.later))

-- The bytes behind the type, as they are read.
ack_fields-read :
    (is_ecn : Bool) (largest delay range count : ℕ) (counters : List ℕ) (c blocks : List ℕ)
    (items : List (ℕ × ℕ)) (m1 m2 m3 : ℕ) (rest : List ℕ)
    → largest < 2 ^ 62
    → delay < 2 ^ 62
    → range < 2 ^ 62
    → varint_len largest ≤ m1
    → varint_len delay ≤ m2
    → varint_len range ≤ m3
    → count ≤ 63
    → ((behind : List ℕ)
        → ecn_loop (if is_ecn then 3 else 0) (c ++ behind) ≡ some (counters, behind))
    → ack_block_loop count (blocks ++ rest) ≡ some (items, rest)
    → ack_fields is_ecn (
        (varint_encode m1 largest
          ++ (varint_encode m2 delay ++ (c ++ (u8 count ∷ (varint_encode m3 range ++ blocks)))))
        ++ rest)
      ≡ some (ack is_ecn largest delay counters count range items, rest)
unfolding ack_fields
ack_fields-read is_ecn largest delay range count counters c blocks items m1 m2 m3 rest h1 h2 h3 f1
      f2 f3 few ecn read =
    let l1 = varint_encode m1 largest in
    let l2 = varint_encode m2 delay in
    let l3 = varint_encode m3 range in
    let tail = u8 count ∷ (l3 ++ blocks) in
    let tail' = u8 count ∷ (l3 ++ (blocks ++ rest)) in
    rw
      (
        append_assoc l1 (l2 ++ (c ++ tail)) rest,
        append_assoc l2 (c ++ tail) rest,
        append_assoc c tail rest,
        append_assoc l3 blocks rest,
        frames_varint_decode-varint_encode largest m1 (l2 ++ (c ++ tail')) h1 f1,
        frames_varint_decode-varint_encode delay m2 (c ++ tail') h2 f2,
        ecn tail',
        count_read count (l3 ++ (blocks ++ rest)) few,
        le→leb count 63 few,
        frames_varint_decode-varint_encode range m3 (blocks ++ rest) h3 f3,
        read,
      )
      refl

abbrev pub start_of : AckContext → ℕ
start_of ctx = ctx.packets.sacks.first_sack_item.start_of_sack_range

abbrev pub end_of : AckContext → ℕ
end_of ctx = ctx.packets.sacks.first_sack_item.end_of_sack_range

-- What the writer makes of a context: a frame that fits, and its reading.
pub record AckWritten (source : AckSource) (ctx : AckContext) (is_ecn : Bool)
    (current_time bytes_max : ℕ) (result : Written) : Type 0 where
  pub bytes : List ℕ
  pub count : ℕ
  pub written : result ≡ wrote ((if is_ecn then FrameType.ack_ecn else FrameType.ack) ∷ bytes)
  pub fits : 1 + length bytes ≤ bytes_max
  pub reads :
      (rest : List ℕ)
      → ack_fields is_ecn (bytes ++ rest) ≡ some (ack_of source ctx is_ecn current_time count, rest)
  pub complete :
      length ctx.packets.sacks.later ≤ 63
      → 50 + 16 * length ctx.packets.sacks.later ≤ bytes_max
      → take count ctx.packets.sacks.later ≡ ctx.packets.sacks.later

pub IsSackList-Below :
    (l : SackList)
    → is_unused l.first_sack_item ≡ false
    → IsSackList l
    → Below (2 ^ 64) (l.first_sack_item ∷ l.later)
IsSackList-Below l used v = rw used at v

-- The frame from its parts.
written_parts :
    (source : AckSource) (ctx : AckContext) (is_ecn : Bool)
    (current_time bytes_max behind m1 m2 m3 : ℕ) (c : List ℕ) (blocks : ℕ × List ℕ)
    (result : Written)
    → IsAckable source ctx is_ecn current_time
    → varint_len ctx.packets.sacks.first_sack_item.end_of_sack_range ≤ m1
    → varint_len (scaled_delay source ctx current_time) ≤ m2
    → varint_len (end_of ctx - start_of ctx) ≤ m3
    → CountersWritten source is_ecn c
    → BlocksWritten bytes_max behind 0 (start_of ctx) ctx.packets.sacks.later blocks
    → behind
      ≡ 2
        + (length (varint_encode m1 (end_of ctx))
            + (length (varint_encode m2 (scaled_delay source ctx current_time))
                + (length c + length (varint_encode m3 (end_of ctx - start_of ctx)))))
    → behind ≤ 50
    → result
      ≡ wrote (
          (if is_ecn then FrameType.ack_ecn else FrameType.ack)
          ∷ (varint_encode m1 (end_of ctx)
              ++ (varint_encode m2 (scaled_delay source ctx current_time)
                  ++ (c
                      ++ (u8 blocks.0
                          ∷ (varint_encode m3 (end_of ctx - start_of ctx) ++ blocks.1))))))
    → AckWritten source ctx is_ecn current_time bytes_max result
written_parts source ctx is_ecn current_time bytes_max behind m1 m2 m3 c blocks result v f1 f2 f3 cw
      w e early written =
    let range = end_of ctx - start_of ctx in
    let delay = scaled_delay source ctx current_time in
    let top = v.largest in
    let small = scaled_delay-bound source ctx current_time v.time in
    let l1 = varint_encode m1 (end_of ctx) in
    let l2 = varint_encode m2 delay in
    let l3 = varint_encode m3 range in
    let number : blocks.0 ≡ w.count = omega (arith, w.number) in
    record {
      bytes = l1 ++ (l2 ++ (c ++ (u8 w.count ∷ (l3 ++ blocks.1))));
      count = w.count;
      written =
          written
          ∙ ap
              (λ n. wrote (
                (if is_ecn then FrameType.ack_ecn else FrameType.ack)
                ∷ (l1 ++ (l2 ++ (c ++ (u8 n ∷ (l3 ++ blocks.1)))))))
              number;
      fits = omega (
        arith,
        w.fits,
        length-append l1 (l2 ++ (c ++ (u8 w.count ∷ (l3 ++ blocks.1)))),
        length-append l2 (c ++ (u8 w.count ∷ (l3 ++ blocks.1))),
        length-append c (u8 w.count ∷ (l3 ++ blocks.1)),
        length-append l3 blocks.1,
      );
      reads = λ rest.
          ack_fields-read is_ecn (end_of ctx) delay range w.count (counters_of source is_ecn) c
            blocks.1 _ m1 m2 m3 rest top small (omega arith) f1 f2 f3 (omega (arith, w.at_most))
            cw.reads (w.reads rest);
      complete = λ few wide. w.complete (omega arith) (omega arith);
    }

pub ack_frame-AckWritten :
    (source : AckSource) (ctx : AckContext) (is_ecn : Bool) (current_time bytes_max : ℕ)
    (old : List ℕ)
    → IsAckable source ctx is_ecn current_time
    → 50 ≤ bytes_max
    → AckWritten source ctx is_ecn current_time bytes_max
        (ack_frame source ctx is_ecn current_time bytes_max old)
unfolding ack_frame
ack_frame-AckWritten source ctx is_ecn current_time bytes_max old v room =
    let first = ctx.packets.sacks.first_sack_item in
    let below = IsSackList-Below ctx.packets.sacks v.used v.is_sack_list in
    let largest = first.end_of_sack_range in
    let delay = scaled_delay source ctx current_time in
    let range = largest - first.start_of_sack_range in
    let small = scaled_delay-bound source ctx current_time v.time in
    let top = v.largest in
    let most1 = varint_len_max largest top in
    let most2 = varint_len_max delay small in
    let most3 = varint_len_max range (omega arith) in
    let m1 = bytes_max - 1 in
    let l1 = varint_encode m1 largest in
    let len1 = length-varint_encode largest m1 top (omega arith) in
    let m2 = bytes_max - (1 + length l1) in
    let l2 = varint_encode m2 delay in
    let len2 = length-varint_encode delay m2 small (omega arith) in
    let before = length l1 + length l2 in
    let c = counter_bytes source is_ecn (bytes_max - (1 + before)) (drop (1 + before) old) in
    let cw =
      counter_bytes-CountersWritten source is_ecn (bytes_max - (1 + before)) (drop (1 + before) old)
        v.counters (omega arith) in
    let short = cw.short in
    let byte_index = 1 + before + length c + 1 in
    let m3 = bytes_max - byte_index in
    let l3 = varint_encode m3 range in
    let len3 = length-varint_encode range m3 (omega arith) (omega arith) in
    let behind = byte_index + length l3 in
    let w =
      block_loop-BlocksWritten bytes_max behind 0 first.start_of_sack_range ctx.packets.sacks.later
        below.2 (omega arith) (omega arith) (omega arith) in
    written_parts source ctx is_ecn current_time bytes_max behind m1 m2 m3 c _ _ v (omega arith)
      (omega arith) (omega arith) cw w (omega arith) (omega arith)
      (rw
        (
          sub64_exact largest first.start_of_sack_range (omega arith) (omega arith),
          cw.some_bytes,
          is_empty-fits m2 delay small (omega arith),
          is_empty-fits m1 largest top (omega arith),
          is_empty-fits m3 range (omega arith) (omega arith),
          le→ltb bytes_max behind (omega arith),
        )
        refl)
