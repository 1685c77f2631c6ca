-- ===== src/Acks/Counters.antt =====
-- picoquic/frames.c, acknowledgements: the counters of marked packets and the number of blocks as bytes.
use pquic.Base.{
  ℕ, ◌+◌, ◌-◌, ◌^◌, ◌≤◌, ◌<◌, ◌≡◌, refl, sym, ap, ◌∙◌, Bool, true, false, some, List, [], ◌∷◌, ◌++◌,
  length, take, drop, arith, u8, if◌then◌else◌, length-append, take-append, le→ltb,
}
use pquic.Intformat.{varint_encode, varint_len}
use pquic.Frames.Reader.{frames_varint_decode}
use pquic.Frames.Write.{is_empty}
use pquic.Frames.Control.{ecn_loop}
use pquic.Frames.Reads.{
  nonempty, length-varint_encode, append_assoc, frames_varint_decode-varint_encode,
  varint_len_positive,
}
use pquic.Acks.{AckSource, ecn_counters}
use pquic.Frames.Lengths.{varint_len_max, is_empty-fits}

-- The counters of marked packets fit their frame; the first two take the same number of bytes, without
-- which the frame is not what it should be.
pub record HasCounters (source : AckSource) : Type 0 where
  pub ect0 : source.ecn_ect0_total_local < 2 ^ 62
  pub ect1 : source.ecn_ect1_total_local < 2 ^ 62
  pub ce : source.ecn_ce_total_local < 2 ^ 62
  pub same_length : varint_len source.ecn_ect0_total_local ≡ varint_len source.ecn_ect1_total_local

abbrev pub counters_of : AckSource → Bool → List ℕ
counters_of source is_ecn =
    if is_ecn
    then source.ecn_ect0_total_local ∷ source.ecn_ect1_total_local ∷ source.ecn_ce_total_local ∷ []
    else []

-- The bytes of the counters.
abbrev pub counter_bytes : AckSource → Bool → ℕ → List ℕ → List ℕ
counter_bytes source is_ecn left old = if is_ecn then ecn_counters source left old else []

pub record CountersWritten (source : AckSource) (is_ecn : Bool) (bytes : List ℕ) : Type 0 where
  pub short : length bytes ≤ 24
  pub some_bytes : (if is_ecn then is_empty bytes else false) ≡ false
  pub reads :
      (rest : List ℕ)
      → ecn_loop (if is_ecn then 3 else 0) (bytes ++ rest) ≡ some (counters_of source is_ecn, rest)

three_counters :
    (source : AckSource) (bytes : List ℕ) (m0 m1 m2 : ℕ)
    → HasCounters source
    → bytes
      ≡ varint_encode m0 source.ecn_ect0_total_local
        ++ (varint_encode m1 source.ecn_ect1_total_local
            ++ varint_encode m2 source.ecn_ce_total_local)
    → varint_len source.ecn_ect0_total_local ≤ m0
    → varint_len source.ecn_ect1_total_local ≤ m1
    → varint_len source.ecn_ce_total_local ≤ m2
    → CountersWritten source true bytes
unfolding ecn_loop
three_counters source bytes m0 m1 m2 counts e f0 f1 f2 =
    let n0 = source.ecn_ect0_total_local in
    let n1 = source.ecn_ect1_total_local in
    let n2 = source.ecn_ce_total_local in
    let l0 = varint_encode m0 n0 in
    let l1 = varint_encode m1 n1 in
    let l2 = varint_encode m2 n2 in
    let len0 = length-varint_encode n0 m0 counts.ect0 f0 in
    let len1 = length-varint_encode n1 m1 counts.ect1 f1 in
    let len2 = length-varint_encode n2 m2 counts.ce f2 in
    let total : length bytes ≡ varint_len n0 + (varint_len n1 + varint_len n2) =
      ap length e ∙ omega (arith, length-append l0 (l1 ++ l2), length-append l1 l2) in
    record {
      short = omega (
        arith,
        varint_len_max n0 counts.ect0,
        varint_len_max n1 counts.ect1,
        varint_len_max n2 counts.ce,
      );
      some_bytes = nonempty bytes (omega (arith, varint_len_positive n0 counts.ect0));
      reads = λ rest.
          rw
            (
              e,
              append_assoc l0 (l1 ++ l2) rest,
              append_assoc l1 l2 rest,
              frames_varint_decode-varint_encode n0 m0 (l1 ++ (l2 ++ rest)) counts.ect0 f0,
              frames_varint_decode-varint_encode n1 m1 (l2 ++ rest) counts.ect1 f1,
              frames_varint_decode-varint_encode n2 m2 rest counts.ce f2,
            )
            refl;
    }

take-length : (k : ℕ) (xs ys : List ℕ) → k ≡ length xs → take k (xs ++ ys) ≡ xs
take-length k xs ys e = ap (λ n. take n (xs ++ ys)) e ∙ take-append xs ys

pub counter_bytes-CountersWritten :
    (source : AckSource) (is_ecn : Bool) (left : ℕ) (old : List ℕ)
    → (is_ecn ≡ true → HasCounters source)
    → 24 ≤ left
    → CountersWritten source is_ecn (counter_bytes source is_ecn left old)
unfolding ecn_loop ecn_counters
counter_bytes-CountersWritten source false left old h room = record {
  short = omega arith;
  some_bytes = refl;
  reads = λ rest. refl;
}
counter_bytes-CountersWritten source true left old h room =
    let counts = h refl in
    let n0 = source.ecn_ect0_total_local in
    let n1 = source.ecn_ect1_total_local in
    let n2 = source.ecn_ce_total_local in
    let l0 = varint_encode left n0 in
    let m1 = left - length l0 in
    let l1 = varint_encode m1 n1 in
    let m2 = left - length l0 - length l0 in
    let l2 = varint_encode m2 n2 in
    let max0 = varint_len_max n0 counts.ect0 in
    let max2 = varint_len_max n2 counts.ce in
    let len0 = length-varint_encode n0 left counts.ect0 (omega arith) in
    let len1 = length-varint_encode n1 m1 counts.ect1 (omega (arith, counts.same_length)) in
    let len2 = length-varint_encode n2 m2 counts.ce (omega arith) in
    let same : length l0 ≡ length l1 = omega (arith, counts.same_length) in
    let e : ecn_counters source left old ≡ l0 ++ (l1 ++ l2) =
      rw
        (
          le→ltb m1 (length l0) (omega arith),
          is_empty-fits left n0 counts.ect0 (omega arith),
          is_empty-fits m1 n1 counts.ect1 (omega (arith, counts.same_length)),
          is_empty-fits m2 n2 counts.ce (omega arith),
          take-length (length l0) l1 (drop (length l0 + length l1) old) same,
        )
        refl in
    three_counters source (ecn_counters source left old) left m1 m2 counts e (omega arith)
      (omega (arith, counts.same_length)) (omega arith)

one_byte : (n : ℕ) → n ≤ 63 → varint_encode 1 n ≡ u8 n ∷ []
unfolding varint_encode
one_byte n h = ground arith

pub count_read :
    (n : ℕ) (rest : List ℕ) → n ≤ 63 → frames_varint_decode (u8 n ∷ rest) ≡ some (n, rest)
unfolding varint_len
count_read n rest h =
    sym (ap (λ b. frames_varint_decode (b ++ rest)) (one_byte n h))
    ∙ frames_varint_decode-varint_encode n 1 rest (omega arith) (ground arith)
