-- ===== src/Frames/Reads.antt =====
-- The integer readers of picoquic/frames.c beside those of picoquic/intformat.c, and on what its writers write.
use pquic.Base.{
  power_positive, false, ℕ, zero, suc, ◌-◌, ◌*◌, ◌/◌, ◌%◌, ◌^◌, ◌≤◌, ◌<◌, ◌≡◌, refl, sym, ap, ◌∙◌,
  Option, none, some, List, [], ◌∷◌, ◌++◌, drop, length, arith, bit_and, bit_or, bit_or_disjoint,
  length-append, drop-append, take-append, le→leb, lt→leb_false, le→ltb, lt→ltb,
}
use mathlib.Core.Option
use native.Mathlib.Decide.{dec_lt}
use pquic.Intformat.{
  varint_encode, varint_decode, varint_len, first_byte_length, decode_loop, format_16,
}
use pquic.Intformat.Varint.{varint_decode-varint_encode}
use pquic.Frames.Reader.{
  frames_varint_decode, frames_varint_loop, frames_uint16_decode, frames_take, parse16,
}
use pquic.Frames.Write.{is_empty}

-- What a reader makes of a length and a value: no bytes taken is NULL.
abbrev pub as_read : List ℕ → Option (ℕ × ℕ) → Option (ℕ × List ℕ)
as_read bytes none = none
as_read bytes (some (zero, n)) = none
as_read bytes (some (suc k, n)) = some (n, drop (suc k) bytes)

loops_agree :
    (k v : ℕ) (bytes : List ℕ)
    → frames_varint_loop k v bytes ≡ Option.map (λ n. (n, drop k bytes)) (decode_loop k bytes v)
unfolding frames_varint_loop decode_loop
loops_agree zero v bytes = refl
loops_agree (suc k) v [] = refl
loops_agree (suc k) v (b ∷ bytes) = loops_agree k _ bytes

as_read-map :
    (k : ℕ) (bytes : List ℕ) (b : ℕ) (o : Option ℕ)
    → Option.map (λ n. (n, drop k bytes)) o
      ≡ as_read (b ∷ bytes) (Option.map (λ n64. (suc k, n64)) o)
as_read-map k bytes b none = refl
as_read-map k bytes b (some n) = refl

agree_at :
    (l k v b : ℕ) (bytes : List ℕ)
    → l ≡ suc k
    → frames_varint_loop (l - 1) v bytes
      ≡ as_read (b ∷ bytes) (Option.map (λ n64. (l, n64)) (decode_loop (l - 1) bytes v))
agree_at l k v b bytes e =
    let less : suc k - 1 ≡ k = omega arith in
    rw (e, less) (loops_agree k v bytes ∙ as_read-map k bytes b (decode_loop k bytes v))

positive : (b : ℕ) → first_byte_length b ≡ suc (first_byte_length b - 1)
unfolding first_byte_length
positive b = omega (arith, power_positive (bit_and b 0xC0 / 2 ^ 6))

-- On a packet that is not empty the reader of frames.c returns what the decoder of intformat.c does with
-- the packet's length as the bound, and the bytes behind it; NULL where that decoder returns 0.
pub frames_varint_decode-varint_decode :
    (b : ℕ) (bytes : List ℕ)
    → frames_varint_decode (b ∷ bytes)
      ≡ as_read (b ∷ bytes) (varint_decode (b ∷ bytes) (length (b ∷ bytes)))
unfolding frames_varint_decode varint_decode
frames_varint_decode-varint_decode b bytes =
    elim (dec_lt (length (b ∷ bytes)) (first_byte_length b)) [
      | yes short ↦
          rw
            (
              lt→ltb (length (b ∷ bytes)) (first_byte_length b) short,
              lt→leb_false (first_byte_length b) (length (b ∷ bytes)) short,
            )
            refl
      | no fits ↦
          rw
            (
              le→ltb (length (b ∷ bytes)) (first_byte_length b) (omega arith),
              le→leb (first_byte_length b) (length (b ∷ bytes)) (omega arith),
            )
            (agree_at (first_byte_length b) (first_byte_length b - 1) (bit_and b 0x3F) b bytes
              (positive b))
    ]

read_of :
    (l n : ℕ) (packet : List ℕ)
    → 1 ≤ l
    → varint_decode packet (length packet) ≡ some (l, n)
    → frames_varint_decode packet ≡ some (n, drop l packet)
unfolding varint_decode
read_of l n [] h e = cc
read_of zero n (b ∷ bytes) h e = absurd (omega arith)
read_of (suc k) n (b ∷ bytes) h e =
    frames_varint_decode-varint_decode b bytes ∙ ap (as_read (b ∷ bytes)) e

pub varint_len_positive : (n : ℕ) → n < 2 ^ 62 → 1 ≤ varint_len n
unfolding varint_len
varint_len_positive n h = ground arith

-- The reader gives back a number that varint_encode wrote, and what follows it.
pub frames_varint_decode-varint_encode :
    (n max_bytes : ℕ) (rest : List ℕ)
    → n < 2 ^ 62
    → varint_len n ≤ max_bytes
    → frames_varint_decode (varint_encode max_bytes n ++ rest) ≡ some (n, rest)
frames_varint_decode-varint_encode n max_bytes rest h fits =
    let written = varint_encode max_bytes n in
    let long = length-append written rest in
    let (l, _) = varint_decode-varint_encode n max_bytes (varint_len n) rest h fits (omega arith) in
    let (_, d) =
      varint_decode-varint_encode n max_bytes (length (written ++ rest)) rest h fits
        (omega arith) in
    read_of (varint_len n) n (written ++ rest) (varint_len_positive n h) d
    ∙ ap (λ k. some (n, drop k (written ++ rest))) (sym l)
    ∙ ap (λ r. some (n, r)) (drop-append written rest)

pub frames_uint16_decode-format_16 :
    (n : ℕ) (rest : List ℕ)
    → n < 2 ^ 16
    → frames_uint16_decode (format_16 n ++ rest) ≡ some (n, rest)
unfolding frames_uint16_decode format_16 parse16
frames_uint16_decode-format_16 n rest h =
    let e : bit_or (n / 2 ^ 8 % 2 ^ 8 * 2 ^ 8) (n % 2 ^ 8) ≡ n =
      bit_or_disjoint 8 (n / 2 ^ 8 % 2 ^ 8) (n % 2 ^ 8) (omega arith) ∙ omega arith in
    ap (λ k. some (k, rest)) e

pub frames_take-append : (xs rest : List ℕ) → frames_take (length xs) (xs ++ rest) ≡ some (xs, rest)
unfolding frames_take
frames_take-append xs rest =
    rw
      (
        le→leb (length xs) (length (xs ++ rest)) (omega (arith, length-append xs rest)),
        take-append xs rest,
        drop-append xs rest,
      )
      refl

pub nonempty : (bytes : List ℕ) → 1 ≤ length bytes → is_empty bytes ≡ false
nonempty [] h = absurd (omega arith)
nonempty (b ∷ bytes) h = refl

pub length-varint_encode :
    (n max_bytes : ℕ)
    → n < 2 ^ 62
    → varint_len n ≤ max_bytes
    → length (varint_encode max_bytes n) ≡ varint_len n
length-varint_encode n max_bytes h fits =
    (varint_decode-varint_encode n max_bytes (varint_len n) [] h fits (omega arith)).0

pub append_assoc : (a b c : List ℕ) → (a ++ b) ++ c ≡ a ++ (b ++ c)
append_assoc [] b c = refl
append_assoc (x ∷ a) b c = ap (◌∷◌ x) (append_assoc a b c)

pub length-format_16 : (n : ℕ) → length (format_16 n) ≡ 2
unfolding format_16
length-format_16 n = refl
