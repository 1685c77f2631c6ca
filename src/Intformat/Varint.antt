-- ===== src/Intformat/Varint.antt =====
-- Variable-length integers: what `varint_encode` writes, `varint_decode` reads back.
use pquic.Base.{
  ℕ, zero, suc, ◌+◌, ◌-◌, ◌*◌, ◌/◌, ◌%◌, ◌^◌, ◌≤◌, ◌<◌, ◌≡◌, refl, ◌∙◌, ap, some, List, [], ◌∷◌,
  ◌++◌, length, arith, All, IsByte, u64, bit_and-top_two, bit_and-low_six, bit_or-prefix_01,
  bit_or-prefix_10, bit_or-prefix_11, le→ltb, lt→ltb,
}
use pquic.Intformat.{varint_encode, varint_decode, decode_loop, first_byte_length, varint_len}
use native.Mathlib.Decide.{dec_lt}

-- The lowest `k` bytes of a number, highest first, and the number without them.
abbrev low_bytes : ℕ → ℕ → List ℕ → List ℕ
low_bytes zero x rest = rest
low_bytes (suc k) x rest = low_bytes k (x / 256) ((x % 256) ∷ rest)

abbrev high_part : ℕ → ℕ → ℕ
high_part zero x = x
high_part (suc k) x = high_part k (x / 256)

-- The loop shifts the bytes in again.
decode_loop-low_bytes :
    (k j n x : ℕ) (rest : List ℕ)
    → n ≡ k + j
    → x < 2 ^ 64
    → decode_loop n (low_bytes k x rest) (high_part k x) ≡ decode_loop j rest x
decode_loop-low_bytes zero j n x rest e h = ap (λ m. decode_loop m rest x) (omega arith)
decode_loop-low_bytes (suc k) j n x rest e h =
    decode_loop-low_bytes k (suc j) n (x / 256) ((x % 256) ∷ rest) (omega arith) (omega arith)
    ∙ unfold decode_loop in ap (decode_loop j rest) (omega arith)

varint_decode_step :
    (k b r max_bytes : ℕ) (bytes : List ℕ)
    → b < 256
    → first_byte_length b ≡ suc k
    → suc k ≤ max_bytes
    → decode_loop k bytes (b % 64) ≡ some r
    → varint_decode (b ∷ bytes) max_bytes ≡ some (suc k, r)
unfolding varint_decode
varint_decode_step k b r max_bytes bytes hb l fits eq =
    let e : suc k - 1 ≡ k = omega arith in
    rw (l, le→ltb max_bytes (suc k) fits, bit_and-low_six b hb, e, eq)

-- A first byte with its prefix, and the bytes that the prefix announces.
decode_prefixed :
    (k x b max_bytes : ℕ) (rest : List ℕ)
    → b < 256
    → first_byte_length b ≡ suc k
    → b % 64 ≡ high_part k x
    → x < 2 ^ 64
    → suc k ≤ max_bytes
    → varint_decode (b ∷ low_bytes k x rest) max_bytes ≡ some (suc k, x)
decode_prefixed k x b max_bytes rest hb hl hx h fits =
    varint_decode_step k b x max_bytes (low_bytes k x rest) hb hl fits
      (rw hx (decode_loop-low_bytes k 0 k x rest (omega arith) h ∙ unfold decode_loop in refl))

prefix_length : (b : ℕ) → b < 256 → first_byte_length b ≡ 2 ^ (b / 64)
unfolding first_byte_length
prefix_length b h = rw (bit_and-top_two b h) (ap (λ (t : ℕ). 2 ^ t) (omega arith))

-- A prefix of `c` in the two highest bits announces 2 ^ c bytes.
tagged_length : (c y : ℕ) → y < 64 → c < 4 → first_byte_length (y + 64 * c) ≡ 2 ^ c
tagged_length c y hy hc =
    prefix_length (y + 64 * c) (omega arith) ∙ ap (λ (t : ℕ). 2 ^ t) (omega arith)

zero_tag : (n : ℕ) → n < 64 → n / 64 ≡ 0
zero_tag n h = omega arith

encode_one : (max_bytes n : ℕ) → n < 64 → 1 ≤ max_bytes → varint_encode max_bytes n ≡ n ∷ []
unfolding varint_encode
encode_one max_bytes n h fits = ground arith

encode_two :
    (max_bytes n : ℕ)
    → 64 ≤ n
    → n < 16384
    → 2 ≤ max_bytes
    → varint_encode max_bytes n ≡ (n / 256 + 64 * 1) ∷ low_bytes 1 n []
unfolding varint_encode
encode_two max_bytes n lo hi fits = ground (arith, bit_or-prefix_01 (n / 256))

encode_four :
    (max_bytes n : ℕ)
    → 16384 ≤ n
    → n < 1073741824
    → 4 ≤ max_bytes
    → varint_encode max_bytes n ≡ (high_part 3 n + 64 * 2) ∷ low_bytes 3 n []
unfolding varint_encode
encode_four max_bytes n lo hi fits = ground (arith, bit_or-prefix_10 (n / 2 ^ 24))

encode_eight :
    (max_bytes n : ℕ)
    → 1073741824 ≤ n
    → n < 2 ^ 62
    → 8 ≤ max_bytes
    → varint_encode max_bytes n ≡ (high_part 7 n + 64 * 3) ∷ low_bytes 7 n []
unfolding varint_encode
encode_eight max_bytes n lo hi fits = ground (arith, bit_or-prefix_11 (n / 2 ^ 56))

-- The four sizes of a number, each with its bounds.
data Size (n : ℕ) : Type 0 where
  one : n < 64 → varint_len n ≡ 1 → Size n
  two : 64 ≤ n → n < 16384 → varint_len n ≡ 2 → Size n
  four : 16384 ≤ n → n < 1073741824 → varint_len n ≡ 4 → Size n
  eight : 1073741824 ≤ n → varint_len n ≡ 8 → Size n

sizes : (n : ℕ) → n < 2 ^ 62 → Size n
unfolding varint_len
sizes n h = elim (dec_lt n 64) [
  | yes a ↦ one a (ground arith)
  | no a ↦ elim (dec_lt n 16384) [
    | yes b ↦ two (omega arith) b (ground arith)
    | no b ↦ elim (dec_lt n 1073741824) [
      | yes c ↦ four (omega arith) c (ground arith)
      | no c ↦ eight (omega arith) (ground arith)
    ]
  ]
]

-- Every number below 2^62 is written in `varint_len` bytes, if these fit the buffer, and is read
-- back from them, whatever follows, by any reader that is allowed that many bytes.
pub varint_decode-varint_encode :
    (n max_bytes max_read : ℕ) (rest : List ℕ)
    → n < 2 ^ 62
    → varint_len n ≤ max_bytes
    → varint_len n ≤ max_read
    → (length (varint_encode max_bytes n) ≡ varint_len n)
      × (varint_decode (varint_encode max_bytes n ++ rest) max_read ≡ some (varint_len n, n))
varint_decode-varint_encode n max_bytes max_read rest h fits reads = elim (sizes n h) [
  | one hi l ↦
      rw (l, encode_one max_bytes n hi (omega arith))
        (
          refl,
          decode_prefixed 0 n n max_read rest (omega arith)
              (prefix_length n (omega arith) ∙ ap (λ (t : ℕ). 2 ^ t) (zero_tag n hi)) (omega arith)
              (omega arith) (omega arith),
        )
  | two lo hi l ↦
      rw (l, encode_two max_bytes n lo hi (omega arith))
        (
          refl,
          decode_prefixed 1 n _ max_read rest (omega arith)
              (tagged_length 1 (n / 256) (omega arith) (omega arith)) (omega arith) (omega arith)
              (omega arith),
        )
  | four lo hi l ↦
      rw (l, encode_four max_bytes n lo hi (omega arith))
        (
          refl,
          decode_prefixed 3 n _ max_read rest (omega arith)
              (tagged_length 2 (high_part 3 n) (omega arith) (omega arith)) (omega arith)
              (omega arith) (omega arith),
        )
  | eight lo l ↦
      rw (l, encode_eight max_bytes n lo h (omega arith))
        (
          refl,
          decode_prefixed 7 n _ max_read rest (omega arith)
              (tagged_length 3 (high_part 7 n) (omega arith) (omega arith)) (omega arith)
              (omega arith) (omega arith),
        )
]

-- Where a number below 2^62 needs more bytes than the buffer has, nothing is written.
pub varint_encode_too_small :
    (n max_bytes : ℕ) → n < 2 ^ 62 → max_bytes < varint_len n → varint_encode max_bytes n ≡ []
unfolding varint_encode varint_len
varint_encode_too_small n max_bytes h short = ground arith

-- m * 256 ^ k
abbrev scale : ℕ → ℕ → ℕ
scale zero m = m
scale (suc k) m = scale k (m * 256)

le-scale : (k m : ℕ) → m ≤ scale k m
le-scale zero m = omega arith
le-scale (suc k) m = omega (arith, le-scale k (m * 256))

decode_loop_bounds :
    (k v m : ℕ) (bytes : List ℕ)
    → All IsByte bytes
    → k ≤ length bytes
    → v < m
    → scale k m ≤ 2 ^ 64
    → (r : ℕ) × (decode_loop k bytes v ≡ some r) × (r < scale k m)
unfolding decode_loop
decode_loop_bounds zero v m bytes b l h fits = (v, refl, h)
decode_loop_bounds (suc k) v m [] b l h fits = absurd (omega arith)
decode_loop_bounds (suc k) v m (c ∷ bytes) b l h fits =
    decode_loop_bounds k (u64 (u64 (v * 2 ^ 8) + c)) (m * 256) bytes b.1 (omega arith)
      (omega (arith, le-scale k (m * 256))) fits

-- What a decoder returns: nothing, or a number that fits the length that it took.
pub data Decodes (bytes : List ℕ) (max_bytes : ℕ) : Type 0 where
  refuses : varint_decode bytes max_bytes ≡ some (0, 0) → Decodes bytes max_bytes
  reads :
      (l n : ℕ)
      → varint_decode bytes max_bytes ≡ some (l, n)
      → 1 ≤ l
      → l ≤ max_bytes
      → varint_len n ≤ l
      → n < 2 ^ 62
      → Decodes bytes max_bytes

decode_at :
    (k b m max_bytes : ℕ) (bytes : List ℕ)
    → All IsByte (b ∷ bytes)
    → max_bytes ≤ suc (length bytes)
    → first_byte_length b ≡ suc k
    → scale k 64 ≡ m
    → m ≤ 2 ^ 62
    → ((n : ℕ) → n < m → varint_len n ≤ suc k)
    → Decodes (b ∷ bytes) max_bytes
unfolding varint_decode
decode_at k b m max_bytes bytes h room l e small fits = elim (dec_lt max_bytes (suc k)) [
  | yes short ↦ refuses (rw (l, lt→ltb max_bytes (suc k) short))
  | no long ↦
      let (r, eq, below) =
        decode_loop_bounds k (b % 64) 64 bytes h.1 (omega arith) (omega arith) (omega arith) in
      reads (suc k) r (varint_decode_step k b r max_bytes bytes h.0 l (omega arith) eq)
        (omega arith) (omega arith) (fits r (omega arith)) (omega arith)
]

-- On a buffer of bytes that holds `max_bytes` and is not empty the decoder stays inside the buffer:
-- it refuses, or takes 1 to `max_bytes` bytes for a number below 2^62 that fits as many.
pub varint_decode-Decodes :
    (b max_bytes : ℕ) (bytes : List ℕ)
    → All IsByte (b ∷ bytes)
    → max_bytes ≤ length (b ∷ bytes)
    → Decodes (b ∷ bytes) max_bytes
unfolding varint_len
varint_decode-Decodes b max_bytes bytes h room = elim (dec_lt b 64) [
  | yes p ↦
      decode_at 0 b 64 max_bytes bytes h room (at 0 (omega arith)) refl (omega arith)
        (λ n q. ground arith)
  | no p ↦ elim (dec_lt b 128) [
    | yes q ↦
        decode_at 1 b (2 ^ 14) max_bytes bytes h room (at 1 (omega arith)) refl (omega arith)
          (λ n r. ground arith)
    | no q ↦ elim (dec_lt b 192) [
      | yes r ↦
          decode_at 3 b (2 ^ 30) max_bytes bytes h room (at 2 (omega arith)) refl (omega arith)
            (λ n t. ground arith)
      | no r ↦
          decode_at 7 b (2 ^ 62) max_bytes bytes h room (at 3 (omega arith)) refl (omega arith)
            (λ n t. ground arith)
    ]
  ]
]
  where
    at : (c : ℕ) → b / 64 ≡ c → first_byte_length b ≡ 2 ^ c
    at c e = prefix_length b h.0 ∙ ap (λ (t : ℕ). 2 ^ t) e
