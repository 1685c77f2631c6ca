-- ===== src/Packet/Number.antt =====
-- picoquic_get_packet_number64 of picoquic/packet.c, and the packet that was sent.
use pquic.Base.{
  ℕ, ◌+◌, ◌-◌, ◌^◌, ◌%◌, ◌*◌, ◌/◌, ◌≤◌, ◌<◌, ◌≡◌, refl, ◌∙◌, ◌⊎◌, inl, inr, ◌&&◌, bit_and, bit_or,
  ltb, leb, if◌then◌else◌, u64, sub64, arith, bit_or_disjoint, bit_and-high_mask,
}
use pquic.Packet.{get_packet_number64, not64}

-- The choice between three candidates, `base` being the expected number without its low bits.
closest : (expected base period pn : ℕ) → ℕ
closest expected base period pn =
    if ltb (base + pn) expected
    then (if ltb (sub64 period (expected - (base + pn))) (expected - (base + pn))
        then u64 (base + pn + period)
        else base + pn)
    else (if leb (sub64 period (base + pn - expected)) (base + pn - expected) && ltb 0 base
        then sub64 (base + pn) period
        else base + pn)

closest-number :
    (expected base half pn number : ℕ)
    → base ≤ expected
    → expected < base + 2 * half
    → pn < 2 * half
    → half ≤ 2 ^ 32
    → expected < 2 ^ 62
    → (number ≡ base + pn) ⊎ ((number ≡ base + 2 * half + pn) ⊎ (number + 2 * half ≡ base + pn))
    → number < expected + half
    → expected < number + half
    → (base ≡ 0) ⊎ (2 * half ≤ base)
    → closest expected base (2 * half) pn ≡ number
unfolding closest
closest-number expected base half pn number b1 b2 p h e c w1 w2 z = ground arith

get_packet_number64-closest :
    (highest mask base period pn : ℕ)
    → highest + 1 < 2 ^ 62
    → u64 (not64 mask + 1) ≡ period
    → bit_and (highest + 1) mask ≡ base
    → bit_or base pn ≡ base + pn
    → bit_and (base + pn) mask ≡ base
    → get_packet_number64 highest mask pn ≡ closest (highest + 1) base period pn
unfolding get_packet_number64 closest
get_packet_number64-closest highest mask base period pn h p b o back =
    let e : u64 (highest + 1) ≡ highest + 1 = omega arith in
    rw (get_packet_number64, e, p, b, o, back) refl

-- A mask of `j` ones over `k` zeros, with half of the 2^k numbers that have the same low digits.
module _ (k j half : ℕ) (period : 2 ^ k ≡ 2 * half) where
  masked :
      (highest mask number y r q : ℕ)
      → highest + 1 < 2 ^ 62
      → half ≤ 2 ^ 32
      → mask ≡ (2 ^ j - 1) * 2 ^ k
      → u64 (not64 mask + 1) ≡ 2 * half
      → highest + 1 ≡ y * 2 ^ k + r
      → r < 2 ^ k
      → y < 2 ^ j
      → q < 2 ^ k
      → (number ≡ y * 2 ^ k + q)
        ⊎ ((number ≡ y * 2 ^ k + 2 * half + q) ⊎ (number + 2 * half ≡ y * 2 ^ k + q))
      → (y * 2 ^ k ≡ 0) ⊎ (2 * half ≤ y * 2 ^ k)
      → number < highest + 1 + half
      → highest + 1 < number + half
      → get_packet_number64 highest mask q ≡ number
  masked highest mask number y r q h small em ep ey hr hy hq c z w1 w2 =
      get_packet_number64-closest highest mask (y * 2 ^ k) (2 * half) q h ep
        (rw (ey, em) (bit_and-high_mask k j y r hr hy)) (bit_or_disjoint k y q hq)
        (rw em (bit_and-high_mask k j y q hq hy))
      ∙ closest-number (highest + 1) (y * 2 ^ k) half q number (omega arith) (omega arith)
          (omega arith) small h c w1 w2 z

-- The masks for numbers of one, two and four bytes, each with half of the numbers that these tell apart.
abbrev pub IsNumberMask : ℕ → ℕ → Type 0
IsNumberMask mask half =
    ((mask ≡ 0xFFFFFFFFFFFFFF80) × (half ≡ 2 ^ 6))
    ⊎ (((mask ≡ 0xFFFFFFFFFFFFC000) × (half ≡ 2 ^ 13))
        ⊎ ((mask ≡ 0xFFFFFFFFC0000000) × (half ≡ 2 ^ 29)))

-- From the low 7, 14 or 30 bits of a packet's number, with the mask of the others, the receiver gets the
-- number back, where the number is nearer to the one after the highest received than half of the numbers
-- that those bits tell apart, and that one is below 2^62.
pub get_packet_number64-number :
    (highest mask half number : ℕ)
    → IsNumberMask mask half
    → highest + 1 < 2 ^ 62
    → number < highest + 1 + half
    → highest + 1 < number + half
    → get_packet_number64 highest mask (number % (2 * half)) ≡ number
get_packet_number64-number highest mask half number (inl (em, eh)) h w1 w2 =
    rw (em, eh)
      (masked 7 57 64 refl highest 0xFFFFFFFFFFFFFF80 number ((highest + 1) / 128)
        ((highest + 1) % 128) (number % 128) h (omega arith) refl refl (omega arith) (omega arith)
        (omega arith) (omega arith) (omega arith) (omega arith) (omega arith) (omega arith))
get_packet_number64-number highest mask half number (inr (inl (em, eh))) h w1 w2 =
    rw (em, eh)
      (masked 14 50 8192 refl highest 0xFFFFFFFFFFFFC000 number ((highest + 1) / 16384)
        ((highest + 1) % 16384) (number % 16384) h (omega arith) refl refl (omega arith)
        (omega arith) (omega arith) (omega arith) (omega arith) (omega arith) (omega arith)
        (omega arith))
get_packet_number64-number highest mask half number (inr (inr (em, eh))) h w1 w2 =
    rw (em, eh)
      (masked 30 34 536870912 refl highest 0xFFFFFFFFC0000000 number ((highest + 1) / 1073741824)
        ((highest + 1) % 1073741824) (number % 1073741824) h (omega arith) refl refl (omega arith)
        (omega arith) (omega arith) (omega arith) (omega arith) (omega arith) (omega arith)
        (omega arith))
