-- ===== src/Frames/Lengths.antt =====
-- The numbers that varint_encode writes: how long they are, and when they fit.
use pquic.Base.{ℕ, ◌-◌, ◌^◌, ◌≤◌, ◌<◌, ◌≡◌, ap, true, false, arith, sub64}
use pquic.Intformat.{varint_encode, varint_len}
use pquic.Intformat.Varint.{varint_encode_too_small}
use pquic.Frames.Write.{is_empty}
use pquic.Frames.Reads.{nonempty, length-varint_encode, varint_len_positive}

pub sub64_exact : (a b : ℕ) → b ≤ a → a < 2 ^ 64 → sub64 a b ≡ a - b
sub64_exact a b h w = omega arith

pub varint_len_max : (n : ℕ) → n < 2 ^ 62 → varint_len n ≤ 8
unfolding varint_len
varint_len_max n h = ground arith

pub is_empty-too_small :
    (m n : ℕ) → n < 2 ^ 62 → m < varint_len n → is_empty (varint_encode m n) ≡ true
is_empty-too_small m n h short = ap is_empty (varint_encode_too_small n m h short)

pub is_empty-fits : (m n : ℕ) → n < 2 ^ 62 → varint_len n ≤ m → is_empty (varint_encode m n) ≡ false
is_empty-fits m n h fits =
    nonempty (varint_encode m n)
      (omega (arith, length-varint_encode n m h fits, varint_len_positive n h))

pub varint_len_le : (a b : ℕ) → a ≤ b → b < 2 ^ 62 → varint_len a ≤ varint_len b
unfolding varint_len
varint_len_le a b h top = ground arith
