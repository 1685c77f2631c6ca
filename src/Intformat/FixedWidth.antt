-- ===== src/Intformat/FixedWidth.antt =====
-- picoquic/intformat.c and PICOPARSE: integers of fixed width read where they were written.
use pquic.Base.{
  ℕ, suc, ◌+◌, ◌*◌, ◌/◌, ◌^◌, ◌<◌, ◌≡◌, refl, ap, ◌∙◌, List, [], ◌∷◌, ◌++◌, length, take, drop,
  bit_or_disjoint, arith, get_elem?-append_right, take-append, u8,
}
use pquic.Intformat.{format_16, format_32, format_64, byte, parse_16, parse_32, parse_64}

byte_after :
    (before bytes : List ℕ) (i : ℕ) → byte (before ++ bytes) (length before + i) ≡ byte bytes i
byte_after before bytes i = rw (byte, get_elem?-append_right before bytes i) refl

pub parse_16-format_16 : (n : ℕ) (rest : List ℕ) → n < 65536 → parse_16 (format_16 n ++ rest) 0 ≡ n
unfolding parse_16 format_16
parse_16-format_16 n rest h =
    let joined = bit_or_disjoint 8 (u8 (n / 2 ^ 8)) (u8 n) (omega arith) in omega (arith, joined)

pub parse_32-format_32 : (n : ℕ) (rest : List ℕ) → n < 2 ^ 32 → parse_32 (format_32 n ++ rest) 0 ≡ n
unfolding parse_32 parse_16 format_32
parse_32-format_32 n rest h =
    let high = bit_or_disjoint 8 (u8 (n / 2 ^ 24)) (u8 (n / 2 ^ 16)) (omega arith) in
    let low = bit_or_disjoint 8 (u8 (n / 2 ^ 8)) (u8 n) (omega arith) in
    let upper = u8 (n / 2 ^ 24) * 2 ^ 8 + u8 (n / 2 ^ 16) in
    let whole = bit_or_disjoint 16 upper (u8 (n / 2 ^ 8) * 2 ^ 8 + u8 n) (omega arith) in
    rw (high, low) (whole ∙ omega arith)

parse_16_moved :
    (before bytes : List ℕ) → parse_16 (before ++ bytes) (length before) ≡ parse_16 bytes 0
unfolding parse_16
parse_16_moved before bytes =
    let first : byte (before ++ bytes) (length before) ≡ byte bytes 0 =
      ap (byte (before ++ bytes)) (omega arith) ∙ byte_after before bytes 0 in
    rw (first, byte_after before bytes 1) refl

pub parse_64-format_64 : (n : ℕ) (rest : List ℕ) → n < 2 ^ 64 → parse_64 (format_64 n ++ rest) 0 ≡ n
unfolding parse_64 parse_32 parse_16 format_64
parse_64-format_64 n rest h =
    let one = bit_or_disjoint 8 (u8 (n / 2 ^ 56)) (u8 (n / 2 ^ 48)) (omega arith) in
    let two = bit_or_disjoint 8 (u8 (n / 2 ^ 40)) (u8 (n / 2 ^ 32)) (omega arith) in
    let three = bit_or_disjoint 8 (u8 (n / 2 ^ 24)) (u8 (n / 2 ^ 16)) (omega arith) in
    let four = bit_or_disjoint 8 (u8 (n / 2 ^ 8)) (u8 n) (omega arith) in
    let high =
      bit_or_disjoint 16 (u8 (n / 2 ^ 56) * 2 ^ 8 + u8 (n / 2 ^ 48))
        (u8 (n / 2 ^ 40) * 2 ^ 8 + u8 (n / 2 ^ 32)) (omega arith) in
    let low =
      bit_or_disjoint 16 (u8 (n / 2 ^ 24) * 2 ^ 8 + u8 (n / 2 ^ 16)) (u8 (n / 2 ^ 8) * 2 ^ 8 + u8 n)
        (omega arith) in
    let upper =
      (u8 (n / 2 ^ 56) * 2 ^ 8 + u8 (n / 2 ^ 48)) * 2 ^ 16
      + (u8 (n / 2 ^ 40) * 2 ^ 8 + u8 (n / 2 ^ 32)) in
    let lower =
      (u8 (n / 2 ^ 24) * 2 ^ 8 + u8 (n / 2 ^ 16)) * 2 ^ 16 + (u8 (n / 2 ^ 8) * 2 ^ 8 + u8 n) in
    let whole = bit_or_disjoint 32 upper lower (omega arith) in
    rw (one, two, three, four, high, low) (whole ∙ omega arith)

pub parse_16_after :
    (before : List ℕ) (n : ℕ) (rest : List ℕ)
    → n < 65536
    → parse_16 (before ++ (format_16 n ++ rest)) (length before) ≡ n
parse_16_after before n rest h =
    parse_16_moved before (format_16 n ++ rest) ∙ parse_16-format_16 n rest h

pub string_after :
    (before : List ℕ) (n : ℕ) (s rest : List ℕ)
    → take (length s) (drop (length before + 2) (before ++ (format_16 n ++ (s ++ rest)))) ≡ s
unfolding format_16
string_after [] n s rest = take-append s rest
string_after (x ∷ before) n s rest =
    let later = before ++ (format_16 n ++ (s ++ rest)) in
    let index : suc (length before) + 2 ≡ suc (length before + 2) = omega arith in
    ap (λ (t : ℕ). take (length s) (drop t (x ∷ later))) index ∙ string_after before n s rest
