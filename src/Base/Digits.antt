-- ===== src/Base/Digits.antt =====
-- The lowest digit of the operations on binary digits, whatever they do with two digits. A count
-- that has grown past the number has no effect.
use Prim.Native.Nat.{
  ℕ, zero, suc, ◌+◌, ◌-◌, ◌*◌, ◌/◌, ◌%◌, ◌≤◌, min, max, digits, bitwise, bit_and, bit_or,
  bit_and-bitwise, bit_or-bitwise,
}
use mathlib.Core.Path.{◌≡◌, refl, ap, ◌∙◌}
use native.Mathlib.Omega.{arith}

module _ (last : ℕ → ℕ) (two : ℕ → ℕ → ℕ) where
  run : ℕ → ℕ → ℕ → ℕ
  run count x y = digits last two count x y

  -- One more digit to go than there are.
  idle_count : (x y count : ℕ) → x ≤ count → run (suc count) x y ≡ run count x y
  unfolding run
  idle_count zero y zero h = refl
  idle_count zero y (suc count) h = refl
  idle_count (suc x) y zero h = absurd (omega arith)
  idle_count (suc x) y (suc count) h =
      let rest = idle_count (suc x / 2) (y / 2) count (omega arith) in
      ap (λ (t : ℕ). t * 2 + two (suc x % 2) (y % 2)) rest

  idle_counts : (x y extra : ℕ) → run (extra + x) x y ≡ run x x y
  idle_counts x y zero = ap (λ (t : ℕ). run t x y) (omega arith)
  idle_counts x y (suc extra) =
      ap (λ (t : ℕ). run t x y) (omega arith)
      ∙ idle_count x y (extra + x) (omega arith)
      ∙ idle_counts x y extra

  lowest_digit :
      (x y : ℕ)
      → bitwise last two (suc x) y
        ≡ bitwise last two (suc x / 2) (y / 2) * 2 + two (suc x % 2) (y % 2)
  unfolding run
  lowest_digit x y =
      let half = suc x / 2 in
      let extra : (x - half) + half ≡ x = omega arith in
      let same : run x half (y / 2) ≡ run half half (y / 2) =
        ap (λ (t : ℕ). run t half (y / 2)) (omega arith) ∙ idle_counts half (y / 2) (x - half) in
      ap (λ (t : ℕ). t * 2 + two (suc x % 2) (y % 2)) same

pub or_digit : (x y : ℕ) → bit_or x y ≡ bit_or (x / 2) (y / 2) * 2 + max (x % 2) (y % 2)
or_digit zero y = simp (bit_or-bitwise) (omega arith)
or_digit (suc x) y = simp (bit_or-bitwise) (lowest_digit (λ t. t) max x y)

pub and_digit : (x y : ℕ) → bit_and x y ≡ bit_and (x / 2) (y / 2) * 2 + min (x % 2) (y % 2)
and_digit zero y = simp (bit_and-bitwise) (omega arith)
and_digit (suc x) y = simp (bit_and-bitwise) (lowest_digit (λ t. zero) min x y)
