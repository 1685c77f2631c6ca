-- ===== src/Base/Bits.antt =====
-- `bit_or` of numbers whose digits do not overlap is their sum.
use Prim.Native.Nat.{ℕ, zero, suc, ◌+◌, ◌*◌, ◌/◌, ◌^◌, ◌≤◌, ◌<◌, bit_or, bit_or-bitwise}
use pquic.Base.Digits.{or_digit}
use mathlib.Core.Path.{◌≡◌, ap, ◌∙◌}
use native.Mathlib.Omega.{arith}
use native.Mathlib.Nat.{mul_assoc, pow-suc}

zero-bit_or : (y : ℕ) → bit_or 0 y ≡ y
zero-bit_or y = bit_or-bitwise 0 y

bit_or-zero_below : (n a : ℕ) → a ≤ n → bit_or a 0 ≡ a
bit_or-zero_below n zero h = zero-bit_or 0
bit_or-zero_below zero (suc a) h = absurd (omega arith)
bit_or-zero_below (suc n) (suc a) h =
    omega (arith, or_digit (suc a) 0, bit_or-zero_below n (suc a / 2) (omega arith))

pub double_power : (a k : ℕ) → a * 2 ^ suc k ≡ 2 * (a * 2 ^ k)
double_power a k = omega (arith, ap (λ (t : ℕ). a * t) (pow-suc 2 k), mul_assoc a (2 ^ k) 2)

power_double : (k : ℕ) → 2 ^ suc k ≡ 2 * 2 ^ k
power_double k = omega arith

zero_case : (b : ℕ) → b < 1 → (a : ℕ) → bit_or (a * 1) b ≡ bit_or a 0
zero_case b h a = ap (λ (t : ℕ). bit_or t b) (omega arith) ∙ ap (bit_or a) (omega arith)

pub bit_or_disjoint : (k a b : ℕ) → b < 2 ^ k → bit_or (a * 2 ^ k) b ≡ a * 2 ^ k + b
bit_or_disjoint zero a b h = omega (arith, bit_or-zero_below a a (omega arith), zero_case b h a)
bit_or_disjoint (suc k) a b h =
    let high = double_power a k in
    let bound = power_double k in
    let half : a * 2 ^ suc k / 2 ≡ a * 2 ^ k = omega arith in
    let ih = bit_or_disjoint k a (b / 2) (omega arith) in
    omega (arith, or_digit (a * 2 ^ suc k) b, ap (λ (t : ℕ). bit_or t (b / 2)) half, ih)
