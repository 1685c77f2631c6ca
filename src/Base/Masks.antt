-- ===== src/Base/Masks.antt =====
-- `bit_and` with a mask of high bits takes the low bits off.
use Prim.Native.Nat.{ℕ, zero, suc, ◌+◌, ◌-◌, ◌*◌, ◌/◌, ◌%◌, ◌^◌, ◌≤◌, ◌<◌, bit_and, bit_and-bitwise}
use pquic.Base.Bits.{double_power}
use pquic.Base.Digits.{and_digit}
use mathlib.Core.Path.{◌≡◌, ap, ◌∙◌}
use native.Mathlib.Omega.{arith}

zero-bit_and : (y : ℕ) → bit_and 0 y ≡ 0
zero-bit_and y = bit_and-bitwise 0 y

-- All ones over the number.
bit_and_ones : (j a : ℕ) → a < 2 ^ j → bit_and a (2 ^ j - 1) ≡ a
bit_and_ones zero zero h = zero-bit_and 0
bit_and_ones zero (suc a) h = absurd (omega arith)
bit_and_ones (suc j) a h =
    let half : (2 ^ suc j - 1) / 2 ≡ 2 ^ j - 1 = omega arith in
    let odd : (2 ^ suc j - 1) % 2 ≡ 1 = omega arith in
    omega (
      arith,
      and_digit a (2 ^ suc j - 1),
      ap (λ (t : ℕ). bit_and (a / 2) t) half,
      bit_and_ones j (a / 2) (omega arith),
    )

-- Low zeros of the mask.
bit_and_shift :
    (k y c r : ℕ) → r < 2 ^ k → bit_and (y * 2 ^ k + r) (c * 2 ^ k) ≡ bit_and y c * 2 ^ k
bit_and_shift zero y c r h =
    let same : y * 2 ^ 0 + r ≡ y = omega arith in
    let mask : c * 2 ^ 0 ≡ c = omega arith in
    ap (λ (t : ℕ). bit_and t (c * 2 ^ 0)) same ∙ ap (bit_and y) mask ∙ omega arith
bit_and_shift (suc k) y c r h =
    let x = y * 2 ^ suc k + r in
    let ex = double_power y k in
    let ec = double_power c k in
    let power : 2 ^ suc k ≡ 2 * 2 ^ k = omega arith in
    let half : x / 2 ≡ y * 2 ^ k + r / 2 = omega arith in
    let mask : c * 2 ^ suc k / 2 ≡ c * 2 ^ k = omega arith in
    omega (
      arith,
      and_digit x (c * 2 ^ suc k),
      ap (λ (t : ℕ). bit_and t (c * 2 ^ suc k / 2)) half,
      ap (λ (t : ℕ). bit_and (y * 2 ^ k + r / 2) t) mask,
      bit_and_shift k y c (r / 2) (omega arith),
      double_power (bit_and y c) k,
    )

-- The mask keeps the digits from the k-th on, of a number that has k + j.
pub bit_and-high_mask :
    (k j y r : ℕ)
    → r < 2 ^ k
    → y < 2 ^ j
    → bit_and (y * 2 ^ k + r) ((2 ^ j - 1) * 2 ^ k) ≡ y * 2 ^ k
bit_and-high_mask k j y r hr hy =
    bit_and_shift k y (2 ^ j - 1) r hr ∙ ap (λ (t : ℕ). t * 2 ^ k) (bit_and_ones j y hy)

pub power_positive : (k : ℕ) → 1 ≤ 2 ^ k
power_positive zero = omega arith
power_positive (suc k) =
    let double : 2 ^ suc k ≡ 2 * 2 ^ k = omega arith in omega (arith, power_positive k)

bit_and-zero_below : (n a : ℕ) → a ≤ n → bit_and a 0 ≡ 0
bit_and-zero_below n zero h = zero-bit_and 0
bit_and-zero_below zero (suc a) h = absurd (omega arith)
bit_and-zero_below (suc n) (suc a) h =
    omega (arith, and_digit (suc a) 0, bit_and-zero_below n (suc a / 2) (omega arith))

-- The lowest `j` digits are what a number is more than a multiple of 2 ^ j.
low_digits :
    (j a : ℕ) → (q : ℕ) × (a ≡ q * 2 ^ j + bit_and a (2 ^ j - 1)) × (bit_and a (2 ^ j - 1) < 2 ^ j)
low_digits zero a =
    let none_left : bit_and a (2 ^ 0 - 1) ≡ 0 = bit_and-zero_below a a (omega arith) in
    (a, omega arith, omega arith)
low_digits (suc j) a =
    let one = power_positive j in
    let half : (2 ^ suc j - 1) / 2 ≡ 2 ^ j - 1 = omega arith in
    let odd : (2 ^ suc j - 1) % 2 ≡ 1 = omega arith in
    let power : 2 ^ suc j ≡ 2 * 2 ^ j = omega arith in
    let (q, e, small) = low_digits j (a / 2) in
    let step = and_digit a (2 ^ suc j - 1) in
    let same = ap (λ (t : ℕ). bit_and (a / 2) t) half in
    (q, omega (arith, step, same, e, double_power q j), omega (arith, step, same, small))

pub bit_and-low_byte : (a : ℕ) → bit_and a 0xFF ≡ a % 256
bit_and-low_byte a = let (q, e, small) = low_digits 8 a in omega (arith, e, small)
