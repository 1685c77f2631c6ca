-- ===== src/Base/Words.antt =====
-- Unsigned machine words as native numbers, and masks on a byte as tables checked by evaluation.
use Prim.Native.Nat.{ℕ, zero, suc, ◌+◌, ◌-◌, ◌*◌, ◌/◌, ◌%◌, ◌^◌, ◌<◌, bit_and, bit_or}
use mathlib.Core.Path.{◌≡◌, refl}
use mathlib.Core.Bool.{Bool, true, ◌&&◌}
use native.Mathlib.Omega.{arith}
use pquic.Base.Tests.{◌==◌}

-- (uint8_t)x, (uint16_t)x, (uint32_t)x, (uint64_t)x
abbrev pub u8 : ℕ → ℕ
u8 x = x % 2 ^ 8

abbrev pub u16 : ℕ → ℕ
u16 x = x % 2 ^ 16

abbrev pub u32 : ℕ → ℕ
u32 x = x % 2 ^ 32

abbrev pub u64 : ℕ → ℕ
u64 x = x % 2 ^ 64

-- a - b on uint64_t
abbrev pub sub64 : ℕ → ℕ → ℕ
sub64 a b = (a + 2 ^ 64 - b) % 2 ^ 64

-- (uint64_t)((int64_t)-1)
abbrev pub minus_one64 : ℕ
minus_one64 = 2 ^ 64 - 1

abbrev pub IsByte : ℕ → Type 0
IsByte b = b < 256

-- `f` and `g` agree on every number below the bound.
agree : (ℕ → ℕ) → (ℕ → ℕ) → ℕ → Bool
agree f g zero = true
agree f g (suc n) = f n == g n && agree f g n

agree→eq : (f g : ℕ → ℕ) (n : ℕ) → agree f g n ≡ true → (x : ℕ) → x < n → f x ≡ g x
unfolding agree
agree→eq f g zero e x h = elim h [ ]
agree→eq f g (suc n) e x h = ground (arith, agree→eq f g n (ground arith) x)

-- The two highest bits of a byte, and the other six.
pub bit_and-top_two : (b : ℕ) → b < 256 → bit_and b 0xC0 ≡ b / 64 * 64
unfolding agree
bit_and-top_two = agree→eq _ _ 256 refl

pub bit_and-low_six : (b : ℕ) → b < 256 → bit_and b 0x3F ≡ b % 64
unfolding agree
bit_and-low_six = agree→eq _ _ 256 refl

pub bit_or-prefix_01 : (b : ℕ) → b < 64 → bit_or b 0x40 ≡ b + 64
unfolding agree
bit_or-prefix_01 = agree→eq _ _ 64 refl

pub bit_or-prefix_10 : (b : ℕ) → b < 64 → bit_or b 0x80 ≡ b + 128
unfolding agree
bit_or-prefix_10 = agree→eq _ _ 64 refl

pub bit_or-prefix_11 : (b : ℕ) → b < 64 → bit_or b 0xC0 ≡ b + 192
unfolding agree
bit_or-prefix_11 = agree→eq _ _ 64 refl

pub bit_and-top_bit : (b : ℕ) → b < 256 → bit_and b 0x80 ≡ b / 128 * 128
unfolding agree
bit_and-top_bit = agree→eq _ _ 256 refl

pub bit_and-second_bit : (b : ℕ) → b < 256 → bit_and b 0x40 ≡ b / 64 % 2 * 64
unfolding agree
bit_and-second_bit = agree→eq _ _ 256 refl

pub bit_and-low_four : (b : ℕ) → b < 256 → bit_and b 0x0F ≡ b % 16
unfolding agree
bit_and-low_four = agree→eq _ _ 256 refl
