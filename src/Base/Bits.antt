-- ===== src/Base/Bits.antt =====
-- The binary digits of a number, and the bit operations of C by their digits.
mod Step
pub mod Word
pub mod Shift
use mathlib.Core.Path.{◌≡◌, refl}
use Prim.Native.Nat.{ℕ, zero, suc, ◌+◌, ◌*◌, ◌/◌, ◌%◌, ◌≤◌, ◌<◌, min, max, differ}
use Prim.Native.Nat.{bit_and, bit_or, bit_xor}
use native.Mathlib.Omega.{arith}
use Step.{bit_and_halves, bit_or_halves, bit_xor_halves}

-- The digit at place `k`, counted from the lowest.
unfoldable pub digit : ℕ → ℕ → ℕ
digit n zero = n % 2
digit n (suc k) = digit (n / 2) k

pub digit-lt : (n k : ℕ) → digit n k < 2
unfolding digit
digit-lt n zero = omega arith
digit-lt n (suc k) = digit-lt (n / 2) k

pub digit-zero : (k : ℕ) → digit 0 k ≡ 0
unfolding digit
digit-zero zero = refl
digit-zero (suc k) = digit-zero k

pub digit-bit_and : (a b k : ℕ) → digit (bit_and a b) k ≡ min (digit a k) (digit b k)
unfolding digit
digit-bit_and a b zero = omega (arith, bit_and_halves a b)
digit-bit_and a b (suc k) =
    let e : bit_and a b / 2 ≡ bit_and (a / 2) (b / 2) = omega (arith, bit_and_halves a b) in
    rw e (digit-bit_and (a / 2) (b / 2) k)

pub digit-bit_or : (a b k : ℕ) → digit (bit_or a b) k ≡ max (digit a k) (digit b k)
unfolding digit
digit-bit_or a b zero = omega (arith, bit_or_halves a b)
digit-bit_or a b (suc k) =
    let e : bit_or a b / 2 ≡ bit_or (a / 2) (b / 2) = omega (arith, bit_or_halves a b) in
    rw e (digit-bit_or (a / 2) (b / 2) k)

-- `differ` on two digits, where it is addition without carry.
pub differ_digits : (x y : ℕ) → x < 2 → y < 2 → differ x y ≡ (x + y) % 2
differ_digits zero y p q = omega arith
differ_digits (suc x) zero p q = omega arith
differ_digits (suc zero) (suc zero) p q = refl
differ_digits (suc (suc x)) (suc y) p q = absurd (omega arith)
differ_digits (suc zero) (suc (suc y)) p q = absurd (omega arith)

xor_halves : (a b : ℕ) → bit_xor a b ≡ bit_xor (a / 2) (b / 2) * 2 + (a % 2 + b % 2) % 2
xor_halves a b =
    omega (arith, bit_xor_halves a b, differ_digits (a % 2) (b % 2) (omega arith) (omega arith))

pub digit-bit_xor : (a b k : ℕ) → digit (bit_xor a b) k ≡ (digit a k + digit b k) % 2
unfolding digit
digit-bit_xor a b zero = omega (arith, xor_halves a b)
digit-bit_xor a b (suc k) =
    let e : bit_xor a b / 2 ≡ bit_xor (a / 2) (b / 2) = omega (arith, xor_halves a b) in
    rw e (digit-bit_xor (a / 2) (b / 2) k)

digit_ext_below : (n a b : ℕ) → a ≤ n → b ≤ n → ((k : ℕ) → digit a k ≡ digit b k) → a ≡ b
unfolding digit
digit_ext_below zero a b p q h = omega arith
digit_ext_below (suc n) a b p q h =
    omega
      (arith, h 0, digit_ext_below n (a / 2) (b / 2) (omega arith) (omega arith) (λ k. h (suc k)))

-- Numbers with the same digits are equal.
pub digit_ext : (a b : ℕ) → ((k : ℕ) → digit a k ≡ digit b k) → a ≡ b
digit_ext a b h = digit_ext_below (max a b) a b (omega arith) (omega arith) h
