-- ===== src/Base/Bits/Word.antt =====
-- Masks, fields and single bits of a word, as arithmetic.
use mathlib.Core.Path.{◌≡◌, refl, ap}
use mathlib.Core.Logic.{◌≢◌}
use Prim.Native.Nat.{ℕ, zero, suc, ◌+◌, ◌-◌, ◌*◌, ◌/◌, ◌%◌, ◌^◌, ◌<◌}
use Prim.Native.Nat.{bit_and, bit_or, bit_xor}
use native.Mathlib.Nat.{pow-suc, one-le-pow}
use native.Mathlib.Omega.{arith}
use draugr_repo.Base.Bits.Step.{bit_and_halves, bit_or_halves}
use draugr_repo.Base.Bits.{digit, digit-lt, digit-zero, digit-bit_and, digit-bit_or, digit-bit_xor}
use draugr_repo.Base.Bits.{digit_ext}

pub bit_and-zero : (a : ℕ) → bit_and a 0 ≡ 0
bit_and-zero a = digit_ext _ _ (λ k. omega (arith, digit-bit_and a 0 k, digit-zero k))

pub bit_or-zero : (a : ℕ) → bit_or a 0 ≡ a
bit_or-zero a = digit_ext _ _ (λ k. omega (arith, digit-bit_or a 0 k, digit-zero k))

double : (q k : ℕ) → q * 2 ^ suc k ≡ 2 * (q * 2 ^ k)
double q k = omega (arith, ap (λ (t : ℕ). q * t) (pow-suc 2 k))

-- The low `k` bits, by the mask of `k` ones.
pub bit_and_low : (k q r : ℕ) → r < 2 ^ k → bit_and (q * 2 ^ k + r) (2 ^ k - 1) ≡ r
bit_and_low zero q r h = omega (arith, bit_and-zero (q * 1 + r))
bit_and_low (suc k) q r h =
    let half : (q * 2 ^ suc k + r) / 2 ≡ q * 2 ^ k + r / 2 = omega (arith, double q k) in
    let mask : (2 ^ suc k - 1) / 2 ≡ 2 ^ k - 1 = omega (arith, pow-suc 2 k, one-le-pow k 2) in
    rw (bit_and_halves, half, mask, bit_and_low k q (r / 2) (omega (arith, pow-suc 2 k)))
      (omega (arith, double q k, pow-suc 2 k, one-le-pow k 2))

pub bit_and_mask : (k a : ℕ) → bit_and a (2 ^ k - 1) ≡ a % 2 ^ k
bit_and_mask k a = grind (arith, bit_and_low k (a / 2 ^ k) (a % 2 ^ k), one-le-pow k 2)

bit_or_zero_right : (q r : ℕ) → r < 1 → bit_or (q * 1) r ≡ q * 1
bit_or_zero_right q r h = let e : r ≡ 0 = omega arith in rw e (bit_or-zero (q * 1))

-- A field of `k` bits under a shifted one.
pub bit_or_field : (k q r : ℕ) → r < 2 ^ k → bit_or (q * 2 ^ k) r ≡ q * 2 ^ k + r
bit_or_field zero q r h = rw (bit_or_zero_right q r h) (omega arith)
bit_or_field (suc k) q r h =
    let half : q * 2 ^ suc k / 2 ≡ q * 2 ^ k = omega (arith, double q k) in
    rw (bit_or_halves, half, bit_or_field k q (r / 2) (omega (arith, pow-suc 2 k)))
      (omega (arith, double q k))

-- The test `w & (1 << p)`.
pub bit_and_single : (p w : ℕ) → bit_and w (2 ^ p) ≡ digit w p * 2 ^ p
unfolding digit
bit_and_single zero w = omega (arith, bit_and_halves w 1, bit_and-zero (w / 2))
bit_and_single (suc p) w =
    let half : 2 ^ suc p / 2 ≡ 2 ^ p = omega (arith, pow-suc 2 p) in
    rw (bit_and_halves, half, bit_and_single p (w / 2))
      (omega (arith, pow-suc 2 p, double (digit (w / 2) p) p))

-- The digits of `1 << p`.
pub digit_single : (p : ℕ) → digit (2 ^ p) p ≡ 1
unfolding digit
digit_single zero = refl
digit_single (suc p) =
    let half : 2 ^ suc p / 2 ≡ 2 ^ p = omega (arith, pow-suc 2 p) in rw half (digit_single p)

pub digit_single_ne : (p k : ℕ) → p ≢ k → digit (2 ^ p) k ≡ 0
unfolding digit
digit_single_ne zero zero h = absurd (h refl)
digit_single_ne zero (suc k) h = digit-zero k
digit_single_ne (suc p) zero h = omega (arith, pow-suc 2 p)
digit_single_ne (suc p) (suc k) h =
    let half : 2 ^ suc p / 2 ≡ 2 ^ p = omega (arith, pow-suc 2 p) in
    rw half (digit_single_ne p k (λ e. h (ap suc e)))

-- `x ^ h ^ h` under a mask that keeps `x`.
pub bit_xor_masked :
    (x h m : ℕ) → bit_and x m ≡ x → bit_and (bit_xor (bit_and (bit_xor x h) m) h) m ≡ x
bit_xor_masked x h m e = digit_ext _ _ λ k. omega (
  arith,
  digit-bit_and (bit_xor (bit_and (bit_xor x h) m) h) m k,
  digit-bit_xor (bit_and (bit_xor x h) m) h k,
  digit-bit_and (bit_xor x h) m k,
  digit-bit_xor x h k,
  digit-bit_and x m k,
  ap (λ (t : ℕ). digit t k) e,
  digit-lt x k,
  digit-lt h k,
  digit-lt m k,
)
