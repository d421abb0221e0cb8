-- ===== src/Base/Bits/Shift.antt =====
-- Shifts, casts and complements of a word, by their digits.
use mathlib.Core.Path.{◌≡◌, sym, ap, ◌∙◌}
use Prim.Native.Nat.{bit_xor, ℕ, zero, suc, ◌+◌, ◌-◌, ◌*◌, ◌/◌, ◌%◌, ◌^◌, ◌≤◌, ◌<◌}
use native.Mathlib.Nat.{pow-suc, pow-succ', one-le-pow, div-div-eq-div-mul, div-add-mod'}
use native.Mathlib.Omega.{arith}
use draugr_repo.Base.Bits.{digit, digit-zero, digit_ext, digit-bit_xor}

double : (q k : ℕ) → q * 2 ^ suc k ≡ 2 * (q * 2 ^ k)
double q k = omega (arith, ap (λ (t : ℕ). q * t) (pow-suc 2 k))

half_shift : (x b : ℕ) → x / 2 ^ suc b ≡ x / 2 / 2 ^ b
half_shift x b = ap (λ (d : ℕ). x / d) (pow-succ' 2 b) ∙ sym (div-div-eq-div-mul x 2 (2 ^ b))

pub digit-shr : (x b k : ℕ) → digit (x / 2 ^ b) k ≡ digit x (b + k)
unfolding digit
digit-shr x zero k =
    let e : x / 1 ≡ x = omega arith in rw e (ap (digit x) (let z : k ≡ 0 + k = omega arith in z))
digit-shr x (suc b) k =
    let z : suc b + k ≡ suc (b + k) = omega arith in rw (half_shift x b, z) (digit-shr (x / 2) b k)

pub digit-shl_low : (x b k : ℕ) → k < b → digit (x * 2 ^ b) k ≡ 0
unfolding digit
digit-shl_low x zero k h = absurd (omega arith)
digit-shl_low x (suc b) zero h = omega (arith, double x b)
digit-shl_low x (suc b) (suc k) h =
    let e : x * 2 ^ suc b / 2 ≡ x * 2 ^ b = omega (arith, double x b) in
    rw e (digit-shl_low x b k (omega arith))

pub digit-shl_high : (x b k : ℕ) → digit (x * 2 ^ b) (b + k) ≡ digit x k
unfolding digit
digit-shl_high x zero k =
    let e : x * 1 ≡ x = omega arith in rw e (ap (digit x) (let z : 0 + k ≡ k = omega arith in z))
digit-shl_high x (suc b) k =
    let e : x * 2 ^ suc b / 2 ≡ x * 2 ^ b = omega (arith, double x b) in
    let z : suc b + k ≡ suc (b + k) = omega arith in
    ap (digit (x * 2 ^ suc b)) z ∙ ap (λ (t : ℕ). digit t (b + k)) e ∙ digit-shl_high x b k

-- A number of `w` bits has no digits from place `w` on.
pub digit-above : (w x k : ℕ) → x < 2 ^ w → w ≤ k → digit x k ≡ 0
unfolding digit
digit-above zero x k h p = let e : x ≡ 0 = omega arith in rw e (digit-zero k)
digit-above (suc w) x zero h p = absurd (omega arith)
digit-above (suc w) x (suc k) h p =
    digit-above w (x / 2) k (omega (arith, pow-suc 2 w)) (omega arith)

pub lt_of_digits : (w x : ℕ) → ((k : ℕ) → w ≤ k → digit x k ≡ 0) → x < 2 ^ w
unfolding digit
lt_of_digits zero x h =
    let e : x ≡ 0 = digit_ext x 0 (λ k. h k (omega arith) ∙ sym (digit-zero k)) in omega arith
lt_of_digits (suc w) x h =
    omega (arith, pow-suc 2 w, lt_of_digits w (x / 2) (λ k p. h (suc k) (omega arith)))

half_mod : (x w : ℕ) → x % 2 ^ suc w ≡ 2 * (x / 2 % 2 ^ w) + x % 2
half_mod x w =
    let q = x / 2 / 2 ^ w in
    let whole : q * 2 ^ suc w + x % 2 ^ suc w ≡ x =
      rw (← half_shift x w) (div-add-mod' x (2 ^ suc w)) in
    omega (arith, whole, double q w, div-add-mod' (x / 2) (2 ^ w))

pub digit-mod : (w x k : ℕ) → k < w → digit (x % 2 ^ w) k ≡ digit x k
unfolding digit
digit-mod zero x k h = absurd (omega arith)
digit-mod (suc w) x zero h = omega (arith, half_mod x w)
digit-mod (suc w) x (suc k) h =
    let e : x % 2 ^ suc w / 2 ≡ x / 2 % 2 ^ w = omega (arith, half_mod x w) in
    rw e (digit-mod w (x / 2) k (omega arith))

-- The complement of a word of `w` bits.
pub digit-not : (w x k : ℕ) → x < 2 ^ w → k < w → digit (2 ^ w - 1 - x) k + digit x k ≡ 1
unfolding digit
digit-not zero x k h p = absurd (omega arith)
digit-not (suc w) x zero h p = omega (arith, pow-suc 2 w)
digit-not (suc w) x (suc k) h p =
    let e : (2 ^ suc w - 1 - x) / 2 ≡ 2 ^ w - 1 - x / 2 = omega (arith, pow-suc 2 w) in
    rw e (digit-not w (x / 2) k (omega (arith, pow-suc 2 w)) (omega arith))

-- The mask of `w` ones.
pub digit-ones : (w k : ℕ) → k < w → digit (2 ^ w - 1) k ≡ 1
digit-ones w k h =
    let e : 2 ^ w - 1 - 0 ≡ 2 ^ w - 1 = omega arith in
    omega (
      arith,
      ap (λ (x : ℕ). digit x k) e,
      digit-not w 0 k (one-le-pow w 2 (omega arith)) h,
      digit-zero k,
    )

-- Numbers of `w` bits have an exclusive or of `w` bits.
pub bit_xor-lt : (w a b : ℕ) → a < 2 ^ w → b < 2 ^ w → bit_xor a b < 2 ^ w
bit_xor-lt w a b p q =
    lt_of_digits w _
      λ k h. omega (arith, digit-bit_xor a b k, digit-above w a k p h, digit-above w b k q h)
