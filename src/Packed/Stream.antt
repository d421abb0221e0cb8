-- ===== src/Packed/Stream.antt =====
-- The table as one stream of bits, and what the parts of an access do to a word of it.
use draugr_repo.Base.{
  ℕ, ◌+◌, ◌-◌, ◌*◌, ◌/◌, ◌%◌, ◌^◌, ◌≤◌, ◌<◌, ◌≡◌, refl, ◌∙◌, arith, List, get_or, u64, bit_and,
  ◌<<<◌,
}
use native.Mathlib.Nat.{one-le-pow, mod-lt}
use draugr_repo.Base.Bits.{digit, digit-lt, digit-bit_and, digit-bit_or}
use draugr_repo.Base.Bits.Shift.{
  digit-shl_low, digit-shl_high, digit-above, lt_of_digits, digit-mod, digit-not, digit-ones,
}
use draugr_repo.Packed.{merge, ones}

-- Bit `j` of the table.
abbrev pub bit_at : List ℕ → ℕ → ℕ
bit_at table j = digit (get_or table (j / 64) 0) (j % 64)

-- Each word has 64 bits.
abbrev pub AreWords : List ℕ → Type 0
AreWords table = (i : ℕ) → get_or table i 0 < 2 ^ 64

pub bit_at-split :
    (table : List ℕ) (w c : ℕ) → c < 64 → bit_at table (w * 64 + c) ≡ digit (get_or table w 0) c
bit_at-split table w c h =
    let e : (w * 64 + c) / 64 ≡ w = omega arith in
    let r : (w * 64 + c) % 64 ≡ c = omega arith in rw (e, r) refl

one_shift : (n : ℕ) → 1 * 2 ^ n - 1 ≡ 2 ^ n - 1
one_shift n = omega arith

-- A word that is written: inside the mask the new bits, outside the old ones.
pub merge_inside :
    (word mask bits k : ℕ)
    → mask < 2 ^ 64
    → k < 64
    → digit mask k ≡ 1
    → digit (merge word mask bits) k ≡ digit bits k
unfolding merge
merge_inside word mask bits k fits small one = omega (
  arith,
  digit-bit_or (bit_and word (2 ^ 64 - 1 - mask)) bits k,
  digit-bit_and word (2 ^ 64 - 1 - mask) k,
  digit-not 64 mask k fits small,
)

pub merge_outside :
    (word mask bits k : ℕ)
    → mask < 2 ^ 64
    → k < 64
    → digit mask k ≡ 0
    → digit bits k ≡ 0
    → digit (merge word mask bits) k ≡ digit word k
unfolding merge
merge_outside word mask bits k fits small none_there no_bit = omega (
  arith,
  digit-bit_or (bit_and word (2 ^ 64 - 1 - mask)) bits k,
  digit-bit_and word (2 ^ 64 - 1 - mask) k,
  digit-not 64 mask k fits small,
  digit-lt word k,
)

pub merge-lt : (word mask bits : ℕ) → word < 2 ^ 64 → bits < 2 ^ 64 → merge word mask bits < 2 ^ 64
unfolding merge
merge-lt word mask bits p q = lt_of_digits 64 _ λ k h. omega (
  arith,
  digit-bit_or (bit_and word (2 ^ 64 - 1 - mask)) bits k,
  digit-bit_and word (2 ^ 64 - 1 - mask) k,
  digit-above 64 word k p h,
  digit-above 64 bits k q h,
)

-- `v << bo` cut to a word.
pub shifted_below : (v bo k : ℕ) → k < bo → k < 64 → digit (u64 (v <<< bo)) k ≡ 0
shifted_below v bo k h small = digit-mod 64 (v * 2 ^ bo) k small ∙ digit-shl_low v bo k h

pub shifted_from : (v bo k : ℕ) → bo + k < 64 → digit (u64 (v <<< bo)) (bo + k) ≡ digit v k
shifted_from v bo k small = digit-mod 64 (v * 2 ^ bo) (bo + k) small ∙ digit-shl_high v bo k

pub u64-lt : (x : ℕ) → u64 x < 2 ^ 64
u64-lt x = mod-lt x (omega arith)

-- The digits of the mask of an entry.
pub digit-ones_below : (n k : ℕ) → k < n → digit (ones n) k ≡ 1
digit-ones_below n k h = rw (one_shift n) (digit-ones n k h)

pub ones-lt : (n : ℕ) → ones n < 2 ^ n
ones-lt n = omega (arith, one-le-pow n 2 (omega arith))

pub digit-ones_above : (n k : ℕ) → n ≤ k → digit (ones n) k ≡ 0
digit-ones_above n k h = digit-above n (ones n) k (ones-lt n) h
