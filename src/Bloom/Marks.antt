-- ===== src/Bloom/Marks.antt =====
-- The bit array of the Bloom filter: which bits a write sets, and which it leaves.
use draugr_repo.Base.{
  ℕ, zero, suc, ◌-◌, ◌*◌, ◌/◌, ◌%◌, ◌^◌, ◌≤◌, ◌<◌, ◌≡◌, ◌≢◌, refl, sym, ap, ◌∙◌, arith, not, List,
  ◌==◌, bit_or,
}
use draugr_repo.Base.{length, get_or, set, replicate, get_or-set_self, get_or-set_ne, length-set}
use draugr_repo.Base.{get_or-replicate, Bool-cases, ==_iff, ==_false, inl, inr}
use draugr_repo.Base.Bits.{digit, digit-lt, digit-zero, digit-bit_or}
use draugr_repo.Base.Bits.Word.{bit_and_single, digit_single, digit_single_ne}
use native.Mathlib.Nat.{one-le-pow}
use draugr_repo.Bloom.{set_bit, get_bit, num_words}

-- The bit of position `pos`, as a digit of its word.
abbrev pub bit_of : List ℕ → ℕ → ℕ
bit_of bits pos = digit (get_or bits (pos / 64) 0) (pos % 64)

product_test : (b p : ℕ) → b < 2 → 1 ≤ p → not (b * p == 0) ≡ (b == 1)
product_test zero p h e = let none_left : 0 * p ≡ 0 = omega arith in rw none_left refl
product_test (suc zero) p h e = let one_of : 1 * p ≡ p = omega arith in rw one_of (ground arith)
product_test (suc (suc b)) p h e = absurd (omega arith)

pub get_bit-bit_of : (bits : List ℕ) (pos : ℕ) → get_bit bits pos ≡ (bit_of bits pos == 1)
unfolding get_bit
get_bit-bit_of bits pos =
    let w = get_or bits (pos / 64) 0 in
    let e : 1 * 2 ^ (pos % 64) ≡ 2 ^ (pos % 64) = omega arith in
    rw (e, bit_and_single (pos % 64) w)
      (product_test (digit w (pos % 64)) (2 ^ (pos % 64)) (digit-lt w (pos % 64))
        (one-le-pow (pos % 64) 2 (omega arith)))

-- A write sets the bit of its position.
pub set_bit_self :
    (bits : List ℕ) (pos : ℕ) → pos / 64 < length bits → bit_of (set_bit bits pos) pos ≡ 1
unfolding set_bit
set_bit_self bits pos h =
    let w = get_or bits (pos / 64) 0 in
    let e : 1 * 2 ^ (pos % 64) ≡ 2 ^ (pos % 64) = omega arith in
    rw
      (
        get_or-set_self bits (pos / 64) (bit_or w (1 * 2 ^ (pos % 64))) 0 h,
        e,
        digit-bit_or w (2 ^ (pos % 64)) (pos % 64),
        digit_single (pos % 64),
      )
      (omega (arith, digit-lt w (pos % 64)))

same_word :
    (bits : List ℕ) (pos q : ℕ) (word : ℕ)
    → pos / 64 ≡ q / 64
    → pos / 64 < length bits
    → bit_of (set bits (pos / 64) word) q ≡ digit word (q % 64)
same_word bits pos q word e h =
    rw (sym e) (ap (λ (w : ℕ). digit w (q % 64)) (get_or-set_self bits (pos / 64) word 0 h))

-- A write leaves the bits of the other positions.
pub set_bit_ne :
    (bits : List ℕ) (pos q : ℕ)
    → pos / 64 < length bits
    → pos ≢ q
    → bit_of (set_bit bits pos) q ≡ bit_of bits q
unfolding set_bit
set_bit_ne bits pos q h ne = elim (Bool-cases (pos / 64 == q / 64)) [
  | inl same ↦
      let e : pos / 64 ≡ q / 64 = (==_iff (pos / 64) (q / 64)).0 same in
      let w = get_or bits (pos / 64) 0 in
      let one_of : 1 * 2 ^ (pos % 64) ≡ 2 ^ (pos % 64) = omega arith in
      let apart : pos % 64 ≢ q % 64 = λ r. ne (omega arith) in
      same_word bits pos q (bit_or w (1 * 2 ^ (pos % 64))) e h
      ∙ rw
          (
            one_of,
            digit-bit_or w (2 ^ (pos % 64)) (q % 64),
            digit_single_ne (pos % 64) (q % 64) apart,
          )
          (omega (arith, ap (λ (k : ℕ). digit (get_or bits k 0) (q % 64)) e))
  | inr other ↦
      ap (λ (w : ℕ). digit w (q % 64))
        (get_or-set_ne bits (pos / 64) (q / 64)
          (bit_or (get_or bits (pos / 64) 0) (1 * 2 ^ (pos % 64))) 0
          (==_false (pos / 64) (q / 64) other))
]

pub length-set_bit : (bits : List ℕ) (pos : ℕ) → length (set_bit bits pos) ≡ length bits
unfolding set_bit
length-set_bit bits pos =
    length-set bits (pos / 64) (bit_or (get_or bits (pos / 64) 0) (1 * 2 ^ (pos % 64)))

-- The array of a fresh filter has no bit set.
pub bit_of-replicate : (n pos : ℕ) → bit_of (replicate n 0) pos ≡ 0
bit_of-replicate n pos =
    ap (λ (w : ℕ). digit w (pos % 64)) (get_or-replicate n (pos / 64) 0) ∙ digit-zero (pos % 64)

-- A position below the number of bits has its word in an array of enough words.
pub word-lt : (m pos words : ℕ) → pos < m → m ≤ 64 * words → pos / 64 < words
word-lt m pos words h covered = omega arith

-- The number of words is enough where the sum for it does not wrap.
pub num_words-enough : (m : ℕ) → m ≤ 2 ^ 64 - 64 → m ≤ 64 * num_words m
unfolding num_words
num_words-enough m small = omega arith
