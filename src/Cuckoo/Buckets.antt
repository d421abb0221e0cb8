-- ===== src/Cuckoo/Buckets.antt =====
-- A fingerprint is never 0, the mark of an empty slot, and its two buckets lead to each other.
use draugr_repo.Base.{
  ℕ, ◌*◌, ◌^◌, ◌%◌, ◌≤◌, ◌<◌, ◌≡◌, arith, bit_and, if◌then◌else◌, ◌==◌, Bool-cases, inl, inr,
}
use native.Mathlib.Nat.{mod-lt, one-le-pow, pow-le-pow_right}
use draugr_repo.Base.Bits.{digit-bit_and, digit_ext}
use draugr_repo.Base.Bits.Word.{bit_and_mask, bit_xor_masked}
use draugr_repo.Cuckoo.{mix32, cuckoo_fingerprint, cuckoo_hash_index, cuckoo_alt_index}

pub bit_and-bit_and : (a m : ℕ) → bit_and (bit_and a m) m ≡ bit_and a m
bit_and-bit_and a m =
    digit_ext _ _ (λ k. omega (arith, digit-bit_and (bit_and a m) m k, digit-bit_and a m k))

-- The alternate bucket of the alternate bucket of a hash's bucket is that bucket again, for every
-- fingerprint and mask.
pub alt_index-involutive :
    (hash fp mask : ℕ)
    → cuckoo_alt_index (cuckoo_alt_index (cuckoo_hash_index hash mask) fp mask) fp mask
      ≡ cuckoo_hash_index hash mask
unfolding cuckoo_alt_index cuckoo_hash_index
alt_index-involutive hash fp mask = bit_xor_masked _ (mix32 fp) mask (bit_and-bit_and _ mask)

fitted :
    (r k : ℕ)
    → 1 ≤ k
    → r < 2 ^ k
    → (1 ≤ (if r == 0 then 1 else r)) × ((if r == 0 then 1 else r) < 2 ^ k)
fitted r k low h =
    let room : 2 ^ 1 ≤ 2 ^ k = pow-le-pow_right (omega arith) low in
    elim (Bool-cases (r == 0)) [
      | inl none_left ↦ rw none_left (omega arith, omega arith)
      | inr some_left ↦ rw some_left (ground arith, h)
    ]

-- A fingerprint of 1 to 32 bits has that many bits and is not 0.
pub fingerprint-range :
    (hash fp_bits : ℕ)
    → 1 ≤ fp_bits
    → fp_bits ≤ 32
    → (1 ≤ cuckoo_fingerprint hash fp_bits) × (cuckoo_fingerprint hash fp_bits < 2 ^ fp_bits)
unfolding cuckoo_fingerprint
fingerprint-range hash fp_bits low high =
    let ones : 1 * 2 ^ fp_bits ≡ 2 ^ fp_bits = omega arith in
    let width : 2 ^ fp_bits ≤ 2 ^ 32 = pow-le-pow_right (omega arith) high in
    let below : hash % 2 ^ fp_bits < 2 ^ fp_bits =
      mod-lt hash (omega (arith, one-le-pow fp_bits 2 (omega arith))) in
    let whole : (hash % 2 ^ fp_bits) % 2 ^ 32 ≡ hash % 2 ^ fp_bits = omega arith in
    rw (ones, bit_and_mask fp_bits hash, whole) (fitted (hash % 2 ^ fp_bits) fp_bits low below)
