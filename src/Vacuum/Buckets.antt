-- ===== src/Vacuum/Buckets.antt =====
-- The two buckets of a fingerprint lie in the table, differ and lead to each other.
use draugr_repo.Base.{
  ℕ, suc, ◌+◌, ◌-◌, ◌*◌, ◌/◌, ◌%◌, ◌^◌, ◌≤◌, ◌<◌, ◌≡◌, ◌≢◌, refl, sym, ap, ◌∙◌, arith, true, false,
  Bool-cases, inl, inr, List, get_or, leb, bit_xor,
}
use native.Mathlib.Nat.{
  mod-lt, div-add-mod', mul-le-mul_right, pow-le-pow_right, mul-add-div_right, div-eq_of_lt,
}
use draugr_repo.Base.Bits.{digit, digit-lt, digit_ext, digit-bit_xor, digit-zero}
use draugr_repo.Base.Bits.Shift.{bit_xor-lt}
use draugr_repo.Cuckoo.{mix32}
use draugr_repo.Vacuum.{Vacuum, num_ar, vacuum_hash_index, vacuum_alt_index}

-- The alternate range of a fingerprint is a power of two of at least 2, and the table has whole
-- ranges.
pub record IsRange (ar : List ℕ) (num_buckets fp : ℕ) : Type 0 where
  pub log : ℕ
  pub some_log : 1 ≤ log
  pub power : get_or ar (fp % num_ar) 0 ≡ 2 ^ log
  pub chunks : ℕ
  pub whole : num_buckets ≡ chunks * 2 ^ log

leb-le : (a b : ℕ) → leb a b ≡ true → a ≤ b
leb-le a b h = ground arith

xor_twice : (a d : ℕ) → bit_xor (bit_xor a d) d ≡ a
xor_twice a d = digit_ext _ _ λ k.
    omega (arith, digit-bit_xor (bit_xor a d) d k, digit-bit_xor a d k, digit-lt a k, digit-lt d k)

-- A number that does not change another is 0.
xor_same : (a d : ℕ) → bit_xor a d ≡ a → d ≡ 0
xor_same a d e = digit_ext d 0 λ k. omega (
  arith,
  digit-bit_xor a d k,
  ap (λ (t : ℕ). digit t k) e,
  digit-lt a k,
  digit-lt d k,
  digit-zero k,
)

-- The first bucket of a hash of 64 bits lies in a table of fewer than 2 ^ 32 buckets, which is not
-- empty.
pub vacuum_hash_index-lt :
    (hash num_buckets : ℕ)
    → hash < 2 ^ 64
    → 1 ≤ num_buckets
    → num_buckets < 2 ^ 32
    → vacuum_hash_index hash num_buckets < num_buckets
unfolding vacuum_hash_index
vacuum_hash_index-lt hash nb small some_bucket few =
    let high = hash / 2 ^ 32 in
    let below : suc high * nb ≤ 2 ^ 32 * nb =
      mul-le-mul_right nb (let z : suc high ≤ 2 ^ 32 = omega arith in z) in
    omega arith

module _ (vf : Vacuum) (fp : ℕ) (r : IsRange vf.ar vf.num_buckets fp) where
  abbrev l : ℕ
  l = 2 ^ r.log

  abbrev delta : ℕ
  delta = mix32 fp % (l - 1) + 1

  l-ge : 2 ≤ l
  l-ge = let wide : 2 ^ 1 ≤ 2 ^ r.log = pow-le-pow_right (omega arith) r.some_log in omega arith

  delta-lt : delta < l
  delta-lt =
      let some_range : 1 ≤ l - 1 = omega (arith, l-ge) in
      omega (arith, l-ge, mod-lt (mix32 fp) some_range)

  -- The alternate bucket, by the chunk and the place in it.
  alt_by_chunk : (b : ℕ) → vacuum_alt_index vf b fp ≡ b / l * l + bit_xor (b % l) delta
  unfolding vacuum_alt_index
  alt_by_chunk b =
      let wide : leb l 1 ≡ false = ground (arith, l-ge) in
      let place : b - b / l * l ≡ b % l = omega (arith, div-add-mod' b l) in
      rw (r.power, wide, place) refl

  place-lt : (b : ℕ) → bit_xor (b % l) delta < l
  place-lt b = bit_xor-lt r.log (b % l) delta (mod-lt b (omega (arith, l-ge))) delta-lt

  chunk_of : (q s : ℕ) → s < l → (q * l + s) / l ≡ q
  chunk_of q s h =
      omega
        (arith, mul-add-div_right {m = l} (omega (arith, l-ge)) q s, div-eq_of_lt {n = s} {m = l} h)

  place_of : (q s : ℕ) → s < l → (q * l + s) % l ≡ s
  place_of q s h =
      let e : (q * l + s) / l * l ≡ q * l = ap (λ (c : ℕ). c * l) (chunk_of q s h) in
      omega (arith, div-add-mod' (q * l + s) l)

  -- Where the range of a fingerprint is a power of two of at least 2 and the table has whole ranges,
  -- the alternate bucket of a bucket of the table is another bucket of the table, and its alternate
  -- bucket is the first one again.
  pub vacuum_alt_index-twin :
      (b : ℕ)
      → b < vf.num_buckets
      → (vacuum_alt_index vf b fp < vf.num_buckets)
        × (vacuum_alt_index vf b fp ≢ b)
        × (vacuum_alt_index vf (vacuum_alt_index vf b fp) fp ≡ b)
  vacuum_alt_index-twin b inside =
      let q = b / l in
      let s = bit_xor (b % l) delta in
      let alt : vacuum_alt_index vf b fp ≡ q * l + s = alt_by_chunk b in
      let split : q * l + b % l ≡ b = div-add-mod' b l in
      let chunk_in : q < r.chunks = elim (Bool-cases (leb r.chunks q)) [
        | inl beyond ↦
            let over : r.chunks * l ≤ q * l = mul-le-mul_right l (leb-le r.chunks q beyond) in
            absurd (omega (arith, over, split, r.whole))
        | inr fine ↦ ground (arith, fine)
      ] in
      let next : suc q * l ≤ r.chunks * l = mul-le-mul_right l chunk_in in
      (
        omega (arith, alt, place-lt b, next, r.whole),
        λ same.
            let kept : s ≡ b % l = omega (arith, sym alt ∙ same, split) in
            omega (arith, xor_same (b % l) delta kept),
        alt_by_chunk (vacuum_alt_index vf b fp)
            ∙ ap (λ (c : ℕ). c / l * l + bit_xor (c % l) delta) alt
            ∙ rw (chunk_of q s (place-lt b), place_of q s (place-lt b), xor_twice (b % l) delta)
                split,
      )
