-- ===== src/Packed/Bucket.antt =====
-- Slots of buckets, and the fingerprints that belong to one of two buckets.
use draugr_repo.Base.{
  ℕ, ◌+◌, ◌*◌, ◌^◌, ◌≤◌, ◌<◌, ◌≡◌, refl, sym, ap, ◌∙◌, subst, arith, Bool, true, Bool-cases, inl,
  inr, ◌==◌, ==_iff, ◌||◌, List,
}
use draugr_repo.Packed.{get_entry, put_entry}
use draugr_repo.Packed.Tally.{IsTable, tally, tally-put, place-bucket, place-lt}
use draugr_repo.Packed.Search.{member}

-- A slot of a bucket and a new value for it.
module _ (eps fp_bits bs nb n : ℕ) (table : List ℕ) (t : IsTable eps fp_bits n table)
    (entries : n ≡ nb * bs) (b s x : ℕ) (in_table : b < nb) (in_bucket : s < bs)
    (small : x < 2 ^ fp_bits) where
  pub slot-lt : b * bs + s < n
  slot-lt = omega (arith, entries, place-lt 0 0 0 bs nb b s in_bucket in_table)

  -- The value replaces what the slot held in the sum over the bucket.
  pub slot-tally :
      (f : ℕ → ℕ → ℕ)
      → tally eps fp_bits bs f (put_entry eps fp_bits table (b * bs + s) x) n
          + f b (get_entry eps fp_bits table (b * bs + s))
        ≡ tally eps fp_bits bs f table n + f b x
  slot-tally f =
      subst
        (λ k.
          tally eps fp_bits bs f (put_entry eps fp_bits table (b * bs + s) x) n
            + f k (get_entry eps fp_bits table (b * bs + s))
          ≡ tally eps fp_bits bs f table n + f k x)
        (place-bucket 0 0 0 bs b s in_bucket)
        (tally-put eps fp_bits n table t (b * bs + s) x slot-lt small bs f n slot-lt)

-- A fingerprint, its first bucket, and the map to the other bucket of a fingerprint.
module _ (alt : ℕ → ℕ → ℕ) (nb fp i1 : ℕ) (some_fp : 1 ≤ fp) (in_table : i1 < nb)
    (back : (b : ℕ) → b < nb → alt (alt b fp) fp ≡ b) where
  -- Whether an entry is the fingerprint in one of its two buckets.
  abbrev pub of_pair : ℕ → ℕ → ℕ
  of_pair = member i1 (alt i1 fp) fp

  abbrev in_either : ℕ → Bool
  in_either b = b == i1 || b == alt i1 fp

  other_bucket : (b : ℕ) → in_either b ≡ true → in_either (alt b fp) ≡ true
  other_bucket b h = elim (Bool-cases (b == i1)) [
    | inl first ↦
        let e : alt b fp ≡ alt i1 fp = ap (λ k. alt k fp) ((==_iff _ _).0 first) in
        ground (arith, e)
    | inr not_first ↦
        let second : b ≡ alt i1 fp = ground (arith, h, not_first) in
        let e : alt b fp ≡ i1 = ap (λ k. alt k fp) second ∙ back i1 in_table in ground (arith, e)
  ]

  of_pair-fp : (b : ℕ) → b < nb → of_pair (alt b fp) fp ≡ of_pair b fp
  of_pair-fp b inside = elim (Bool-cases (in_either b)) [
    | inl one_of ↦ rw (one_of, other_bucket b one_of) refl
    | inr none_of ↦ elim (Bool-cases (in_either (alt b fp))) [
      | inr none_of_alt ↦ rw (none_of, none_of_alt) refl
      | inl one_of_alt ↦
          let again : in_either b ≡ true =
            subst (λ k. in_either k ≡ true) (back b inside) (other_bucket (alt b fp) one_of_alt) in
          ground (arith, again, none_of)
    ]
  ]

  -- It does not tell the two buckets of any fingerprint apart.
  pub of_pair-twin : (b x : ℕ) → b < nb → of_pair (alt b x) x ≡ of_pair b x
  of_pair-twin b x inside = elim (Bool-cases (x == fp)) [
    | inl same ↦
        subst (λ y. of_pair (alt b y) y ≡ of_pair b y) (sym ((==_iff _ _).0 same))
          (of_pair-fp b inside)
    | inr other ↦ rw other refl
  ]

  pub of_pair-empty : (b : ℕ) → of_pair b 0 ≡ 0
  of_pair-empty b = ground (arith, some_fp)

  pub of_pair_self : of_pair i1 fp ≡ 1
  of_pair_self = ground arith
