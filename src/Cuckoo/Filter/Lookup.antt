-- ===== src/Cuckoo/Filter/Lookup.antt =====
-- `cuckoo_filter_lookup`: no false negatives.
use draugr_repo.Base.{
  ℕ, ◌+◌, ◌≤◌, ◌<◌, ◌≡◌, ◌⊎◌, sym, ap, ◌∙◌, arith, true, false, not, inl, inr, ◌==◌, subst, List,
  u32,
}
use draugr_repo.Packed.Search.{member, either-contents}
use draugr_repo.Packed.Tally.{tally}
use draugr_repo.Packed.Bucket.{of_pair-twin, of_pair-empty, of_pair_self}
use draugr_repo.Cuckoo.{cuckoo_alt_index}
use draugr_repo.Cuckoo.Buckets.{fingerprint-range}
use draugr_repo.Cuckoo.Filter.{
  Cuckoo, CuckooErr, find_fingerprint, cuckoo_filter_insert, cuckoo_filter_lookup,
}
use draugr_repo.Cuckoo.Filter.Valid.{IsValid, weigh, IsMeasure, alt_back}
use draugr_repo.Cuckoo.Filter.Evict.{Ended}
use draugr_repo.Cuckoo.Filter.Insert.{
  fp_of, first_of, second_of, first-lt, second-lt, cuckoo_filter_insert-Ended,
}

module _ (cf : Cuckoo) (v : IsValid cf) (hash : ℕ) where
  -- Whether an entry is one of the hash.
  abbrev pub of_hash : ℕ → ℕ → ℕ
  of_hash = member (first_of cf v hash) (second_of cf v hash) (fp_of cf v hash)

  -- A lookup says whether an entry of one of the two buckets of the hash has its fingerprint.
  pub cuckoo_filter_lookup-weigh : cuckoo_filter_lookup cf hash ≡ not (weigh of_hash cf == 0)
  unfolding cuckoo_filter_lookup find_fingerprint
  cuckoo_filter_lookup-weigh =
      subst
        (λ n.
          cuckoo_filter_lookup cf hash
          ≡ not
              (tally cf.entries_per_set cf.fingerprint_bits cf.bucket_size of_hash cf.table n == 0))
        (sym v.entries)
        (either-contents cf.entries_per_set cf.fingerprint_bits cf.table cf.bucket_size
          cf.num_buckets (first_of cf v hash) (second_of cf v hash) (fp_of cf v hash) v.some_slot
          (first-lt cf v hash) (second-lt cf v hash))

  abbrev alt : ℕ → ℕ → ℕ
  alt b x = cuckoo_alt_index b x cf.bucket_mask

  some_fp : 1 ≤ fp_of cf v hash
  some_fp = (fingerprint-range hash cf.fingerprint_bits v.holds.low v.holds.high).0

  back : (b : ℕ) → b < cf.num_buckets → alt (alt b (fp_of cf v hash)) (fp_of cf v hash) ≡ b
  back b inside = alt_back cf v b (fp_of cf v hash) inside

  pub of_hash-IsMeasure : IsMeasure cf of_hash
  of_hash-IsMeasure = record {
    empty =
        of_pair-empty alt cf.num_buckets (fp_of cf v hash) (first_of cf v hash) some_fp
          (first-lt cf v hash) back;
    twin =
        of_pair-twin alt cf.num_buckets (fp_of cf v hash) (first_of cf v hash) some_fp
          (first-lt cf v hash) back;
  }

  -- The fingerprint of the hash counts as one of it.
  of_hash_self : of_hash (first_of cf v hash) (fp_of cf v hash) ≡ 1
  of_hash_self =
      of_pair_self alt cf.num_buckets (fp_of cf v hash) (first_of cf v hash) some_fp
        (first-lt cf v hash) back

-- Whether a lookup finds a hash after the contents of the filter have changed.
found_by_weight :
    (cf : Cuckoo) (v : IsValid cf) (hash count : ℕ) (table : List ℕ)
    → IsValid (record cf { table = table; count = count })
    → 1 ≤ weigh (of_hash cf v hash) (record cf { table = table; count = count })
    → cuckoo_filter_lookup (record cf { table = table; count = count }) hash ≡ true
found_by_weight cf v hash count table v' h =
    let some_there : (weigh (of_hash cf v hash) (record cf { table = table; count = count }) == 0)
        ≡ false =
      ground (arith, h) in
    cuckoo_filter_lookup-weigh (record cf { table = table; count = count }) v' hash
    ∙ ap not some_there

gained_by_insert :
    (cf : Cuckoo) (v : IsValid cf) (hash other : ℕ)
    → (other ≡ hash) ⊎ (cuckoo_filter_lookup cf other ≡ true)
    → 1 ≤ weigh (of_hash cf v other) cf + of_hash cf v other (first_of cf v hash) (fp_of cf v hash)
gained_by_insert cf v hash other (inl same) =
    let one_of : of_hash cf v other (first_of cf v hash) (fp_of cf v hash) ≡ 1 =
      subst (λ h. of_hash cf v other (first_of cf v h) (fp_of cf v h) ≡ 1) same
        (of_hash_self cf v other) in
    omega (arith, one_of)
gained_by_insert cf v hash other (inr found) =
    let there : not (weigh (of_hash cf v other) cf == 0) ≡ true =
      sym (cuckoo_filter_lookup-weigh cf v other) ∙ found in
    ground (arith, there)

-- After an insertion into a valid filter that succeeds, a lookup finds the hash, and every hash
-- that it found before.
pub lookup-insert :
    (cf : Cuckoo) (v : IsValid cf) (hash other : ℕ) (cf' : Cuckoo)
    → cuckoo_filter_insert cf hash ≡ (CuckooErr.cuckoo_ok, cf')
    → (other ≡ hash) ⊎ (cuckoo_filter_lookup cf other ≡ true)
    → cuckoo_filter_lookup cf' other ≡ true
lookup-insert cf v hash other cf' stored which =
    let f = of_hash cf v other in
    let m = of_hash-IsMeasure cf v other in
    let (v', sum, shape) =
      subst (Ended cf v f m (weigh f cf + f (first_of cf v hash) (fp_of cf v hash)) cf.table) stored
        (cuckoo_filter_insert-Ended cf v hash f m) in
    let here : 1 ≤ weigh f cf' = omega (arith, sum, gained_by_insert cf v hash other which) in
    let count = u32 (cf.count + 1) in
    subst (λ c. cuckoo_filter_lookup c other ≡ true) (sym shape)
      (found_by_weight cf v other count cf'.table (subst IsValid shape v')
        (subst (λ c. 1 ≤ weigh f c) shape here))
