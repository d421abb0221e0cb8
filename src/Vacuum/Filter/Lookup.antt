-- ===== src/Vacuum/Filter/Lookup.antt =====
-- `vacuum_filter_lookup`: no false negatives.
use draugr_repo.Base.{
  ℕ, ◌+◌, ◌^◌, ◌≤◌, ◌<◌, ◌≡◌, ◌⊎◌, sym, ap, ◌∙◌, arith, true, false, not, inl, inr, ◌==◌, subst,
  List, u32,
}
use draugr_repo.Packed.Search.{member, either-contents}
use draugr_repo.Packed.Tally.{tally}
use draugr_repo.Packed.Bucket.{of_pair-twin, of_pair-empty, of_pair_self}
use draugr_repo.Vacuum.{Vacuum, vacuum_fingerprint, vacuum_hash_index, vacuum_alt_index}
use draugr_repo.Vacuum.Filter.{
  VacuumErr, find_in_bucket, vacuum_filter_insert, vacuum_filter_lookup,
}
use draugr_repo.Vacuum.Filter.Valid.{IsValid, weigh, IsMeasure, alt_back}
use draugr_repo.Vacuum.Filter.Moves.{Ended}
use draugr_repo.Vacuum.Filter.Insert.{
  fp_of, first_of, second_of, fp_bounds, first-lt, second-lt, vacuum_filter_insert-Ended,
}

module _ (vf : Vacuum) (v : IsValid vf) (hash : ℕ) (word : hash < 2 ^ 64) where
  abbrev fp : ℕ
  fp = fp_of vf v hash word

  abbrev i1 : ℕ
  i1 = first_of vf v hash word

  back : (b : ℕ) → b < vf.num_buckets → vacuum_alt_index vf (vacuum_alt_index vf b fp) fp ≡ b
  back b inside = alt_back vf v b fp inside

  -- Whether an entry is one of the hash.
  abbrev pub of_hash : ℕ → ℕ → ℕ
  of_hash = member i1 (second_of vf v hash word) fp

  -- A lookup says whether an entry of one of the two buckets of the hash has its fingerprint.
  pub vacuum_filter_lookup-weigh : vacuum_filter_lookup vf hash ≡ not (weigh of_hash vf == 0)
  unfolding vacuum_filter_lookup find_in_bucket
  vacuum_filter_lookup-weigh =
      subst
        (λ n.
          vacuum_filter_lookup vf hash
          ≡ not
              (tally vf.entries_per_set vf.fingerprint_bits vf.bucket_size of_hash vf.table n == 0))
        (sym v.entries)
        (either-contents vf.entries_per_set vf.fingerprint_bits vf.table vf.bucket_size
          vf.num_buckets i1 (second_of vf v hash word) fp v.some_slot (first-lt vf v hash word)
          (second-lt vf v hash word))

  pub of_hash-IsMeasure : IsMeasure vf of_hash
  of_hash-IsMeasure = record {
    empty =
        of_pair-empty (vacuum_alt_index vf) vf.num_buckets fp i1 (fp_bounds vf v hash word).0
          (first-lt vf v hash word) back;
    twin =
        of_pair-twin (vacuum_alt_index vf) vf.num_buckets fp i1 (fp_bounds vf v hash word).0
          (first-lt vf v hash word) back;
  }

  of_hash_self : of_hash i1 fp ≡ 1
  of_hash_self =
      of_pair_self (vacuum_alt_index vf) vf.num_buckets fp i1 (fp_bounds vf v hash word).0
        (first-lt vf v hash word) back

-- A lookup finds a hash where the contents, which may have changed, have an entry of it.
found_by_weight :
    (vf : Vacuum) (v : IsValid vf) (hash : ℕ) (word : hash < 2 ^ 64) (count : ℕ) (table : List ℕ)
    → IsValid (record vf { table = table; count = count })
    → 1 ≤ weigh (of_hash vf v hash word) (record vf { table = table; count = count })
    → vacuum_filter_lookup (record vf { table = table; count = count }) hash ≡ true
unfolding vacuum_alt_index
found_by_weight vf v hash word count table v' h =
    let vf' = record vf { table = table; count = count } in
    let some_there : (weigh (of_hash vf v hash word) vf' == 0) ≡ false = ground (arith, h) in
    vacuum_filter_lookup-weigh vf' v' hash word ∙ ap not some_there

gained_by_insert :
    (vf : Vacuum) (v : IsValid vf) (hash other : ℕ) (word : hash < 2 ^ 64) (word' : other < 2 ^ 64)
    → (other ≡ hash) ⊎ (vacuum_filter_lookup vf other ≡ true)
    → 1
      ≤ weigh (of_hash vf v other word') vf
        + of_hash vf v other word' (first_of vf v hash word) (fp_of vf v hash word)
gained_by_insert vf v hash other word word' (inl same) =
    let one_of : of_hash vf v other word' (first_of vf v hash word) (fp_of vf v hash word) ≡ 1 =
      subst
        (λ h.
          of_hash vf v other word' (vacuum_hash_index h vf.num_buckets)
            (vacuum_fingerprint h vf.fingerprint_bits)
          ≡ 1)
        same (of_hash_self vf v other word') in
    omega (arith, one_of)
gained_by_insert vf v hash other word word' (inr found) =
    let there : not (weigh (of_hash vf v other word') vf == 0) ≡ true =
      sym (vacuum_filter_lookup-weigh vf v other word') ∙ found in
    ground (arith, there)

-- After an insertion into a valid filter that succeeds, a lookup finds the hash, and every hash
-- that it found before, for hashes of 64 bits.
pub vacuum_lookup-insert :
    (vf : Vacuum) (v : IsValid vf) (hash other : ℕ) (word : hash < 2 ^ 64) (word' : other < 2 ^ 64)
    (vf' : Vacuum)
    → vacuum_filter_insert vf hash ≡ (VacuumErr.vacuum_ok, vf')
    → (other ≡ hash) ⊎ (vacuum_filter_lookup vf other ≡ true)
    → vacuum_filter_lookup vf' other ≡ true
vacuum_lookup-insert vf v hash other word word' vf' stored which =
    let f = of_hash vf v other word' in
    let m = of_hash-IsMeasure vf v other word' in
    let (v', sum, shape) =
      subst
        (Ended vf v f m (weigh f vf + f (first_of vf v hash word) (fp_of vf v hash word)) vf.table)
        stored (vacuum_filter_insert-Ended vf v hash word f m) in
    let here : 1 ≤ weigh f vf' =
      omega (arith, sum, gained_by_insert vf v hash other word word' which) in
    let count = u32 (vf.count + 1) in
    subst (λ c. vacuum_filter_lookup c other ≡ true) (sym shape)
      (found_by_weight vf v other word' count vf'.table (subst IsValid shape v')
        (subst (λ c. 1 ≤ weigh f c) shape here))
