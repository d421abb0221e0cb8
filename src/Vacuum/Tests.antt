-- ===== src/Vacuum/Tests.antt =====
-- A hash in a filter of sixteen buckets with ranges of 8, 8, 4 and 2 buckets.
use draugr_repo.Base.{
  ℕ, zero, suc, ◌+◌, ◌%◌, ◌^◌, inl, ◌<◌, ◌≡◌, refl, arith, true, false, [], ◌∷◌, replicate,
}
use draugr_repo.Cuckoo.{mix32}
use draugr_repo.Vacuum.{Vacuum, num_ar, vacuum_fingerprint, vacuum_hash_index, vacuum_alt_index}
use draugr_repo.Vacuum.Filter.{
  VacuumErr, vf_get, vf_set_entry, find_in_bucket, fill_slot, look_ahead_from, kick_from,
  vacuum_filter_insert, vacuum_filter_lookup, empty_slot, vacuum_filter_delete,
}
use draugr_repo.Packed.{merge, set_get, set_set, find_from, roll_back}
use draugr_repo.Cuckoo.Create.Zeros.{zeros-AreWords}
use draugr_repo.Vacuum.Filter.Valid.{IsValid, weigh, IsMeasure}
use draugr_repo.Vacuum.Filter.Moves.{Ended}
use draugr_repo.Vacuum.Filter.Insert.{
  Deleted, vacuum_filter_insert-Ended, vacuum_filter_delete-Deleted,
}
use draugr_repo.Vacuum.Filter.Lookup.{of_hash, of_hash-IsMeasure, vacuum_lookup-insert}
use draugr_repo.Vacuum.Buckets.{IsRange}

abbrev ranged : Vacuum
ranged = record {
  num_entries = 64;
  count = 0;
  num_buckets = 16;
  entries_per_set = 51;
  num_sets = 2;
  fingerprint_bits = 10;
  bucket_size = 4;
  max_evicts = 200;
  ar = 8 ∷ 8 ∷ 4 ∷ 2 ∷ [];
  table = replicate 16 0;
}

pairs-IsRange : IsRange ranged.ar ranged.num_buckets 495
pairs-IsRange = record { log = 1; some_log = omega arith; power = refl; chunks = 8; whole = refl }

computed :
    (vacuum_fingerprint 81985529216486895 10 ≡ 495)
    × (vacuum_hash_index 81985529216486895 16 ≡ 0)
    × (vacuum_alt_index ranged 6 495 ≡ 7)
unfolding vacuum_fingerprint vacuum_hash_index vacuum_alt_index mix32
computed = (refl, refl, refl)

-- An item that is inserted, found, deleted and then not found.
came_and_went :
    (vacuum_filter_lookup ranged 81985529216486895 ≡ false)
    × (vacuum_filter_lookup (vacuum_filter_insert ranged 81985529216486895).1 81985529216486895
        ≡ true)
    × (vacuum_filter_lookup
          (vacuum_filter_delete
            (vacuum_filter_insert ranged 81985529216486895).1
            81985529216486895).1
          81985529216486895
        ≡ false)
unfolding mix32 merge set_get set_set find_from roll_back vacuum_fingerprint vacuum_hash_index
    vacuum_alt_index vf_get vf_set_entry find_in_bucket fill_slot look_ahead_from kick_from
    vacuum_filter_insert vacuum_filter_lookup empty_slot vacuum_filter_delete
came_and_went = (refl, refl, refl)

ranged-IsRange : (k fp : ℕ) → k < 4 → fp % num_ar ≡ k → IsRange ranged.ar ranged.num_buckets fp
ranged-IsRange zero fp h e = record {
  log = 3;
  some_log = omega arith;
  power = rw e refl;
  chunks = 2;
  whole = refl;
}
ranged-IsRange (suc zero) fp h e = record {
  log = 3;
  some_log = omega arith;
  power = rw e refl;
  chunks = 2;
  whole = refl;
}
ranged-IsRange (suc (suc zero)) fp h e = record {
  log = 2;
  some_log = omega arith;
  power = rw e refl;
  chunks = 4;
  whole = refl;
}
ranged-IsRange (suc (suc (suc zero))) fp h e = record {
  log = 1;
  some_log = omega arith;
  power = rw e refl;
  chunks = 8;
  whole = refl;
}
ranged-IsRange (suc (suc (suc (suc k)))) fp h e = absurd (omega arith)

ranged-IsValid : IsValid ranged
ranged-IsValid = record {
  holds = record {
    low = omega arith;
    high = omega arith;
    some_entry = omega arith;
    whole = omega arith;
    words = zeros-AreWords 16;
    room = λ idx h. omega arith;
  };
  sets = refl;
  entries = refl;
  some_slot = omega arith;
  byte = omega arith;
  some_bucket = omega arith;
  few = omega arith;
  ranges = λ fp. ranged-IsRange (fp % num_ar) fp (omega arith) refl;
}

abbrev sample : ℕ
sample = 81985529216486895

sample-word : sample < 2 ^ 64
sample-word = omega arith

abbrev after : Vacuum
after = (vacuum_filter_insert ranged sample).1

sample-after : vacuum_filter_insert ranged sample ≡ (VacuumErr.vacuum_ok, after)
unfolding came_and_went
sample-after = refl

abbrev sample_measure : ℕ → ℕ → ℕ
sample_measure = of_hash ranged ranged-IsValid sample sample-word

sample-IsMeasure : IsMeasure ranged sample_measure
sample-IsMeasure = of_hash-IsMeasure ranged ranged-IsValid sample sample-word

vacuum_filter_insert-Ended_example :
    Ended ranged ranged-IsValid sample_measure sample-IsMeasure
      (weigh sample_measure ranged
        + sample_measure (vacuum_hash_index sample 16) (vacuum_fingerprint sample 10))
      ranged.table
      (vacuum_filter_insert ranged sample)
vacuum_filter_insert-Ended_example =
    vacuum_filter_insert-Ended ranged ranged-IsValid sample sample-word sample_measure
      sample-IsMeasure

vacuum_filter_delete-Deleted_example :
    Deleted ranged ranged-IsValid sample sample-word sample_measure sample-IsMeasure
      (vacuum_filter_delete ranged sample)
vacuum_filter_delete-Deleted_example =
    vacuum_filter_delete-Deleted ranged ranged-IsValid sample sample-word sample_measure
      sample-IsMeasure

vacuum_lookup-insert_example : vacuum_filter_lookup after sample ≡ true
vacuum_lookup-insert_example =
    vacuum_lookup-insert ranged ranged-IsValid sample sample sample-word sample-word after
      sample-after (inl refl)
