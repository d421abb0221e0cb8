-- ===== src/Cuckoo/Tests.antt =====
-- A hash in a filter of eight buckets with fingerprints of ten bits.
use draugr_repo.Base.{
  ℕ, ◌+◌, ◌≤◌, ◌<◌, ◌+◌, ◌*◌, ◌≡◌, refl, arith, inl, Bool, true, false, some, replicate,
}
use draugr_repo.Packed.{merge, set_get, set_set, find_from, roll_back}
use draugr_repo.Cuckoo.{mix32, cuckoo_fingerprint, cuckoo_hash_index, cuckoo_alt_index}
use draugr_repo.Cuckoo.Filter.{
  Cuckoo, CuckooErr, cf_get, cf_set_entry, find_empty_slot, find_fingerprint, store, evict_slot,
  evict_from, take_out, cuckoo_filter_insert, cuckoo_filter_lookup, cuckoo_filter_delete,
}
use draugr_repo.Cuckoo.Filter.Valid.{IsValid, weigh, IsMeasure}
use draugr_repo.Cuckoo.Filter.Evict.{Ended}
use draugr_repo.Cuckoo.Filter.Insert.{
  Deleted, cuckoo_filter_insert-Ended, cuckoo_filter_delete-Deleted,
}
use draugr_repo.Cuckoo.Filter.Lookup.{of_hash, of_hash-IsMeasure, lookup-insert}
use draugr_repo.Cuckoo.Create.{cuckoo_filter_create}
use draugr_repo.Cuckoo.Create.Zeros.{zeros-AreWords}
use draugr_repo.Cuckoo.Create.Empty.{cuckoo_filter_create-Empty}

program : Unit {0}
unfolding mix32 cuckoo_fingerprint cuckoo_hash_index cuckoo_alt_index merge set_get set_set
    find_from roll_back cf_get cf_set_entry find_empty_slot find_fingerprint store evict_slot
    evict_from take_out cuckoo_filter_insert cuckoo_filter_lookup cuckoo_filter_delete
program = tt

abbrev sample : ℕ
sample = 81985529216486895

computed : (cuckoo_fingerprint sample 10 ≡ 495) × (cuckoo_hash_index sample 7 ≡ 7)
unfolding cuckoo_fingerprint cuckoo_hash_index
computed = (refl, refl)

-- A hash whose low bits are 0.
remapped : cuckoo_fingerprint 1024 10 ≡ 1
unfolding cuckoo_fingerprint
remapped = refl

-- A filter of two buckets of two slots, in one set.
abbrev small_filter : Cuckoo
small_filter = record {
  num_entries = 4;
  count = 0;
  num_buckets = 2;
  entries_per_set = 51;
  num_sets = 1;
  fingerprint_bits = 10;
  bucket_size = 2;
  max_kicks = 200;
  bucket_mask = 1;
  table = replicate 8 0;
}

small_filter-IsValid : IsValid small_filter
small_filter-IsValid = record {
  holds = record {
    low = omega arith;
    high = omega arith;
    some_entry = omega arith;
    whole = omega arith;
    words = zeros-AreWords 8;
    room = λ idx h. omega arith;
  };
  sets = refl;
  entries = refl;
  some_slot = omega arith;
  byte = omega arith;
  log_buckets = 1;
  buckets = refl;
  mask = refl;
}

abbrev stored : Cuckoo
stored = (cuckoo_filter_insert small_filter sample).1

sample-stored : cuckoo_filter_insert small_filter sample ≡ (CuckooErr.cuckoo_ok, stored)
unfolding program
sample-stored = refl

sample-of_hash : IsMeasure small_filter (of_hash small_filter small_filter-IsValid sample)
sample-of_hash = of_hash-IsMeasure small_filter small_filter-IsValid sample

cuckoo_filter_insert-Ended_example :
    Ended small_filter small_filter-IsValid
      (of_hash small_filter small_filter-IsValid sample)
      sample-of_hash
      (weigh (of_hash small_filter small_filter-IsValid sample) small_filter
        + of_hash small_filter small_filter-IsValid sample
            (cuckoo_hash_index sample 1)
            (cuckoo_fingerprint sample 10))
      small_filter.table
      (cuckoo_filter_insert small_filter sample)
cuckoo_filter_insert-Ended_example =
    cuckoo_filter_insert-Ended small_filter small_filter-IsValid sample
      (of_hash small_filter small_filter-IsValid sample) sample-of_hash

lookup-insert_example : cuckoo_filter_lookup stored sample ≡ true
lookup-insert_example =
    lookup-insert small_filter small_filter-IsValid sample sample stored sample-stored (inl refl)

cuckoo_filter_delete-Deleted_example :
    Deleted small_filter small_filter-IsValid sample
      (of_hash small_filter small_filter-IsValid sample)
      sample-of_hash
      (cuckoo_filter_delete small_filter sample)
cuckoo_filter_delete-Deleted_example =
    cuckoo_filter_delete-Deleted small_filter small_filter-IsValid sample
      (of_hash small_filter small_filter-IsValid sample) sample-of_hash

-- Memory for every size.
abbrev serve : ℕ → Bool
serve size = true

cuckoo_filter_create-Empty_example :
    (cf : Cuckoo) × (cuckoo_filter_create serve 11 10 4 12 0 ≡ some cf)
    × IsValid cf
    × (11 ≤ cf.num_entries)
    × (cf.num_entries < 2 * (11 + cf.bucket_size))
    × (cf.count ≡ 0)
    × ((hash : ℕ) → cuckoo_filter_lookup cf hash ≡ false)
cuckoo_filter_create-Empty_example =
    cuckoo_filter_create-Empty serve 11 10 4 12 0 (λ size. refl) (omega arith) (omega arith)
      (omega arith) (omega arith) (omega arith)

-- An item that is inserted, found, deleted and then not found.
came_and_went :
    (cuckoo_filter_lookup stored sample ≡ true)
    × (cuckoo_filter_lookup small_filter sample ≡ false)
    × (cuckoo_filter_lookup (cuckoo_filter_delete stored sample).1 sample ≡ false)
unfolding program
came_and_went = (refl, refl, refl)
