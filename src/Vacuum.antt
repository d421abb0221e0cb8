-- ===== src/Vacuum.antt =====
-- src/vacuum_filter.c: the fingerprint of a hash and its two buckets. `mix32` has the code of the
-- one in src/cuckoo_filter.c.
pub mod Buckets
pub mod Filter
mod Tests
use draugr_repo.Base.{
  ℕ, ◌+◌, ◌-◌, ◌*◌, ◌/◌, ◌%◌, List, get_or, ◌==◌, leb, if◌then◌else◌, bit_and, bit_xor, u32, u64,
  ◌<<<◌, ◌>>>◌,
}
use draugr_repo.Cuckoo.{mix32}

-- VACUUM_NUM_AR
abbrev pub num_ar : ℕ
num_ar = 4

-- `vacuum_filter_t` with the table that follows it in memory.
pub record Vacuum : Type 0 where
  pub num_entries : ℕ
  pub count : ℕ
  pub num_buckets : ℕ
  pub entries_per_set : ℕ
  pub num_sets : ℕ
  pub fingerprint_bits : ℕ
  pub bucket_size : ℕ
  pub max_evicts : ℕ
  pub ar : List ℕ
  pub table : List ℕ

unfoldable pub vacuum_fingerprint : ℕ → ℕ → ℕ
vacuum_fingerprint hash fp_bits =
    let fp = u32 (bit_and hash ((1 <<< fp_bits) - 1)) in if fp == 0 then 1 else fp

unfoldable pub vacuum_hash_index : ℕ → ℕ → ℕ
vacuum_hash_index hash num_buckets = u64 ((hash >>> 32) * num_buckets) >>> 32

unfoldable pub vacuum_alt_index : Vacuum → ℕ → ℕ → ℕ
vacuum_alt_index vf current_index fingerprint =
    let l = get_or vf.ar (fingerprint % num_ar) 0 in
    let delta = mix32 fingerprint % (l - 1) + 1 in
    let chunk_start = current_index / l * l in
    let offset = current_index - chunk_start in
    if leb l 1 then current_index else chunk_start + bit_xor offset delta
