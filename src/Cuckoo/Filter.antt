-- ===== src/Cuckoo/Filter.antt =====
-- src/cuckoo_filter.c: the filter and its operations.
pub mod Valid
pub mod Evict
pub mod Insert
pub mod Lookup
use draugr_repo.Base.{
  ℕ, zero, suc, ◌+◌, ◌-◌, ◌*◌, ◌/◌, ◌%◌, ◌^◌, Bool, true, false, ◌||◌, Option, none, some, List, [],
  ◌∷◌, ◌==◌, if◌then◌else◌, u32, u64, bit_and, bit_xor, ◌>>>◌, replicate,
}
use draugr_repo.Packed.{set_words, get_entry, put_entry, find_from, roll_back, is_some}
use draugr_repo.Cuckoo.{mix32, cuckoo_fingerprint, cuckoo_hash_index, cuckoo_alt_index}

-- `cuckoo_err_t`
pub data CuckooErr : Type 0 where
  cuckoo_ok : CuckooErr
  cuckoo_err_invalid_param : CuckooErr
  cuckoo_err_full : CuckooErr
  cuckoo_err_not_found : CuckooErr
  cuckoo_err_dup_overflow : CuckooErr
  cuckoo_err_alloc : CuckooErr

-- `cuckoo_filter_t` with the table that follows it in memory.
pub record Cuckoo : Type 0 where
  pub num_entries : ℕ
  pub count : ℕ
  pub num_buckets : ℕ
  pub entries_per_set : ℕ
  pub num_sets : ℕ
  pub fingerprint_bits : ℕ
  pub bucket_size : ℕ
  pub max_kicks : ℕ
  pub bucket_mask : ℕ
  pub table : List ℕ

unfoldable pub cf_get : Cuckoo → ℕ → ℕ
cf_get cf idx = get_entry cf.entries_per_set cf.fingerprint_bits cf.table idx

unfoldable pub cf_set_entry : Cuckoo → ℕ → ℕ → Cuckoo
cf_set_entry cf idx v = record cf {
  table = put_entry cf.entries_per_set cf.fingerprint_bits cf.table idx v;
}

-- `none` is the result -1.
unfoldable pub find_empty_slot : Cuckoo → ℕ → Option ℕ
find_empty_slot cf bucket_idx =
    find_from cf.entries_per_set cf.fingerprint_bits cf.table (bucket_idx * cf.bucket_size) 0 0
      cf.bucket_size

unfoldable pub find_fingerprint : Cuckoo → ℕ → ℕ → Option ℕ
find_fingerprint cf bucket_idx fp =
    find_from cf.entries_per_set cf.fingerprint_bits cf.table (bucket_idx * cf.bucket_size) fp 0
      cf.bucket_size

-- A fingerprint goes into an empty slot, and `count++`.
unfoldable pub store : Cuckoo → ℕ → ℕ → ℕ → Cuckoo
store cf bucket_idx slot fp =
    let cf' = cf_set_entry cf (bucket_idx * cf.bucket_size + slot) fp in
    record cf' { count = u32 (cf.count + 1) }

unfoldable pub evict_slot : Cuckoo → ℕ → ℕ → ℕ
evict_slot cf n fp = u64 (mix32 (bit_xor n fp) * cf.bucket_size) >>> 32

-- The eviction loop from round `n`, with `left` rounds to go, `fp` to be placed in bucket `i`.
-- `evicted` has what `evict_idx` and `evict_orig` have, the last first.
unfoldable pub evict_from : Cuckoo → ℕ → ℕ → ℕ → ℕ → List (ℕ × ℕ) → CuckooErr × Cuckoo
evict_from cf fp i n zero evicted = (
  cuckoo_err_full,
  record cf { table = roll_back cf.entries_per_set cf.fingerprint_bits cf.table evicted },
)
evict_from cf fp i n (suc left) evicted =
    let idx = i * cf.bucket_size + evict_slot cf n fp in
    let temp = cf_get cf idx in
    let cf' = cf_set_entry cf idx fp in
    let i' = cuckoo_alt_index i temp cf.bucket_mask in
    let rest = evict_from cf' temp i' (n + 1) left ((idx, temp) ∷ evicted) in
    elim (find_empty_slot cf' i') [ some slot ↦ (cuckoo_ok, store cf' i' slot temp) | none ↦ rest ]

unfoldable pub cuckoo_filter_insert : Cuckoo → ℕ → CuckooErr × Cuckoo
cuckoo_filter_insert cf hash =
    let fp = cuckoo_fingerprint hash cf.fingerprint_bits in
    let i1 = cuckoo_hash_index hash cf.bucket_mask in
    let i2 = cuckoo_alt_index i1 fp cf.bucket_mask in
    let i = if bit_and (i1 + i2) 1 == 0 then i2 else i1 in
    elim (find_empty_slot cf i1) [
      | some slot ↦ (cuckoo_ok, store cf i1 slot fp)
      | none ↦ elim (find_empty_slot cf i2) [
        | some slot ↦ (cuckoo_ok, store cf i2 slot fp)
        | none ↦ evict_from cf fp i 0 cf.max_kicks []
      ]
    ]

unfoldable pub cuckoo_filter_lookup : Cuckoo → ℕ → Bool
cuckoo_filter_lookup cf hash =
    let fp = cuckoo_fingerprint hash cf.fingerprint_bits in
    let i1 = cuckoo_hash_index hash cf.bucket_mask in
    let i2 = cuckoo_alt_index i1 fp cf.bucket_mask in
    is_some (find_fingerprint cf i1 fp) || is_some (find_fingerprint cf i2 fp)

-- A slot becomes empty, and `count--`.
unfoldable pub take_out : Cuckoo → ℕ → ℕ → Cuckoo
take_out cf bucket_idx slot =
    let cf' = cf_set_entry cf (bucket_idx * cf.bucket_size + slot) 0 in
    record cf' { count = u32 (cf.count + (2 ^ 32 - 1)) }

unfoldable pub cuckoo_filter_delete : Cuckoo → ℕ → CuckooErr × Cuckoo
cuckoo_filter_delete cf hash =
    let fp = cuckoo_fingerprint hash cf.fingerprint_bits in
    let i1 = cuckoo_hash_index hash cf.bucket_mask in
    let i2 = cuckoo_alt_index i1 fp cf.bucket_mask in
    elim (find_fingerprint cf i1 fp) [
      | some slot ↦ (cuckoo_ok, take_out cf i1 slot)
      | none ↦ elim (find_fingerprint cf i2 fp) [
        | some slot ↦ (cuckoo_ok, take_out cf i2 slot)
        | none ↦ (cuckoo_err_not_found, cf)
      ]
    ]

unfoldable pub cuckoo_filter_reset : Cuckoo → Cuckoo
cuckoo_filter_reset cf = record cf { table = replicate (cf.num_sets * set_words) 0; count = 0 }
