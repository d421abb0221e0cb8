-- ===== src/Vacuum/Filter.antt =====
-- src/vacuum_filter.c: the filter's operations. The searches and the packed sets are those of
-- Packed.
pub mod Valid
pub mod Moves
pub mod Evict
pub mod Insert
pub mod Lookup
use draugr_repo.Base.{
  ℕ, zero, suc, ◌+◌, ◌*◌, ◌^◌, ◌-◌, Bool, ◌||◌, Option, none, some, List, [], ◌∷◌, ◌==◌,
  if◌then◌else◌, u32, u64, bit_and, bit_xor, ◌>>>◌, replicate,
}
use draugr_repo.Packed.{set_words, get_entry, put_entry, find_from, roll_back, is_some}
use draugr_repo.Cuckoo.{mix32}
use draugr_repo.Vacuum.{Vacuum, vacuum_fingerprint, vacuum_hash_index, vacuum_alt_index}

-- `vacuum_err_t`
pub data VacuumErr : Type 0 where
  vacuum_ok : VacuumErr
  vacuum_err_invalid_param : VacuumErr
  vacuum_err_full : VacuumErr
  vacuum_err_not_found : VacuumErr
  vacuum_err_alloc : VacuumErr

unfoldable pub vf_get : Vacuum → ℕ → ℕ
vf_get vf idx = get_entry vf.entries_per_set vf.fingerprint_bits vf.table idx

unfoldable pub vf_set_entry : Vacuum → ℕ → ℕ → Vacuum
vf_set_entry vf idx v = record vf {
  table = put_entry vf.entries_per_set vf.fingerprint_bits vf.table idx v;
}

-- `none` is the result -1. A search for 0 is `find_empty_slot`.
unfoldable pub find_in_bucket : Vacuum → ℕ → ℕ → Option ℕ
find_in_bucket vf bucket_idx fp =
    find_from vf.entries_per_set vf.fingerprint_bits vf.table (bucket_idx * vf.bucket_size) fp 0
      vf.bucket_size

-- A fingerprint goes into an empty slot, and `count++`.
unfoldable pub fill_slot : Vacuum → ℕ → ℕ → ℕ → Vacuum
fill_slot vf bucket_idx slot fp =
    let vf' = vf_set_entry vf (bucket_idx * vf.bucket_size + slot) fp in
    record vf' { count = u32 (vf.count + 1) }

-- The look-ahead in bucket `b` from slot `i` on: the filter after the two steps, where a fingerprint
-- of the bucket has an empty slot in its other bucket.
unfoldable pub look_ahead_from : Vacuum → ℕ → ℕ → ℕ → ℕ → Option Vacuum
look_ahead_from vf b fp i zero = none
look_ahead_from vf b fp i (suc left) =
    let rest = look_ahead_from vf b fp (i + 1) left in
    let idx = b * vf.bucket_size + i in
    let fp_in_slot = vf_get vf idx in
    let alt = vacuum_alt_index vf b fp_in_slot in
    if fp_in_slot == 0 then rest else elim (find_in_bucket vf alt 0) [
      | none ↦ rest
      | some alt_slot ↦
          let vf' = vf_set_entry vf (alt * vf.bucket_size + alt_slot) fp_in_slot in
          let vf'' = vf_set_entry vf' idx fp in some (record vf'' { count = u32 (vf.count + 1) })
    ]

-- The eviction loop from round `n`, with `left` rounds to go, `fp` to be placed in bucket `b`.
-- `evicted` has what `evict_idx` and `evict_orig` have, the last first.
unfoldable pub kick_from : Vacuum → ℕ → ℕ → ℕ → ℕ → List (ℕ × ℕ) → VacuumErr × Vacuum
kick_from vf fp b n zero evicted = (
  vacuum_err_full,
  record vf { table = roll_back vf.entries_per_set vf.fingerprint_bits vf.table evicted },
)
kick_from vf fp b n (suc left) evicted =
    let evict_slot = u64 (mix32 (bit_xor n fp) * vf.bucket_size) >>> 32 in
    let idx = b * vf.bucket_size + evict_slot in
    let temp = vf_get vf idx in
    let vf' = vf_set_entry vf idx fp in
    let b' = vacuum_alt_index vf b temp in
    let rest = kick_from vf' temp b' (n + 1) left ((idx, temp) ∷ evicted) in
    elim (look_ahead_from vf b fp 0 vf.bucket_size) [
      | some moved ↦ (vacuum_ok, moved)
      | none ↦ elim (find_in_bucket vf' b' 0) [
        | some slot ↦ (vacuum_ok, fill_slot vf' b' slot temp)
        | none ↦ rest
      ]
    ]

unfoldable pub vacuum_filter_insert : Vacuum → ℕ → VacuumErr × Vacuum
vacuum_filter_insert vf hash =
    let fp = vacuum_fingerprint hash vf.fingerprint_bits in
    let b1 = vacuum_hash_index hash vf.num_buckets in
    let b2 = vacuum_alt_index vf b1 fp in
    let b = if bit_and (b1 + b2) 1 == 0 then b2 else b1 in
    elim (find_in_bucket vf b1 0) [
      | some slot ↦ (vacuum_ok, fill_slot vf b1 slot fp)
      | none ↦ elim (find_in_bucket vf b2 0) [
        | some slot ↦ (vacuum_ok, fill_slot vf b2 slot fp)
        | none ↦ elim (look_ahead_from vf b1 fp 0 vf.bucket_size) [
          | some moved ↦ (vacuum_ok, moved)
          | none ↦ elim (look_ahead_from vf b2 fp 0 vf.bucket_size) [
            | some moved ↦ (vacuum_ok, moved)
            | none ↦ kick_from vf fp b 0 vf.max_evicts []
          ]
        ]
      ]
    ]

unfoldable pub vacuum_filter_lookup : Vacuum → ℕ → Bool
vacuum_filter_lookup vf hash =
    let fp = vacuum_fingerprint hash vf.fingerprint_bits in
    let b1 = vacuum_hash_index hash vf.num_buckets in
    let b2 = vacuum_alt_index vf b1 fp in
    is_some (find_in_bucket vf b1 fp) || is_some (find_in_bucket vf b2 fp)

-- A slot becomes empty, and `count--`.
unfoldable pub empty_slot : Vacuum → ℕ → ℕ → Vacuum
empty_slot vf bucket_idx slot =
    let vf' = vf_set_entry vf (bucket_idx * vf.bucket_size + slot) 0 in
    record vf' { count = u32 (vf.count + (2 ^ 32 - 1)) }

unfoldable pub vacuum_filter_delete : Vacuum → ℕ → VacuumErr × Vacuum
vacuum_filter_delete vf hash =
    let fp = vacuum_fingerprint hash vf.fingerprint_bits in
    let b1 = vacuum_hash_index hash vf.num_buckets in
    let b2 = vacuum_alt_index vf b1 fp in
    elim (find_in_bucket vf b1 fp) [
      | some slot ↦ (vacuum_ok, empty_slot vf b1 slot)
      | none ↦ elim (find_in_bucket vf b2 fp) [
        | some slot ↦ (vacuum_ok, empty_slot vf b2 slot)
        | none ↦ (vacuum_err_not_found, vf)
      ]
    ]

unfoldable pub vacuum_filter_reset : Vacuum → Vacuum
vacuum_filter_reset vf = record vf { table = replicate (vf.num_sets * set_words) 0; count = 0 }
