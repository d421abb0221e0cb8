-- ===== src/Ht/Table/Tests.antt =====
-- Lookups in a table of two entries.
use draugr_repo.Base.{◌+◌, ◌^◌, ◌≡◌, refl, arith, false, none, some, [], ◌∷◌, replicate}
use draugr_repo.Ht.Slot.{val_none, hpd_hash, hpd_pd, hpd_empty, hpd_tomb, hpd_live}
use draugr_repo.Ht.Bare.{Bare, slot_at, ideal_slot}
use draugr_repo.Ht.Bare.Weigh.{weigh, sum_to}
use draugr_repo.Ht.Bare.Valid.{IsValid}
use draugr_repo.Ht.Bare.Insert.Slots.{IsPow2}
use draugr_repo.Ht.Bare.Probe.{past_limit}
use draugr_repo.Ht.Bare.FindAll.{
  ht_bare_find_all, find_all_from, stash_find_all, stash_find_all_from,
}
use draugr_repo.Ht.Table.{
  Table, memcmp_eq, keys_equal, keys_match, vals_match, ht_find_with_hash, ht_find,
  ht_find_kv_with_hash, ht_find_key_all,
}
use draugr_repo.Ht.Table.Lookup.{
  Found, FoundKv, first_value, ht_find-Found, ht_find_kv_with_hash-Found, ht_find_key_all-ht_find,
}

-- Entry 0 in its ideal slot, entry 1 of the same hash one slot on.
abbrev two_slots : Bare
two_slots = record {
  hash_pd = 4 ∷ (2 ^ 48 + 4) ∷ 0 ∷ 0 ∷ [];
  vals = 0 ∷ 1 ∷ val_none ∷ val_none ∷ [];
  capacity = 4;
  size = 2;
  tombstone_cnt = 0;
  spill_hash_pd = replicate 8 0;
  spill_vals = replicate 8 val_none;
  spill_cap = 8;
  spill_len = 0;
  max_probe_dist = 255;
  overflow_len = 0;
  overflow_hash_pd = replicate 32 0;
  overflow_vals = replicate 32 0;
  overflow_violated = false;
  resizing = false;
}

-- Every key has the hash 4.
abbrev two_keys : Table
two_keys = record {
  bare = two_slots;
  entries =
      record { hash_hi = 0; key = 7 ∷ []; value = 70 ∷ [] }
      ∷ record { hash_hi = 0; key = 8 ∷ []; value = 80 ∷ [] }
      ∷ [];
  hash_fn = λ key. 4;
  eq_fn = none;
}

found_by_key :
    (ht_find two_keys (8 ∷ []) ≡ some (80 ∷ []))
    × (ht_find two_keys (9 ∷ []) ≡ none)
    × (ht_find_kv_with_hash two_keys 4 (7 ∷ []) (71 ∷ []) ≡ none)
unfolding hpd_hash hpd_pd hpd_empty hpd_tomb slot_at ideal_slot past_limit ht_bare_find_all
    find_all_from stash_find_all stash_find_all_from memcmp_eq keys_equal keys_match vals_match
    ht_find_with_hash ht_find ht_find_kv_with_hash
found_by_key = (refl, refl, refl)

two_slots-IsValid : IsValid two_slots
unfolding weigh sum_to hpd_hash hpd_live
two_slots-IsValid = record {
  slots = refl;
  slot_vals = refl;
  lane = refl;
  lane_vals = refl;
  stash = refl;
  stash_vals = refl;
  lane_in = omega arith;
  stash_in = omega arith;
  small = omega arith;
  lane_small = omega arith;
  counted = refl;
}

slots-IsPow2 : IsPow2 4
slots-IsPow2 = (2, refl, omega arith)

ht_find-Found_example :
    Found two_keys two_slots-IsValid slots-IsPow2 4 (8 ∷ []) (ht_find two_keys (8 ∷ []))
ht_find-Found_example = ht_find-Found two_keys two_slots-IsValid slots-IsPow2 (8 ∷ [])

ht_find_kv_with_hash-Found_example :
    FoundKv two_keys two_slots-IsValid slots-IsPow2 4
      (8 ∷ [])
      (80 ∷ [])
      (ht_find_kv_with_hash two_keys 4 (8 ∷ []) (80 ∷ []))
ht_find_kv_with_hash-Found_example =
    ht_find_kv_with_hash-Found two_keys two_slots-IsValid slots-IsPow2 4 (8 ∷ []) (80 ∷ []) refl

ht_find_key_all-ht_find_example :
    ht_find_key_all first_value two_keys (8 ∷ []) none ≡ ht_find two_keys (8 ∷ [])
ht_find_key_all-ht_find_example = ht_find_key_all-ht_find two_keys (8 ∷ [])
