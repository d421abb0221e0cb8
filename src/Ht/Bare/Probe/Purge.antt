-- ===== src/Ht/Bare/Probe/Purge.antt =====
-- Removing all entries of a hash that the probe reaches.
use draugr_repo.Base.{ℕ, suc, ◌+◌, ◌^◌, ◌<◌, ◌≡◌, sym, arith, inl, inr, Bool-cases}
use draugr_repo.Base.{subst, ltb, bit_and}
use draugr_repo.Base.{◌≤◌, some, if◌then◌else◌}
use draugr_repo.Ht.Bare.Stash.{stash_find, overflow_stash_remove}
use draugr_repo.Ht.Slot.{hash_mask}
use draugr_repo.Ht.Bare.{Bare, ideal_slot}
use draugr_repo.Ht.Bare.Valid.{IsValid, size-lt}
use draugr_repo.Ht.Bare.Purged.{Purged, Clear, then-Purged}
use draugr_repo.Ht.Bare.Spill.Purge.{
  bare_spill_remove-Purged, bare_spill_remove-Clear, bare_spill_remove-finds,
}
use draugr_repo.Ht.Bare.Stash.Purge.{
  overflow_stash_remove-Purged, overflow_stash_remove-Clear, overflow_stash_remove-finds,
}
use draugr_repo.Ht.Bare.Insert.Slots.{IsPow2, ideal_slot-lt}
use draugr_repo.Ht.Bare.Probe.{remove_from, ht_bare_remove, ht_bare_find}
use draugr_repo.Ht.Bare.Probe.Loop.{remove_from-Purged, remove_from-same, remove_from-finds}

whole_purge :
    (t : Bare)
    → IsValid t
    → IsPow2 t.capacity
    → (hash : ℕ) → Purged t (bit_and hash hash_mask) 0 (ht_bare_remove t hash)
unfolding ht_bare_remove
whole_purge t valid pow2 hash =
    let h48 = bit_and hash hash_mask in
    let slots =
      remove_from-Purged h48 (suc t.capacity) t (ideal_slot t.capacity h48) 0 0 valid pow2
        (ideal_slot-lt t.capacity h48 pow2) (omega (arith, valid.counted, size-lt valid)) in
    elim (Bool-cases (ltb h48 2)) [
      | inl small ↦ rw small (bare_spill_remove-Purged t h48 valid)
      | inr big ↦
          rw big
            (then-Purged t h48 _ _ valid slots (overflow_stash_remove-Purged _ h48 slots.valid))
    ]

-- Where the entries of a hash may stand outside the slots, none is left: in the spill lane for the
-- two low ones, and else in the stash.
abbrev pub ClearBeside : ℕ → Bare → Type 0
ClearBeside h t =
    if ltb h 2
    then Clear h t.spill_len t.spill_hash_pd
    else Clear h t.overflow_len t.overflow_hash_pd

cleared_beside :
    (t : Bare)
    → IsValid t
    → IsPow2 t.capacity
    → (hash : ℕ) → ClearBeside (bit_and hash hash_mask) (ht_bare_remove t hash).1
unfolding ht_bare_remove
cleared_beside t valid pow2 hash =
    let h48 = bit_and hash hash_mask in
    let slots =
      remove_from-Purged h48 (suc t.capacity) t (ideal_slot t.capacity h48) 0 0 valid pow2
        (ideal_slot-lt t.capacity h48 pow2) (omega (arith, valid.counted, size-lt valid)) in
    elim (Bool-cases (ltb h48 2)) [
      | inl small ↦ rw small (bare_spill_remove-Clear t h48 valid)
      | inr big ↦ rw big (overflow_stash_remove-Clear _ h48 slots.valid)
    ]

found_is_removed :
    (t : Bare)
    → IsValid t
    → IsPow2 t.capacity
    → (hash v : ℕ) → ht_bare_find t hash ≡ some v
    → 1 ≤ (ht_bare_remove t hash).0
unfolding ht_bare_remove ht_bare_find
found_is_removed t valid pow2 hash v =
    let h48 = bit_and hash hash_mask in
    let idx = ideal_slot t.capacity h48 in
    let r = remove_from t h48 idx 0 0 (suc t.capacity) in
    let below = ideal_slot-lt t.capacity h48 pow2 in
    let slots =
      remove_from-Purged h48 (suc t.capacity) t idx 0 0 valid pow2 below
        (omega (arith, valid.counted, size-lt valid)) in
    let stashed = overflow_stash_remove-Purged (r.1) h48 slots.valid in
    let small_sum : r.0 + (overflow_stash_remove (r.1) h48).0 < 2 ^ 64 =
      omega (arith, slots.counted, stashed.counted, valid.counted, size-lt valid) in
    elim (Bool-cases (ltb h48 2)) [
      | inl small ↦ rw small (bare_spill_remove-finds t h48 v valid)
      | inr big ↦ rw big (λ found.
          elim (remove_from-finds h48 v (suc t.capacity) t idx 0 valid pow2 below found) [
            | inl removed ↦ omega (arith, removed, small_sum)
            | inr there ↦ elim (remove_from-same h48 (suc t.capacity) t idx 0 valid pow2 below) [
              | inl removed ↦ omega (arith, removed, small_sum)
              | inr same ↦
                  let some_stashed =
                    overflow_stash_remove-finds (r.1) h48 slots.valid v
                      (subst (λ u. stash_find u h48 ≡ some v) (sym same) there) in
                  omega (arith, some_stashed, small_sum)
            ]
          ])
    ]

-- In a valid table whose capacity is a power of two, `ht_bare_remove` keeps the table valid and its
-- capacity; no entry is gained, no entry of another hash is lost, and the result is the number of
-- the lost entries. No entry under the low 48 bits of the hash is left in the spill lane, if these are 0
-- or 1, or else in the stash; and if `ht_bare_find` found a value, at least one entry is lost.
pub ht_bare_remove-Purged :
    (t : Bare)
    → IsValid t
    → IsPow2 t.capacity
    → (hash : ℕ)
    → Purged t (bit_and hash hash_mask) 0 (ht_bare_remove t hash)
      × ClearBeside (bit_and hash hash_mask) (ht_bare_remove t hash).1
      × ((v : ℕ) → ht_bare_find t hash ≡ some v → 1 ≤ (ht_bare_remove t hash).0)
ht_bare_remove-Purged t valid pow2 hash = (
  whole_purge t valid pow2 hash,
  cleared_beside t valid pow2 hash,
  found_is_removed t valid pow2 hash,
)
