-- ===== src/Ht/Bare/Probe.antt =====
-- Looking an entry up and removing it: `ht_bare_find`, `ht_bare_remove_val` and `ht_bare_remove`. All
-- walk the probe sequence of the hash and then the overflow stash.
pub mod Sound
pub mod Special
pub mod Complete
pub mod Remove
pub mod Loop
pub mod Purge
use draugr_repo.Base.{ℕ, zero, suc, ◌+◌, Bool, true, false, ◌&&◌, not, Option, none, some}
use draugr_repo.Base.{ltb, ◌==◌, if◌then◌else◌, u16, u64, get_or, bit_and}
use draugr_repo.Ht.Slot.{hash_mask, hash_tomb, val_none, hpd_hash, hpd_pd, hpd_empty, hpd_tomb}
use draugr_repo.Ht.Bare.{Bare, inc, dec, slot_at, ideal_slot, put_slot}
use draugr_repo.Ht.Bare.Spill.{bare_spill_find, bare_spill_remove, bare_spill_remove_val}
use draugr_repo.Ht.Bare.Stash.{stash_find, overflow_stash_remove, overflow_stash_remove_val}
use draugr_repo.Ht.Bare.Shift.{bare_delete_compact}

-- `!t->overflow_violated && t->max_probe_dist > 0 && dist > t->max_probe_dist`
unfoldable pub past_limit : Bare → ℕ → Bool
past_limit t dist = not t.overflow_violated && ltb 0 t.max_probe_dist && ltb t.max_probe_dist dist

-- The loop of `ht_bare_find` with `left` rounds to go, and the scan of the stash behind it.
unfoldable pub find_from : Bare → ℕ → ℕ → ℕ → ℕ → Option ℕ
find_from t h48 idx dist zero = stash_find t h48
find_from t h48 idx dist (suc left) =
    let slot_hpd = get_or t.hash_pd idx 0 in
    let rest = find_from t h48 (slot_at t.capacity idx 1) (u16 (dist + 1)) left in
    if hpd_empty slot_hpd
    then stash_find t h48
    else if hpd_tomb slot_hpd
    then rest
    else if ltb (hpd_pd slot_hpd) dist
    then stash_find t h48
    else if past_limit t dist
    then stash_find t h48
    else if hpd_hash slot_hpd == h48
    then some (get_or t.vals idx 0)
    else rest

-- `*out_val`, or `none` for `false`.
unfoldable pub ht_bare_find : Bare → ℕ → Option ℕ
ht_bare_find t hash =
    let h48 = bit_and hash hash_mask in
    if ltb h48 2
    then bare_spill_find t h48
    else find_from t h48 (ideal_slot t.capacity h48) 0 (suc t.capacity)

-- The four assignments at the entry found.
unfoldable pub entomb : Bare → ℕ → Bare
entomb t idx =
    let t' = put_slot t idx hash_tomb val_none in
    record t' { size = dec t.size; tombstone_cnt = inc t.tombstone_cnt }

unfoldable pub remove_val_from : Bare → ℕ → ℕ → ℕ → ℕ → ℕ → Bool × Bare
remove_val_from t h48 val idx dist zero = overflow_stash_remove_val t h48 val
remove_val_from t h48 val idx dist (suc left) =
    let slot_hpd = get_or t.hash_pd idx 0 in
    let rest = remove_val_from t h48 val (slot_at t.capacity idx 1) (u16 (dist + 1)) left in
    if hpd_empty slot_hpd
    then overflow_stash_remove_val t h48 val
    else if hpd_tomb slot_hpd
    then rest
    else if ltb (hpd_pd slot_hpd) dist
    then overflow_stash_remove_val t h48 val
    else if hpd_hash slot_hpd == h48 && get_or t.vals idx 0 == val
    then (true, bare_delete_compact (entomb t idx) idx)
    else rest

unfoldable pub ht_bare_remove_val : Bare → ℕ → ℕ → Bool × Bare
ht_bare_remove_val t hash val =
    let h48 = bit_and hash hash_mask in
    if ltb h48 2
    then bare_spill_remove_val t h48 val
    else remove_val_from t h48 val (ideal_slot t.capacity h48) 0 (suc t.capacity)

-- The loop of `ht_bare_remove`: after a removal the same slot is looked at again.
unfoldable pub remove_from : Bare → ℕ → ℕ → ℕ → ℕ → ℕ → ℕ × Bare
remove_from t h48 idx dist removed zero = (removed, t)
remove_from t h48 idx dist removed (suc left) =
    let slot_hpd = get_or t.hash_pd idx 0 in
    elim (hpd_empty slot_hpd) [
      | true ↦ (removed, t)
      | false ↦ elim (hpd_tomb slot_hpd) [
        | true ↦ remove_from t h48 (slot_at t.capacity idx 1) (u16 (dist + 1)) removed left
        | false ↦ elim (ltb (hpd_pd slot_hpd) dist) [
          | true ↦ (removed, t)
          | false ↦ elim (hpd_hash slot_hpd == h48) [
            | true ↦
                remove_from (bare_delete_compact (entomb t idx) idx) h48 idx dist (inc removed) left
            | false ↦ remove_from t h48 (slot_at t.capacity idx 1) (u16 (dist + 1)) removed left
          ]
        ]
      ]
    ]

unfoldable pub ht_bare_remove : Bare → ℕ → ℕ × Bare
ht_bare_remove t hash =
    let h48 = bit_and hash hash_mask in
    if ltb h48 2
    then bare_spill_remove t h48
    else (let (removed, t') = remove_from t h48 (ideal_slot t.capacity h48) 0 0 (suc t.capacity) in
        let (stashed, t'') = overflow_stash_remove t' h48 in (u64 (removed + stashed), t''))
