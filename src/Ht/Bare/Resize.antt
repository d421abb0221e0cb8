-- ===== src/Ht/Bare/Resize.antt =====
-- Rebuilding a bare table in new blocks: `bare_resize_table`, `ht_bare_resize`,
-- `ht_bare_compact`.
pub mod Refill
pub mod Rebuilt
pub mod Sized
pub mod Checked
use draugr_repo.Base.{
  ℕ, suc, ◌+◌, ◌*◌, ◌-◌, ◌^◌, ◌/◌, Bool, true, false, not, ◌||◌, List, Option, none, some,
}
use draugr_repo.Base.{ltb, ◌==◌, if◌then◌else◌, u64, get_or, replicate, ◌>>=◌, rounds}
use draugr_repo.Ht.Slot.{hpd_hash, hpd_live, val_none}
use draugr_repo.Ht.Bare.{Bare}
use draugr_repo.Ht.Bare.Spill.{bare_spill_insert}
use draugr_repo.Ht.Bare.Insert.{bare_rh_insert_bounded}
use draugr_repo.Ht.Bare.Life.{bare_place_prophylactic_tombstones}
use draugr_repo.Pow2.{next_pow2}

abbrev pub spill_initial : ℕ
spill_initial = 8

-- A call for its effect: the loops drop the Boolean result.
abbrev pub effect : Option (Bool × Bare) → Option Bare
effect none = none
effect (some (ok, t)) = some t

-- `grow` is what the insertions call for a resize, `fuel` the rounds that each of them gets.
module _ (grow : Bare → Bool × Bare) (fuel : ℕ) where
  -- The body of the loop of `bare_reinsert_main`.
  unfoldable pub reinsert_slot : List ℕ → List ℕ → ℕ → Bare → Option Bare
  reinsert_slot old_hash_pd old_vals i t =
      let hpd = get_or old_hash_pd i 0 in
      if not (hpd_live hpd)
      then some t
      else effect (bare_rh_insert_bounded grow fuel t (hpd_hash hpd) (get_or old_vals i 0))

  unfoldable pub bare_reinsert_main : Bare → List ℕ → List ℕ → ℕ → Option Bare
  bare_reinsert_main t old_hash_pd old_vals old_cap =
      rounds (reinsert_slot old_hash_pd old_vals) 0 old_cap t

  -- The loop over the copy of the stash.
  unfoldable pub reinsert_stashed : List ℕ → List ℕ → ℕ → Bare → Option Bare
  reinsert_stashed old_overflow_hash old_overflow_vals i t = effect (
      bare_rh_insert_bounded grow fuel t (hpd_hash (get_or old_overflow_hash i 0))
        (get_or old_overflow_vals i 0))

-- The body of the loop of `bare_reinsert_spill`.
unfoldable pub reinsert_spilled : (ℕ → Bool) → List ℕ → List ℕ → ℕ → Bare → Option Bare
reinsert_spilled malloc old_spill_hash_pd old_spill_vals i t =
    let val = get_or old_spill_vals i 0 in
    if val == val_none
    then some t
    else some (bare_spill_insert malloc t (hpd_hash (get_or old_spill_hash_pd i 0)) val).1

unfoldable pub bare_reinsert_spill : (ℕ → Bool) → Bare → List ℕ → List ℕ → ℕ → Option Bare
bare_reinsert_spill malloc t old_spill_hash_pd old_spill_vals old_spill_len =
    rounds (reinsert_spilled malloc old_spill_hash_pd old_spill_vals) 0 old_spill_len t

-- The new blocks and the reset counters. The arrays of the stash keep what they held.
unfoldable pub new_blocks : Bare → ℕ → ℕ → Bare
new_blocks t new_capacity new_spill_cap = record t {
  hash_pd = replicate new_capacity 0;
  vals = replicate new_capacity val_none;
  capacity = new_capacity;
  size = 0;
  tombstone_cnt = 0;
  spill_hash_pd = replicate new_spill_cap 0;
  spill_vals = replicate new_spill_cap val_none;
  spill_cap = new_spill_cap;
  spill_len = 0;
  overflow_len = 0;
  overflow_violated = false;
}

-- `old_spill_len > SPILL_INITIAL ? old_spill_len : SPILL_INITIAL`
abbrev pub new_lane : ℕ → ℕ
new_lane old_spill_len = if ltb spill_initial old_spill_len then old_spill_len else spill_initial

-- `bare_alloc_main_block`: whether there is a block.
unfoldable pub bare_alloc_main_block : (ℕ → Bool) → ℕ → Bool
bare_alloc_main_block calloc capacity =
    if ltb ((2 ^ 64 - 1) / 12) capacity
    then false
    else if capacity * 12 == 0
    then false
    else calloc (capacity * 12)

-- Whether both new blocks are there.
unfoldable pub has_blocks : (ℕ → Bool) → (ℕ → Bool) → Bare → ℕ → Bool
has_blocks calloc malloc t new_capacity =
    if not (bare_alloc_main_block calloc new_capacity)
    then false
    else malloc (u64 (new_lane t.spill_len * 12))

-- `calloc` and `malloc` say whether an allocation of so many bytes succeeds; `raw` is the spacing
-- that `bare_place_prophylactic_tombstones` computes for a table in floating point.
module _ (malloc : ℕ → Bool) (raw : Bare → ℕ) (grow : Bare → Bool × Bare) where
  -- The part that `bare_resize_table` and `ht_bare_compact` have alike, from the new blocks on. An
  -- insertion gets a round for each slot, the tombstones one more.
  unfoldable pub rebuild : Bare → ℕ → Option Bare
  rebuild t new_capacity = do
    let start = new_blocks t new_capacity (new_lane t.spill_len)
    main ← bare_reinsert_main grow new_capacity start t.hash_pd t.vals t.capacity
    lane ← bare_reinsert_spill malloc main t.spill_hash_pd t.spill_vals t.spill_len
    full ←
        rounds (reinsert_stashed grow new_capacity t.overflow_hash_pd t.overflow_vals) 0
          t.overflow_len lane
    bare_place_prophylactic_tombstones (raw full) (suc new_capacity) full

  unfoldable pub ht_bare_compact : (ℕ → Bool) → Bare → Option Bare
  ht_bare_compact calloc t =
      if has_blocks calloc malloc t t.capacity then rebuild t t.capacity else some t

-- `next_pow2(t->size * 2)`, and at least 4.
unfoldable pub resized_capacity : Option (ℕ → ℕ) → ℕ → ℕ
resized_capacity clz size =
    let new_capacity = next_pow2 clz (u64 (size * 2)) in
    if ltb new_capacity 4 then 4 else new_capacity

-- The insertions of a resize may call for a resize again; `resizing` is set then, and the first
-- line refuses.
refuse : Bare → Bool × Bare
refuse t = (false, t)

-- `none` is an insertion that has not ended within its rounds.
module _ (clz : Option (ℕ → ℕ)) (calloc malloc : ℕ → Bool) (raw : Bare → ℕ) where
  resize_to : Bare → ℕ → Option (Bool × Bare)
  unfolding refuse
  resize_to t new_capacity =
      if not (has_blocks calloc malloc t new_capacity)
      then some (false, record t { resizing = false })
      else do
        rebuilt ← rebuild malloc raw refuse (record t { resizing = true }) new_capacity
        some (true, record rebuilt { resizing = false })

  unfoldable pub bare_resize_table : Bare → Option (Bool × Bare)
  unfolding resize_to
  bare_resize_table t =
      if t.resizing
      then some (false, t)
      else if ltb ((2 ^ 64 - 1) / 2) t.size
      then some (false, record t { resizing = false })
      else resize_to t (resized_capacity clz t.size)

  unfoldable pub ht_bare_resize : Bare → ℕ → Option (Bool × Bare)
  ht_bare_resize t new_capacity =
      let main_live = u64 (u64 (t.size + 2 ^ 64 - t.spill_len) + 2 ^ 64 - t.overflow_len) in
      if ltb new_capacity main_live then some (false, t) else bare_resize_table t
