-- ===== src/Ht/Bare/Growth.antt =====
-- `ht_bare_insert`, which resizes before it stores.
pub mod Stored
pub mod Inserts
mod Tests
use draugr_repo.Base.{
  ℕ, ◌+◌, ◌-◌, ◌*◌, ◌/◌, ◌^◌, Bool, true, false, not, ◌&&◌, Option, some, bit_and,
}
use draugr_repo.Base.{ltb, ◌==◌, if◌then◌else◌, u64, ◌>>=◌}
use draugr_repo.Ht.Slot.{hash_mask, val_none}
use draugr_repo.Ht.Bare.{Bare, stash_cap}
use draugr_repo.Ht.Bare.Spill.{bare_spill_insert}
use draugr_repo.Ht.Bare.Insert.{bare_rh_insert_bounded}
use draugr_repo.Ht.Bare.Resize.{ht_bare_resize}

-- `overloaded t main_live` is `(double)(main_live + 1) / (double)t->capacity > t->max_load_factor`;
-- `grow` is the resize that the probe loops may call. `calloc k` and `malloc k` answer for a size in
-- the resize `k`: 0 is the one for the load factor, or the growth of the spill lane, and 1 the one
-- for a full stash.
module _ (clz : Option (ℕ → ℕ)) (calloc malloc : ℕ → ℕ → Bool) (raw : Bare → ℕ)
    (overloaded : Bare → ℕ → Bool) (grow : Bare → Bool × Bare) where
  -- The resize for the load factor, where there has to be one.
  pub relieve : Bare → Option (Bool × Bare)
  relieve t =
      let main_live = u64 (u64 (t.size + 2 ^ 64 - t.spill_len) + 2 ^ 64 - t.overflow_len) in
      if not t.resizing && overloaded t main_live
      then (if ltb ((2 ^ 64 - 1) / 2) t.capacity
          then some (false, t)
          else ht_bare_resize clz (calloc 0) (malloc 0) raw t (u64 (t.capacity * 2)))
      else some (true, t)

  -- The resize for a full stash.
  reserve : Bare → Option (Bool × Bare)
  reserve t =
      if ltb 0 t.max_probe_dist && t.overflow_len == stash_cap
      then ht_bare_resize clz (calloc 1) (malloc 1) raw t (u64 (t.capacity * 2))
      else some (true, t)

  -- The insertion gets a round for each slot.
  pub insert_unless : ℕ → ℕ → Bool × Bare → Option (Bool × Bare)
  insert_unless h48 val (true, t) = bare_rh_insert_bounded grow t.capacity t h48 val
  insert_unless h48 val (false, t) = some (false, t)

  pub reserve_unless : Bool × Bare → Option (Bool × Bare)
  unfolding reserve
  reserve_unless (true, t) = reserve t
  reserve_unless (false, t) = some (false, t)

  unfoldable pub ht_bare_insert : Bare → ℕ → ℕ → Option (Bool × Bare)
  unfolding relieve reserve_unless insert_unless
  ht_bare_insert t hash val =
      let h48 = bit_and hash hash_mask in
      if val == val_none
      then some (false, t)
      else if ltb h48 2
      then some (bare_spill_insert (malloc 0) t h48 val)
      else (relieve t >>= reserve_unless >>= insert_unless h48 val)
