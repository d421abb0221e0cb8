-- ===== src/Ht/Bare/Insert/Tests.antt =====
-- An insertion into a run of tombstones that is longer than the look-ahead of `BSHIFT_CAP` slots:
-- an entry behind the run is stored still, and is not found any more.
use draugr_repo.Base.{
  ℕ, zero, suc, ◌*◌, ◌≡◌, refl, Bool, false, Option, none, some, get_or, replicate,
}
use draugr_repo.Ht.Slot.{
  val_none, hpd_hash, hpd_pd, hpd_empty, hpd_tomb, hpd_live, hpd_available, hpd_pack,
}
use draugr_repo.Ht.Bare.{Bare, slot_at, ideal_slot, put_slot}
use draugr_repo.Ht.Bare.Stash.{
  overflow_stash_insert, overflow_stash_remove_val, stash_find, stash_find_from,
}
use draugr_repo.Ht.Bare.Insert.{
  blocked, next_slot, reuse_tomb, place, displace, probe_on, over_limit, to_stash, bounded_step,
  bounded_loop, bare_rh_insert_bounded,
}
use draugr_repo.Ht.Bare.Shift.{
  bare_delete_compact, bare_commit_backward_shift, bare_verify_ideal_safe,
}
use draugr_repo.Ht.Bare.Probe.{
  past_limit, find_from, ht_bare_find, entomb, remove_val_from, ht_bare_remove_val,
}

abbrev slots_64 : Bare
slots_64 = record {
  hash_pd = replicate 64 0;
  vals = replicate 64 val_none;
  capacity = 64;
  size = 0;
  tombstone_cnt = 0;
  spill_hash_pd = replicate 8 0;
  spill_vals = replicate 8 val_none;
  spill_cap = 8;
  spill_len = 0;
  max_probe_dist = 255;
  overflow_len = 0;
  overflow_hash_pd = replicate 32 0;
  overflow_vals = replicate 32 0;
  overflow_violated = false;
  resizing = false;
}

no_resize : Bare → Bool × Bare
no_resize t = (false, t)

-- The table after an insertion that ends.
abbrev after : Bare → Option (Bool × Bare) → Bare
after t none = t
after t (some (ok, t')) = t'

abbrev put : Bare → ℕ → ℕ → Bare
unfolding no_resize
put t h48 val = after t (bare_rh_insert_bounded no_resize 64 t h48 val)

-- The hashes 64, 128, … have the ideal slot 0.
abbrev fill : ℕ → Bare
fill zero = slots_64
fill (suc n) = put (fill n) (64 * suc n) n

abbrev drain : ℕ → Bare → Bare
drain zero t = t
drain (suc n) t = (ht_bare_remove_val (drain n t) (64 * suc n) n).1

-- Of 40 entries in the slots 0 to 39 the first 23 are removed.
abbrev drained : Bare
drained = drain 23 (fill 40)

-- The ideal slot of hash 69 is 5.
hidden :
    (ht_bare_find drained (64 * 24) ≡ some 23)
    × (ht_bare_find (put drained 69 100) (64 * 24) ≡ none)
    × (get_or (put drained 69 100).hash_pd 23 0 ≡ get_or drained.hash_pd 23 0)
unfolding hpd_hash hpd_pd hpd_empty hpd_tomb hpd_live hpd_available hpd_pack slot_at ideal_slot
    put_slot overflow_stash_insert overflow_stash_remove_val stash_find stash_find_from blocked
    next_slot reuse_tomb place displace probe_on over_limit to_stash bounded_step bounded_loop
    bare_rh_insert_bounded bare_delete_compact bare_commit_backward_shift bare_verify_ideal_safe
    past_limit find_from ht_bare_find entomb remove_val_from ht_bare_remove_val put
hidden = (refl, refl, refl)
