-- ===== src/Ht/Bare/FindAll.antt =====
-- `ht_bare_find_all`: every value of a hash, given to a callback that may stop the search.
pub mod First
pub mod Reported
use draugr_repo.Base.{ℕ, zero, suc, ◌+◌, Bool, true, false}
use draugr_repo.Base.{ltb, ◌==◌, if◌then◌else◌, u16, get_or, bit_and}
use draugr_repo.Ht.Slot.{hash_mask, hpd_hash, hpd_pd, hpd_empty, hpd_tomb}
use draugr_repo.Ht.Bare.{Bare, slot_at, ideal_slot}
use draugr_repo.Ht.Bare.Probe.{past_limit}

-- The callback takes `user_ctx` and a value, and says whether to go on.
module _ {S : Type 0} (cb : S → ℕ → Bool × S) where
  -- `if (!cb(val, user_ctx)) return;`, with the rest of the search.
  unfoldable pub report : S → ℕ → (S → S) → S
  report ctx val rest = let (more, ctx') = cb ctx val in if more then rest ctx' else ctx'

  unfoldable pub spill_find_all_from : Bare → ℕ → ℕ → ℕ → S → S
  unfolding report
  spill_find_all_from t h48 i zero ctx = ctx
  spill_find_all_from t h48 i (suc left) ctx =
      let rest = spill_find_all_from t h48 (i + 1) left in
      if hpd_hash (get_or t.spill_hash_pd i 0) == h48
      then report ctx (get_or t.spill_vals i 0) rest
      else rest ctx

  unfoldable pub bare_spill_find_all : Bare → ℕ → S → S
  bare_spill_find_all t h48 ctx = spill_find_all_from t h48 0 t.spill_len ctx

  unfoldable pub stash_find_all_from : Bare → ℕ → ℕ → ℕ → S → S
  unfolding report
  stash_find_all_from t h48 i zero ctx = ctx
  stash_find_all_from t h48 i (suc left) ctx =
      let rest = stash_find_all_from t h48 (i + 1) left in
      if hpd_hash (get_or t.overflow_hash_pd i 0) == h48
      then report ctx (get_or t.overflow_vals i 0) rest
      else rest ctx

  unfoldable pub stash_find_all : Bare → ℕ → S → S
  stash_find_all t h48 ctx = stash_find_all_from t h48 0 t.overflow_len ctx

  -- The loop over the slots with `left` rounds to go, and the scan of the stash behind it.
  unfoldable pub find_all_from : Bare → ℕ → ℕ → ℕ → ℕ → S → S
  unfolding report
  find_all_from t h48 idx dist zero ctx = stash_find_all t h48 ctx
  find_all_from t h48 idx dist (suc left) ctx =
      let slot_hpd = get_or t.hash_pd idx 0 in
      let rest = find_all_from t h48 (slot_at t.capacity idx 1) (u16 (dist + 1)) left in
      if hpd_empty slot_hpd
      then stash_find_all t h48 ctx
      else if hpd_tomb slot_hpd
      then rest ctx
      else if ltb (hpd_pd slot_hpd) dist
      then stash_find_all t h48 ctx
      else if past_limit t dist
      then stash_find_all t h48 ctx
      else if hpd_hash slot_hpd == h48
      then report ctx (get_or t.vals idx 0) rest
      else rest ctx

  unfoldable pub ht_bare_find_all : Bare → ℕ → S → S
  ht_bare_find_all t hash ctx =
      let h48 = bit_and hash hash_mask in
      if ltb h48 2
      then bare_spill_find_all t h48 ctx
      else find_all_from t h48 (ideal_slot t.capacity h48) 0 (suc t.capacity) ctx
