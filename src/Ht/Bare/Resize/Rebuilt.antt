-- ===== src/Ht/Bare/Resize/Rebuilt.antt =====
-- A table that is rebuilt in new blocks holds the entries of the old one.
use draugr_repo.Base.{
  ℕ, suc, ◌+◌, ◌/◌, ◌^◌, ◌≤◌, ◌≡◌, refl, arith, ◌∙◌, Bool, false, some, subst, replicate,
}
use draugr_repo.Base.{length-replicate, get_or-replicate, Gives, bind-Gives, rounds, rounds-Gives}
use draugr_repo.Ht.Slot.{hpd_hash, hpd_tomb, val_none}
use draugr_repo.Ht.Bare.{Bare}
use draugr_repo.Ht.Bare.Weigh.{weigh, sum_to, in_slot, in_lane}
use draugr_repo.Ht.Bare.Valid.{IsValid, IsProper, one_each}
use draugr_repo.Ht.Bare.Insert.Slots.{IsPow2}
use draugr_repo.Ht.Bare.Insert.Frame.{gaps, gaps-live}
use draugr_repo.Ht.Bare.Life.{bare_place_prophylactic_tombstones}
use draugr_repo.Ht.Bare.Life.Clear.{sum_to-empty}
use draugr_repo.Ht.Bare.Life.Tombs.{place_tombstones-Tombed}
use draugr_repo.Ht.Bare.Resize.{
  new_blocks, new_lane, rebuild, bare_reinsert_main, bare_reinsert_spill, reinsert_slot,
  reinsert_spilled, reinsert_stashed,
}
use draugr_repo.Ht.Bare.Resize.Refill.{
  Filling, Filling-as, reinsert_slot-Filling, reinsert_spilled-Filling, reinsert_stashed-Filling,
}

-- A valid table of `cap` slots with the entries of `t`.
pub record Rebuilt (t : Bare) (cap : ℕ) (t' : Bare) : Type 0 where
  pub valid : IsValid t'
  pub same : (f : ℕ → ℕ → ℕ) → weigh f t' ≡ weigh f t
  pub capacity : t'.capacity ≡ cap
  pub proper : IsProper t'
  pub gaps_left : cap ≤ gaps t' + weigh one_each t + (cap + 3) / 4

zero-tomb : hpd_tomb 0 ≡ false
unfolding hpd_tomb hpd_hash
zero-tomb = refl

module _ (t : Bare) (cap : ℕ) (valid : IsValid t) (cap_small : cap ≤ 2 ^ 60) where
  new_lane_bounds : (t.spill_len ≤ new_lane t.spill_len) × (new_lane t.spill_len ≤ 2 ^ 60)
  new_lane_bounds = ground (arith, valid.lane_in, valid.lane_small)

  new_blocks-weigh : (f : ℕ → ℕ → ℕ) → weigh f (new_blocks t cap (new_lane t.spill_len)) ≡ 0
  unfolding weigh new_blocks sum_to
  new_blocks-weigh f = omega (arith, sum_to-empty f cap cap (replicate cap val_none))

  new_blocks-IsProper : IsProper (new_blocks t cap (new_lane t.spill_len))
  unfolding new_blocks
  new_blocks-IsProper = record {
    stash_live = λ i below. absurd (omega (arith, below));
    lane_valued = λ i below. absurd (omega (arith, below));
  }

  pub new_blocks-Filling :
      Filling cap 0
        (new_lane t.spill_len)
        t.max_probe_dist
        (λ f. 0 + sum_to (in_slot f) 0 t.hash_pd t.vals)
        (new_blocks t cap (new_lane t.spill_len))
  unfolding sum_to
  new_blocks-Filling = record {
    valid = record {
      slots = unfold new_blocks in length-replicate cap 0;
      slot_vals = unfold new_blocks in length-replicate cap val_none;
      lane = unfold new_blocks in length-replicate (new_lane t.spill_len) 0;
      lane_vals = unfold new_blocks in length-replicate (new_lane t.spill_len) val_none;
      stash = unfold new_blocks in valid.stash;
      stash_vals = unfold new_blocks in valid.stash_vals;
      lane_in = unfold new_blocks in omega arith;
      stash_in = unfold new_blocks in omega arith;
      small = unfold new_blocks in cap_small;
      lane_small = unfold new_blocks in omega (arith, new_lane_bounds);
      counted = unfold new_blocks in omega (arith, new_blocks-weigh one_each);
    };
    capacity = unfold new_blocks in refl;
    lane_in = unfold new_blocks in omega arith;
    lane_cap = unfold new_blocks in refl;
    limit_is = unfold new_blocks in refl;
    proper = new_blocks-IsProper;
    no_tombs = λ j. unfold new_blocks in rw (get_or-replicate {A = ℕ} cap j 0) zero-tomb;
    same = λ f. new_blocks-weigh f;
  }

module _ (malloc : ℕ → Bool) (raw : Bare → ℕ) (grow : Bare → Bool × Bare) (t : Bare) (cap : ℕ)
    (valid : IsValid t) (proper : IsProper t) (pow2 : IsPow2 cap) (small : cap ≤ 2 ^ 16)
    (enough : weigh one_each t ≤ cap) where
  abbrev lane : ℕ
  lane = new_lane t.spill_len

  abbrev in_slots : (ℕ → ℕ → ℕ) → ℕ
  in_slots f = sum_to (in_slot f) t.capacity t.hash_pd t.vals

  abbrev in_lanes : (ℕ → ℕ → ℕ) → ℕ
  in_lanes f = in_slots f + sum_to (in_lane f) t.spill_len t.spill_hash_pd t.spill_vals

  main-Filling :
      Gives
        (Filling cap 0 lane t.max_probe_dist (λ f. 0 + in_slots f))
        (bare_reinsert_main grow cap (new_blocks t cap lane) t.hash_pd t.vals t.capacity)
  unfolding bare_reinsert_main weigh
  main-Filling =
      rounds-Gives
        (λ i. Filling cap 0 lane t.max_probe_dist (λ f. 0 + sum_to (in_slot f) i t.hash_pd t.vals))
        t.capacity (reinsert_slot grow cap t.hash_pd t.vals) 0 t.capacity _ (omega arith)
        (new_blocks-Filling t cap valid (omega arith))
        (λ i u below x.
          reinsert_slot-Filling grow cap 0 lane t.max_probe_dist pow2 small t.hash_pd t.vals
            t.capacity (λ f. 0) i u below (omega arith) x)

  lane-Filling :
      (u : Bare)
      → Filling cap 0 lane t.max_probe_dist (λ f. 0 + in_slots f) u
      → Gives
          (Filling cap t.spill_len lane t.max_probe_dist in_lanes)
          (bare_reinsert_spill malloc u t.spill_hash_pd t.spill_vals t.spill_len)
  unfolding bare_reinsert_spill sum_to
  lane-Filling u x =
      rounds-Gives
        (λ i.
          Filling cap i lane t.max_probe_dist
            (λ f. in_slots f + sum_to (in_lane f) i t.spill_hash_pd t.spill_vals))
        t.spill_len (reinsert_spilled malloc t.spill_hash_pd t.spill_vals) 0 t.spill_len u
        (omega arith) (Filling-as (omega arith) (λ f. omega arith) x)
        (λ i w below y.
          reinsert_spilled-Filling malloc cap lane t.max_probe_dist in_slots t.spill_hash_pd
            t.spill_vals i w (omega (arith, new_lane_bounds t cap valid (omega arith)))
            (proper.lane_valued i below) y)

  stash-Filling :
      (u : Bare)
      → Filling cap t.spill_len lane t.max_probe_dist in_lanes u
      → Gives
          (Filling cap t.spill_len lane t.max_probe_dist (λ f. weigh f t))
          (rounds (reinsert_stashed grow cap t.overflow_hash_pd t.overflow_vals) 0 t.overflow_len u)
  unfolding weigh sum_to
  stash-Filling u x =
      let (w, ends, y) =
        rounds-Gives
          (λ i.
            Filling cap t.spill_len lane t.max_probe_dist
              (λ f. in_lanes f + sum_to (in_lane f) i t.overflow_hash_pd t.overflow_vals))
          t.overflow_len (reinsert_stashed grow cap t.overflow_hash_pd t.overflow_vals) 0
          t.overflow_len u (omega arith) (Filling-as (omega arith) (λ f. omega arith) x)
          (λ i w below y.
            reinsert_stashed-Filling grow cap t.spill_len lane t.max_probe_dist pow2 small
              t.overflow_hash_pd t.overflow_vals t.overflow_len in_lanes i w below
              (proper.stash_live i below) (omega arith) y) in
      (w, ends, Filling-as (omega arith) (λ f. omega arith) y)

  still_gaps :
      (u : Bare) (g : ℕ)
      → Filling cap t.spill_len lane t.max_probe_dist (λ f. weigh f t) u
      → gaps u ≤ g + (u.capacity + 3) / 4
      → cap ≤ g + weigh one_each t + (cap + 3) / 4
  unfolding weigh
  still_gaps u g x h =
      omega (arith, gaps-live u u.capacity x.no_tombs, x.same one_each, x.capacity, h)

  tombs-Rebuilt :
      (u : Bare)
      → Filling cap t.spill_len lane t.max_probe_dist (λ f. weigh f t) u
      → raw u ≤ 2 ^ 62
      → Gives (Rebuilt t cap) (bare_place_prophylactic_tombstones (raw u) (suc cap) u)
  tombs-Rebuilt u x h =
      let (w, ends, k) = place_tombstones-Tombed (raw u) u x.valid h in
      (
        w,
        subst (λ (c : ℕ). bare_place_prophylactic_tombstones (raw u) (suc c) u ≡ some w) x.capacity
            ends,
        record {
          valid = k.keeps.valid;
          same = λ f. k.keeps.same f ∙ x.same f;
          capacity = k.keeps.capacity ∙ x.capacity;
          proper = k.proper x.proper;
          gaps_left = still_gaps u (gaps w) x k.gaps_left;
        },
      )

  pub rebuild-Rebuilt :
      ((u : Bare) → raw u ≤ 2 ^ 62) → Gives (Rebuilt t cap) (rebuild malloc raw grow t cap)
  unfolding rebuild
  rebuild-Rebuilt spacing = bind-Gives _ _ _ _ main-Filling (λ u x.
      bind-Gives _ _ _ _ (lane-Filling u x)
        (λ w y. bind-Gives _ _ _ _ (stash-Filling w y) (λ z q. tombs-Rebuilt z q (spacing z))))
