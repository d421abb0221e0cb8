-- ===== src/Ht/Bare/Spill/Drop.antt =====
-- Removing one entry from the spill lane.
use draugr_repo.Base.{ℕ, zero, suc, ◌+◌, ◌-◌, ◌<◌, ◌≡◌, refl, arith, ap, ◌&&◌}
use draugr_repo.Base.{inl, inr, Bool-cases, get_or, length-set, ◌==◌}
use draugr_repo.Base.{move_down, length-move_down}
use draugr_repo.Ht.Slot.{hpd_hash, val_none}
use draugr_repo.Ht.Bare.{Bare, dec}
use draugr_repo.Ht.Bare.Weigh.{weigh, sum_to, sum_to-set_above, sum_to-move_down, in_lane}
use draugr_repo.Ht.Bare.Valid.{IsValid, Removed, one_each, size-lt}
use draugr_repo.Ht.Bare.Spill.{bare_spill_remove_val, spill_remove_val_from, drop_spill}

module _ (t : Bare) (valid : IsValid t) where
  pub drop_spill-weigh :
      (i : ℕ) (f : ℕ → ℕ → ℕ)
      → i < t.spill_len
      → weigh f (drop_spill t i)
          + f (hpd_hash (get_or t.spill_hash_pd i 0)) (get_or t.spill_vals i 0)
        ≡ weigh f t
  unfolding drop_spill weigh
  drop_spill-weigh i f h =
      let n = dec t.spill_len in
      let k = t.spill_len - i - 1 in
      let e : suc n ≡ t.spill_len = omega arith in
      let removed =
        sum_to-move_down (in_lane f) k n i t.spill_hash_pd t.spill_vals (omega arith) (omega arith)
          (omega arith) in
      let cleared =
        sum_to-set_above (in_lane f) n n (move_down t.spill_hash_pd i k)
          (move_down t.spill_vals i k) 0 val_none (omega arith) in
      omega (
        arith,
        ap (λ (m : ℕ). sum_to (in_lane f) m t.spill_hash_pd t.spill_vals) e,
        removed,
        cleared,
      )

  pub drop_spill-IsValid : (i : ℕ) → i < t.spill_len → IsValid (drop_spill t i)
  drop_spill-IsValid i h =
      let n = dec t.spill_len in
      let k = t.spill_len - i - 1 in
      record {
        slots = unfold drop_spill in valid.slots;
        slot_vals = unfold drop_spill in valid.slot_vals;
        lane =
            unfold drop_spill in
            omega (
              arith,
              length-set (move_down t.spill_hash_pd i k) n 0,
              length-move_down t.spill_hash_pd i k,
            );
        lane_vals =
            unfold drop_spill in
            omega (
              arith,
              length-set (move_down t.spill_vals i k) n val_none,
              length-move_down t.spill_vals i k,
            );
        stash = unfold drop_spill in valid.stash;
        stash_vals = unfold drop_spill in valid.stash_vals;
        lane_in = unfold drop_spill in omega arith;
        stash_in = unfold drop_spill in valid.stash_in;
        small = unfold drop_spill in valid.small;
        lane_small = unfold drop_spill in valid.lane_small;
        counted = unfold drop_spill in omega (arith, drop_spill-weigh i one_each h, size-lt valid);
      }

  spill_remove_val_from-Removed :
      (h v left i : ℕ) → i + left ≡ t.spill_len → Removed t h v (spill_remove_val_from t h v i left)
  unfolding spill_remove_val_from
  spill_remove_val_from-Removed h v zero i e = refl
  spill_remove_val_from-Removed h v (suc left) i e =
      elim (Bool-cases
        (hpd_hash (get_or t.spill_hash_pd i 0) == h && get_or t.spill_vals i 0 == v)) [
          | inl hit ↦
              let eh : hpd_hash (get_or t.spill_hash_pd i 0) ≡ h = ground arith in
              let ev : get_or t.spill_vals i 0 ≡ v = ground arith in
              rw hit (
                drop_spill-IsValid i (omega arith),
                λ f. rw (← eh, ← ev) (drop_spill-weigh i f (omega arith)),
              )
          | inr miss ↦ rw miss (spill_remove_val_from-Removed h v left (i + 1) (omega arith))
        ]

  -- Removing an entry from the spill lane of a valid table either succeeds, the table staying
  -- valid and its contents losing one such entry and no other; or it fails and the table is
  -- unchanged.
  pub bare_spill_remove_val-Removed : (h v : ℕ) → Removed t h v (bare_spill_remove_val t h v)
  unfolding bare_spill_remove_val
  bare_spill_remove_val-Removed h v = spill_remove_val_from-Removed h v t.spill_len 0 (omega arith)

spill_remove_val_from-capacity :
    (t : Bare) (h v i left : ℕ) → (spill_remove_val_from t h v i left).1.capacity ≡ t.capacity
unfolding spill_remove_val_from drop_spill
spill_remove_val_from-capacity t h v i zero = refl
spill_remove_val_from-capacity t h v i (suc left) =
    elim (Bool-cases (hpd_hash (get_or t.spill_hash_pd i 0) == h && get_or t.spill_vals i 0 == v)) [
      | inl hit ↦ rw hit refl
      | inr miss ↦ rw miss (spill_remove_val_from-capacity t h v (i + 1) left)
    ]

pub bare_spill_remove_val-capacity :
    (t : Bare) (h v : ℕ) → (bare_spill_remove_val t h v).1.capacity ≡ t.capacity
unfolding bare_spill_remove_val
bare_spill_remove_val-capacity t h v = spill_remove_val_from-capacity t h v 0 t.spill_len
