-- ===== src/Ht/Bare/Stash/Laws.antt =====
-- What the operations of the overflow stash do to the contents.
use draugr_repo.Base.{ℕ, zero, suc, ◌+◌, ◌^◌, ◌<◌, ◌≤◌, ◌≡◌, refl, arith, ◌&&◌, List}
use draugr_repo.Base.{inl, inr, Bool-cases, get_or, set, length, length-set, leb, ◌==◌}
use draugr_repo.Ht.Slot.{hpd_hash, hpd_pack}
use draugr_repo.Ht.Slot.Laws.{hpd_hash-pack}
use draugr_repo.Ht.Bare.{Bare, inc, dec, stash_cap}
use draugr_repo.Ht.Bare.Weigh.{weigh, sum_to, sum_to-push, sum_to-set, sum_to-set_above, in_lane}
use native.Mathlib.Decide.{ℕ_discrete}
use draugr_repo.Ht.Bare.Valid.{IsValid, Stored, Removed, one_each, size-lt}
use draugr_repo.Ht.Bare.Stash.{
  overflow_stash_insert, overflow_stash_remove_val, stash_remove_val_from, drop_stash,
}

module _ (t : Bare) (valid : IsValid t) where
  -- Storing a hash of 48 bits in the stash of a valid table either succeeds, the table staying
  -- valid and its contents gaining that entry and no other; or it fails and the table is
  -- unchanged.
  pub overflow_stash_insert-Stored :
      (h v : ℕ) → h < 2 ^ 48 → Stored t h v (overflow_stash_insert t h v)
  unfolding overflow_stash_insert weigh
  overflow_stash_insert-Stored h v fits = elim (Bool-cases (leb stash_cap t.overflow_len)) [
    | inl full ↦ rw full refl
    | inr room ↦
        let grows : inc t.overflow_len ≡ suc t.overflow_len = ground arith in
        let below : t.overflow_len < stash_cap = ground arith in
        let added : (f : ℕ → ℕ → ℕ)
            → sum_to (in_lane f) (inc t.overflow_len)
                (set t.overflow_hash_pd t.overflow_len (hpd_pack h 0))
                (set t.overflow_vals t.overflow_len v)
              ≡ sum_to (in_lane f) t.overflow_len t.overflow_hash_pd t.overflow_vals + f h v =
          λ f. rw (
            grows,
            sum_to-push (in_lane f) t.overflow_len t.overflow_hash_pd t.overflow_vals (hpd_pack h 0)
                v (omega arith) (omega arith),
            hpd_hash-pack h 0 fits (omega arith),
          ) in
        rw room (
          record {
            slots = valid.slots;
            slot_vals = valid.slot_vals;
            lane = valid.lane;
            lane_vals = valid.lane_vals;
            stash = omega (arith, length-set t.overflow_hash_pd t.overflow_len (hpd_pack h 0));
            stash_vals = omega (arith, length-set t.overflow_vals t.overflow_len v);
            lane_in = valid.lane_in;
            stash_in = omega arith;
            small = valid.small;
            lane_small = valid.lane_small;
            counted = omega (arith, added one_each, size-lt valid);
          },
          λ f. omega (arith, added f),
        )
  ]

-- The last entry is written over entry `i`, and the end moves down from `m` to `n`.
sum_to-swap_remove :
    (g : ℕ → ℕ → ℕ) (n m i : ℕ) (xs ys : List ℕ)
    → suc n ≡ m
    → i < m
    → m ≤ length xs
    → m ≤ length ys
    → sum_to g n (set xs i (get_or xs n 0)) (set ys i (get_or ys n 0))
        + g (get_or xs i 0) (get_or ys i 0)
      ≡ sum_to g m xs ys
unfolding sum_to
sum_to-swap_remove g n m i xs ys s h p q = rw (← s) (elim (ℕ_discrete i n) [
  | yes e ↦ rw (e, sum_to-set_above g n n xs ys (get_or xs n 0) (get_or ys n 0) (omega arith))
  | no ne ↦
      sum_to-set g n i xs ys (get_or xs n 0) (get_or ys n 0) (omega arith) (omega arith)
        (omega arith)
])

module _ (t : Bare) (valid : IsValid t) where
  drop_stash-weigh :
      (i : ℕ) (f : ℕ → ℕ → ℕ)
      → i < t.overflow_len
      → weigh f (drop_stash t i)
          + f (hpd_hash (get_or t.overflow_hash_pd i 0)) (get_or t.overflow_vals i 0)
        ≡ weigh f t
  unfolding weigh drop_stash
  drop_stash-weigh i f h =
      let n = dec t.overflow_len in
      omega (
        arith,
        sum_to-swap_remove (in_lane f) n t.overflow_len i t.overflow_hash_pd t.overflow_vals
            (omega arith) h (omega arith) (omega arith),
      )

  drop_stash-IsValid : (i : ℕ) → i < t.overflow_len → IsValid (drop_stash t i)
  drop_stash-IsValid i h = record {
    slots = unfold drop_stash in valid.slots;
    slot_vals = unfold drop_stash in valid.slot_vals;
    lane = unfold drop_stash in valid.lane;
    lane_vals = unfold drop_stash in valid.lane_vals;
    stash =
        unfold drop_stash in
        omega (
          arith,
          length-set t.overflow_hash_pd i (get_or t.overflow_hash_pd (dec t.overflow_len) 0),
        );
    stash_vals =
        unfold drop_stash in
        omega (arith, length-set t.overflow_vals i (get_or t.overflow_vals (dec t.overflow_len) 0));
    lane_in = unfold drop_stash in valid.lane_in;
    stash_in = unfold drop_stash in omega arith;
    small = unfold drop_stash in valid.small;
    lane_small = unfold drop_stash in valid.lane_small;
    counted = unfold drop_stash in omega (arith, drop_stash-weigh i one_each h, size-lt valid);
  }

  stash_remove_val_from-Removed :
      (h v left i : ℕ)
      → i + left ≡ t.overflow_len
      → Removed t h v (stash_remove_val_from t h v i left)
  unfolding stash_remove_val_from
  stash_remove_val_from-Removed h v zero i e = refl
  stash_remove_val_from-Removed h v (suc left) i e =
      elim (Bool-cases
        (hpd_hash (get_or t.overflow_hash_pd i 0) == h && get_or t.overflow_vals i 0 == v)) [
          | inl hit ↦
              let eh : hpd_hash (get_or t.overflow_hash_pd i 0) ≡ h = ground arith in
              let ev : get_or t.overflow_vals i 0 ≡ v = ground arith in
              rw hit (
                drop_stash-IsValid i (omega arith),
                λ f. rw (← eh, ← ev) (drop_stash-weigh i f (omega arith)),
              )
          | inr miss ↦ rw miss (stash_remove_val_from-Removed h v left (i + 1) (omega arith))
        ]

  -- Removing an entry from the stash of a valid table either succeeds, the table staying valid
  -- and its contents losing one such entry and no other; or it fails and the table is
  -- unchanged.
  pub overflow_stash_remove_val-Removed :
      (h v : ℕ) → Removed t h v (overflow_stash_remove_val t h v)
  unfolding overflow_stash_remove_val
  overflow_stash_remove_val-Removed h v =
      stash_remove_val_from-Removed h v t.overflow_len 0 (omega arith)

pub capacity-overflow_stash_insert :
    (t : Bare) (h v : ℕ) → (overflow_stash_insert t h v).1.capacity ≡ t.capacity
unfolding overflow_stash_insert
capacity-overflow_stash_insert t h v = ground arith

stash_remove_val_from-capacity :
    (t : Bare) (h v i left : ℕ) → (stash_remove_val_from t h v i left).1.capacity ≡ t.capacity
unfolding stash_remove_val_from drop_stash
stash_remove_val_from-capacity t h v i zero = refl
stash_remove_val_from-capacity t h v i (suc left) =
    elim (Bool-cases
      (hpd_hash (get_or t.overflow_hash_pd i 0) == h && get_or t.overflow_vals i 0 == v)) [
        | inl hit ↦ rw hit refl
        | inr miss ↦ rw miss (stash_remove_val_from-capacity t h v (i + 1) left)
      ]

pub overflow_stash_remove_val-capacity :
    (t : Bare) (h v : ℕ) → (overflow_stash_remove_val t h v).1.capacity ≡ t.capacity
unfolding overflow_stash_remove_val
overflow_stash_remove_val-capacity t h v = stash_remove_val_from-capacity t h v 0 t.overflow_len
