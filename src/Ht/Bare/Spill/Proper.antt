-- ===== src/Ht/Bare/Spill/Proper.antt =====
-- Storing in the spill lane: what keeps `VAL_NONE` out, when the call succeeds, and a lane with room.
use native.Mathlib.Nat.{mul-div_cancel}
use draugr_repo.Base.{
  ℕ, suc, ◌+◌, ◌*◌, ◌/◌, ◌^◌, ◌<◌, ◌≤◌, ◌≡◌, ◌≢◌, refl, arith, Bool, true, false,
}
use draugr_repo.Base.{inl, inr, Bool-cases, leb, if◌then◌else◌, u64}
use draugr_repo.Ht.Slot.{val_none}
use draugr_repo.Ht.Bare.{Bare}
use draugr_repo.Ht.Bare.Weigh.{weigh}
use draugr_repo.Ht.Bare.Valid.{IsValid, IsProper, push-all}
use draugr_repo.Ht.Bare.Spill.{
  bare_spill_grow, grown_lane, grown_cap, spill_append, bare_spill_insert,
}
use draugr_repo.Ht.Bare.Spill.Grow.{
  Grown, spill_append-Stored, grown_cap_bounds, bare_spill_grow-Grown,
}

spill_append-IsProper :
    (t : Bare) (h v : ℕ)
    → IsValid t
    → t.spill_len < t.spill_cap
    → v ≢ val_none
    → IsProper t
    → IsProper (spill_append t h v).1
unfolding spill_append
spill_append-IsProper t h v valid room valued p = record {
  stash_live = p.stash_live;
  lane_valued = λ i below.
      push-all (λ x. x ≢ val_none) t.spill_len t.spill_vals v (omega (arith, valid.lane_vals))
        valued p.lane_valued i (omega arith);
}

grow_then_append-IsProper :
    (t : Bare) (valid : IsValid t) (h v : ℕ) (r : Bool × Bare)
    → Grown t valid r
    → v ≢ val_none
    → IsProper t
    → IsProper (if r.0 then spill_append r.1 h v else (false, r.1)).1
grow_then_append-IsProper t valid h v (true, t') (valid', same, room, kept) valued p =
    spill_append-IsProper t' h v valid' room valued (kept p)
grow_then_append-IsProper t valid h v (false, t') e valued p = rw e p

-- No `VAL_NONE` comes into the lane.
pub bare_spill_insert-IsProper :
    (malloc : ℕ → Bool) (t : Bare) (h v : ℕ)
    → IsValid t
    → t.spill_cap ≤ 2 ^ 59
    → v ≢ val_none
    → IsProper t
    → IsProper (bare_spill_insert malloc t h v).1
unfolding bare_spill_insert
bare_spill_insert-IsProper malloc t h v valid small valued p =
    elim (Bool-cases (leb t.spill_cap t.spill_len)) [
      | inl full ↦ rw full (
          grow_then_append-IsProper t valid h v (bare_spill_grow malloc t)
            (bare_spill_grow-Grown t valid malloc small) valued p)
      | inr room ↦ rw room (spill_append-IsProper t h v valid (ground arith) valued p)
    ]

bare_spill_grow-served :
    (malloc : ℕ → Bool) (t : Bare) (valid : IsValid t)
    → t.spill_cap ≤ 2 ^ 59
    → ((n : ℕ) → malloc n ≡ true)
    → (bare_spill_grow malloc t).0 ≡ true
unfolding bare_spill_grow
bare_spill_grow-served malloc t valid small served =
    let c = grown_cap t.spill_cap in
    let bounds = grown_cap_bounds t valid small in
    let whole : u64 (c * 12) ≡ 12 * c = omega arith in
    let back : 12 * c / c ≡ 12 = mul-div_cancel 12 {n = c} (omega arith) in
    rw (whole, back, served (12 * c)) (ground arith)

-- Where every allocation is served the call succeeds.
pub bare_spill_insert-served :
    (malloc : ℕ → Bool) (t : Bare) (h v : ℕ)
    → IsValid t
    → t.spill_cap ≤ 2 ^ 59
    → ((n : ℕ) → malloc n ≡ true)
    → (bare_spill_insert malloc t h v).0 ≡ true
unfolding bare_spill_insert
bare_spill_insert-served malloc t h v valid small served =
    elim (Bool-cases (leb t.spill_cap t.spill_len)) [
      | inl full ↦
          rw (full, bare_spill_grow-served malloc t valid small served)
            (unfold spill_append in refl)
      | inr room ↦ rw room (unfold spill_append in refl)
    ]

bare_spill_grow-capacity :
    (malloc : ℕ → Bool) (t : Bare) → (bare_spill_grow malloc t).1.capacity ≡ t.capacity
unfolding bare_spill_grow grown_lane
bare_spill_grow-capacity malloc t = ground arith

-- The lane is no part of the capacity.
pub bare_spill_insert-capacity :
    (malloc : ℕ → Bool) (t : Bare) (h v : ℕ)
    → (bare_spill_insert malloc t h v).1.capacity ≡ t.capacity
unfolding bare_spill_insert spill_append
bare_spill_insert-capacity malloc t h v = elim (Bool-cases (leb t.spill_cap t.spill_len)) [
  | inl full ↦ elim (Bool-cases (bare_spill_grow malloc t).0) [
    | inl grown ↦ rw (full, grown) (bare_spill_grow-capacity malloc t)
    | inr same ↦ rw (full, same) (bare_spill_grow-capacity malloc t)
  ]
  | inr room ↦ rw room refl
]

-- Storing in a lane with room, which does not grow.
pub record Appends (t t' : Bare) (h v : ℕ) : Type 0 where
  pub valid : IsValid t'
  pub added : (f : ℕ → ℕ → ℕ) → weigh f t' ≡ weigh f t + f h v
  pub proper : v ≢ val_none → IsProper t → IsProper t'
  pub slots : t'.hash_pd ≡ t.hash_pd
  pub capacity : t'.capacity ≡ t.capacity
  pub longer : t'.spill_len ≡ suc t.spill_len
  pub lane_cap : t'.spill_cap ≡ t.spill_cap
  pub limit : t'.max_probe_dist ≡ t.max_probe_dist

pub spill_insert_fits :
    (malloc : ℕ → Bool) (t : Bare) (h v : ℕ)
    → IsValid t
    → h < 2 ^ 48
    → t.spill_len < t.spill_cap
    → Appends t (bare_spill_insert malloc t h v).1 h v
unfolding bare_spill_insert
spill_insert_fits malloc t h v valid fits room =
    let stored = spill_append-Stored t valid h v fits room in
    let open_end : leb t.spill_cap t.spill_len ≡ false = ground (arith, room) in
    rw open_end (
      unfold spill_append in
      record {
        valid = stored.0;
        added = stored.1;
        proper = spill_append-IsProper t h v valid room;
        slots = refl;
        capacity = refl;
        longer = omega (arith, valid.lane_small);
        lane_cap = refl;
        limit = refl;
      })
