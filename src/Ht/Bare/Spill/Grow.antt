-- ===== src/Ht/Bare/Spill/Grow.antt =====
-- Growing the spill lane and storing in it: the contents gain the entry, or the call fails and
-- changes nothing.
use draugr_repo.Base.{
  ℕ, suc, ◌+◌, ◌-◌, ◌*◌, ◌/◌, ◌^◌, ◌<◌, ◌≤◌, ◌≡◌, refl, arith, ap, ◌∙◌, Bool, true, false, ◌&&◌,
  not,
}
use draugr_repo.Base.{
  inl, inr, Bool-cases, set, length-set, leb, ltb, ◌==◌, if◌then◌else◌, ◌++◌, u64,
}
use draugr_repo.Base.{replicate, length-replicate, length-append, get_or-append_left}
use draugr_repo.Ht.Slot.{hpd_pack, val_none}
use draugr_repo.Ht.Slot.Laws.{hpd_hash-pack}
use draugr_repo.Ht.Bare.{Bare, inc}
use draugr_repo.Ht.Bare.Weigh.{weigh, sum_to, sum_to-push, sum_to_ext, in_lane}
use draugr_repo.Ht.Bare.Valid.{IsValid, IsProper, Stored, one_each, size-lt}
use draugr_repo.Ht.Bare.Spill.{
  bare_spill_grow, grown_lane, grown_cap, spill_append, bare_spill_insert,
}

module _ (t : Bare) (valid : IsValid t) where
  pub spill_append-Stored :
      (h v : ℕ) → h < 2 ^ 48 → t.spill_len < t.spill_cap → Stored t h v (spill_append t h v)
  unfolding spill_append weigh
  spill_append-Stored h v fits room =
      let grows : inc t.spill_len ≡ suc t.spill_len = omega arith in
      let added : (f : ℕ → ℕ → ℕ)
          → sum_to (in_lane f) (inc t.spill_len) (set t.spill_hash_pd t.spill_len (hpd_pack h 0))
              (set t.spill_vals t.spill_len v)
            ≡ sum_to (in_lane f) t.spill_len t.spill_hash_pd t.spill_vals + f h v =
        λ f. rw (
          grows,
          sum_to-push (in_lane f) t.spill_len t.spill_hash_pd t.spill_vals (hpd_pack h 0) v
              (omega arith) (omega arith),
          hpd_hash-pack h 0 fits (omega arith),
        ) in
      (
        record {
          slots = valid.slots;
          slot_vals = valid.slot_vals;
          lane = omega (arith, length-set t.spill_hash_pd t.spill_len (hpd_pack h 0));
          lane_vals = omega (arith, length-set t.spill_vals t.spill_len v);
          stash = valid.stash;
          stash_vals = valid.stash_vals;
          lane_in = omega arith;
          stash_in = valid.stash_in;
          small = valid.small;
          lane_small = valid.lane_small;
          counted = omega (arith, added one_each, size-lt valid);
        },
        λ f. omega (arith, added f),
      )

  -- A grown lane is valid, holds the same entries, and has room for one more.
  abbrev pub Grown : Bool × Bare → Type 0
  Grown (true, t') =
      IsValid t'
      × ((f : ℕ → ℕ → ℕ) → weigh f t' ≡ weigh f t)
      × (t'.spill_len < t'.spill_cap)
      × (IsProper t → IsProper t')
  Grown (false, t') = t' ≡ t

  grown_lane-weigh : (new_cap : ℕ) (f : ℕ → ℕ → ℕ) → weigh f (grown_lane t new_cap) ≡ weigh f t
  unfolding grown_lane weigh
  grown_lane-weigh new_cap f =
      let n = new_cap - t.spill_cap in
      let same : sum_to (in_lane f) t.spill_len (t.spill_hash_pd ++ replicate n 0)
            (t.spill_vals ++ replicate n val_none)
          ≡ sum_to (in_lane f) t.spill_len t.spill_hash_pd t.spill_vals =
        sum_to_ext (in_lane f) t.spill_len t.spill_hash_pd t.spill_vals
          (t.spill_hash_pd ++ replicate n 0) (t.spill_vals ++ replicate n val_none)
          (λ j h. get_or-append_left t.spill_hash_pd (replicate n 0) j 0 (omega arith))
          (λ j h. get_or-append_left t.spill_vals (replicate n val_none) j 0 (omega arith)) in
      omega (arith, same)

  grown_lane-IsValid :
      (new_cap : ℕ) → t.spill_cap ≤ new_cap → new_cap ≤ 2 ^ 60 → IsValid (grown_lane t new_cap)
  unfolding grown_lane
  grown_lane-IsValid new_cap wider small =
      let n = new_cap - t.spill_cap in
      record {
        slots = valid.slots;
        slot_vals = valid.slot_vals;
        lane =
            omega
              (arith, length-append t.spill_hash_pd (replicate n 0), length-replicate {A = ℕ} n 0);
        lane_vals = omega (
          arith,
          length-append t.spill_vals (replicate n val_none),
          length-replicate {A = ℕ} n val_none,
        );
        stash = valid.stash;
        stash_vals = valid.stash_vals;
        lane_in = omega arith;
        stash_in = valid.stash_in;
        small = valid.small;
        lane_small = small;
        counted = omega (arith, grown_lane-weigh new_cap one_each, valid.counted);
      }

  grown_lane-IsProper : (new_cap : ℕ) → IsProper t → IsProper (grown_lane t new_cap)
  unfolding grown_lane
  grown_lane-IsProper new_cap p = record {
    stash_live = p.stash_live;
    lane_valued = λ i below.
        rw
          (get_or-append_left t.spill_vals (replicate (new_cap - t.spill_cap) val_none) i 0
            (omega (arith, valid.lane_vals, valid.lane_in)))
          (p.lane_valued i below);
  }

  pub grown_cap_bounds :
      t.spill_cap ≤ 2 ^ 59
      → (t.spill_cap < grown_cap t.spill_cap) × (grown_cap t.spill_cap ≤ 2 ^ 60)
  unfolding grown_cap
  grown_cap_bounds small = ground arith

  pub bare_spill_grow-Grown :
      (malloc : ℕ → Bool) → t.spill_cap ≤ 2 ^ 59 → Grown (bare_spill_grow malloc t)
  bare_spill_grow-Grown malloc small =
      let c = grown_cap t.spill_cap in
      let bounds = grown_cap_bounds small in
      let done : Grown (true, grown_lane t c) = (
        grown_lane-IsValid c (omega arith) (omega arith),
        grown_lane-weigh c,
        unfold grown_lane in omega arith,
        grown_lane-IsProper c,
      ) in
      elim (Bool-cases (ltb 0 c && not (u64 (c * 12) / c == 12))) [
        | inl wraps ↦ unfold bare_spill_grow in rw wraps refl
        | inr fits ↦ elim (Bool-cases (malloc (u64 (c * 12)))) [
          | inl given ↦ unfold bare_spill_grow in rw (fits, given) done
          | inr refused ↦ unfold bare_spill_grow in rw (fits, refused) refl
        ]
      ]

-- Storing in a grown lane is storing in the lane before.
Stored-grown :
    (t t' : Bare) (h v : ℕ) (r : Bool × Bare)
    → ((f : ℕ → ℕ → ℕ) → weigh f t' ≡ weigh f t)
    → (r.0 ≡ true)
    → Stored t' h v r
    → Stored t h v r
Stored-grown t t' h v (true, u) same done stored =
    (stored.0, λ f. stored.1 f ∙ ap (λ (n : ℕ). n + f h v) (same f))
Stored-grown t t' h v (false, u) same done stored = cc

grow_then_append-Stored :
    (t : Bare) (valid : IsValid t) (h v : ℕ) (r : Bool × Bare)
    → h < 2 ^ 48
    → Grown t valid r
    → Stored t h v (if r.0 then spill_append r.1 h v else (false, r.1))
grow_then_append-Stored t valid h v (true, t') fits (valid', same, room, kept) =
    Stored-grown t t' h v (spill_append t' h v) same (unfold spill_append in refl)
      (spill_append-Stored t' valid' h v fits room)
grow_then_append-Stored t valid h v (false, t') fits e = e

-- Storing a hash of 48 bits in the spill lane of a valid table with at most 2 ^ 59 places
-- there either succeeds, the table staying valid and its contents gaining that entry and no
-- other, also where the lane has to grow; or it fails and the table is unchanged.
pub bare_spill_insert-Stored :
    (malloc : ℕ → Bool) (t : Bare) (h v : ℕ)
    → IsValid t
    → t.spill_cap ≤ 2 ^ 59
    → h < 2 ^ 48
    → Stored t h v (bare_spill_insert malloc t h v)
bare_spill_insert-Stored malloc t h v valid small fits =
    elim (Bool-cases (leb t.spill_cap t.spill_len)) [
      | inl full ↦
          let grown =
            grow_then_append-Stored t valid h v (bare_spill_grow malloc t) fits
              (bare_spill_grow-Grown t valid malloc small) in
          unfold bare_spill_insert in rw full grown
      | inr room ↦
          unfold bare_spill_insert in rw room (spill_append-Stored t valid h v fits (ground arith))
    ]
