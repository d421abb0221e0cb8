-- ===== src/Ht/Bare/Resize/Refill.antt =====
-- The rounds of the reinsertion: the table that is filled gains the entries of the old one, in the
-- order slots, spill lane, stash.
use native.Mathlib.Decide.{ℕ_discrete}
use draugr_repo.Base.{
  ℕ, zero, suc, ◌+◌, ◌^◌, ◌<◌, ◌≤◌, ◌≡◌, ◌≢◌, refl, arith, ◌∙◌, Bool, false, List,
}
use draugr_repo.Base.{inl, inr, Bool-cases, get_or, ◌==◌, Gives}
use draugr_repo.Ht.Slot.{hpd_hash, hpd_live, val_none}
use draugr_repo.Ht.Slot.Laws.{hpd_hash-lt}
use draugr_repo.Ht.Bare.{Bare}
use draugr_repo.Ht.Bare.Weigh.{weigh, sum_to, in_slot, in_lane}
use draugr_repo.Ht.Bare.Valid.{IsValid, IsProper, one_each}
use draugr_repo.Ht.Bare.Spill.Proper.{spill_insert_fits}
use draugr_repo.Ht.Bare.Insert.{bare_rh_insert_bounded}
use draugr_repo.Ht.Bare.Insert.Slots.{IsPow2}
use draugr_repo.Ht.Bare.Insert.Frame.{NoTombs, gap_below}
use draugr_repo.Ht.Bare.Insert.Bounded.{bare_rh_insert_bounded-Ends}
use draugr_repo.Ht.Bare.Shift.Freed.{in_slot-dead, in_slot-live, live-ge-two}
use draugr_repo.Ht.Bare.Resize.{effect, reinsert_slot, reinsert_stashed, reinsert_spilled}

-- A table of `cap` slots without tombstones, with `base` in it, at most `len` entries in a spill
-- lane of `lane` places, and the probe limit `limit`.
pub record Filling (cap len lane limit : ℕ) (base : (ℕ → ℕ → ℕ) → ℕ) (t : Bare) : Type 0 where
  pub valid : IsValid t
  pub capacity : t.capacity ≡ cap
  pub lane_in : t.spill_len ≤ len
  pub lane_cap : t.spill_cap ≡ lane
  pub limit_is : t.max_probe_dist ≡ limit
  pub no_tombs : NoTombs t
  pub proper : IsProper t
  pub same : (f : ℕ → ℕ → ℕ) → weigh f t ≡ base f

pub Filling-as :
    {cap len len' lane limit : ℕ} {base base' : (ℕ → ℕ → ℕ) → ℕ} {t : Bare}
    → len ≤ len'
    → ((f : ℕ → ℕ → ℕ) → base f ≡ base' f)
    → Filling cap len lane limit base t
    → Filling cap len' lane limit base' t
Filling-as wider e x = record {
  valid = x.valid;
  capacity = x.capacity;
  lane_in = omega (arith, x.lane_in);
  lane_cap = x.lane_cap;
  limit_is = x.limit_is;
  no_tombs = x.no_tombs;
  proper = x.proper;
  same = λ f. x.same f ∙ e f;
}

-- A sum rises where a term is 1.
pub sum_to-rise :
    (g : ℕ → ℕ → ℕ) (n i : ℕ) (xs ys : List ℕ)
    → i < n
    → g (get_or xs i 0) (get_or ys i 0) ≡ 1
    → sum_to g i xs ys < sum_to g n xs ys
unfolding sum_to
sum_to-rise g zero i xs ys below one = absurd (omega arith)
sum_to-rise g (suc n) i xs ys below one = elim (ℕ_discrete i n) [
  | yes e ↦ rw e (omega (arith, (rw e at one)))
  | no ne ↦ omega (arith, sum_to-rise g n i xs ys (omega arith) one)
]

module _ (grow : Bare → Bool × Bare) (cap len lane limit : ℕ) (pow2 : IsPow2 cap)
    (small : cap ≤ 2 ^ 16) where
  insert-Filling :
      (base : (ℕ → ℕ → ℕ) → ℕ) (t : Bare) (h v : ℕ)
      → Filling cap len lane limit base t
      → base one_each < cap
      → 2 ≤ h
      → h < 2 ^ 48
      → Gives
          (Filling cap len lane limit (λ f. base f + f h v))
          (effect (bare_rh_insert_bounded grow cap t h v))
  insert-Filling base t h v x room live fits =
      let (j, inside, empty) =
        gap_below t x.no_tombs (omega (arith, x.same one_each, x.capacity)) in
      let e =
        bare_rh_insert_bounded-Ends grow cap t h v j x.valid (rw x.capacity pow2)
          (omega (arith, x.capacity)) (omega (arith, x.capacity)) live fits inside empty in
      (
        e.final,
        rw e.returns refl,
        record {
          valid = e.places.valid;
          capacity = e.places.capacity ∙ x.capacity;
          lane_in = omega (arith, x.lane_in, e.places.framed.lane);
          lane_cap = e.places.framed.lane_cap ∙ x.lane_cap;
          limit_is = e.places.framed.limit ∙ x.limit_is;
          no_tombs = e.places.framed.no_tombs x.no_tombs;
          proper = e.places.framed.proper x.proper;
          same = λ f. omega (arith, e.places.added f, x.same f);
        },
      )

  module _ (xs ys : List ℕ) (n : ℕ) (before : (ℕ → ℕ → ℕ) → ℕ) where
    pub reinsert_slot-Filling :
        (i : ℕ) (t : Bare)
        → i < n
        → before one_each + sum_to (in_slot one_each) n xs ys ≤ cap
        → Filling cap len lane limit (λ f. before f + sum_to (in_slot f) i xs ys) t
        → Gives
            (Filling cap len lane limit (λ f. before f + sum_to (in_slot f) (suc i) xs ys))
            (reinsert_slot grow cap xs ys i t)
    unfolding reinsert_slot sum_to
    reinsert_slot-Filling i t below room x =
        let hpd = get_or xs i 0 in
        let val = get_or ys i 0 in
        elim (Bool-cases (hpd_live hpd)) [
          | inl live ↦
              let (u, ends, y) =
                insert-Filling _ t (hpd_hash hpd) val x
                  (omega (
                    arith,
                    room,
                    sum_to-rise (in_slot one_each) n i xs ys below
                        (in_slot-live one_each hpd val live),
                  ))
                  (live-ge-two hpd live) (hpd_hash-lt hpd) in
              (
                u,
                rw live ends,
                Filling-as (omega arith) (λ f. omega (arith, in_slot-live f hpd val live)) y,
              )
          | inr dead ↦ (
            t,
            rw dead refl,
            Filling-as (omega arith) (λ f. omega (arith, in_slot-dead f hpd val dead)) x,
          )
        ]

    pub reinsert_stashed-Filling :
        (i : ℕ) (t : Bare)
        → i < n
        → 2 ≤ hpd_hash (get_or xs i 0)
        → before one_each + sum_to (in_lane one_each) n xs ys ≤ cap
        → Filling cap len lane limit (λ f. before f + sum_to (in_lane f) i xs ys) t
        → Gives
            (Filling cap len lane limit (λ f. before f + sum_to (in_lane f) (suc i) xs ys))
            (reinsert_stashed grow cap xs ys i t)
    unfolding reinsert_stashed sum_to
    reinsert_stashed-Filling i t below live room x =
        let hpd = get_or xs i 0 in
        let (u, ends, y) =
          insert-Filling _ t (hpd_hash hpd) (get_or ys i 0) x
            (omega (arith, room, sum_to-rise (in_lane one_each) n i xs ys below refl)) live
            (hpd_hash-lt hpd) in
        (u, ends, Filling-as (omega arith) (λ f. omega arith) y)

-- The lane of the new table has the places for all entries of the old one.
pub reinsert_spilled-Filling :
    (malloc : ℕ → Bool) (cap lane limit : ℕ) (before : (ℕ → ℕ → ℕ) → ℕ) (xs ys : List ℕ) (i : ℕ)
    (t : Bare)
    → i < lane
    → get_or ys i 0 ≢ val_none
    → Filling cap i lane limit (λ f. before f + sum_to (in_lane f) i xs ys) t
    → Gives
        (Filling cap (suc i) lane limit (λ f. before f + sum_to (in_lane f) (suc i) xs ys))
        (reinsert_spilled malloc xs ys i t)
unfolding reinsert_spilled sum_to
reinsert_spilled-Filling malloc cap lane limit before xs ys i t below valued x =
    let hpd = get_or xs i 0 in
    let val = get_or ys i 0 in
    let kept : (val == val_none) ≡ false = ground (arith, valued) in
    let s =
      spill_insert_fits malloc t (hpd_hash hpd) val x.valid (hpd_hash-lt hpd)
        (omega (arith, x.lane_in, x.lane_cap)) in
    (
      _,
      rw kept refl,
      record {
        valid = s.valid;
        capacity = s.capacity ∙ x.capacity;
        lane_in = omega (arith, s.longer, x.lane_in);
        lane_cap = s.lane_cap ∙ x.lane_cap;
        limit_is = s.limit ∙ x.limit_is;
        no_tombs = rw s.slots x.no_tombs;
        proper = s.proper valued x.proper;
        same = λ f. omega (arith, s.added f, x.same f);
      },
    )
