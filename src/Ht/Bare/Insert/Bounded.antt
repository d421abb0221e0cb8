-- ===== src/Ht/Bare/Insert/Bounded.antt =====
-- The bounded insertion ends and stores the entry, in a slot or in the overflow stash, or through
-- the unbounded insertion.
use draugr_repo.Base.{
  ℕ, zero, suc, ◌+◌, ◌^◌, ◌<◌, ◌≤◌, ◌≡◌, arith, ◌∙◌, Bool, true, false, Option, some,
}
use draugr_repo.Base.{get_or, ◌==◌}
use draugr_repo.Ht.Slot.{hpd_empty}
use draugr_repo.Ht.Bare.{Bare, ideal_slot}
use draugr_repo.Ht.Bare.Weigh.{weigh}
use draugr_repo.Ht.Bare.Valid.{IsValid}
use draugr_repo.Ht.Bare.Insert.{
  Hand, Step, bounded_step, bounded_loop, bare_rh_insert_bounded, bare_rh_insert_unbounded,
}
use draugr_repo.Ht.Bare.Insert.Frame.{Frame-trans}
use draugr_repo.Ht.Bare.Insert.Slots.{IsPow2, ideal_slot-lt, way_to}
use draugr_repo.Ht.Bare.Insert.Placing.{CanPlace, Ends, Ends-Exchanges}
use draugr_repo.Ht.Bare.Insert.Unbounded.{bare_rh_insert_unbounded-Ends}
use draugr_repo.Ht.Bare.Insert.Overflow.{Carries, Advances, step-Advances}

-- After the fallback the unbounded insertion starts anew.
fallback-Ends :
    (grow : Bare → Bool × Bare) (full : ℕ) (t t' : Bare) (p p' : Hand)
    → IsPow2 t.capacity
    → t.capacity ≤ 2 ^ 16
    → t.capacity ≤ full
    → Carries t t' p p'
    → Ends t p (bare_rh_insert_unbounded grow full t' p'.h48 p'.val)
fallback-Ends grow full t t' p p' pow2 small enough c =
    let e =
      bare_rh_insert_unbounded-Ends grow full t' p'.h48 p'.val c.gap c.valid (rw c.capacity pow2)
        (omega (arith, c.capacity)) (omega (arith, c.capacity)) c.live c.fits c.gap_in
        c.gap_empty in
    record {
      final = e.final;
      returns = e.returns;
      places = record {
        valid = e.places.valid;
        added = λ f. e.places.added f ∙ c.same f;
        capacity = e.places.capacity ∙ c.capacity;
        framed = Frame-trans c.framed e.places.framed;
      };
    }

bounded_loop-Ends :
    (grow : Bare → Bool × Bare) (full fuel n : ℕ) (t : Bare) (p : Hand)
    → n < fuel
    → t.capacity ≤ 2 ^ 16
    → t.capacity ≤ full
    → CanPlace t p n
    → Ends t p (bounded_loop grow full fuel t p)
unfolding bounded_loop
bounded_loop-Ends grow full zero n t p h small enough can = absurd (omega arith)
bounded_loop-Ends grow full (suc fuel) n t p h small enough can =
    go (bounded_step grow t p) (step-Advances grow t p n can)
      (λ t' p' m. bounded_loop-Ends grow full fuel m t' p')
  where
    next : Step → Option (Bool × Bare)
    next s = elim s [
      | Step.done ok t' ↦ some (ok, t')
      | Step.again t' p' ↦ bounded_loop grow full fuel t' p'
      | Step.fallback t' p' ↦ bare_rh_insert_unbounded grow full t' p'.h48 p'.val
    ]

    go :
        (s : Step)
        → Advances t p n s
        → ((t' : Bare) (p' : Hand) (m : ℕ)
            → m < fuel
            → t'.capacity ≤ 2 ^ 16
            → t'.capacity ≤ full
            → CanPlace t' p' m
            → Ends t' p' (bounded_loop grow full fuel t' p'))
        → Ends t p (next s)
    go (Step.done ok t') (e, places) ih = record { final = t'; returns = rw e; places = places }
    go (Step.again t' p') (m, e, x) ih =
        Ends-Exchanges t t' p p' m _ x
          (ih t' p' m (omega arith) (omega (arith, x.capacity)) (omega (arith, x.capacity)) x.ready)
    go (Step.fallback t' p') c ih = fallback-Ends grow full t t' p p' can.pow2 small enough c

-- The bounded insertion of a hash, with what it leaves as it is.
pub bare_rh_insert_bounded-Ends :
    (grow : Bare → Bool × Bare) (fuel : ℕ) (t : Bare) (h48 val j : ℕ)
    → IsValid t
    → IsPow2 t.capacity
    → t.capacity ≤ 2 ^ 16
    → t.capacity ≤ fuel
    → 2 ≤ h48
    → h48 < 2 ^ 48
    → j < t.capacity
    → hpd_empty (get_or t.hash_pd j 0) ≡ true
    → Ends t
        (record { h48 = h48; val = val; idx = ideal_slot t.capacity h48; dist = 0 })
        (bare_rh_insert_bounded grow fuel t h48 val)
unfolding bare_rh_insert_bounded
bare_rh_insert_bounded-Ends grow fuel t h48 val j valid pow2 small enough live fits inside empty =
    let start = ideal_slot-lt t.capacity h48 pow2 in
    let (n, near, there) = way_to t.capacity (ideal_slot t.capacity h48) j start inside in
    let nonzero : (t.capacity == 0) ≡ false = ground arith in
    rw nonzero (
      bounded_loop-Ends grow fuel fuel n t
        (record { h48 = h48; val = val; idx = ideal_slot t.capacity h48; dist = 0 }) (omega arith)
        small enough
        (record {
          valid = valid;
          pow2 = pow2;
          live = live;
          fits = fits;
          inside = start;
          short = near;
          dist_small = omega arith;
          dist_in = omega arith;
          empty = rw there empty;
        }))

-- In a valid table of at most 2 ^ 16 slots, a power of two, one of them empty, the bounded
-- insertion of a hash of 48 bits that is no sentinel ends within as many rounds and returns true,
-- whatever the probe limit, the state of the stash and the resize function are. The table stays
-- valid, and its contents gain that entry and no other.
pub bare_rh_insert_bounded-stores :
    (grow : Bare → Bool × Bare) (fuel : ℕ) (t : Bare) (h48 val j : ℕ)
    → IsValid t
    → IsPow2 t.capacity
    → t.capacity ≤ 2 ^ 16
    → t.capacity ≤ fuel
    → 2 ≤ h48
    → h48 < 2 ^ 48
    → j < t.capacity
    → hpd_empty (get_or t.hash_pd j 0) ≡ true
    → (t' : Bare) × (bare_rh_insert_bounded grow fuel t h48 val ≡ some (true, t'))
      × IsValid t'
      × ((f : ℕ → ℕ → ℕ) → weigh f t' ≡ weigh f t + f h48 val)
bare_rh_insert_bounded-stores grow fuel t h48 val j valid pow2 small enough live fits inside empty =
    let e =
      bare_rh_insert_bounded-Ends grow fuel t h48 val j valid pow2 small enough live fits inside
        empty in
    (e.final, e.returns, e.places.valid, e.places.added)
