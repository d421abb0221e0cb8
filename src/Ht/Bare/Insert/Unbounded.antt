-- ===== src/Ht/Bare/Insert/Unbounded.antt =====
-- The unbounded insertion ends and stores the entry, if the table has an empty slot.
use draugr_repo.Base.{ℕ, zero, suc, ◌^◌, ◌<◌, ◌≤◌, ◌≡◌, refl, arith, Bool, true, Option, none, some}
use draugr_repo.Base.{inl, inr, Bool-cases, get_or, ltb, ◌&&◌}
use draugr_repo.Ht.Slot.{hpd_pd, hpd_empty, hpd_tomb, hpd_available}
use draugr_repo.Ht.Bare.{Bare, ideal_slot}
use draugr_repo.Ht.Bare.Valid.{IsValid}
use draugr_repo.Ht.Bare.Insert.{
  Hand, Step, unbounded_step, unbounded_loop, bare_rh_insert_unbounded, blocked,
}
use draugr_repo.Ht.Bare.Insert.Slots.{IsPow2, ideal_slot-lt, way_to}
use draugr_repo.Ht.Bare.Insert.Placing.{
  CanPlace, Places, Exchanges, Ends, EmptyAt-zero, empty-free, place-Places, next-Exchanges,
  displace-Exchanges, probe_on-next, Ends-Exchanges,
}

-- What a round does, with an empty slot `n` places on.
abbrev pub Advances : Bare → Hand → ℕ → Step → Type 0
Advances t p n (Step.done ok t') = (ok ≡ true) × Places t t' p
Advances t p zero (Step.again t' p') = ⊥
Advances t p (suc n) (Step.again t' p') = Exchanges t t' p p' n
Advances t p n (Step.fallback t' p') = ⊥

step-Advances :
    (grow : Bare → Bool × Bare) (t : Bare) (p : Hand) (n : ℕ)
    → CanPlace t p n
    → Advances t p n (unbounded_step grow t p)
unfolding unbounded_step
step-Advances grow t p zero can =
    let (free, whole) = empty-free (get_or t.hash_pd p.idx 0) (EmptyAt-zero t p can) in
    rw (free, whole) (refl, (rw whole at (place-Places t p can free)))
step-Advances grow t p (suc n) can =
    let slot = get_or t.hash_pd p.idx 0 in
    elim (Bool-cases (hpd_available slot)) [
      | inl free ↦ elim (Bool-cases (hpd_tomb slot && blocked t p.idx p.dist)) [
        | inl stop ↦ rw (free, stop) (next-Exchanges t p n can)
        | inr go ↦ rw (free, go) (refl, place-Places t p can free)
      ]
      | inr taken ↦ elim (Bool-cases (ltb (hpd_pd slot) p.dist)) [
        | inl richer ↦ rw (taken, richer) (displace-Exchanges t p n can taken (ground arith))
        | inr poorer ↦ rw (taken, poorer, probe_on-next grow t p n can) (next-Exchanges t p n can)
      ]
    ]

unbounded_loop-Ends :
    (grow : Bare → Bool × Bare) (fuel n : ℕ) (t : Bare) (p : Hand)
    → n < fuel
    → CanPlace t p n
    → Ends t p (unbounded_loop grow fuel t p)
unfolding unbounded_loop
unbounded_loop-Ends grow zero n t p h can = absurd (omega arith)
unbounded_loop-Ends grow (suc fuel) n t p h can =
    go n (unbounded_step grow t p) h (step-Advances grow t p n can) (unbounded_loop-Ends grow fuel)
  where
    next : Step → Option (Bool × Bare)
    next s = elim s [
      | Step.done ok t' ↦ some (ok, t')
      | Step.again t' p' ↦ unbounded_loop grow fuel t' p'
      | Step.fallback t' p' ↦ none
    ]

    go :
        (n : ℕ) (s : Step)
        → n < suc fuel
        → Advances t p n s
        → ((n : ℕ) (t : Bare) (p : Hand)
            → n < fuel
            → CanPlace t p n
            → Ends t p (unbounded_loop grow fuel t p))
        → Ends t p (next s)
    go zero (Step.done ok t') h (e, places) ih = record {
      final = t';
      returns = rw e;
      places = places;
    }
    go (suc n) (Step.done ok t') h (e, places) ih = record {
      final = t';
      returns = rw e;
      places = places;
    }
    go zero (Step.again t' p') h a ih = elim a [ ]
    go (suc n) (Step.again t' p') h x ih =
        Ends-Exchanges t t' p p' n _ x (ih n t' p' (omega arith) x.ready)
    go zero (Step.fallback t' p') h a ih = elim a [ ]
    go (suc n) (Step.fallback t' p') h a ih = elim a [ ]

-- In a valid table of at most 2 ^ 16 slots, a power of two, slot `j` being empty, the unbounded
-- insertion of a hash of 48 bits that is no sentinel ends within as many rounds and returns true;
-- the table stays valid with its capacity, and its contents gain that entry and no other.
pub bare_rh_insert_unbounded-Ends :
    (grow : Bare → Bool × Bare) (fuel : ℕ) (t : Bare) (h48 val j : ℕ)
    → IsValid t
    → IsPow2 t.capacity
    → t.capacity ≤ 2 ^ 16
    → t.capacity ≤ fuel
    → 2 ≤ h48
    → h48 < 2 ^ 48
    → j < t.capacity
    → hpd_empty (get_or t.hash_pd j 0) ≡ true
    → Ends t
        (record { h48 = h48; val = val; idx = ideal_slot t.capacity h48; dist = 0 })
        (bare_rh_insert_unbounded grow fuel t h48 val)
unfolding bare_rh_insert_unbounded
bare_rh_insert_unbounded-Ends grow fuel t h48 val j valid pow2 small enough live fits inside empty =
    let start = ideal_slot-lt t.capacity h48 pow2 in
    let (n, near, there) = way_to t.capacity (ideal_slot t.capacity h48) j start inside in
    unbounded_loop-Ends grow fuel n t _ (omega arith) (record {
      valid = valid;
      pow2 = pow2;
      live = live;
      fits = fits;
      inside = start;
      short = near;
      dist_small = omega arith;
      dist_in = omega arith;
      empty = rw there empty;
    })
