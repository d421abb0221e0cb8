-- ===== src/Ht/Bare/Growth/Stored.antt =====
-- `ht_bare_insert` ends and stores the entry, or fails and keeps what there was.
use mathlib.Core.Bool.{true≢false}
use draugr_repo.Base.{
  ℕ, ◌+◌, ◌-◌, ◌*◌, ◌/◌, ◌^◌, ◌<◌, ◌≤◌, ◌≡◌, refl, arith, sym, ap, ◌∙◌, Bool, true, false, not,
  ◌&&◌, Option,
}
use draugr_repo.Base.{inl, inr, Bool-cases, ltb, le→ltb, ◌==◌, u64, Gives}
use draugr_repo.Ht.Bare.{Bare, stash_cap}
use draugr_repo.Ht.Bare.Weigh.{weigh, sum_to-le, in_slot, in_slot-le}
use draugr_repo.Ht.Bare.Valid.{IsValid, IsProper, Stored, one_each}
use draugr_repo.Ht.Bare.Insert.Slots.{IsPow2}
use draugr_repo.Ht.Bare.Insert.Frame.{gaps, first_gap}
use draugr_repo.Ht.Bare.Insert.Bounded.{bare_rh_insert_bounded-Ends}
use draugr_repo.Ht.Bare.Resize.{
  bare_alloc_main_block, has_blocks, new_lane, resized_capacity, ht_bare_resize,
}
use draugr_repo.Ht.Bare.Resize.Sized.{IsRoomy, Resized}
use draugr_repo.Ht.Bare.Resize.Checked.{in_main, ht_bare_resize-Resized}
use draugr_repo.Ht.Bare.Growth.{relieve, reserve, reserve_unless, insert_unless}
use draugr_repo.Pow2.Least.{CountsZeros}

-- A valid table with an empty slot and the entries of `t`.
pub record IsReady (t t' : Bare) : Type 0 where
  pub valid : IsValid t'
  pub proper : IsProper t'
  pub pow2 : IsPow2 t'.capacity
  pub small : t'.capacity ≤ 2 ^ 16
  pub gap : 1 ≤ gaps t'
  pub same : (f : ℕ → ℕ → ℕ) → weigh f t' ≡ weigh f t

-- Every allocation is served, and the table is not being resized.
pub record IsServed (calloc malloc : ℕ → ℕ → Bool) (t : Bare) : Type 0 where
  pub zeroed : (k n : ℕ) → calloc k n ≡ true
  pub raw : (k n : ℕ) → malloc k n ≡ true
  pub idle : t.resizing ≡ false

has_blocks-served :
    (calloc malloc : ℕ → ℕ → Bool) (k : ℕ) (t : Bare) (cap : ℕ)
    → IsServed calloc malloc t
    → 4 ≤ cap
    → cap ≤ 2 ^ 16
    → has_blocks (calloc k) (malloc k) t cap ≡ true
unfolding has_blocks bare_alloc_main_block
has_blocks-served calloc malloc k t cap s low high =
    let below : ltb ((2 ^ 64 - 1) / 12) cap ≡ false =
      le→ltb ((2 ^ 64 - 1) / 12) cap (omega arith) in
    let some_bytes : (cap * 12 == 0) ≡ false = ground arith in
    rw (below, some_bytes, s.zeroed k (cap * 12), s.raw k (u64 (new_lane t.spill_len * 12))) refl

module _ (calloc malloc : ℕ → ℕ → Bool) (t : Bare) where
  -- A call on the way to the insertion: the table is ready, and with memory the call succeeds.
  pub record OnWay (r : Bool × Bare) : Type 0 where
    pub ready : IsReady t r.1
    pub done : IsServed calloc malloc t → (r.0 ≡ true) × (r.1.resizing ≡ false)

  granted-OnWay :
      (u : Bare) (cap : ℕ) (given : Bool) (r : Bool × Bare)
      → OnWay (true, u)
      → (IsServed calloc malloc t → given ≡ true)
      → IsRoomy u.size cap
      → Resized u cap given r
      → OnWay r
  granted-OnWay u cap true (ok, t') way served roomy (e, rebuilt, idle, gap) = record {
    ready = record {
      valid = rebuilt.valid;
      proper = rebuilt.proper;
      pow2 = rw rebuilt.capacity roomy.pow2;
      small = omega (arith, rebuilt.capacity, roomy.small);
      gap = gap;
      same = λ f. rebuilt.same f ∙ way.ready.same f;
    };
    done = λ s. (e, idle);
  }
  granted-OnWay u cap false r way served roomy e =
      rw e (record { ready = way.ready; done = λ s. absurd (true≢false (sym (served s))) })

  module _ (clz : Option (ℕ → ℕ)) (raw : Bare → ℕ) (spacing : (u : Bare) → raw u ≤ 2 ^ 62)
      (z : CountsZeros clz) (few : t.size ≤ 2 ^ 15) where
    resize-OnWay :
        (k : ℕ) (u : Bare)
        → IsValid t
        → OnWay (true, u)
        → Gives OnWay (ht_bare_resize clz (calloc k) (malloc k) raw u (u64 (u.capacity * 2)))
    resize-OnWay k u valid way =
        let same_size : u.size ≡ t.size =
          omega (arith, way.ready.valid.counted, valid.counted, way.ready.same one_each) in
        let (roomy, (r, ends, out)) =
          ht_bare_resize-Resized (calloc k) (malloc k) raw u way.ready.valid way.ready.proper
            spacing clz (u64 (u.capacity * 2)) z (omega (arith, same_size)) in
        let bound = sum_to-le (in_slot one_each) u.capacity u.hash_pd u.vals in_slot-le in
        let fits : ltb (u64 (u.capacity * 2)) (in_main u) ≡ false =
          le→ltb (u64 (u.capacity * 2)) (in_main u) (omega (arith, bound, way.ready.small)) in
        let given : IsServed calloc malloc t
            → (not (ltb (u64 (u.capacity * 2)) (in_main u))
                && not u.resizing
                && has_blocks (calloc k) (malloc k) u (resized_capacity clz u.size))
              ≡ true =
          λ s.
            (let idle = (way.done s).1 in
              let blocks =
                has_blocks-served calloc malloc k u (resized_capacity clz u.size)
                  (record { zeroed = s.zeroed; raw = s.raw; idle = idle }) roomy.least
                  roomy.small in
              all_three _ _ _ fits idle blocks) in
        (r, ends, granted-OnWay u (resized_capacity clz u.size) _ r way given roomy out)
      where
        all_three : (a b c : Bool) → a ≡ false → b ≡ false → c ≡ true → (not a && not b && c) ≡ true
        all_three a b c p q r = cc

    module _ (overloaded : Bare → ℕ → Bool) (grow : Bare → Bool × Bare) where
      pub relieve-OnWay :
          OnWay (true, t) → Gives OnWay (relieve clz calloc malloc raw overloaded grow t)
      unfolding relieve
      relieve-OnWay way =
          let main_live = u64 (u64 (t.size + 2 ^ 64 - t.spill_len) + 2 ^ 64 - t.overflow_len) in
          let below : ltb ((2 ^ 64 - 1) / 2) t.capacity ≡ false =
            le→ltb ((2 ^ 64 - 1) / 2) t.capacity (omega (arith, way.ready.small)) in
          elim (Bool-cases (not t.resizing && overloaded t main_live)) [
            | inl over ↦ rw (over, below) (resize-OnWay 0 t way.ready.valid way)
            | inr under ↦ rw under ((true, t), refl, way)
          ]

      pub reserve_unless-OnWay :
          (r : Bool × Bare)
          → IsValid t
          → OnWay r
          → Gives OnWay (reserve_unless clz calloc malloc raw overloaded grow r)
      unfolding reserve_unless reserve
      reserve_unless-OnWay (true, u) valid way =
          elim (Bool-cases (ltb 0 u.max_probe_dist && u.overflow_len == stash_cap)) [
            | inl full ↦ rw full (resize-OnWay 1 u valid way)
            | inr room ↦ rw room ((true, u), refl, way)
          ]
      reserve_unless-OnWay (false, u) valid way = ((false, u), refl, way)

-- The contents gain the entry, or they are what they were.
abbrev pub Inserted : Bare → ℕ → ℕ → Bool × Bare → Type 0
Inserted t h v (true, t') =
    IsValid t'
    × IsProper t'
    × IsPow2 t'.capacity
    × ((f : ℕ → ℕ → ℕ) → weigh f t' ≡ weigh f t + f h v)
Inserted t h v (false, t') =
    IsValid t' × IsProper t' × IsPow2 t'.capacity × ((f : ℕ → ℕ → ℕ) → weigh f t' ≡ weigh f t)

abbrev pub Ending : (ℕ → ℕ → Bool) → (ℕ → ℕ → Bool) → Bare → ℕ → ℕ → Bool × Bare → Type 0
Ending calloc malloc t h v r = Inserted t h v r × (IsServed calloc malloc t → r.0 ≡ true)

module _ (calloc malloc : ℕ → ℕ → Bool) (t : Bare) (h v : ℕ) where
  pub insert_unless-Ending :
      (clz : Option (ℕ → ℕ)) (raw : Bare → ℕ) (overloaded : Bare → ℕ → Bool)
      (grow : Bare → Bool × Bare) (r : Bool × Bare)
      → OnWay calloc malloc t r
      → 2 ≤ h
      → h < 2 ^ 48
      → Gives
          (Ending calloc malloc t h v)
          (insert_unless clz calloc malloc raw overloaded grow h v r)
  unfolding insert_unless
  insert_unless-Ending clz raw overloaded grow (true, u) way live fits =
      let x = way.ready in
      let (j, inside, empty) = first_gap u u.capacity x.gap in
      let e =
        bare_rh_insert_bounded-Ends grow u.capacity u h v j x.valid x.pow2 x.small (omega arith)
          live fits inside empty in
      (
        (true, e.final),
        e.returns,
        (
          (
            e.places.valid,
            e.places.framed.proper x.proper,
            rw e.places.capacity x.pow2,
            λ f. e.places.added f ∙ ap (λ (n : ℕ). n + f h v) (x.same f),
          ),
          λ s. refl,
        ),
      )
  insert_unless-Ending clz raw overloaded grow (false, u) way live fits =
      let x = way.ready in
      ((false, u), refl, ((x.valid, x.proper, x.pow2, x.same), λ s. (way.done s).0))

  pub spill-Ending :
      (r : Bool × Bare)
      → IsValid t
      → IsProper t
      → Stored t h v r
      → IsProper r.1
      → IsPow2 r.1.capacity
      → (((n : ℕ) → malloc 0 n ≡ true) → r.0 ≡ true)
      → Ending calloc malloc t h v r
  spill-Ending (true, u) valid proper (valid', added) kept pow2 served =
      ((valid', kept, pow2, added), λ s. refl)
  spill-Ending (false, u) valid proper e kept pow2 served =
      ((rw e valid, kept, pow2, λ f. ap (weigh f) e), λ s. served (s.raw 0))
