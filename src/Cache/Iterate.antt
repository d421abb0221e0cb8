-- ===== src/Cache/Iterate.antt =====
-- The iterator goes through the live slots, from the lowest number up.
use draugr_repo.Base.{
  ℕ, zero, suc, ◌+◌, ◌-◌, ◌≤◌, ◌<◌, ◌≡◌, ap, ◌∙◌, arith, Option, none, some, List, get_or, count,
  Bool-cases, inl, inr, ◌==◌, ==_iff, ltb, true, refl, ◌^◌, if◌then◌else◌,
}
use draugr_repo.Ht.Bare.{inc}
use draugr_repo.Cache.{Cache, CacheIter, next_live, ht_cache_iter_next}
use draugr_repo.Cache.Holds.{Holds}
use draugr_repo.Cache.Interface.{Index}

module _ (ix : Index) (c : Cache ix.T) (order : List ℕ) (h : Holds ix c order) where
  -- From `start` on the first live slot is found, and the iterator stands at it; or no slot from
  -- there on is live, and it stands behind the last one.
  abbrev pub Next : ℕ → CacheIter × Option ℕ → Type 0
  Next start (it, some i) =
      (it.started ≡ true)
      × (it.idx ≡ i)
      × (start ≤ i)
      × (count i order ≡ 1)
      × ((j : ℕ) → start ≤ j → j < i → count j order ≡ 0)
  Next start (it, none) =
      (it.started ≡ true) × (c.capacity ≤ it.idx) × ((j : ℕ) → start ≤ j → count j order ≡ 0)

  abbrev at : ℕ × Option ℕ → CacheIter × Option ℕ
  at (idx, found) = (record { idx = idx; started = true }, found)

  outside : (j : ℕ) → c.capacity ≤ j → count j order ≡ 0
  outside j far = ground (arith, h.ordered.below j)

  -- A slot that is not live extends what is known of the slots from the next one on.
  one_more :
      (start j : ℕ)
      → count start order ≡ 0
      → start ≤ j
      → (start + 1 ≤ j → count j order ≡ 0)
      → count j order ≡ 0
  one_more start j dead from rest = elim (Bool-cases (j == start)) [
    | inl same ↦ ap (λ (k : ℕ). count k order) ((==_iff j start).0 same) ∙ dead
    | inr other ↦ rest (ground arith)
  ]

  skip_dead :
      (start : ℕ) (r : ℕ × Option ℕ)
      → count start order ≡ 0
      → Next (start + 1) (at r)
      → Next start (at r)
  skip_dead start (idx, none) dead (on, behind, n) =
      (on, behind, λ j from. one_more start j dead from (n j))
  skip_dead start (idx, some i) dead (on, here, from, live, between) = (
    on,
    here,
    omega arith,
    live,
    λ j low high. one_more start j dead low (λ above. between j above high),
  )

  next_live-Next :
      (left start : ℕ) → c.capacity ≤ start + left → Next start (at (next_live c start left))
  unfolding next_live
  next_live-Next zero start e = (refl, omega arith, λ j from. outside j (omega arith))
  next_live-Next (suc left) start e = elim (Bool-cases (ltb start c.capacity)) [
    | inr past ↦ rw past (refl, ground arith, λ j from. outside j (ground arith))
    | inl inside ↦ elim (Bool-cases (get_or c.live start 0 == 0)) [
      | inl dead ↦
          let on : inc start ≡ start + 1 = ground (arith, h.small) in
          rw (inside, dead, on)
            (skip_dead start _ (ground (arith, h.alive start))
              (next_live-Next left (start + 1) (omega arith)))
      | inr live ↦
          rw (inside, live)
            (
              refl,
              refl,
              omega arith,
              ground (arith, h.alive start, h.ordered.distinct start),
              λ j low high. absurd (omega arith),
            )
    ]
  ]

  -- The slot a call looks at first: the slot 0, or the one after the last that was looked at.
  abbrev pub place_of : CacheIter → ℕ
  place_of it = if it.started then it.idx + 1 else 0

  -- A call of `ht_cache_iter_next` with an index below 2 ^ 64 - 1 looks from the slot 0 on, where
  -- the iterator has not started, and else from the slot after its index, and leaves the iterator
  -- started. It yields the first live slot from there on, and its index is that slot then; or it
  -- yields none, no slot from there on is live, and its index is not below the capacity.
  pub ht_cache_iter_next-Next :
      (it : CacheIter) → it.idx < 2 ^ 64 - 1 → Next (place_of it) (ht_cache_iter_next c it)
  unfolding ht_cache_iter_next
  ht_cache_iter_next-Next it fits =
      let on : inc it.idx ≡ it.idx + 1 = omega (arith, fits) in
      rw on (next_live-Next (c.capacity - place_of it) (place_of it) (omega arith))
