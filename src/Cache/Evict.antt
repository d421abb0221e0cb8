-- ===== src/Cache/Evict.antt =====
-- `ht_cache_evict` and `ht_cache_promote`.
use draugr_repo.Base.{
  ℕ, ◌≤◌, ◌<◌, ◌≡◌, ◌⊎◌, refl, sym, ap, ◌∙◌, subst, arith, Bool, true, false, List, [], ◌∷◌, length,
  get_or, count, Bool-cases, inl, inr, ◌==◌, leb, ◌||◌, if◌then◌else◌,
}
use draugr_repo.Cache.{Cache, release, ht_cache_evict, ht_cache_promote}
use draugr_repo.Cache.Holds.{Holds, sum_over, sum_over-without, length-without}
use draugr_repo.Cache.Interface.{Index, low48}
use draugr_repo.Cache.Lru.{no_slot, Links, lru_promote}
use draugr_repo.Cache.Lru.Order.{IsOrder}
use draugr_repo.Cache.Lru.Chain.{last_or, count-last_or}
use draugr_repo.Cache.Lru.Promote.{without, count-without, lru_promote-IsOrder}
use draugr_repo.Cache.Release.{release-Holds}

module _ (ix : Index) where
  -- The order may change to one with the same slots.
  reordered-Holds :
      (c : Cache ix.T) (order order' : List ℕ) (lru : Links)
      → Holds ix c order
      → IsOrder c.capacity lru order'
      → ((i : ℕ) → count i order' ≡ count i order)
      → length order' ≡ length order
      → ((g : ℕ → ℕ) → sum_over g order' ≡ sum_over g order)
      → Holds ix (record c { lru = lru }) order'
  reordered-Holds c order order' lru h o same len sums = record {
    ordered = o;
    small = h.small;
    stack_len = h.stack_len;
    live_len = h.live_len;
    hashes_len = h.hashes_len;
    entries_len = h.entries_len;
    counted = h.counted ∙ sym len;
    top = omega (arith, h.top, len);
    parted = λ i below. omega (arith, h.parted i below, same i);
    free_below = h.free_below;
    alive = λ i below. h.alive i below ∙ sym (same i);
    valid = h.valid;
    indexed = λ f. h.indexed f ∙ sym (sums (λ i. f (low48 (get_or c.hashes i 0)) i));
  }

  pub promoted-Holds :
      (c : Cache ix.T) (order : List ℕ) (idx : ℕ)
      → 1 ≤ count idx order
      → Holds ix c order
      → Holds ix (record c { lru = lru_promote c.lru idx }) (idx ∷ without idx order)
  promoted-Holds c order idx here h =
      reordered-Holds c order (idx ∷ without idx order) (lru_promote c.lru idx) h
        (lru_promote-IsOrder c.capacity h.small c.lru idx order here h.ordered)
        (λ i. omega (arith, count-without i idx order here)) (length-without idx order here)
        (λ g. omega (arith, sum_over-without g idx order here))

  -- The table removes the last slot of the order, under its hash.
  abbrev pub removes_last : Cache ix.T → List ℕ → Bool
  removes_last c order =
      let last = last_or no_slot order in (ix.remove_val c.bare (get_or c.hashes last 0) last).0

  -- What an eviction does: the least recently used slot leaves the order, or nothing changes, since
  -- there is no slot or the table does not remove it.
  abbrev pub Evicted : Cache ix.T → List ℕ → Bool × Cache ix.T → Type 0
  Evicted c order (true, c') =
      (1 ≤ count (last_or no_slot order) order)
      × Holds ix c' (without (last_or no_slot order) order)
      × (c'.capacity ≡ c.capacity)
      × (c'.entries ≡ c.entries)
  Evicted c order (false, c') = (c' ≡ c) × ((order ≡ []) ⊎ (removes_last c order ≡ false))

  -- An eviction takes the least recently used slot out of the order; or nothing changes, and no slot
  -- is live or the table does not remove the least recently used slot under its hash.
  pub ht_cache_evict-Evicted :
      (c : Cache ix.T) (order : List ℕ) → Holds ix c order → Evicted c order (ht_cache_evict ix c)
  unfolding ht_cache_evict
  ht_cache_evict-Evicted c [] h = rw h.counted (refl, inl refl)
  ht_cache_evict-Evicted c (x ∷ xs) h =
      let order : List ℕ = x ∷ xs in
      let last : c.lru.tail ≡ last_or no_slot order = h.ordered.tail in
      let here : 1 ≤ count c.lru.tail order =
        subst (λ k. 1 ≤ count k order) (sym last) (count-last_or x xs) in
      let inside : c.lru.tail < c.capacity = h.ordered.below c.lru.tail here in
      let full : (c.size == 0) ≡ false = ground (arith, h.counted) in
      let there : (c.lru.tail == no_slot) ≡ false = ground (arith, h.small) in
      let hash = get_or c.hashes c.lru.tail 0 in
      let result = ix.remove_val c.bare hash c.lru.tail in
      let lost = ix.remove_val-weigh c.bare hash c.lru.tail h.valid in
      elim (Bool-cases result.0) [
        | inl found ↦
            rw (full, there, found)
              (subst
                (λ k.
                  (1 ≤ count k order)
                  × Holds ix (release (record c { bare = result.1 }) c.lru.tail) (without k order)
                  × ((release (record c { bare = result.1 }) c.lru.tail).capacity ≡ c.capacity)
                  × ((release (record c { bare = result.1 }) c.lru.tail).entries ≡ c.entries))
                last
                (
                  here,
                  release-Holds ix c order h c.lru.tail here result.1
                      (ix.remove_val-IsValid c.bare hash c.lru.tail h.valid)
                      (λ f. rw found at (lost f)),
                  unfold release in refl,
                  unfold release in refl,
                ))
        | inr missing ↦
            rw (full, there, missing)
              (
                ap (λ b. record c { bare = b })
                    (ix.remove_val-failed c.bare hash c.lru.tail h.valid missing),
                inr (
                    subst (λ k. (ix.remove_val c.bare (get_or c.hashes k 0) k).0 ≡ false) last
                      missing),
              )
      ]

  -- A live slot that is promoted becomes the first of the order; another number changes nothing.
  pub ht_cache_promote-Holds :
      (c : Cache ix.T) (order : List ℕ) (idx : ℕ)
      → Holds ix c order
      → Holds ix
          (ht_cache_promote c idx)
          (if count idx order == 0 then order else idx ∷ without idx order)
  unfolding ht_cache_promote
  ht_cache_promote-Holds c order idx h = elim (Bool-cases (count idx order == 0)) [
    | inl absent ↦
        let dead : (leb c.capacity idx || get_or c.live idx 0 == 0) ≡ true =
          ground (arith, h.alive idx) in
        rw (absent, dead) h
    | inr present ↦
        let here : 1 ≤ count idx order = ground arith in
        let inside : idx < c.capacity = h.ordered.below idx here in
        let up : (leb c.capacity idx || get_or c.live idx 0 == 0) ≡ false =
          ground (arith, h.alive idx) in
        rw (present, up) (promoted-Holds c order idx here h)
  ]
