-- ===== src/Cache/Release.antt =====
-- Releasing a live slot takes it out of the order.
use draugr_repo.Base.{
  ℕ, suc, ◌+◌, ◌≤◌, ◌<◌, ◌≡◌, sym, subst, ◌∙◌, arith, List, length-set, get_or, set,
  get_or-set_self, get_or-set_ne, count, one, one_self, one_ne, ==_false, ==_iff, Bool-cases, inl,
  inr, ◌==◌,
}
use draugr_repo.Ht.Bare.{inc}
use draugr_repo.Cache.{Cache, release}
use draugr_repo.Cache.Free.{count_to, count_to-push}
use draugr_repo.Cache.Holds.{Holds, sum_over-without, length-without}
use draugr_repo.Cache.Interface.{Index, low48}
use draugr_repo.Cache.Lru.Promote.{without, count-without, lru_remove-IsOrder}

module _ (ix : Index) (c : Cache ix.T) (order : List ℕ) (h : Holds ix c order) (idx : ℕ)
    (here : 1 ≤ count idx order) where
  inside : idx < c.capacity
  inside = h.ordered.below idx here

  room : c.free_top < c.capacity
  room = omega (arith, h.top, length-without idx order here)

  bumped : inc c.free_top ≡ suc c.free_top
  bumped = omega (arith, room, h.small)

  freed :
      (i : ℕ)
      → count_to i (inc c.free_top) (set c.free_stack c.free_top idx)
        ≡ count_to i c.free_top c.free_stack + one i idx
  freed i =
      rw bumped (count_to-push i c.free_top c.free_stack idx (omega (arith, room, h.stack_len)))

  dead-released : get_or (set c.live idx 0) idx 0 ≡ count idx (without idx order)
  dead-released =
      get_or-set_self c.live idx 0 0 (omega (arith, h.live_len, inside))
      ∙ omega (arith, count-without idx idx order here, one_self idx, h.ordered.distinct idx)

  alive-released :
      (i : ℕ) → i < c.capacity → get_or (set c.live idx 0) i 0 ≡ count i (without idx order)
  alive-released i below = elim (Bool-cases (i == idx)) [
    | inl same ↦
        subst (λ k. get_or (set c.live idx 0) k 0 ≡ count k (without idx order))
          (sym ((==_iff i idx).0 same)) dead-released
    | inr other ↦
        get_or-set_ne c.live idx i 0 0 (λ e. ==_false i idx other (sym e))
        ∙ omega (
          arith,
          h.alive i below,
          count-without i idx order here,
          one_ne i idx (==_false i idx other),
        )
  ]

  -- For a table `bare` without the slot, the rest of the cache drops it too.
  pub release-Holds :
      (bare : ix.T)
      → ix.IsValid bare
      → ((f : ℕ → ℕ → ℕ)
          → ix.weigh f bare + f (low48 (get_or c.hashes idx 0)) idx ≡ ix.weigh f c.bare)
      → Holds ix (release (record c { bare = bare }) idx) (without idx order)
  unfolding release
  release-Holds bare valid lost = record {
    ordered = lru_remove-IsOrder c.capacity h.small c.lru idx order here h.ordered;
    small = h.small;
    stack_len = length-set c.free_stack c.free_top idx ∙ h.stack_len;
    live_len = length-set c.live idx 0 ∙ h.live_len;
    hashes_len = h.hashes_len;
    entries_len = h.entries_len;
    counted = omega (arith, h.counted, length-without idx order here, h.top, h.small);
    top = omega (arith, bumped, h.top, length-without idx order here);
    parted = λ i below. omega (arith, freed i, h.parted i below, count-without i idx order here);
    free_below = λ i k. elim (Bool-cases (i == idx)) [
      | inl same ↦ omega (arith, (==_iff i idx).0 same, inside)
      | inr other ↦ h.free_below i (omega (arith, freed i, one_ne i idx (==_false i idx other)))
    ];
    alive = alive-released;
    valid = valid;
    indexed = λ f. omega (
      arith,
      lost f,
      h.indexed f,
      sum_over-without (λ i. f (low48 (get_or c.hashes i 0)) i) idx order here,
    );
  }
