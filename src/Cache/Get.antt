-- ===== src/Cache/Get.antt =====
-- `ht_cache_get` and `ht_cache_remove`.
use draugr_repo.Base.{
  ℕ, ◌+◌, ◌≤◌, ◌<◌, ◌≡◌, ◌≢◌, one_ne, ==_iff, ◌⊎◌, refl, sym, ap, ◌∙◌, subst, arith, Bool, true,
  false, Option, none, some, List, [], ◌∷◌, get_or, set, set-set_self, set-get_or, count, one_self,
  Bool-cases, inl, inr, ◌==◌, ==_false, if◌then◌else◌, leb,
}
use draugr_repo.Cache.{Cache, release, matches, get_scan_cb, ht_cache_get, ht_cache_remove}
use draugr_repo.Cache.Evict.{promoted-Holds}
use draugr_repo.Cache.Holds.{Holds, sum_over}
use draugr_repo.Base.Visit.{visit}
use draugr_repo.Ht.Bare.Weigh.{is_entry}
use draugr_repo.Cache.Interface.{Index, low48}
use draugr_repo.Cache.Lru.{no_slot}
use draugr_repo.Cache.Lru.Promote.{without}
use draugr_repo.Cache.Release.{release-Holds}

module _ (ix : Index) (hash_fn : List ℕ → ℕ) (eq_fn : Option (List ℕ → List ℕ → Bool))
    (c : Cache ix.T) (key : List ℕ) where
  -- The slot is live, its entry was stored under the hash of the key, and it matches the key.
  pub record IsHit (i : ℕ) : Type 0 where
    pub inside : i < c.capacity
    pub up : get_or c.live i 0 ≢ 0
    pub equal : matches ix hash_fn eq_fn key (get_or c.entries i []) ≡ true

  scan : List ℕ → ℕ
  scan vals = visit (get_scan_cb ix hash_fn eq_fn c key) no_slot vals

  -- None of the values is a hit.
  abbrev pub NoHit : List ℕ → Type 0
  NoHit vals = (v : ℕ) → 1 ≤ count v vals → ¬ IsHit v

  -- What a scan of `vals` may end with: nothing, where no value is a hit, or one that is.
  abbrev Scanned : List ℕ → ℕ → Type 0
  Scanned vals i = ((i ≡ no_slot) × NoHit vals) ⊎ (IsHit i × (1 ≤ count i vals))

  later : (v : ℕ) (vals : List ℕ) (i : ℕ) → ¬ IsHit v → Scanned vals i → Scanned (v ∷ vals) i
  later v vals i miss (inl (nothing, misses)) = inl (
    nothing,
    λ w there. elim (Bool-cases (w == v)) [
      | inl same ↦ subst (λ k. ¬ IsHit k) (sym ((==_iff w v).0 same)) miss
      | inr other ↦ misses w (omega (arith, there, one_ne w v (==_false w v other)))
    ],
  )
  later v vals i miss (inr (hit, there)) = inr (hit, omega arith)

  -- One call of the callback, with nothing found before.
  asked :
      (v : ℕ)
      → ((get_scan_cb ix hash_fn eq_fn c key no_slot v ≡ (true, no_slot)) × (¬ IsHit v))
        ⊎ ((get_scan_cb ix hash_fn eq_fn c key no_slot v ≡ (false, v)) × IsHit v)
  unfolding get_scan_cb
  asked v = elim (Bool-cases (leb c.capacity v)) [
    | inl outside ↦ inl (rw outside refl, λ hit. ground (arith, hit.inside))
    | inr within ↦ elim (Bool-cases (get_or c.live v 0 == 0)) [
      | inl dead ↦ inl (rw (within, dead) refl, λ hit. hit.up ((==_iff _ _).0 dead))
      | inr up ↦ elim (Bool-cases (matches ix hash_fn eq_fn key (get_or c.entries v []))) [
        | inl same ↦ inr (
          rw (within, up, same) refl,
          record { inside = ground arith; up = ==_false _ _ up; equal = same },
        )
        | inr other ↦ inl (rw (within, up, other) refl, λ hit. ground (arith, hit.equal, other))
      ]
    ]
  ]

  go_on : List ℕ → Bool × ℕ → ℕ
  go_on vals r = if r.0 then visit (get_scan_cb ix hash_fn eq_fn c key) r.1 vals else r.1

  scan-Scanned : (vals : List ℕ) → Scanned vals (scan vals)
  unfolding scan go_on
  scan-Scanned [] = inl (refl, λ v there. absurd (omega (arith, there)))
  scan-Scanned (v ∷ vals) = elim (asked v) [
    | inl (skipped, miss) ↦
        subst (λ r. Scanned (v ∷ vals) (go_on vals r)) (sym skipped)
          (later v vals (scan vals) miss (scan-Scanned vals))
    | inr (taken, hit) ↦
        subst (λ r. Scanned (v ∷ vals) (go_on vals r)) (sym taken)
          (inr (hit, omega (arith, one_self v)))
  ]

  sum_over_pos :
      (g : ℕ → ℕ) (xs : List ℕ) → 1 ≤ sum_over g xs → (j : ℕ) × (1 ≤ count j xs) × (1 ≤ g j)
  sum_over_pos g [] h = absurd (omega arith)
  sum_over_pos g (x ∷ xs) h = elim (Bool-cases (g x == 0)) [
    | inr here ↦ (x, omega (arith, one_self x), ground arith)
    | inl away ↦ let (j, there, pos) = sum_over_pos g xs (ground arith) in (j, omega arith, pos)
  ]

  is_entry-inv : (h v h' v' : ℕ) → 1 ≤ is_entry h v h' v' → (h' ≡ h) × (v' ≡ v)
  is_entry-inv h v h' v' k = ground arith

  module _ (order : List ℕ) (h : Holds ix c order) where
    found : ℕ
    found = ix.find_all ℕ (get_scan_cb ix hash_fn eq_fn c key) c.bare (hash_fn key) no_slot

    -- A live slot that matches the key and was filled under its hash.
    pub record IsMatch (i : ℕ) : Type 0 where
      pub hit : IsHit i
      pub here : 1 ≤ count i order
      pub hashed : low48 (get_or c.hashes i 0) ≡ low48 (hash_fn key)

    hit-IsMatch : (i : ℕ) → IsHit i → 1 ≤ count i (ix.reported c.bare (hash_fn key)) → IsMatch i
    hit-IsMatch i hit there =
        let hash = low48 (hash_fn key) in
        let stored : 1 ≤ ix.weigh (is_entry hash i) c.bare =
          ix.reported-stored c.bare (hash_fn key) i h.valid there in
        let (j, in_order, pos) =
          sum_over_pos (λ k. is_entry hash i (low48 (get_or c.hashes k 0)) k) order
            (omega (arith, h.indexed (is_entry hash i))) in
        let (same, self) = is_entry-inv hash i (low48 (get_or c.hashes j 0)) j pos in
        record {
          hit = hit;
          here = subst (λ k. 1 ≤ count k order) self in_order;
          hashed = subst (λ k. low48 (get_or c.hashes k 0) ≡ hash) self same;
        }

    found-cases : ((found ≡ no_slot) × NoHit (ix.reported c.bare (hash_fn key))) ⊎ IsMatch found
    unfolding found
    found-cases =
        let vals = ix.reported c.bare (hash_fn key) in
        let e : scan vals ≡ found =
          unfold scan in
          sym (
            ix.find_all-visit ℕ (get_scan_cb ix hash_fn eq_fn c key) c.bare (hash_fn key)
              no_slot) in
        subst (λ i. ((i ≡ no_slot) × NoHit vals) ⊎ IsMatch i) e
          (elim (scan-Scanned vals) [
            | inl nothing ↦ inl nothing
            | inr (hit, there) ↦ inr (hit-IsMatch (scan vals) hit there)
          ])

    -- What `ht_cache_get` does.
    abbrev pub Got : Option ℕ × Cache ix.T → Type 0
    Got (some i, c') = IsMatch i × Holds ix c' (i ∷ without i order)
    Got (none, c') = (c' ≡ c) × NoHit (ix.reported c.bare (hash_fn key))

    -- A slot that `ht_cache_get` returns is live, matches the key and was filled under its hash,
    -- and it becomes the most recently used; if it returns none, nothing changes, and no slot that
    -- the table reports for the hash is live and matches the key.
    pub ht_cache_get-Got : Got (ht_cache_get ix hash_fn eq_fn c key)
    unfolding ht_cache_get found
    ht_cache_get-Got = elim found-cases [
      | inl (nothing, misses) ↦ rw nothing (refl, misses)
      | inr match ↦
          let there : (found == no_slot) ≡ false = ground (arith, match.hit.inside, h.small) in
          rw there (match, promoted-Holds ix c order found match.here h)
    ]

    -- What `ht_cache_remove` does.
    abbrev pub Dropped : Bool × Cache ix.T → Type 0
    Dropped (true, c') = (i : ℕ) × IsMatch i × Holds ix c' (without i order)
    Dropped (false, c') = c' ≡ c

    released :
        (bare : ix.T) (i : ℕ)
        → release (record c { bare = bare; live = set c.live i 0 }) i
          ≡ release (record c { bare = bare }) i
    unfolding release
    released bare i = rw (set-set_self c.live i 0 0) refl

    removed-Dropped :
        (i : ℕ) (r : Bool × ix.T)
        → IsMatch i
        → r ≡ ix.remove_val c.bare (hash_fn key) i
        → Dropped (
            if r.0
            then (true, release (record c { bare = r.1; live = set c.live i 0 }) i)
            else (false, record c { bare = r.1; live = set (set c.live i 0) i 1 }))
    removed-Dropped i (true, bare) match e =
        let found_it : (ix.remove_val c.bare (hash_fn key) i).0 ≡ true = sym (ap (λ p. p.0) e) in
        let rest : (ix.remove_val c.bare (hash_fn key) i).1 ≡ bare = sym (ap (λ p. p.1) e) in
        let lost : (f : ℕ → ℕ → ℕ)
            → ix.weigh f bare + f (low48 (get_or c.hashes i 0)) i ≡ ix.weigh f c.bare =
          λ f.
            rw (match.hashed, ← rest)
              (rw found_it at (ix.remove_val-weigh c.bare (hash_fn key) i h.valid f)) in
        (
          i,
          match,
          rw (released bare i) (
              release-Holds ix c order h i match.here bare
                (subst ix.IsValid rest (ix.remove_val-IsValid c.bare (hash_fn key) i h.valid))
                lost),
        )
    removed-Dropped i (false, bare) match e =
        let missing : (ix.remove_val c.bare (hash_fn key) i).0 ≡ false = sym (ap (λ p. p.0) e) in
        let same : bare ≡ c.bare =
          ap (λ p. p.1) e ∙ ix.remove_val-failed c.bare (hash_fn key) i h.valid missing in
        let inside = match.hit.inside in
        let up : 1 ≡ get_or c.live i 0 =
          omega (arith, h.alive i inside, match.here, h.ordered.distinct i) in
        let restored : set (set c.live i 0) i 1 ≡ c.live =
          set-set_self c.live i 0 1 ∙ ap (set c.live i) up ∙ set-get_or c.live i 0 in
        rw (restored, same) refl

    -- A removal takes out a live slot that matches the key and was filled under its hash, or
    -- nothing changes.
    pub ht_cache_remove-Dropped : Dropped (ht_cache_remove ix hash_fn eq_fn c key)
    unfolding ht_cache_remove found
    ht_cache_remove-Dropped = elim found-cases [
      | inl (nothing, misses) ↦ rw nothing refl
      | inr match ↦
          let there : (found == no_slot) ≡ false = ground (arith, match.hit.inside, h.small) in
          rw there (removed-Dropped found (ix.remove_val c.bare (hash_fn key) found) match refl)
    ]
