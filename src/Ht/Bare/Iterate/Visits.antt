-- ===== src/Ht/Bare/Iterate/Visits.antt =====
-- The iterator yields each entry once.
use draugr_repo.Base.{
  ℕ, zero, suc, ◌+◌, ◌-◌, ◌<◌, ◌≤◌, ◌≡◌, refl, arith, subst, ◌∙◌, Bool, false, Option, none, some,
  List, ◌⊎◌,
}
use draugr_repo.Base.{inl, inr, Bool-cases, ltb, le→ltb, ◌==◌, if◌then◌else◌, u64, get_or}
use draugr_repo.Ht.Slot.{hpd_hash, val_none}
use draugr_repo.Ht.Bare.{Bare}
use draugr_repo.Ht.Bare.Weigh.{sum_to}
use draugr_repo.Ht.Bare.Valid.{IsValid}
use draugr_repo.Ht.Bare.Iterate.{
  has_val, live_val, next_from, stash_next, lane_next, or_else, ht_bare_iter_next,
}

-- An entry whose value is `VAL_NONE` does not count.
abbrev pub valued : (ℕ → ℕ → ℕ) → ℕ → ℕ → ℕ
valued f h v = if v == val_none then 0 else f h v

abbrev pub taken : (ℕ → ℕ → Bool) → (ℕ → ℕ → ℕ) → ℕ → ℕ → ℕ
taken keep f hpd val = if keep hpd val then f (hpd_hash hpd) val else 0

-- A loop over `n` places from the one after `i` places: it stops behind the next entry, or at the
-- end with none left.
Scanned : (ℕ → ℕ → Bool) → List ℕ → List ℕ → ℕ → ℕ → ℕ → ℕ × Option (ℕ × ℕ) → Type 0
Scanned keep xs ys off n i (idx, some (h, v)) =
    (j : ℕ) × (idx ≡ off + j)
    × (i < j)
    × (j ≤ n)
    × ((f : ℕ → ℕ → ℕ) → sum_to (taken keep f) j xs ys ≡ sum_to (taken keep f) i xs ys + f h v)
Scanned keep xs ys off n i (idx, none) =
    (idx ≡ off + n)
    × ((f : ℕ → ℕ → ℕ) → sum_to (taken keep f) n xs ys ≡ sum_to (taken keep f) i xs ys)

module _ (keep : ℕ → ℕ → Bool) (xs ys : List ℕ) (off n : ℕ) where
  -- A place that is passed over.
  passed :
      (i : ℕ) (r : ℕ × Option (ℕ × ℕ))
      → keep (get_or xs i 0) (get_or ys i 0) ≡ false
      → Scanned keep xs ys off n (suc i) r
      → Scanned keep xs ys off n i r
  unfolding Scanned sum_to
  passed i (idx, some (h, v)) skip (j, e, low, high, same) =
      (j, e, omega arith, high, λ f. (rw skip at (same f)) ∙ omega arith)
  passed i (idx, none) skip (e, same) = (e, λ f. (rw skip at (same f)) ∙ omega arith)

  next_from-Scanned :
      (left i : ℕ) → i + left ≡ n → Scanned keep xs ys off n i (next_from keep xs ys off i left)
  unfolding next_from sum_to
  next_from-Scanned zero i e =
      let here : i ≡ n = omega (arith, e) in unfold Scanned in rw here (refl, λ f. refl)
  next_from-Scanned (suc left) i e = elim (Bool-cases (keep (get_or xs i 0) (get_or ys i 0))) [
    | inl kept ↦
        unfold Scanned in rw kept (suc i, omega arith, omega arith, omega arith, λ f. rw kept refl)
    | inr skip ↦ rw skip (passed i _ skip (next_from-Scanned left (suc i) (omega arith)))
  ]

module _ (t : Bare) (valid : IsValid t) where
  abbrev pub slots_to : (ℕ → ℕ → ℕ) → ℕ → ℕ
  slots_to f n = sum_to (taken live_val f) n t.hash_pd t.vals

  abbrev pub lane_to : (ℕ → ℕ → ℕ) → ℕ → ℕ
  lane_to f n = sum_to (taken has_val f) n t.spill_hash_pd t.spill_vals

  abbrev pub stash_to : (ℕ → ℕ → ℕ) → ℕ → ℕ
  stash_to f n = sum_to (taken has_val f) n t.overflow_hash_pd t.overflow_vals

  -- The iterator has come to the place `idx`, with the entries `s` behind it.
  abbrev pub Seen : ℕ → ((ℕ → ℕ → ℕ) → ℕ) → Type 0
  Seen idx s =
      ((idx ≤ t.capacity) × ((f : ℕ → ℕ → ℕ) → s f ≡ slots_to f idx))
      ⊎ ((i : ℕ) × (idx ≡ t.capacity + i)
          × (i ≤ t.spill_len)
          × ((f : ℕ → ℕ → ℕ) → s f ≡ slots_to f t.capacity + lane_to f i))
      ⊎ ((i : ℕ) × (idx ≡ t.capacity + t.spill_len + i)
          × (i ≤ t.overflow_len)
          × ((f : ℕ → ℕ → ℕ) → s f ≡ slots_to f t.capacity + lane_to f t.spill_len + stash_to f i))

  -- A call goes one entry on, or there is none left.
  abbrev pub Goes : ℕ → ((ℕ → ℕ → ℕ) → ℕ) → ℕ × Option (ℕ × ℕ) → Type 0
  Goes idx s (idx', some (h, v)) = Seen idx' (λ f. s f + f h v) × (idx < idx')
  Goes idx s (idx', none) =
      (f : ℕ → ℕ → ℕ)
      → s f ≡ slots_to f t.capacity + lane_to f t.spill_len + stash_to f t.overflow_len

  off_lem : u64 (t.capacity + t.spill_len) ≡ t.capacity + t.spill_len
  off_lem = omega (arith, valid.small, valid.lane_small, valid.lane_in)

  stash_scanned :
      (i : ℕ) (s : (ℕ → ℕ → ℕ) → ℕ) (r : ℕ × Option (ℕ × ℕ))
      → ((f : ℕ → ℕ → ℕ) → s f ≡ slots_to f t.capacity + lane_to f t.spill_len + stash_to f i)
      → Scanned has_val t.overflow_hash_pd t.overflow_vals
          (t.capacity + t.spill_len)
          t.overflow_len
          i
          r
      → Goes (t.capacity + t.spill_len + i) s r
  unfolding Scanned
  stash_scanned i s (idx, some (h, v)) e (j, at_j, low, high, same) =
      (inr (inr (j, at_j, high, λ f. omega (arith, e f, same f))), omega (arith, at_j))
  stash_scanned i s (idx, none) e (at_end, same) = λ f. omega (arith, e f, same f)

  stash_next-Goes :
      (i : ℕ) (s : (ℕ → ℕ → ℕ) → ℕ)
      → i ≤ t.overflow_len
      → ((f : ℕ → ℕ → ℕ) → s f ≡ slots_to f t.capacity + lane_to f t.spill_len + stash_to f i)
      → Goes (t.capacity + t.spill_len + i) s (stash_next t (t.capacity + t.spill_len + i))
  unfolding stash_next
  stash_next-Goes i s inside e =
      let back : t.capacity + t.spill_len + i - (t.capacity + t.spill_len) ≡ i = omega arith in
      rw (off_lem, back)
        (stash_scanned i s _ e (
          next_from-Scanned has_val t.overflow_hash_pd t.overflow_vals (t.capacity + t.spill_len)
            t.overflow_len (t.overflow_len - i) i (omega arith)))

  Goes-from :
      (i idx : ℕ) (s : (ℕ → ℕ → ℕ) → ℕ) (r : ℕ × Option (ℕ × ℕ))
      → i ≤ idx
      → Goes idx s r
      → Goes i s r
  Goes-from i idx s (k, some (h, v)) low (seen, on) = (seen, omega arith)
  Goes-from i idx s (k, none) low g = g

  -- At the end of the lane the stash is next.
  to_stash :
      (i idx : ℕ) (s : (ℕ → ℕ → ℕ) → ℕ)
      → i ≤ idx
      → idx ≡ t.capacity + t.spill_len
      → ((f : ℕ → ℕ → ℕ) → s f ≡ slots_to f t.capacity + lane_to f t.spill_len)
      → Goes i s (stash_next t idx)
  unfolding sum_to
  to_stash i idx s low e same =
      let start : t.capacity + t.spill_len + 0 ≡ idx = omega (arith, e) in
      Goes-from i idx s _ low (
        subst (λ (k : ℕ). Goes k s (stash_next t k)) start
          (stash_next-Goes 0 s (omega arith) (λ f. omega (arith, same f))))

  lane_scanned :
      (i : ℕ) (s : (ℕ → ℕ → ℕ) → ℕ) (r : ℕ × Option (ℕ × ℕ))
      → i ≤ t.spill_len
      → ((f : ℕ → ℕ → ℕ) → s f ≡ slots_to f t.capacity + lane_to f i)
      → Scanned has_val t.spill_hash_pd t.spill_vals t.capacity t.spill_len i r
      → Goes (t.capacity + i) s (or_else r (stash_next t))
  unfolding Scanned or_else
  lane_scanned i s (idx, some (h, v)) inside e (j, at_j, low, high, same) =
      (inr (inl (j, at_j, high, λ f. omega (arith, e f, same f))), omega (arith, at_j))
  lane_scanned i s (idx, none) inside e (at_end, same) =
      to_stash (t.capacity + i) idx s (omega (arith, at_end)) at_end
        (λ f. omega (arith, e f, same f))

  lane_next-Goes :
      (i : ℕ) (s : (ℕ → ℕ → ℕ) → ℕ)
      → i ≤ t.spill_len
      → ((f : ℕ → ℕ → ℕ) → s f ≡ slots_to f t.capacity + lane_to f i)
      → Goes (t.capacity + i) s (or_else (lane_next t (t.capacity + i)) (stash_next t))
  unfolding lane_next
  lane_next-Goes i s inside e =
      let back : t.capacity + i - t.capacity ≡ i = omega arith in
      elim (Bool-cases (ltb (t.capacity + i) (t.capacity + t.spill_len))) [
        | inl before ↦
            rw (off_lem, before, back)
              (lane_scanned i s _ inside e (
                next_from-Scanned has_val t.spill_hash_pd t.spill_vals t.capacity t.spill_len
                  (t.spill_len - i) i (omega arith)))
        | inr past ↦
            let last : i ≡ t.spill_len = ground (arith, past) in
            rw (off_lem, past)
              (unfold or_else in
                to_stash (t.capacity + i) (t.capacity + i) s (omega arith) (omega arith)
                  (rw last at e))
      ]

  to_lane :
      (i idx : ℕ) (s : (ℕ → ℕ → ℕ) → ℕ)
      → i ≤ idx
      → idx ≡ t.capacity
      → ((f : ℕ → ℕ → ℕ) → s f ≡ slots_to f t.capacity)
      → Goes i s (or_else (lane_next t idx) (stash_next t))
  unfolding sum_to
  to_lane i idx s low e same =
      let start : t.capacity + 0 ≡ idx = omega (arith, e) in
      Goes-from i idx s _ low (
        subst (λ (k : ℕ). Goes k s (or_else (lane_next t k) (stash_next t))) start
          (lane_next-Goes 0 s (omega arith) (λ f. omega (arith, same f))))

  slots_scanned :
      (i : ℕ) (s : (ℕ → ℕ → ℕ) → ℕ) (r : ℕ × Option (ℕ × ℕ))
      → i ≤ t.capacity
      → ((f : ℕ → ℕ → ℕ) → s f ≡ slots_to f i)
      → Scanned live_val t.hash_pd t.vals 0 t.capacity i r
      → Goes i s (or_else (or_else r (lane_next t)) (stash_next t))
  unfolding Scanned
  slots_scanned i s (idx, some (h, v)) inside e (j, at_j, low, high, same) =
      unfold or_else in
      let here : idx ≡ j = omega (arith, at_j) in
      rw here (inl (high, λ f. omega (arith, e f, same f)), low)
  slots_scanned i s (idx, none) inside e (at_end, same) =
      unfold or_else in
      to_lane i idx s (omega (arith, at_end)) (omega (arith, at_end))
        (λ f. omega (arith, e f, same f))

  pub ht_bare_iter_next-Goes :
      (idx : ℕ) (s : (ℕ → ℕ → ℕ) → ℕ) → Seen idx s → Goes idx s (ht_bare_iter_next t idx)
  unfolding ht_bare_iter_next
  ht_bare_iter_next-Goes idx s (inl (inside, e)) = slots_scanned idx s _ inside e (
      next_from-Scanned live_val t.hash_pd t.vals 0 t.capacity (t.capacity - idx) idx (omega arith))
  ht_bare_iter_next-Goes idx s (inr (inl (i, at_i, inside, e))) =
      let none_left : t.capacity - (t.capacity + i) ≡ 0 = omega arith in
      let here : 0 + (t.capacity + i) ≡ t.capacity + i = omega arith in
      rw (at_i, none_left) (unfold next_from or_else in rw here (lane_next-Goes i s inside e))
  ht_bare_iter_next-Goes idx s (inr (inr (i, at_i, inside, e))) =
      let none_left : t.capacity - (t.capacity + t.spill_len + i) ≡ 0 = omega arith in
      let here : 0 + (t.capacity + t.spill_len + i) ≡ t.capacity + t.spill_len + i = omega arith in
      let past : ltb (t.capacity + t.spill_len + i) (t.capacity + t.spill_len) ≡ false =
        le→ltb _ _ (omega arith) in
      rw (at_i, none_left)
        (unfold next_from or_else lane_next in
          rw (here, off_lem, past) (stash_next-Goes i s inside e))
