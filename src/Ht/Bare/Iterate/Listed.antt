-- ===== src/Ht/Bare/Iterate/Listed.antt =====
-- A loop over the iterator yields each entry once.
use draugr_repo.Base.{
  ℕ, zero, suc, ◌+◌, ◌<◌, ◌≤◌, ◌≡◌, refl, arith, ap, Option, none, some, List, [], ◌∷◌, inl, inr,
}
use draugr_repo.Base.{Bool-cases, ◌==◌, get_or, ◌>>=◌, Gives}
use draugr_repo.Ht.Slot.{hpd_live, val_none}
use draugr_repo.Ht.Bare.{Bare}
use draugr_repo.Ht.Bare.Weigh.{weigh, sum_to, in_slot, in_lane}
use draugr_repo.Ht.Bare.Valid.{IsValid}
use draugr_repo.Ht.Bare.Iterate.{has_val, live_val, ht_bare_iter_next, iterate}
use draugr_repo.Ht.Bare.Iterate.Visits.{
  valued, taken, slots_to, lane_to, stash_to, Seen, Goes, ht_bare_iter_next-Goes,
}

-- The sum of `f` over a list of entries.
abbrev pub listed : (ℕ → ℕ → ℕ) → List (ℕ × ℕ) → ℕ
listed f [] = 0
listed f ((h, v) ∷ rest) = f h v + listed f rest

sum_to_cong :
    (g k : ℕ → ℕ → ℕ) (n : ℕ) (xs ys : List ℕ)
    → ((x y : ℕ) → g x y ≡ k x y)
    → sum_to g n xs ys ≡ sum_to k n xs ys
unfolding sum_to
sum_to_cong g k zero xs ys e = refl
sum_to_cong g k (suc n) xs ys e =
    omega (arith, sum_to_cong g k n xs ys e, e (get_or xs n 0) (get_or ys n 0))

live_taken : (f : ℕ → ℕ → ℕ) (x y : ℕ) → taken live_val f x y ≡ in_slot (valued f) x y
live_taken f x y = elim (Bool-cases (hpd_live x)) [
  | inl live ↦ elim (Bool-cases (y == val_none)) [
    | inl e ↦ rw (live, e) refl
    | inr ne ↦ rw (live, ne) refl
  ]
  | inr dead ↦ rw dead refl
]

val_taken : (f : ℕ → ℕ → ℕ) (x y : ℕ) → taken has_val f x y ≡ in_lane (valued f) x y
val_taken f x y = elim (Bool-cases (y == val_none)) [ inl e ↦ rw e refl | inr ne ↦ rw ne refl ]

module _ (t : Bare) (valid : IsValid t) where
  abbrev all_of : (ℕ → ℕ → ℕ) → ℕ
  all_of f =
      slots_to t valid f t.capacity
      + lane_to t valid f t.spill_len
      + stash_to t valid f t.overflow_len

  all_of-weigh : (f : ℕ → ℕ → ℕ) → all_of f ≡ weigh (valued f) t
  unfolding weigh
  all_of-weigh f = omega (
    arith,
    sum_to_cong (taken live_val f) (in_slot (valued f)) t.capacity t.hash_pd t.vals (live_taken f),
    sum_to_cong (taken has_val f) (in_lane (valued f)) t.spill_len t.spill_hash_pd t.spill_vals
        (val_taken f),
    sum_to_cong (taken has_val f) (in_lane (valued f)) t.overflow_len t.overflow_hash_pd
        t.overflow_vals (val_taken f),
  )

  abbrev places : ℕ
  places = t.capacity + t.spill_len + t.overflow_len

  Seen-places : (idx : ℕ) (s : (ℕ → ℕ → ℕ) → ℕ) → Seen t valid idx s → idx ≤ places
  Seen-places idx s (inl (inside, e)) = omega arith
  Seen-places idx s (inr (inl (i, at_i, inside, e))) = omega (arith, at_i)
  Seen-places idx s (inr (inr (i, at_i, inside, e))) = omega (arith, at_i)

  -- The entries of `es`, with those of `s`, are all.
  abbrev Rest : ((ℕ → ℕ → ℕ) → ℕ) → List (ℕ × ℕ) → Type 0
  Rest s es = (f : ℕ → ℕ → ℕ) → s f + listed f es ≡ all_of f

  iterate-Rest :
      (fuel idx : ℕ) (s : (ℕ → ℕ → ℕ) → ℕ)
      → Seen t valid idx s
      → places < idx + fuel
      → Gives (Rest s) (iterate fuel t idx)
  unfolding iterate
  iterate-Rest zero idx s seen enough = absurd (omega (arith, Seen-places idx s seen))
  iterate-Rest (suc fuel) idx s seen enough =
      go (ht_bare_iter_next t idx) (ht_bare_iter_next-Goes t valid idx s seen)
        (λ k u. iterate-Rest fuel k u)
    where
      go :
          (r : ℕ × Option (ℕ × ℕ))
          → Goes t valid idx s r
          → ((k : ℕ) (u : (ℕ → ℕ → ℕ) → ℕ)
              → Seen t valid k u
              → places < k + fuel
              → Gives (Rest u) (iterate fuel t k))
          → Gives (Rest s) (elim r.1 [
            | none ↦ some []
            | some entry ↦ iterate fuel t r.0 >>= λ rest. some (entry ∷ rest)
          ])
      go (k, some (h, v)) (seen', on) ih =
          let (es, ends, rest) = ih k (λ f. s f + f h v) seen' (omega arith) in
          (
            (h, v) ∷ es,
            ap (λ r. r >>= λ rest. some ((h, v) ∷ rest)) ends,
            λ f. omega (arith, rest f),
          )
      go (k, none) all ih = ([], refl, λ f. omega (arith, all f))

  -- In a valid table the calls of `ht_bare_iter_next`, until one returns false, yield each entry of
  -- the slots, the spill lane and the stash once, those of value `VAL_NONE` left out; there are at
  -- most as many calls as there are places, and one more.
  pub iterate-weigh :
      Gives (λ es. (f : ℕ → ℕ → ℕ) → listed f es ≡ weigh (valued f) t) (iterate (suc places) t 0)
  unfolding sum_to
  iterate-weigh =
      let (es, ends, rest) =
        iterate-Rest (suc places) 0 (λ f. 0) (inl (omega arith, λ f. refl)) (omega arith) in
      (es, ends, λ f. omega (arith, rest f, all_of-weigh f))
