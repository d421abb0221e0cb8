-- ===== src/Ht/Bare/Stash/Purge.antt =====
-- Removing all entries of a hash from the overflow stash.
use draugr_repo.Base.{
  ℕ, zero, suc, ◌<◌, ◌≤◌, some, get_or, Bool-cases, inl, inr, ◌==◌, ==_iff, ◌+◌, ◌-◌, ◌^◌, ◌≡◌,
  refl, sym, ap, ◌∙◌, arith, List, subst, u64,
}
use mathlib.Core.Path.{ap₂}
use draugr_repo.Ht.Bare.{Bare}
use draugr_repo.Ht.Bare.Weigh.{weigh, sum_to, in_lane}
use draugr_repo.Ht.Bare.Valid.{IsValid, one_each, size-lt}
use draugr_repo.Ht.Bare.Purged.{Purged, Clear, sum-Clear}
use draugr_repo.Ht.Slot.{hpd_hash}
use mathlib.Core.Option.{none-ne-some}
use draugr_repo.Ht.Bare.Stash.{
  overflow_stash_remove, stash_remove_from, stash_find, stash_find_from,
}
use draugr_repo.Ht.Bare.Stash.Drops.{stash_remove_from-drops}
use draugr_repo.Ht.Bare.Stash.Compacted.{
  sum_from, sum_from-to, sum_to-one, stash-le, Compacted, stash_remove_from-Compacted,
}

sum_from_whole :
    (g : ℕ → ℕ → ℕ) (n : ℕ) (xs ys : List ℕ)
    → sum_to g 0 xs ys + sum_from g 0 n xs ys ≡ sum_to g n xs ys
sum_from_whole g n xs ys =
    let e : 0 + n ≡ n = omega arith in sum_from-to g 0 n xs ys ∙ ap (λ (k : ℕ). sum_to g k xs ys) e

-- The table with the stash that the loop leaves.
restashed : Bare → ℕ × Bare → Bare
restashed t r = record t {
  overflow_hash_pd = r.1.overflow_hash_pd;
  overflow_vals = r.1.overflow_vals;
  size = r.1.size;
  overflow_len = r.0;
}

-- What `overflow_stash_remove` makes of the result of its loop.
abbrev after_loop : ℕ × Bare → ℕ × Bare
after_loop r = (u64 (r.1.overflow_len + 2 ^ 64 - r.0), record (r.1) { overflow_len = r.0 })

module _ (t : Bare) (h : ℕ) (r : ℕ × Bare) (valid : IsValid t)
    (c : Compacted t h 0 0 t.overflow_len r) where
  whole :
      (g : ℕ → ℕ → ℕ)
      → sum_to g 0 t.overflow_hash_pd t.overflow_vals
          + sum_from g 0 t.overflow_len t.overflow_hash_pd t.overflow_vals
        ≡ sum_to g t.overflow_len t.overflow_hash_pd t.overflow_vals
  whole g = sum_from_whole g t.overflow_len t.overflow_hash_pd t.overflow_vals

  restashed-counted : weigh one_each (restashed t r) + (t.overflow_len - r.0) ≡ weigh one_each t
  unfolding restashed weigh
  restashed-counted = omega (
    arith,
    c.bound,
    sum_to-one (r.0) (r.1.overflow_hash_pd) (r.1.overflow_vals),
    sum_to-one t.overflow_len t.overflow_hash_pd t.overflow_vals,
  )

  restashed-IsValid : IsValid (restashed t r)
  restashed-IsValid = record {
    slots = unfold restashed in valid.slots;
    slot_vals = unfold restashed in valid.slot_vals;
    lane = unfold restashed in valid.lane;
    lane_vals = unfold restashed in valid.lane_vals;
    stash = unfold restashed in c.hashes ∙ valid.stash;
    stash_vals = unfold restashed in c.vals ∙ valid.stash_vals;
    lane_in = unfold restashed in valid.lane_in;
    stash_in = unfold restashed in omega (arith, c.bound, valid.stash_in);
    small = unfold restashed in valid.small;
    lane_small = unfold restashed in valid.lane_small;
    counted = unfold restashed in omega (arith, restashed-counted, c.count, c.bound, valid.counted);
  }

  restashed-Purged : Purged t h 0 (t.overflow_len - r.0, restashed t r)
  restashed-Purged = record {
    valid = restashed-IsValid;
    less = λ f. unfold restashed weigh in omega (arith, c.less (in_lane f), whole (in_lane f));
    others = λ f z. unfold restashed weigh in omega (arith, c.others f z, whole (in_lane f));
    counted = omega (arith, restashed-counted);
    same_cap = unfold restashed in refl;
  }

  result_restashed : after_loop r ≡ (t.overflow_len - r.0, restashed t r)
  unfolding restashed
  result_restashed =
      let len : r.1.overflow_len ≡ t.overflow_len = ap (λ b. b.overflow_len) c.rest in
      ap₂ (λ n (b : Bare). (n, b)) (omega (arith, len, c.bound, valid.stash_in))
        (ap (λ (b : Bare). record b { overflow_len = r.0 }) c.rest)

-- Removing a hash from the stash of a valid table keeps it valid; only entries of that hash are
-- lost, and the result is their number.
pub overflow_stash_remove-Purged :
    (t : Bare) (h : ℕ) → IsValid t → Purged t h 0 (overflow_stash_remove t h)
unfolding overflow_stash_remove
overflow_stash_remove-Purged t h valid =
    let r = stash_remove_from t h 0 0 t.overflow_len in
    let c =
      stash_remove_from-Compacted h t.overflow_len t 0 0 (omega arith)
        (omega (arith, valid.stash, valid.stash_in))
        (omega (arith, valid.stash_vals, valid.stash_in)) (omega (arith, valid.counted, stash-le t))
        (size-lt valid) in
    subst (λ r. Purged t h 0 r) (sym (result_restashed t h r valid c))
      (restashed-Purged t h r valid c)

stash_find_from-there :
    (t : Bare) (h v left i : ℕ)
    → stash_find_from t h i left ≡ some v
    → (j : ℕ) × (i ≤ j) × (j < i + left) × (hpd_hash (get_or t.overflow_hash_pd j 0) ≡ h)
unfolding stash_find_from
stash_find_from-there t h v zero i = λ found. absurd (none-ne-some v found)
stash_find_from-there t h v (suc left) i =
    elim (Bool-cases (hpd_hash (get_or t.overflow_hash_pd i 0) == h)) [
      | inl hit ↦ rw hit (λ found. (i, omega arith, omega arith, (==_iff _ _).0 hit))
      | inr miss ↦ rw miss (λ found.
          let (j, low, high, here) = stash_find_from-there t h v left (i + 1) found in
          (j, omega arith, omega arith, here))
    ]

module _ (t : Bare) (h : ℕ) (valid : IsValid t) where
  loop-Compacted : Compacted t h 0 0 t.overflow_len (stash_remove_from t h 0 0 t.overflow_len)
  loop-Compacted =
      stash_remove_from-Compacted h t.overflow_len t 0 0 (omega arith)
        (omega (arith, valid.stash, valid.stash_in))
        (omega (arith, valid.stash_vals, valid.stash_in)) (omega (arith, valid.counted, stash-le t))
        (size-lt valid)

  loop_result :
      overflow_stash_remove t h
      ≡ (let r = stash_remove_from t h 0 0 t.overflow_len in (t.overflow_len - r.0, restashed t r))
  unfolding overflow_stash_remove
  loop_result = result_restashed t h _ valid loop-Compacted

  -- No entry of the hash is left in the stash.
  pub overflow_stash_remove-Clear :
      Clear h
        (overflow_stash_remove t h).1.overflow_len
        (overflow_stash_remove t h).1.overflow_hash_pd
  unfolding sum_to
  overflow_stash_remove-Clear = rw loop_result (
      unfold restashed in
      sum-Clear h (stash_remove_from t h 0 0 t.overflow_len).0 _
        (stash_remove_from t h 0 0 t.overflow_len).1.overflow_vals loop-Compacted.cleared)

  -- If a lookup finds something in the stash, an entry is removed.
  pub overflow_stash_remove-finds :
      (v : ℕ) → stash_find t h ≡ some v → 1 ≤ (overflow_stash_remove t h).0
  unfolding stash_find
  overflow_stash_remove-finds v found =
      let (j, low, high, here) = stash_find_from-there t h v t.overflow_len 0 found in
      let fewer =
        stash_remove_from-drops h t.overflow_len t 0 0 j (omega arith)
          (omega (arith, valid.stash, valid.stash_in))
          (omega (arith, valid.stash_vals, valid.stash_in))
          (omega (arith, valid.counted, stash-le t)) (size-lt valid) low high here in
      rw loop_result (omega (arith, fewer))
