-- ===== src/Ht/Bare/Purged.antt =====
-- What it means to remove entries of one hash and to count them.
use draugr_repo.Ht.Slot.{hpd_hash}
use draugr_repo.Base.{
  ◌<◌, ◌≢◌, ◌==◌, if◌then◌else◌, List, get_or, ℕ, ◌+◌, ◌≤◌, ◌≡◌, refl, ◌∙◌, arith, true, u64,
}
use draugr_repo.Ht.Bare.{Bare}
use draugr_repo.Ht.Bare.Weigh.{weigh, sum_to, sum_to-ge, in_lane}
use draugr_repo.Ht.Bare.Valid.{IsValid, Removed, one_each, size-lt}

-- Counts the entries of one hash.
abbrev pub of_hash : ℕ → ℕ → ℕ → ℕ
of_hash h k v = if k == h then 1 else 0

-- No entry among the first `n` has the hash.
abbrev pub Clear : ℕ → ℕ → List ℕ → Type 0
Clear h n xs = (i : ℕ) → i < n → hpd_hash (get_or xs i 0) ≢ h

pub sum-Clear : (h n : ℕ) (xs ys : List ℕ) → sum_to (in_lane (of_hash h)) n xs ys ≡ 0 → Clear h n xs
sum-Clear h n xs ys none_of i below e =
    let here : of_hash h (hpd_hash (get_or xs i 0)) (get_or ys i 0) ≡ 1 = ground (arith, e) in
    omega (arith, sum_to-ge (in_lane (of_hash h)) n i xs ys below, none_of, here)

-- From table `t`, with `acc` removed before, to the count and the table `r`: entries are only lost,
-- none of another hash is lost, and the count grows by the number of lost entries.
pub record Purged (t : Bare) (h acc : ℕ) (r : ℕ × Bare) : Type 0 where
  pub valid : IsValid (r.1)
  pub less : (f : ℕ → ℕ → ℕ) → weigh f (r.1) ≤ weigh f t
  pub others : (f : ℕ → ℕ → ℕ) → ((v : ℕ) → f h v ≡ 0) → weigh f (r.1) ≡ weigh f t
  pub counted : weigh one_each (r.1) + r.0 ≡ weigh one_each t + acc
  pub same_cap : r.1.capacity ≡ t.capacity

pub none-Purged : (t : Bare) (h acc : ℕ) → IsValid t → Purged t h acc (acc, t)
none-Purged t h acc valid = record {
  valid = valid;
  less = λ f. omega arith;
  others = λ f z. refl;
  counted = refl;
  same_cap = refl;
}

-- One removal, and then more.
pub more-Purged :
    (t t' : Bare) (h v acc : ℕ) (r : ℕ × Bare)
    → Removed t h v (true, t')
    → t'.capacity ≡ t.capacity
    → Purged t' h (acc + 1) r
    → Purged t h acc r
more-Purged t t' h v acc r (valid, lost) cap p = record {
  valid = p.valid;
  less = λ f. omega (arith, p.less f, lost f);
  others = λ f z. omega (arith, p.others f z, lost f, z v);
  counted = omega (arith, p.counted, lost one_each);
  same_cap = p.same_cap ∙ cap;
}

-- Two purges in a row, with the sum of their counts.
pub then-Purged :
    (t : Bare) (h : ℕ) (r r' : ℕ × Bare)
    → IsValid t
    → Purged t h 0 r
    → Purged (r.1) h 0 r'
    → Purged t h 0 (u64 (r.0 + r'.0), r'.1)
then-Purged t h r r' valid p p' = record {
  valid = p'.valid;
  less = λ f. omega (arith, p.less f, p'.less f);
  others = λ f z. p'.others f z ∙ p.others f z;
  counted = omega (arith, p.counted, p'.counted, valid.counted, size-lt valid);
  same_cap = p'.same_cap ∙ p.same_cap;
}
