-- ===== src/Ht/Bare/Stash/Compacted.antt =====
-- The loop of `overflow_stash_remove`, in place: it writes at `w` what it reads at `i`.
use draugr_repo.Base.{
  ℕ, zero, suc, ◌+◌, ◌^◌, ◌<◌, ◌≤◌, ◌≡◌, refl, sym, ◌∙◌, arith, inl, inr, false, List, Bool-cases,
  get_or, set, length, length-set, set-get_or, get_or-set_ne, ◌==◌, ==_iff,
}
use mathlib.Core.Path.{ap₂}
use draugr_repo.Ht.Slot.{hpd_hash}
use draugr_repo.Ht.Bare.{Bare, dec}
use draugr_repo.Ht.Bare.Weigh.{weigh, sum_to, sum_to-push, in_lane}
use draugr_repo.Ht.Bare.Valid.{one_each}
use draugr_repo.Ht.Bare.Purged.{of_hash}
use draugr_repo.Ht.Bare.Stash.{stash_remove_from, keep_stash}

-- The sum over the `left` places from `i` on.
pub sum_from : (ℕ → ℕ → ℕ) → ℕ → ℕ → List ℕ → List ℕ → ℕ
sum_from g i zero xs ys = 0
sum_from g i (suc left) xs ys = g (get_or xs i 0) (get_or ys i 0) + sum_from g (i + 1) left xs ys

sum_from-set :
    (g : ℕ → ℕ → ℕ) (i left w : ℕ) (xs ys : List ℕ) (x y : ℕ)
    → w < i
    → sum_from g i left (set xs w x) (set ys w y) ≡ sum_from g i left xs ys
unfolding sum_from
sum_from-set g i zero w xs ys x y h = refl
sum_from-set g i (suc left) w xs ys x y h =
    rw
      (
        get_or-set_ne xs w i x 0 (omega arith),
        get_or-set_ne ys w i y 0 (omega arith),
        sum_from-set g (i + 1) left w xs ys x y (omega arith),
      )
      refl

pub sum_from-to :
    (g : ℕ → ℕ → ℕ) (i left : ℕ) (xs ys : List ℕ)
    → sum_to g i xs ys + sum_from g i left xs ys ≡ sum_to g (i + left) xs ys
unfolding sum_from sum_to
sum_from-to g i zero xs ys = let e : i + 0 ≡ i = omega arith in rw e (omega arith)
sum_from-to g i (suc left) xs ys =
    let e : i + suc left ≡ i + 1 + left = omega arith in
    let next : sum_to g (i + 1) xs ys ≡ sum_to g i xs ys + g (get_or xs i 0) (get_or ys i 0) =
      let s : i + 1 ≡ suc i = omega arith in rw s refl in
    rw e (omega (arith, sum_from-to g (i + 1) left xs ys, next))

pub sum_to-one : (n : ℕ) (xs ys : List ℕ) → sum_to (in_lane one_each) n xs ys ≡ n
unfolding sum_to
sum_to-one zero xs ys = refl
sum_to-one (suc n) xs ys = omega (arith, sum_to-one n xs ys)

pub stash-le : (t : Bare) → t.overflow_len ≤ weigh one_each t
unfolding weigh
stash-le t = omega (arith, sum_to-one t.overflow_len t.overflow_hash_pd t.overflow_vals)

-- The table after the copy of entry `i` to place `w`.
unfoldable pub copied : Bare → ℕ → ℕ → Bare
copied t w i = record t {
  overflow_hash_pd = set t.overflow_hash_pd w (get_or t.overflow_hash_pd i 0);
  overflow_vals = set t.overflow_vals w (get_or t.overflow_vals i 0);
}

pub keep_stash-copied : (t : Bare) (w i : ℕ) → keep_stash t w i ≡ copied t w i
unfolding keep_stash copied
keep_stash-copied t w i = elim (Bool-cases (i == w)) [
  | inl same ↦
      let e : i ≡ w = (==_iff i w).0 same in
      rw (same, e)
        (ap₂ (λ xs ys. record t { overflow_hash_pd = xs; overflow_vals = ys })
          (sym (set-get_or t.overflow_hash_pd w 0)) (sym (set-get_or t.overflow_vals w 0)))
  | inr other ↦ rw other refl
]

-- What the loop from `w`, `i` with `left` rounds to go makes of table `t`.
pub record Compacted (t : Bare) (h w i left : ℕ) (r : ℕ × Bare) : Type 0 where
  pub rest : r.1 ≡ record t {
    overflow_hash_pd = r.1.overflow_hash_pd;
    overflow_vals = r.1.overflow_vals;
    size = r.1.size;
  }
  pub hashes : length (r.1.overflow_hash_pd) ≡ length t.overflow_hash_pd
  pub vals : length (r.1.overflow_vals) ≡ length t.overflow_vals
  pub count : r.1.size + w + left ≡ t.size + r.0
  pub bound : r.0 ≤ w + left
  pub cleared :
      sum_to (in_lane (of_hash h)) (r.0) (r.1.overflow_hash_pd) (r.1.overflow_vals)
      ≡ sum_to (in_lane (of_hash h)) w t.overflow_hash_pd t.overflow_vals
  pub less :
      (g : ℕ → ℕ → ℕ)
      → sum_to g (r.0) (r.1.overflow_hash_pd) (r.1.overflow_vals)
        ≤ sum_to g w t.overflow_hash_pd t.overflow_vals
          + sum_from g i left t.overflow_hash_pd t.overflow_vals
  pub others :
      (f : ℕ → ℕ → ℕ)
      → ((v : ℕ) → f h v ≡ 0)
      → sum_to (in_lane f) (r.0) (r.1.overflow_hash_pd) (r.1.overflow_vals)
        ≡ sum_to (in_lane f) w t.overflow_hash_pd t.overflow_vals
          + sum_from (in_lane f) i left t.overflow_hash_pd t.overflow_vals

drop-Compacted :
    (t : Bare) (h w i left : ℕ) (r : ℕ × Bare)
    → hpd_hash (get_or t.overflow_hash_pd i 0) ≡ h
    → suc left ≤ t.size
    → t.size < 2 ^ 63
    → Compacted (record t { size = dec t.size }) h w (i + 1) left r
    → Compacted t h w i (suc left) r
unfolding sum_from
drop-Compacted t h w i left r e room small c = record {
  rest = c.rest;
  hashes = c.hashes;
  vals = c.vals;
  count = omega (arith, c.count);
  bound = omega (arith, c.bound);
  cleared = c.cleared;
  less = λ g. omega (arith, c.less g);
  others = λ f z.
      let gone : f (hpd_hash (get_or t.overflow_hash_pd i 0)) (get_or t.overflow_vals i 0) ≡ 0 =
        rw e (z (get_or t.overflow_vals i 0)) in
      omega (arith, c.others f z, gone);
}

copied-sums :
    (t : Bare) (w i left : ℕ) (g : ℕ → ℕ → ℕ)
    → w ≤ i
    → i < length t.overflow_hash_pd
    → i < length t.overflow_vals
    → sum_to g (w + 1) (copied t w i).overflow_hash_pd (copied t w i).overflow_vals
        + sum_from g (i + 1) left (copied t w i).overflow_hash_pd (copied t w i).overflow_vals
      ≡ sum_to g w t.overflow_hash_pd t.overflow_vals
        + sum_from g i (suc left) t.overflow_hash_pd t.overflow_vals
unfolding copied sum_from
copied-sums t w i left g behind p q =
    let x = get_or t.overflow_hash_pd i 0 in
    let y = get_or t.overflow_vals i 0 in
    let next : w + 1 ≡ suc w = omega arith in
    rw
      (
        next,
        sum_to-push g w t.overflow_hash_pd t.overflow_vals x y (omega arith) (omega arith),
        sum_from-set g (i + 1) left w t.overflow_hash_pd t.overflow_vals x y (omega arith),
      )
      (omega arith)

copied-cleared :
    (t : Bare) (h w i : ℕ)
    → w ≤ i
    → i < length t.overflow_hash_pd
    → i < length t.overflow_vals
    → (hpd_hash (get_or t.overflow_hash_pd i 0) == h) ≡ false
    → sum_to
        (in_lane (of_hash h))
        (w + 1)
        (copied t w i).overflow_hash_pd
        (copied t w i).overflow_vals
      ≡ sum_to (in_lane (of_hash h)) w t.overflow_hash_pd t.overflow_vals
unfolding copied
copied-cleared t h w i behind p q miss =
    let x = get_or t.overflow_hash_pd i 0 in
    let y = get_or t.overflow_vals i 0 in
    let next : w + 1 ≡ suc w = omega arith in
    let other : of_hash h (hpd_hash x) y ≡ 0 = ground (arith, miss) in
    rw
      (
        next,
        sum_to-push (in_lane (of_hash h)) w t.overflow_hash_pd t.overflow_vals x y (omega arith)
            (omega arith),
        other,
      )
      (omega arith)

keep-Compacted :
    (t : Bare) (h w i left : ℕ) (r : ℕ × Bare)
    → w ≤ i
    → i < length t.overflow_hash_pd
    → i < length t.overflow_vals
    → (hpd_hash (get_or t.overflow_hash_pd i 0) == h) ≡ false
    → Compacted (copied t w i) h (w + 1) (i + 1) left r
    → Compacted t h w i (suc left) r
keep-Compacted t h w i left r behind p q miss c = record {
  rest = unfold copied in c.rest;
  hashes =
      c.hashes ∙ (unfold copied in length-set t.overflow_hash_pd w (get_or t.overflow_hash_pd i 0));
  vals = c.vals ∙ (unfold copied in length-set t.overflow_vals w (get_or t.overflow_vals i 0));
  count = unfold copied in omega (arith, c.count);
  bound = omega (arith, c.bound);
  cleared = c.cleared ∙ copied-cleared t h w i behind p q miss;
  less = λ g. omega (arith, c.less g, copied-sums t w i left g behind p q);
  others = λ f z. omega (arith, c.others f z, copied-sums t w i left (in_lane f) behind p q);
}

pub stash_remove_from-Compacted :
    (h left : ℕ) (t : Bare) (w i : ℕ)
    → w ≤ i
    → i + left ≤ length t.overflow_hash_pd
    → i + left ≤ length t.overflow_vals
    → left ≤ t.size
    → t.size < 2 ^ 63
    → Compacted t h w i left (stash_remove_from t h w i left)
unfolding stash_remove_from sum_from
stash_remove_from-Compacted h zero t w i behind p q room small = record {
  rest = refl;
  hashes = refl;
  vals = refl;
  count = omega arith;
  bound = omega arith;
  cleared = refl;
  less = λ g. omega arith;
  others = λ f z. omega arith;
}
stash_remove_from-Compacted h (suc left) t w i behind p q room small =
    elim (Bool-cases (hpd_hash (get_or t.overflow_hash_pd i 0) == h)) [
      | inl hit ↦
          rw (stash_remove_from, hit)
            (drop-Compacted t h w i left _ ((==_iff _ _).0 hit) room small (
              stash_remove_from-Compacted h left (record t { size = dec t.size }) w (i + 1)
                (omega arith) (omega arith) (omega arith) (omega arith) (omega arith)))
      | inr miss ↦
          rw (stash_remove_from, miss, keep_stash-copied t w i)
            (keep-Compacted t h w i left _ behind (omega arith) (omega arith) miss (
              stash_remove_from-Compacted h left (copied t w i) (w + 1) (i + 1) (omega arith)
                (unfold copied in
                  omega (arith, length-set t.overflow_hash_pd w (get_or t.overflow_hash_pd i 0)))
                (unfold copied in
                  omega (arith, length-set t.overflow_vals w (get_or t.overflow_vals i 0)))
                (unfold copied in omega arith) (unfold copied in small)))
    ]
