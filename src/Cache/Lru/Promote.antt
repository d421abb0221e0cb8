-- ===== src/Cache/Lru/Promote.antt =====
-- The three list operations as functions of the order: the abstract view of the list.
use draugr_repo.Base.{
  ℕ, ◌+◌, ◌≤◌, ◌≡◌, refl, sym, ap, ◌∙◌, subst, arith, Bool-cases, inl, inr, List, [], ◌∷◌, ◌++◌,
  ◌==◌, if◌then◌else◌, ==_iff, ==_false, count, one, one_self, one_ne, split_at_count,
}
use draugr_repo.Cache.Lru.{no_slot, Links, lru_remove, lru_promote}
use draugr_repo.Cache.Lru.Order.{IsOrder}
use draugr_repo.Cache.Lru.AddHead.{lru_add_head-IsOrder}
use draugr_repo.Cache.Lru.Chain.{first_or}
use draugr_repo.Cache.Lru.Remove.{lru_remove-split}

-- The list without the first occurrence of `x`.
abbrev pub without : ℕ → List ℕ → List ℕ
without x [] = []
without x (y ∷ ys) = if x == y then ys else y ∷ without x ys

without-split : (x : ℕ) (xs ys : List ℕ) → count x xs ≡ 0 → without x (xs ++ x ∷ ys) ≡ xs ++ ys
without-split x [] ys out = rw ((==_iff x x).1 refl) refl
without-split x (z ∷ xs) ys out = elim (Bool-cases (x == z)) [
  | inl same ↦ absurd (ground arith)
  | inr other ↦ rw other (ap (◌∷◌ z) (without-split x xs ys (omega arith)))
]

pub count-without :
    (i x : ℕ) (xs : List ℕ) → 1 ≤ count x xs → count i (without x xs) + one i x ≡ count i xs
count-without i x [] h = absurd (omega arith)
count-without i x (y ∷ ys) h = elim (Bool-cases (x == y)) [
  | inl same ↦ rw same (omega (arith, ap (one i) ((==_iff x y).0 same)))
  | inr other ↦
      rw other
        (omega (arith, count-without i x ys (omega (arith, one_ne x y (==_false x y other)))))
]

first-without :
    (x : ℕ) (xs : List ℕ) → 1 ≤ count x xs → first_or no_slot xs ≡ x → x ∷ without x xs ≡ xs
first-without x [] h e = absurd (omega arith)
first-without x (y ∷ ys) h e = rw ((==_iff x y).1 (sym e)) (ap (λ z. z ∷ ys) (sym e))

module _ (n : ℕ) (fits : n ≤ no_slot) (l : Links) (idx : ℕ) (order : List ℕ) where
  -- A slot of the order leaves it, and the others keep their places.
  pub lru_remove-IsOrder :
      1 ≤ count idx order → IsOrder n l order → IsOrder n (lru_remove l idx) (without idx order)
  lru_remove-IsOrder here o =
      let (xs, ys, e, out) = split_at_count idx order here in
      let o' : IsOrder n l (xs ++ idx ∷ ys) = subst (IsOrder n l) e o in
      subst (IsOrder n (lru_remove l idx)) (sym (ap (without idx) e ∙ without-split idx xs ys out))
        (lru_remove-split n fits l idx xs ys o')

  -- Of the slots that are linked in an order, one that is promoted becomes the first, and the
  -- others keep their order.
  pub lru_promote-IsOrder :
      1 ≤ count idx order
      → IsOrder n l order
      → IsOrder n (lru_promote l idx) (idx ∷ without idx order)
  unfolding lru_promote
  lru_promote-IsOrder here o = elim (Bool-cases (l.head == idx)) [
    | inl first ↦ rw first (
        subst (IsOrder n l)
          (sym (first-without idx order here (sym o.head ∙ (==_iff l.head idx).0 first))) o)
    | inr other ↦ rw other (
        lru_add_head-IsOrder n fits (lru_remove l idx) idx (without idx order) (o.below idx here)
          (omega (arith, count-without idx idx order here, o.distinct idx, one_self idx))
          (lru_remove-IsOrder here o))
  ]
