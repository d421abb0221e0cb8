-- ===== src/Cache/Holds.antt =====
-- The abstract view of the cache: the order of its live slots, the most recently used first.
use draugr_repo.Base.{
  ℕ, suc, ◌+◌, ◌≤◌, ◌<◌, ◌≡◌, refl, ap, arith, List, [], ◌∷◌, length, get_or, count, one_ne,
  Bool-cases, inl, inr, ◌==◌, ==_iff, ==_false, one_self,
}
use draugr_repo.Cache.{Cache}
use draugr_repo.Cache.Free.{count_to}
use draugr_repo.Cache.Interface.{Index, low48}
use draugr_repo.Cache.Lru.{no_slot}
use draugr_repo.Cache.Lru.Order.{IsOrder}
use draugr_repo.Cache.Lru.Promote.{without}

abbrev pub sum_over : (ℕ → ℕ) → List ℕ → ℕ
sum_over g [] = 0
sum_over g (x ∷ xs) = g x + sum_over g xs

pub sum_over-without :
    (g : ℕ → ℕ) (x : ℕ) (xs : List ℕ)
    → 1 ≤ count x xs
    → sum_over g (without x xs) + g x ≡ sum_over g xs
sum_over-without g x [] h = absurd (omega arith)
sum_over-without g x (y ∷ ys) h = elim (Bool-cases (x == y)) [
  | inl same ↦ rw same (omega (arith, ap g ((==_iff x y).0 same)))
  | inr other ↦
      rw other
        (omega (arith, sum_over-without g x ys (omega (arith, one_ne x y (==_false x y other)))))
]

pub sum_over_ext :
    (g g' : ℕ → ℕ) (xs : List ℕ)
    → ((i : ℕ) → 1 ≤ count i xs → g i ≡ g' i)
    → sum_over g xs ≡ sum_over g' xs
sum_over_ext g g' [] same = refl
sum_over_ext g g' (x ∷ xs) same =
    omega (
      arith,
      same x (omega (arith, one_self x)),
      sum_over_ext g g' xs (λ i h. same i (omega arith)),
    )

pub length-without :
    (x : ℕ) (xs : List ℕ) → 1 ≤ count x xs → suc (length (without x xs)) ≡ length xs
length-without x [] h = absurd (omega arith)
length-without x (y ∷ ys) h = elim (Bool-cases (x == y)) [
  | inl same ↦ rw same refl
  | inr other ↦
      rw other (ap suc (length-without x ys (omega (arith, one_ne x y (==_false x y other)))))
]

module _ (ix : Index) where
  -- The slots of `order` are linked in that order and live, the others are on the free stack, and
  -- the table holds each live slot under its hash and nothing else.
  pub record Holds (c : Cache ix.T) (order : List ℕ) : Type 0 where
    pub ordered : IsOrder c.capacity c.lru order
    pub small : c.capacity ≤ no_slot
    pub stack_len : length c.free_stack ≡ c.capacity
    pub live_len : length c.live ≡ c.capacity
    pub hashes_len : length c.hashes ≡ c.capacity
    pub entries_len : length c.entries ≡ c.capacity
    pub counted : c.size ≡ length order
    pub top : c.free_top + length order ≡ c.capacity
    pub parted : (i : ℕ) → i < c.capacity → count i order + count_to i c.free_top c.free_stack ≡ 1
    pub free_below : (i : ℕ) → 1 ≤ count_to i c.free_top c.free_stack → i < c.capacity
    pub alive : (i : ℕ) → i < c.capacity → get_or c.live i 0 ≡ count i order
    pub valid : ix.IsValid c.bare
    pub indexed :
        (f : ℕ → ℕ → ℕ)
        → ix.weigh f c.bare ≡ sum_over (λ i. f (low48 (get_or c.hashes i 0)) i) order
