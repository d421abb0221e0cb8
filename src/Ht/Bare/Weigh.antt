-- ===== src/Ht/Bare/Weigh.antt =====
-- What a table holds, whatever its layout: for a weight `f` of entries, the sum of `f` over all
-- of them. With `f` the test for one entry it is how often that entry is stored.
use draugr_repo.Base.{
  ℕ, zero, suc, ◌+◌, ◌<◌, ◌≤◌, ◌≡◌, refl, arith, List, if◌then◌else◌, ◌==◌, ◌&&◌,
}
use draugr_repo.Base.{length, get_or, set, get_or-set_self, get_or-set_ne, move_down}
use draugr_repo.Base.{get_or-move_down_below, get_or-move_down_inside}
use draugr_repo.Ht.Slot.{hpd_hash, hpd_live}
use draugr_repo.Ht.Bare.{Bare}
use native.Mathlib.Decide.{ℕ_discrete, dec_lt}

-- The sum of `g` over the first `n` places of two arrays side by side.
unfoldable pub sum_to : (ℕ → ℕ → ℕ) → ℕ → List ℕ → List ℕ → ℕ
sum_to g zero xs ys = 0
sum_to g (suc n) xs ys = sum_to g n xs ys + g (get_or xs n 0) (get_or ys n 0)

abbrev pub in_lane : (ℕ → ℕ → ℕ) → ℕ → ℕ → ℕ
in_lane f hpd val = f (hpd_hash hpd) val

abbrev pub in_slot : (ℕ → ℕ → ℕ) → ℕ → ℕ → ℕ
in_slot f hpd val = if hpd_live hpd then f (hpd_hash hpd) val else 0

-- The sum of `f hash val` over the live slots, the stash and the spill lane.
unfoldable pub weigh : (ℕ → ℕ → ℕ) → Bare → ℕ
weigh f t =
    sum_to (in_slot f) t.capacity t.hash_pd t.vals
    + sum_to (in_lane f) t.overflow_len t.overflow_hash_pd t.overflow_vals
    + sum_to (in_lane f) t.spill_len t.spill_hash_pd t.spill_vals

module _ (g : ℕ → ℕ → ℕ) where
  pub sum_to-set_above :
      (n i : ℕ) (xs ys : List ℕ) (x y : ℕ)
      → n ≤ i
      → sum_to g n (set xs i x) (set ys i y) ≡ sum_to g n xs ys
  unfolding sum_to
  sum_to-set_above zero i xs ys x y h = refl
  sum_to-set_above (suc n) i xs ys x y h = rw (
    sum_to-set_above n i xs ys x y (omega arith),
    get_or-set_ne xs i n x 0 (omega arith),
    get_or-set_ne ys i n y 0 (omega arith),
  )

  -- A write at a place below `n` exchanges the old entry for the new one.
  pub sum_to-set :
      (n i : ℕ) (xs ys : List ℕ) (x y : ℕ)
      → i < n
      → i < length xs
      → i < length ys
      → sum_to g n (set xs i x) (set ys i y) + g (get_or xs i 0) (get_or ys i 0)
        ≡ sum_to g n xs ys + g x y
  unfolding sum_to
  sum_to-set zero i xs ys x y h p q = absurd (omega arith)
  sum_to-set (suc n) i xs ys x y h p q = elim (ℕ_discrete i n) [
    | yes e ↦
        rw
          (
            e,
            sum_to-set_above n n xs ys x y (omega arith),
            get_or-set_self xs n x 0 (omega arith),
            get_or-set_self ys n y 0 (omega arith),
          )
          (omega arith)
    | no ne ↦
        rw (get_or-set_ne xs i n x 0 ne, get_or-set_ne ys i n y 0 ne)
          (omega (arith, sum_to-set n i xs ys x y (omega arith) p q))
  ]

  -- A write just above the end makes the sum one entry longer.
  pub sum_to-push :
      (n : ℕ) (xs ys : List ℕ) (x y : ℕ)
      → n < length xs
      → n < length ys
      → sum_to g (suc n) (set xs n x) (set ys n y) ≡ sum_to g n xs ys + g x y
  unfolding sum_to
  sum_to-push n xs ys x y p q = rw (
    sum_to-set_above n n xs ys x y (omega arith),
    get_or-set_self xs n x 0 p,
    get_or-set_self ys n y 0 q,
  )

  -- Only the first `n` places count.
  pub sum_to_ext :
      (n : ℕ) (xs ys us ws : List ℕ)
      → ((j : ℕ) → j < n → get_or us j 0 ≡ get_or xs j 0)
      → ((j : ℕ) → j < n → get_or ws j 0 ≡ get_or ys j 0)
      → sum_to g n us ws ≡ sum_to g n xs ys
  unfolding sum_to
  sum_to_ext zero xs ys us ws p q = refl
  sum_to_ext (suc n) xs ys us ws p q = rw (
    sum_to_ext n xs ys us ws (λ j h. p j (omega arith)) (λ j h. q j (omega arith)),
    p n (omega arith),
    q n (omega arith),
  )

  -- One more element moved down does not show below.
  get_or-move_down-suc :
      (i k j : ℕ) (xs : List ℕ)
      → j < i + k
      → i + suc k < length xs
      → get_or (move_down xs i (suc k)) j 0 ≡ get_or (move_down xs i k) j 0
  get_or-move_down-suc i k j xs h p = elim (dec_lt j i) [
    | yes below ↦
        rw (get_or-move_down_below xs i (suc k) j 0 below, get_or-move_down_below xs i k j 0 below)
    | no above ↦ rw (
      get_or-move_down_inside xs i (suc k) j 0 (omega arith) (omega arith) p,
      get_or-move_down_inside xs i k j 0 (omega arith) (omega arith) (omega arith),
    )
  ]

  -- Moving `k` elements behind place `i` down takes the entry at `i` out of the sum.
  pub sum_to-move_down :
      (k n i : ℕ) (xs ys : List ℕ)
      → i + k ≡ n
      → n < length xs
      → n < length ys
      → sum_to g n (move_down xs i k) (move_down ys i k) + g (get_or xs i 0) (get_or ys i 0)
        ≡ sum_to g (suc n) xs ys
  unfolding sum_to
  sum_to-move_down zero n i xs ys e p q = let e' : i ≡ n = omega arith in rw e'
  sum_to-move_down (suc k) zero i xs ys e p q = absurd (omega arith)
  sum_to-move_down (suc k) (suc n) i xs ys e p q =
      rw
        (
          get_or-move_down_inside xs i (suc k) n 0 (omega arith) (omega arith) (rw e p),
          get_or-move_down_inside ys i (suc k) n 0 (omega arith) (omega arith) (rw e q),
          sum_to_ext n (move_down xs i k) (move_down ys i k) (move_down xs i (suc k))
              (move_down ys i (suc k)) (λ j h. get_or-move_down-suc i k j xs (omega arith) (rw e p))
              (λ j h. get_or-move_down-suc i k j ys (omega arith) (rw e q)),
        )
        (omega (arith, sum_to-move_down k n i xs ys (omega arith) (omega arith) (omega arith)))

  -- A sum of zeros and ones is at most the number of places.
  pub sum_to-le : (n : ℕ) (xs ys : List ℕ) → ((x y : ℕ) → g x y ≤ 1) → sum_to g n xs ys ≤ n
  unfolding sum_to
  sum_to-le zero xs ys h = omega arith
  sum_to-le (suc n) xs ys h = omega (arith, sum_to-le n xs ys h, h (get_or xs n 0) (get_or ys n 0))

pub in_slot-le : (x y : ℕ) → in_slot (λ _ _. 1) x y ≤ 1
in_slot-le x y = ground arith

-- How often the entry (h, v) is stored.
abbrev pub is_entry : ℕ → ℕ → ℕ → ℕ → ℕ
is_entry h v h' v' = if h' == h && v' == v then 1 else 0

unfoldable pub copies : ℕ → ℕ → Bare → ℕ
copies h v t = weigh (is_entry h v) t

-- One term of a sum is at most the sum.
pub sum_to-ge :
    (g : ℕ → ℕ → ℕ) (n j : ℕ) (xs ys : List ℕ)
    → j < n
    → g (get_or xs j 0) (get_or ys j 0) ≤ sum_to g n xs ys
unfolding sum_to
sum_to-ge g zero j xs ys h = absurd (omega arith)
sum_to-ge g (suc n) j xs ys h = elim (ℕ_discrete j n) [
  | yes e ↦ rw e (omega arith)
  | no ne ↦ omega (arith, sum_to-ge g n j xs ys (omega arith))
]

pub is_entry_self : (h k v w : ℕ) → h ≡ k → v ≡ w → is_entry k w h v ≡ 1
is_entry_self h k v w p q = ground arith
