-- ===== src/Cache/Lru/Chain.antt =====
-- The links of a list of slots in two arrays: what they are, and what a write to them changes.
use draugr_repo.Base.{
  ℕ, ◌≤◌, ◌<◌, ◌≡◌, ◌≢◌, refl, ap, ◌∙◌, arith, List, [], ◌∷◌, ◌++◌, length, get_or, set,
  get_or-set_self, get_or-set_ne, count, one_self,
}

abbrev pub first_or : ℕ → List ℕ → ℕ
first_or d [] = d
first_or d (x ∷ xs) = x

abbrev pub last_or : ℕ → List ℕ → ℕ
last_or d [] = d
last_or d (x ∷ xs) = last_or x xs

-- Each slot of the list points back to the one before it and on to the one after it; `b` stands
-- before the first slot and `a` after the last.
abbrev pub Chain : List ℕ → List ℕ → ℕ → List ℕ → ℕ → Type 0
Chain prev next b [] a = Unit {0}
Chain prev next b (x ∷ xs) a =
    (get_or prev x 0 ≡ b) × (get_or next x 0 ≡ first_or a xs) × Chain prev next x xs a

abbrev pub Distinct : List ℕ → Type 0
Distinct xs = (i : ℕ) → count i xs ≤ 1

abbrev pub Below : ℕ → List ℕ → Type 0
Below n xs = (i : ℕ) → 1 ≤ count i xs → i < n

pub ne_of_count : (i j : ℕ) (xs : List ℕ) → count i xs ≡ 0 → 1 ≤ count j xs → i ≢ j
ne_of_count i j xs h k e = absurd (omega (arith, ap (λ (t : ℕ). count t xs) e))

-- Only the links of the slots in the list matter.
pub frame :
    (prev prev' next next' : List ℕ) (b : ℕ) (xs : List ℕ) (a : ℕ)
    → ((i : ℕ) → 1 ≤ count i xs → get_or prev' i 0 ≡ get_or prev i 0)
    → ((i : ℕ) → 1 ≤ count i xs → get_or next' i 0 ≡ get_or next i 0)
    → Chain prev next b xs a
    → Chain prev' next' b xs a
frame prev prev' next next' b [] a p q c = tt
frame prev prev' next next' b (x ∷ xs) a p q (e, f, c) = (
  p x (omega (arith, one_self x)) ∙ e,
  q x (omega (arith, one_self x)) ∙ f,
  frame prev prev' next next' x xs a (λ i h. p i (omega arith)) (λ i h. q i (omega arith)) c,
)

pub frame_prev :
    (prev next : List ℕ) (b : ℕ) (xs : List ℕ) (a i v : ℕ)
    → count i xs ≡ 0
    → Chain prev next b xs a
    → Chain (set prev i v) next b xs a
frame_prev prev next b xs a i v out =
    frame prev (set prev i v) next next b xs a
      (λ j h. get_or-set_ne prev i j v 0 (ne_of_count i j xs out h)) (λ j h. refl)

pub frame_next :
    (prev next : List ℕ) (b : ℕ) (xs : List ℕ) (a i v : ℕ)
    → count i xs ≡ 0
    → Chain prev next b xs a
    → Chain prev (set next i v) b xs a
frame_next prev next b xs a i v out =
    frame prev prev next (set next i v) b xs a (λ j h. refl)
      (λ j h. get_or-set_ne next i j v 0 (ne_of_count i j xs out h))

pub Chain-append :
    (prev next : List ℕ) (b : ℕ) (xs ys : List ℕ) (a : ℕ)
    → Chain prev next b xs (first_or a ys)
    → Chain prev next (last_or b xs) ys a
    → Chain prev next b (xs ++ ys) a
Chain-append prev next b [] ys a p q = q
Chain-append prev next b (x ∷ []) ys a (e, f, p) q = (e, f, q)
Chain-append prev next b (x ∷ y ∷ xs) ys a (e, f, p) q =
    (e, f, Chain-append prev next x (y ∷ xs) ys a p q)

pub append-Chain :
    (prev next : List ℕ) (b : ℕ) (xs ys : List ℕ) (a : ℕ)
    → Chain prev next b (xs ++ ys) a
    → Chain prev next b xs (first_or a ys) × Chain prev next (last_or b xs) ys a
append-Chain prev next b [] ys a c = (tt, c)
append-Chain prev next b (x ∷ []) ys a (e, f, c) = ((e, f, tt), c)
append-Chain prev next b (x ∷ y ∷ xs) ys a (e, f, c) =
    let (p, q) = append-Chain prev next x (y ∷ xs) ys a c in ((e, f, p), q)

pub count-last_or : (x : ℕ) (xs : List ℕ) → 1 ≤ count (last_or x xs) (x ∷ xs)
count-last_or x [] = omega (arith, one_self x)
count-last_or x (y ∷ xs) = omega (arith, count-last_or y xs)

-- A write to the last slot's `next` changes what stands after the list.
pub retarget_last :
    (prev next : List ℕ) (b x : ℕ) (xs : List ℕ) (a a' : ℕ)
    → Distinct (x ∷ xs)
    → Below (length next) (x ∷ xs)
    → Chain prev next b (x ∷ xs) a
    → Chain prev (set next (last_or x xs) a') b (x ∷ xs) a'
retarget_last prev next b x [] a a' d low (e, f, c) =
    (e, get_or-set_self next x a' 0 (low x (omega (arith, one_self x))), tt)
retarget_last prev next b x (y ∷ xs) a a' d low (e, f, c) =
    let z = last_or y xs in
    let once : count x (x ∷ y ∷ xs) ≤ 1 = d x in
    let ne : z ≢ x = λ s.
      absurd (omega (arith, one_self x, count-last_or y xs, ap (λ (t : ℕ). count t (y ∷ xs)) s)) in
    (
      e,
      get_or-set_ne next z x a' 0 ne ∙ f,
      retarget_last prev next x y xs a a' (λ i. omega (arith, d i)) (λ i h. low i (omega arith)) c,
    )

-- A write to the first slot's `prev` changes what stands before the list.
pub retarget_first :
    (prev next : List ℕ) (b b' x : ℕ) (xs : List ℕ) (a : ℕ)
    → count x xs ≡ 0
    → x < length prev
    → Chain prev next b (x ∷ xs) a
    → Chain (set prev x b') next b' (x ∷ xs) a
retarget_first prev next b b' x xs a out low (e, f, c) =
    (get_or-set_self prev x b' 0 low, f, frame_prev prev next x xs a x b' out c)
