-- ===== src/Base/Array.antt =====
-- C arrays as lists with native indices. A write out of bounds changes nothing, a read out of
-- bounds gives the default: the theorems carry the bounds that rule both out.
use Prim.Native.Nat.{ℕ, zero, suc, ◌+◌, ◌≤◌, ◌<◌}
use mathlib.Core.Path.{◌≡◌, refl, ap, ap₂}
use mathlib.Core.Logic.{◌≢◌}
use mathlib.Core.List.{List, [], ◌∷◌, ◌++◌}
use native.Mathlib.Omega.{arith}

module _ {ℓ} {A : Type ℓ} where
  abbrev pub length : List A → ℕ
  length [] = 0
  length (x ∷ xs) = suc (length xs)

  abbrev pub get_or : List A → ℕ → A → A
  get_or [] i d = d
  get_or (x ∷ xs) zero d = x
  get_or (x ∷ xs) (suc i) d = get_or xs i d

  abbrev pub set : List A → ℕ → A → List A
  set [] i v = []
  set (x ∷ xs) zero v = v ∷ xs
  set (x ∷ xs) (suc i) v = x ∷ set xs i v

  abbrev pub replicate : ℕ → A → List A
  replicate zero a = []
  replicate (suc n) a = a ∷ replicate n a

  pub length-set : (xs : List A) (i : ℕ) (v : A) → length (set xs i v) ≡ length xs
  length-set [] i v = refl
  length-set (x ∷ xs) zero v = refl
  length-set (x ∷ xs) (suc i) v = ap suc (length-set xs i v)

  pub length-replicate : (n : ℕ) (a : A) → length (replicate n a) ≡ n
  length-replicate zero a = refl
  length-replicate (suc n) a = ap suc (length-replicate n a)

  pub get_or-replicate : (n i : ℕ) (a : A) → get_or (replicate n a) i a ≡ a
  get_or-replicate zero i a = refl
  get_or-replicate (suc n) zero a = refl
  get_or-replicate (suc n) (suc i) a = get_or-replicate n i a

  pub get_or-set_self :
      (xs : List A) (i : ℕ) (v d : A) → i < length xs → get_or (set xs i v) i d ≡ v
  get_or-set_self [] i v d h = absurd (omega arith)
  get_or-set_self (x ∷ xs) zero v d h = refl
  get_or-set_self (x ∷ xs) (suc i) v d h = get_or-set_self xs i v d (omega arith)

  pub get_or-set_ne :
      (xs : List A) (i j : ℕ) (v d : A) → i ≢ j → get_or (set xs i v) j d ≡ get_or xs j d
  get_or-set_ne [] i j v d h = refl
  get_or-set_ne (x ∷ xs) zero zero v d h = absurd (h refl)
  get_or-set_ne (x ∷ xs) zero (suc j) v d h = refl
  get_or-set_ne (x ∷ xs) (suc i) zero v d h = refl
  get_or-set_ne (x ∷ xs) (suc i) (suc j) v d h = get_or-set_ne xs i j v d (λ e. h (ap suc e))

  -- Writing back what was there changes nothing.
  pub set-get_or : (xs : List A) (i : ℕ) (d : A) → set xs i (get_or xs i d) ≡ xs
  set-get_or [] i d = refl
  set-get_or (x ∷ xs) zero d = refl
  set-get_or (x ∷ xs) (suc i) d = ap (◌∷◌ x) (set-get_or xs i d)

  pub set-set_self : (xs : List A) (i : ℕ) (v w : A) → set (set xs i v) i w ≡ set xs i w
  set-set_self [] i v w = refl
  set-set_self (x ∷ xs) zero v w = refl
  set-set_self (x ∷ xs) (suc i) v w = ap (◌∷◌ x) (set-set_self xs i v w)

  -- Arrays of one length that agree at every index are equal.
  pub get_or_ext :
      (d : A) (xs ys : List A)
      → length xs ≡ length ys
      → ((i : ℕ) → get_or xs i d ≡ get_or ys i d)
      → xs ≡ ys
  get_or_ext d [] [] e h = refl
  get_or_ext d [] (y ∷ ys) e h = absurd (omega arith)
  get_or_ext d (x ∷ xs) [] e h = absurd (omega arith)
  get_or_ext d (x ∷ xs) (y ∷ ys) e h =
      ap₂ ◌∷◌ (h 0) (get_or_ext d xs ys (omega arith) (λ i. h (suc i)))

  -- `memmove(&a[i], &a[i + 1], n)`: the `n` elements behind index `i` move down by one.
  abbrev pub move_down : List A → ℕ → ℕ → List A
  move_down xs i zero = xs
  move_down [] i (suc n) = []
  move_down (x ∷ xs) (suc i) (suc n) = x ∷ move_down xs i (suc n)
  move_down (x ∷ []) zero (suc n) = x ∷ []
  move_down (x ∷ y ∷ xs) zero (suc n) = y ∷ move_down (y ∷ xs) zero n

  pub length-move_down : (xs : List A) (i n : ℕ) → length (move_down xs i n) ≡ length xs
  length-move_down xs i zero = refl
  length-move_down [] i (suc n) = refl
  length-move_down (x ∷ xs) (suc i) (suc n) = ap suc (length-move_down xs i (suc n))
  length-move_down (x ∷ []) zero (suc n) = refl
  length-move_down (x ∷ y ∷ xs) zero (suc n) = ap suc (length-move_down (y ∷ xs) zero n)

  pub get_or-move_down_below :
      (xs : List A) (i n j : ℕ) (d : A) → j < i → get_or (move_down xs i n) j d ≡ get_or xs j d
  get_or-move_down_below xs i zero j d h = refl
  get_or-move_down_below [] i (suc n) j d h = refl
  get_or-move_down_below (x ∷ xs) (suc i) (suc n) zero d h = refl
  get_or-move_down_below (x ∷ xs) (suc i) (suc n) (suc j) d h =
      get_or-move_down_below xs i (suc n) j d (omega arith)
  get_or-move_down_below (x ∷ xs) zero (suc n) j d h = absurd (omega arith)

  pub get_or-move_down_inside :
      (xs : List A) (i n j : ℕ) (d : A)
      → i ≤ j
      → j < i + n
      → i + n < length xs
      → get_or (move_down xs i n) j d ≡ get_or xs (suc j) d
  get_or-move_down_inside xs i zero j d p q r = absurd (omega arith)
  get_or-move_down_inside [] i (suc n) j d p q r = absurd (omega arith)
  get_or-move_down_inside (x ∷ xs) (suc i) (suc n) zero d p q r = absurd (omega arith)
  get_or-move_down_inside (x ∷ xs) (suc i) (suc n) (suc j) d p q r =
      get_or-move_down_inside xs i (suc n) j d (omega arith) (omega arith) (omega arith)
  get_or-move_down_inside (x ∷ []) zero (suc n) j d p q r = absurd (omega arith)
  get_or-move_down_inside (x ∷ y ∷ xs) zero (suc n) zero d p q r = refl
  get_or-move_down_inside (x ∷ y ∷ xs) zero (suc n) (suc j) d p q r =
      get_or-move_down_inside (y ∷ xs) zero n j d (omega arith) (omega arith) (omega arith)

  pub length-append : (xs ys : List A) → length (xs ++ ys) ≡ length xs + length ys
  length-append [] ys = omega arith
  length-append (x ∷ xs) ys = omega (arith, length-append xs ys)

  pub get_or-append_left :
      (xs ys : List A) (i : ℕ) (d : A) → i < length xs → get_or (xs ++ ys) i d ≡ get_or xs i d
  get_or-append_left [] ys i d h = absurd (omega arith)
  get_or-append_left (x ∷ xs) ys zero d h = refl
  get_or-append_left (x ∷ xs) ys (suc i) d h = get_or-append_left xs ys i d (omega arith)
