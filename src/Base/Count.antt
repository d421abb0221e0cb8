-- ===== src/Base/Count.antt =====
-- How often a number occurs in a list. Counts add up over `++`, which makes lists without
-- repetitions and partitions a matter of arithmetic.
use Prim.Native.Nat.{ℕ, ◌+◌, ◌≤◌}
use mathlib.Core.Path.{◌≡◌, refl, ap}
use mathlib.Core.Logic.{◌≢◌, inl, inr}
use mathlib.Core.List.{List, [], ◌∷◌, ◌++◌}
use native.Mathlib.Omega.{arith}
use draugr_repo.Base.Test.{◌==◌, if◌then◌else◌, Bool-cases, ==_iff, ==_false}

abbrev pub one : ℕ → ℕ → ℕ
one x y = if x == y then 1 else 0

abbrev pub count : ℕ → List ℕ → ℕ
count x [] = 0
count x (y ∷ ys) = one x y + count x ys

pub one_self : (x : ℕ) → one x x ≡ 1
one_self x = ground arith

pub one_ne : (x y : ℕ) → x ≢ y → one x y ≡ 0
one_ne x y h = ground arith

pub eq_of_one : (x y : ℕ) → 1 ≤ one x y → x ≡ y
eq_of_one x y h = ground arith

pub count-append : (x : ℕ) (xs ys : List ℕ) → count x (xs ++ ys) ≡ count x xs + count x ys
count-append x [] ys = omega arith
count-append x (y ∷ xs) ys = omega (arith, count-append x xs ys)

-- A number that occurs splits the list at its first occurrence.
pub split_at_count :
    (x : ℕ) (xs : List ℕ)
    → 1 ≤ count x xs
    → (before : List ℕ) × (after : List ℕ) × (xs ≡ before ++ x ∷ after) × (count x before ≡ 0)
split_at_count x [] h = absurd (omega arith)
split_at_count x (y ∷ ys) h = elim (Bool-cases (x == y)) [
  | inl same ↦ ([], ys, rw (← (==_iff x y).0 same) refl, refl)
  | inr other ↦
      let (before, after, e, out) =
        split_at_count x ys (omega (arith, one_ne x y (==_false x y other))) in
      (y ∷ before, after, ap (◌∷◌ y) e, omega (arith, one_ne x y (==_false x y other)))
]
