-- ===== src/Pow2/Tests.antt =====
-- The number of leading zeros of a word, and the powers of some sizes.
use draugr_repo.Base.{ℕ, suc, ◌+◌, ◌-◌, ◌^◌, ◌≤◌, ◌<◌, ◌≡◌, refl, subst, arith, some, none}
use mathlib.Core.Option.{some-injective}
use draugr_repo.Pow2.{portable_pow2, next_pow2}
use draugr_repo.Pow2.Fill.{log2, log2-bounds}
use draugr_repo.Pow2.Least.{IsLeast, CountsZeros, below_pow, next_pow2-IsLeast}

abbrev count_zeros : ℕ → ℕ
count_zeros x = 63 - log2 x x

count_zeros_lem :
    (x : ℕ)
    → 1 ≤ x
    → x < 2 ^ 64
    → (count_zeros x < 64) × (2 ^ (63 - count_zeros x) ≤ x) × (x < 2 ^ (64 - count_zeros x))
count_zeros_lem x pos high =
    let (from, to) = log2-bounds x x (omega arith) pos in
    let short = below_pow (log2 x x) 64 x from high in
    let e1 : 63 - count_zeros x ≡ log2 x x = omega arith in
    let e2 : 64 - count_zeros x ≡ suc (log2 x x) = omega arith in
    (omega arith, rw e1 from, rw e2 to)

count_zeros-CountsZeros : CountsZeros (some count_zeros)
count_zeros-CountsZeros = record {
  zeros = λ count x same.
      subst (λ g. 1 ≤ x → x < 2 ^ 64 → (g x < 64) × (2 ^ (63 - g x) ≤ x) × (x < 2 ^ (64 - g x)))
        (some-injective _ _ same) (count_zeros_lem x);
}

next_pow2-IsLeast_example : IsLeast 100 (next_pow2 (some count_zeros) 100)
next_pow2-IsLeast_example =
    next_pow2-IsLeast (some count_zeros) 100 count_zeros-CountsZeros (omega arith) (omega arith)

-- Beyond 2 ^ 63 the number itself comes back.
beyond : next_pow2 none (2 ^ 63 + 1) ≡ 2 ^ 63 + 1
unfolding next_pow2 portable_pow2
beyond = refl
