-- ===== src/Pow2/Least.antt =====
-- `next_pow2` yields the least power of two that is at least its argument.
use draugr_repo.Base.{
  ℕ, suc, ◌+◌, ◌-◌, ◌*◌, ◌^◌, ◌≤◌, ◌<◌, ◌≡◌, refl, arith, leb, ◌==◌, Bool-cases, inl, inr, Option,
  some, none, u64, true, false, ◌<<<◌, if◌then◌else◌,
}
use native.Mathlib.Nat.{pow-suc, pow-succ', one-le-pow, pow-le-pow_right}
use draugr_repo.Pow2.{fill_down, portable_pow2, next_pow2}
use draugr_repo.Pow2.Fill.{log2, log2-bounds, fill_down_lem}

-- `p` is the least power of two that is at least `n`.
pub record IsLeast (n p : ℕ) : Type 0 where
  pub log : ℕ
  pub power : p ≡ 2 ^ log
  pub enough : n ≤ p
  pub least : p < 2 * n

-- What is documented of `__builtin_clzl`: the number of zeros above the highest one, for a word
-- that is not 0.
pub record CountsZeros (clz : Option (ℕ → ℕ)) : Type 0 where
  pub zeros :
      (count : ℕ → ℕ) (x : ℕ)
      → clz ≡ some count
      → 1 ≤ x
      → x < 2 ^ 64
      → (count x < 64) × (2 ^ (63 - count x) ≤ x) × (x < 2 ^ (64 - count x))

pub below_pow : (j k x : ℕ) → 2 ^ j ≤ x → x < 2 ^ k → j < k
below_pow j k x low high = elim (Bool-cases (leb k j)) [
  | inl over ↦
      let reach : k ≤ j = ground arith in
      let wide : 2 ^ k ≤ 2 ^ j = pow-le-pow_right (omega arith) reach in absurd (omega arith)
  | inr under ↦ ground arith
]

-- The number after all ones.
pub filled-IsLeast : (n : ℕ) → 2 ≤ n → n ≤ 2 ^ 63 → IsLeast n (u64 (fill_down (n - 1) + 1))
filled-IsLeast n low high =
    let x = n - 1 in
    let (from, to) = log2-bounds x x (omega arith) (omega arith) in
    let j = log2 x x in
    let short : j < 63 = below_pow j 63 x from (omega arith) in
    let bound : 2 ^ suc j ≤ 2 ^ 63 = pow-le-pow_right (omega arith) short in
    let e : u64 (fill_down x + 1) ≡ 2 ^ suc j =
      omega (arith, fill_down_lem j x (omega arith) from to, one-le-pow (suc j) 2 (omega arith)) in
    record { log = suc j; power = e; enough = omega arith; least = omega (arith, pow-suc 2 j) }

portable_pow2-IsLeast : (n : ℕ) → 2 ≤ n → n ≤ 2 ^ 63 → IsLeast n (portable_pow2 n)
unfolding portable_pow2
portable_pow2-IsLeast n low high = elim (Bool-cases (leb (1 <<< 63) n)) [
  | inl last ↦
      rw last (record {
        log = 63;
        power = ground (arith, last);
        enough = omega arith;
        least = omega arith;
      })
  | inr less ↦ rw less (filled-IsLeast n low high)
]

small-IsLeast : (n : ℕ) → 1 ≤ n → n ≤ 2 → IsLeast n (if n == 1 then 1 else 2)
small-IsLeast n low high = elim (Bool-cases (n == 1)) [
  | inl one_left ↦
      rw one_left
        (record { log = 0; power = refl; enough = ground (arith, one_left); least = omega arith })
  | inr two ↦
      rw two (record { log = 1; power = refl; enough = omega arith; least = ground (arith, two) })
]

-- The power above the highest digit, by the built-in.
counted-IsLeast :
    (n c : ℕ)
    → 3 ≤ n
    → n ≤ 2 ^ 63
    → c < 64
    → 2 ^ (63 - c) ≤ n - 1
    → n - 1 < 2 ^ (64 - c)
    → IsLeast n (u64 (1 <<< (64 - c)))
counted-IsLeast n c low high few from to =
    let double : 2 ^ (64 - c) ≡ 2 * 2 ^ (63 - c) =
      let e : 64 - c ≡ suc (63 - c) = omega arith in rw e (pow-succ' 2 (63 - c)) in
    let e : u64 (1 <<< (64 - c)) ≡ 2 ^ (64 - c) = omega arith in
    record { log = 64 - c; power = e; enough = omega arith; least = omega arith }

large-IsLeast :
    (clz : Option (ℕ → ℕ)) (n : ℕ)
    → CountsZeros clz
    → 3 ≤ n
    → n ≤ 2 ^ 63
    → IsLeast n (elim clz [
      | none ↦ portable_pow2 n
      | some count ↦ if leb n (1 <<< 63) then u64 (1 <<< (64 - count (n - 1))) else portable_pow2 n
    ])
large-IsLeast none n z low high = portable_pow2-IsLeast n (omega arith) high
large-IsLeast (some count) n z low high =
    let (few, from, to) = z.zeros count (n - 1) refl (omega arith) (omega arith) in
    let fits : leb n (1 <<< 63) ≡ true = ground (arith, high) in
    rw fits (counted-IsLeast n (count (n - 1)) low high few from to)

-- For a number from 1 to 2 ^ 63, with the built-in as documented or without it, the result is the
-- least power of two that is at least the number.
pub next_pow2-IsLeast :
    (clz : Option (ℕ → ℕ)) (n : ℕ)
    → CountsZeros clz
    → 1 ≤ n
    → n ≤ 2 ^ 63
    → IsLeast n (next_pow2 clz n)
unfolding next_pow2
next_pow2-IsLeast clz n z low high =
    let some_n : (n == 0) ≡ false = ground (arith, low) in
    elim (Bool-cases (leb n 2)) [
      | inl few ↦ rw (some_n, few) (small-IsLeast n low (ground (arith, few)))
      | inr many ↦ rw (some_n, many) (large-IsLeast clz n z (ground (arith, many)) high)
    ]
