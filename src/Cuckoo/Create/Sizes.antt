-- ===== src/Cuckoo/Create/Sizes.antt =====
-- The number of buckets is a power of two that fits.
use draugr_repo.Base.{
  ℕ, zero, suc, ◌-◌, ◌*◌, ◌/◌, ◌^◌, ◌≤◌, ◌<◌, ◌≡◌, refl, sym, subst, ==_iff, false, arith, ltb,
  ◌==◌, ◌||◌, Bool-cases, inl, inr, some,
}
use native.Mathlib.Nat.{pow-suc}
use draugr_repo.Pow2.{fill_down}
use draugr_repo.Pow2.Least.{filled-IsLeast, below_pow}
use draugr_repo.Cuckoo.Create.{next_power_of_2, cap_buckets}

pub next_power_of_2-power :
    (n : ℕ)
    → n ≤ 2 ^ 63
    → (k : ℕ) × (k < 64) × (next_power_of_2 n ≡ 2 ^ k) × (n ≤ 2 ^ k) × (1 ≤ n → 2 ^ k < 2 * n)
unfolding next_power_of_2 fill_down
next_power_of_2-power n high = elim (Bool-cases (n == 0)) [
  | inl nothing ↦
      (0, omega arith, rw nothing refl, ground (arith, nothing), λ some_n. ground (arith, nothing))
  | inr some_n ↦ elim (Bool-cases (n == 1)) [
    | inl one_left ↦ (
      0,
      omega arith,
      subst (λ m. next_power_of_2 m ≡ 1) (sym ((==_iff n 1).0 one_left)) refl,
      ground (arith, one_left),
      λ some_n. omega arith,
    )
    | inr more ↦
        let p = filled-IsLeast n (ground arith) high in
        (
          p.log,
          below_pow p.log 64 (2 ^ p.log) (omega arith) (omega (arith, p.power, p.least)),
          rw some_n p.power,
          omega (arith, p.power, p.enough),
          λ there. omega (arith, p.power, p.least),
        )
  ]
]

-- What the loop ends with: a power of two that fits the fields of the filter.
pub record Fits (bucket_size num_buckets : ℕ) : Type 0 where
  pub log : ℕ
  pub power : num_buckets ≡ 2 ^ log
  pub few : num_buckets ≤ 2 ^ 31
  pub entries : num_buckets * bucket_size < 2 ^ 32

pub cap_buckets-Fits :
    (k fuel bucket_size : ℕ)
    → bucket_size ≤ 16
    → k < fuel
    → (nb : ℕ) × (cap_buckets fuel bucket_size (2 ^ k) ≡ some nb)
      × Fits bucket_size nb
      × (2 ^ k ≤ 2 ^ 31 → 2 ^ k * bucket_size < 2 ^ 32 → nb ≡ 2 ^ k)
unfolding cap_buckets
cap_buckets-Fits k zero bs small enough = absurd (omega arith)
cap_buckets-Fits zero (suc fuel) bs small enough =
    let fits : (ltb (2 ^ 31) 1 || ltb (2 ^ 32 - 1) (1 * bs)) ≡ false = ground arith in
    (
      1,
      rw fits refl,
      record { log = 0; power = refl; few = omega arith; entries = omega arith },
      λ few all_fit. refl,
    )
cap_buckets-Fits (suc k) (suc fuel) bs small enough =
    elim (Bool-cases (ltb (2 ^ 31) (2 ^ suc k) || ltb (2 ^ 32 - 1) (2 ^ suc k * bs))) [
      | inl large ↦
          let half : 2 ^ suc k / 2 ≡ 2 ^ k = omega (arith, pow-suc 2 k) in
          let (nb, e, fits, rest) = cap_buckets-Fits k fuel bs small (omega arith) in
          (
            nb,
            rw (large, half) e,
            fits,
            λ few all_fit. absurd (ground (arith, large, few, all_fit)),
          )
      | inr fine ↦ (
        2 ^ suc k,
        rw fine refl,
        record {
          log = suc k;
          power = refl;
          few = ground (arith, fine);
          entries = ground (arith, fine);
        },
        λ few all_fit. refl,
      )
    ]
