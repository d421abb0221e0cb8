-- ===== src/Pow2/Fill.antt =====
-- Filling the digits below the highest one.
use draugr_repo.Base.{
  ℕ, zero, suc, ◌+◌, ◌-◌, ◌/◌, ◌^◌, ◌≤◌, ◌<◌, ◌≡◌, sym, ap, ◌∙◌, arith, ltb, leb, ◌==◌, Bool-cases,
  inl, inr, bit_or, ◌>>>◌, if◌then◌else◌,
}
use native.Mathlib.Nat.{pow-suc, one-le-pow}
use draugr_repo.Base.Bits.{digit, digit-lt, digit_ext, digit-bit_or}
use draugr_repo.Base.Bits.Shift.{digit-shr, digit-above, lt_of_digits, digit-ones}
use draugr_repo.Pow2.{fill_down}

-- The place of the highest digit, found in `fuel` halvings.
abbrev pub log2 : ℕ → ℕ → ℕ
log2 zero x = 0
log2 (suc fuel) x = let rest = log2 fuel (x / 2) in if x / 2 == 0 then 0 else suc rest

pub log2-bounds :
    (fuel x : ℕ) → x ≤ fuel → 1 ≤ x → (2 ^ log2 fuel x ≤ x) × (x < 2 ^ suc (log2 fuel x))
log2-bounds zero x h pos = absurd (omega arith)
log2-bounds (suc fuel) x h pos = elim (Bool-cases (x / 2 == 0)) [
  | inl one_left ↦ rw one_left (omega arith, ground (arith, one_left))
  | inr more ↦
      let (low, high) = log2-bounds fuel (x / 2) (omega arith) (ground (arith, more)) in
      let k = log2 fuel (x / 2) in
      rw more (omega (arith, pow-suc 2 k), omega (arith, pow-suc 2 (suc k), pow-suc 2 k))
]

pub digit-top : (j x : ℕ) → 2 ^ j ≤ x → x < 2 ^ suc j → digit x j ≡ 1
unfolding digit
digit-top zero x low high = omega arith
digit-top (suc j) x low high =
    digit-top j (x / 2) (omega (arith, pow-suc 2 j)) (omega (arith, pow-suc 2 (suc j), pow-suc 2 j))

-- A number of `k` bits, the highest `m` of them ones.
record Tops (k m x : ℕ) : Type 0 where
  pub size : x < 2 ^ k
  pub full : (i : ℕ) → i < k → k ≤ i + m → digit x i ≡ 1

or-Tops : (k m s x : ℕ) → s ≤ m → Tops k m x → Tops k (m + s) (bit_or x (x >>> s))
or-Tops k m s x h t = record {
  size = lt_of_digits k _ λ i past. omega (
    arith,
    digit-bit_or x (x >>> s) i,
    digit-shr x s i,
    digit-above k x i t.size past,
    digit-above k x (s + i) t.size (omega arith),
  );
  full = λ i inside reach. elim (Bool-cases (leb k (i + m))) [
    | inl here ↦
        omega
          (arith, digit-bit_or x (x >>> s) i, t.full i inside (ground arith), digit-lt (x >>> s) i)
    | inr below ↦ omega (
      arith,
      digit-bit_or x (x >>> s) i,
      digit-shr x s i,
      t.full (s + i) (ground (arith, below)) (omega arith),
      digit-lt x i,
    )
  ];
}

filled_up : (k x : ℕ) → k ≤ 64 → Tops k 64 x → x ≡ 2 ^ k - 1
filled_up k x h t = digit_ext _ _ λ i. elim (Bool-cases (ltb i k)) [
  | inl inside ↦
      let low : i < k = ground arith in t.full i low (omega arith) ∙ sym (digit-ones k i low)
  | inr outside ↦
      let past : k ≤ i = ground arith in
      digit-above k x i t.size past
      ∙ sym (digit-above k (2 ^ k - 1) i (omega (arith, one-le-pow k 2 (omega arith))) past)
]

-- All digits below the highest become ones.
pub fill_down_lem : (j x : ℕ) → j < 64 → 2 ^ j ≤ x → x < 2 ^ suc j → fill_down x ≡ 2 ^ suc j - 1
unfolding fill_down
fill_down_lem j x h low high =
    let start : Tops (suc j) 1 x = record {
      size = high;
      full =
          λ i inside reach. let e : i ≡ j = omega arith in ap (digit x) e ∙ digit-top j x low high;
    } in
    filled_up (suc j) _ (omega arith) (
      or-Tops (suc j) 32 32 _ (omega arith) (
        or-Tops (suc j) 16 16 _ (omega arith) (
          or-Tops (suc j) 8 8 _ (omega arith) (
            or-Tops (suc j) 4 4 _ (omega arith)
              (or-Tops (suc j) 2 2 _ (omega arith) (or-Tops (suc j) 1 1 x (omega arith) start))))))
