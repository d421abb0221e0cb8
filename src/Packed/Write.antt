-- ===== src/Packed/Write.antt =====
-- Writing an entry of a set: its bits become those of the value, the others stay.
use draugr_repo.Base.{
  ℕ, ◌+◌, ◌-◌, ◌*◌, ◌/◌, ◌%◌, ◌^◌, ◌≤◌, ◌<◌, ◌≡◌, ◌≢◌, ◌⊎◌, inl, inr, refl, sym, ap, ◌∙◌, arith,
  List, get_or, get_or-set_self, get_or-set_ne, length, length-set, set, u64, ◌<<<◌, ◌>>>◌, ltb,
  ◌&&◌, ◌==◌, ==_iff, ==_false, Bool-cases,
}
use native.Mathlib.Nat.{pow-le-pow_right, div-le_self}
use draugr_repo.Base.Bits.{digit}
use draugr_repo.Base.Bits.Shift.{digit-shr, digit-above}
use draugr_repo.Packed.{merge, ones, set_set}
use draugr_repo.Packed.Stream.{
  bit_at, AreWords, merge_inside, merge_outside, merge-lt, shifted_below, shifted_from, u64-lt,
  digit-ones_below, ones-lt, digit-ones_above,
}
use draugr_repo.Packed.Fields.{first_bit, in_first, in_second, crosses, within}

-- A shifted number has no digits outside its place.
shifted_out :
    (x bo n c : ℕ) → x < 2 ^ n → c < 64 → (c < bo) ⊎ (bo + n ≤ c) → digit (u64 (x <<< bo)) c ≡ 0
shifted_out x bo n c fits small (inl before) = shifted_below x bo c before small
shifted_out x bo n c fits small (inr after) =
    let e : bo + (c - bo) ≡ c = omega arith in
    ap (digit (u64 (x <<< bo))) (sym e)
    ∙ shifted_from x bo (c - bo) (omega arith)
    ∙ digit-above n x (c - bo) fits (omega arith)

module _ (bo n v : ℕ) (high : n ≤ 32) (fits : v < 2 ^ n) where
  -- What is written to the first word of an entry, and to the second.
  abbrev first : ℕ → ℕ
  first word = merge word (u64 (ones n <<< bo)) (u64 (v <<< bo))

  abbrev second : ℕ → ℕ
  second word = merge word (ones n >>> (64 - bo)) (v >>> (64 - bo))

  first_inside : (word k : ℕ) → k < n → bo + k < 64 → digit (first word) (bo + k) ≡ digit v k
  first_inside word k h small =
      merge_inside word (u64 (ones n <<< bo)) (u64 (v <<< bo)) (bo + k) (u64-lt _) small
        (shifted_from (ones n) bo k small ∙ digit-ones_below n k h)
      ∙ shifted_from v bo k small

  first_outside :
      (word c : ℕ) → c < 64 → (c < bo) ⊎ (bo + n ≤ c) → digit (first word) c ≡ digit word c
  first_outside word c small out =
      merge_outside word (u64 (ones n <<< bo)) (u64 (v <<< bo)) c (u64-lt _) small
        (shifted_out (ones n) bo n c (ones-lt n) small out) (shifted_out v bo n c fits small out)

  word_size : (x b : ℕ) → x < 2 ^ n → x / 2 ^ b < 2 ^ 64
  word_size x b h =
      let widened : 2 ^ n ≤ 2 ^ 32 = pow-le-pow_right (omega arith) high in
      omega (arith, div-le_self x (2 ^ b), widened)

  second_inside :
      (word k : ℕ) → bo < 64 → k < n → 64 ≤ bo + k → digit (second word) (bo + k - 64) ≡ digit v k
  second_inside word k small h beyond =
      let e : 64 - bo + (bo + k - 64) ≡ k = omega arith in
      merge_inside word (ones n >>> (64 - bo)) (v >>> (64 - bo)) (bo + k - 64)
        (word_size (ones n) (64 - bo) (ones-lt n)) (omega arith)
        (digit-shr (ones n) (64 - bo) (bo + k - 64)
          ∙ ap (digit (ones n)) e
          ∙ digit-ones_below n k h)
      ∙ digit-shr v (64 - bo) (bo + k - 64)
      ∙ ap (digit v) e

  second_outside :
      (word c : ℕ) → bo < 64 → c < 64 → bo + n ≤ c + 64 → digit (second word) c ≡ digit word c
  second_outside word c small low after =
      merge_outside word (ones n >>> (64 - bo)) (v >>> (64 - bo)) c
        (word_size (ones n) (64 - bo) (ones-lt n)) low
        (digit-shr (ones n) (64 - bo) c ∙ digit-ones_above n (64 - bo + c) (omega arith))
        (digit-shr v (64 - bo) c ∙ digit-above n v (64 - bo + c) fits (omega arith))

module _ (table : List ℕ) (base off fp_bits v : ℕ) (low : 1 ≤ fp_bits) (high : fp_bits ≤ 32)
    (fits : off * fp_bits + fp_bits ≤ 512) (small : v < 2 ^ fp_bits)
    (room : base + 8 ≤ length table) where
  abbrev wi : ℕ
  wi = off * fp_bits / 64

  abbrev bo : ℕ
  bo = off * fp_bits % 64

  abbrev result : List ℕ
  result = set_set table base off fp_bits v

  abbrev word1 : ℕ
  word1 = first bo fp_bits v high small (get_or table (base + wi) 0)

  abbrev word2 : ℕ
  word2 = second bo fp_bits v high small (get_or table (base + wi + 1) 0)

  bo-lt : bo < 64
  bo-lt = omega arith

  wi-lt : wi < 8
  wi-lt = omega arith

  result_crossed :
      64 < bo + fp_bits → result ≡ set (set table (base + wi) word1) (base + wi + 1) word2
  unfolding set_set
  result_crossed far =
      rw
        (
          crosses table base off fp_bits high fits far,
          get_or-set_ne table (base + wi) (base + wi + 1) word1 0 (omega arith),
        )
        refl

  result_within : bo + fp_bits ≤ 64 → result ≡ set table (base + wi) word1
  unfolding set_set
  result_within near = rw (within table base off fp_bits high fits near) refl

  cross-cases : (64 < bo + fp_bits) ⊎ (bo + fp_bits ≤ 64)
  cross-cases = elim (Bool-cases (ltb 64 (bo + fp_bits))) [
    | inl far ↦ inl (ground arith)
    | inr near ↦ inr (ground arith)
  ]

  pub length-set_set : length result ≡ length table
  length-set_set = elim cross-cases [
    | inl far ↦
        ap length (result_crossed far)
        ∙ length-set (set table (base + wi) word1) (base + wi + 1) word2
        ∙ length-set table (base + wi) word1
    | inr near ↦ ap length (result_within near) ∙ length-set table (base + wi) word1
  ]

  get_first : get_or result (base + wi) 0 ≡ word1
  get_first =
      let here : get_or (set table (base + wi) word1) (base + wi) 0 ≡ word1 =
        get_or-set_self table (base + wi) word1 0 (omega (arith, wi-lt)) in
      elim cross-cases [
        | inl far ↦
            ap (λ (t : List ℕ). get_or t (base + wi) 0) (result_crossed far)
            ∙ get_or-set_ne (set table (base + wi) word1) (base + wi + 1) (base + wi) word2 0
                (omega arith)
            ∙ here
        | inr near ↦ ap (λ (t : List ℕ). get_or t (base + wi) 0) (result_within near) ∙ here
      ]

  get_second : 64 < bo + fp_bits → get_or result (base + wi + 1) 0 ≡ word2
  get_second far =
      ap (λ (t : List ℕ). get_or t (base + wi + 1) 0) (result_crossed far)
      ∙ get_or-set_self (set table (base + wi) word1) (base + wi + 1) word2 0
          (omega (arith, length-set table (base + wi) word1))

  get_other :
      (i : ℕ)
      → i ≢ base + wi
      → (64 < bo + fp_bits → i ≢ base + wi + 1)
      → get_or result i 0 ≡ get_or table i 0
  get_other i p q =
      let first_kept : get_or (set table (base + wi) word1) i 0 ≡ get_or table i 0 =
        get_or-set_ne table (base + wi) i word1 0 (λ e. p (sym e)) in
      elim cross-cases [
        | inl far ↦
            ap (λ (t : List ℕ). get_or t i 0) (result_crossed far)
            ∙ get_or-set_ne (set table (base + wi) word1) (base + wi + 1) i word2 0
                (λ e. q far (sym e))
            ∙ first_kept
        | inr near ↦ ap (λ (t : List ℕ). get_or t i 0) (result_within near) ∙ first_kept
      ]

  -- The bits of the entry are those of the value.
  pub set_set_inside :
      (k : ℕ)
      → k < fp_bits
      → bit_at result (first_bit table base off fp_bits high fits + k) ≡ digit v k
  set_set_inside k h = elim (Bool-cases (ltb (bo + k) 64)) [
    | inl here ↦
        let there : bo + k < 64 = ground arith in
        in_first result base off fp_bits high fits k there
        ∙ ap (λ (w : ℕ). digit w (bo + k)) get_first
        ∙ first_inside bo fp_bits v high small (get_or table (base + wi) 0) k h there
    | inr beyond ↦
        let past : 64 ≤ bo + k = ground arith in
        in_second result base off fp_bits high fits k past (omega arith)
        ∙ ap (λ (w : ℕ). digit w (bo + k - 64)) (get_second (omega arith))
        ∙ second_inside bo fp_bits v high small (get_or table (base + wi + 1) 0) k bo-lt h past
  ]

  -- All other bits stay.
  pub set_set_outside :
      (j : ℕ)
      → (j < first_bit table base off fp_bits high fits)
        ⊎ (first_bit table base off fp_bits high fits + fp_bits ≤ j)
      → bit_at result j ≡ bit_at table j
  set_set_outside j out = elim (Bool-cases (j / 64 == base + wi)) [
    | inl same ↦
        let e : j / 64 ≡ base + wi = (==_iff _ _).0 same in
        ap (λ (i : ℕ). digit (get_or result i 0) (j % 64)) e
        ∙ ap (λ (w : ℕ). digit w (j % 64)) get_first
        ∙ first_outside bo fp_bits v high small (get_or table (base + wi) 0) (j % 64) (omega arith)
            (elim out [ inl before ↦ inl (omega arith) | inr after ↦ inr (omega arith) ])
        ∙ ap (λ (i : ℕ). digit (get_or table i 0) (j % 64)) (sym e)
    | inr other ↦ elim (Bool-cases (j / 64 == base + wi + 1 && ltb 64 (bo + fp_bits))) [
      | inl next ↦
          let e : j / 64 ≡ base + wi + 1 = ground arith in
          let far : 64 < bo + fp_bits = ground arith in
          ap (λ (i : ℕ). digit (get_or result i 0) (j % 64)) e
          ∙ ap (λ (w : ℕ). digit w (j % 64)) (get_second far)
          ∙ second_outside bo fp_bits v high small (get_or table (base + wi + 1) 0) (j % 64) bo-lt
              (omega arith)
              (elim out [ inl before ↦ absurd (omega arith) | inr after ↦ omega arith ])
          ∙ ap (λ (i : ℕ). digit (get_or table i 0) (j % 64)) (sym e)
      | inr away ↦
          ap (λ (w : ℕ). digit w (j % 64))
            (get_other (j / 64) (==_false _ _ other) (λ far. ground (arith, away)))
    ]
  ]

  pub set_set-AreWords : AreWords table → AreWords result
  set_set-AreWords words i = elim (Bool-cases (i == base + wi)) [
    | inl same ↦
        let e : get_or result i 0 ≡ word1 =
          ap (λ (k : ℕ). get_or result k 0) ((==_iff _ _).0 same) ∙ get_first in
        omega (
          arith,
          merge-lt (get_or table (base + wi) 0) (u64 (ones fp_bits <<< bo)) (u64 (v <<< bo))
              (words (base + wi)) (u64-lt _),
        )
    | inr other ↦ elim (Bool-cases (i == base + wi + 1 && ltb 64 (bo + fp_bits))) [
      | inl next ↦
          let e : get_or result i 0 ≡ word2 =
            ap (λ (k : ℕ). get_or result k 0) (let z : i ≡ base + wi + 1 = ground arith in z)
            ∙ get_second (ground arith) in
          omega (
            arith,
            merge-lt (get_or table (base + wi + 1) 0) (ones fp_bits >>> (64 - bo)) (v >>> (64 - bo))
                (words (base + wi + 1)) (word_size bo fp_bits v high small v (64 - bo) small),
          )
      | inr away ↦
          omega (arith, words i, get_other i (==_false _ _ other) (λ far. ground (arith, away)))
    ]
  ]
