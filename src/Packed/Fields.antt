-- ===== src/Packed/Fields.antt =====
-- An entry of a set is a run of bits of the table: reading yields these bits, writing changes no
-- other.
use draugr_repo.Base.{
  ℕ, ◌+◌, ◌-◌, ◌*◌, ◌/◌, ◌%◌, ◌^◌, ◌≤◌, ◌<◌, ◌≡◌, inl, inr, sym, ap, ◌∙◌, arith, true, false, List,
  get_or, u64, u32, bit_and, bit_or, ◌<<<◌, ltb, ◌&&◌, Bool-cases,
}
use native.Mathlib.Nat.{one-le-pow, mod-lt}
use draugr_repo.Base.Bits.{digit, digit-lt, digit-bit_and, digit-bit_or}
use draugr_repo.Base.Bits.Word.{bit_and_mask}
use draugr_repo.Base.Bits.Shift.{digit-shr, digit-above, digit-mod}
use draugr_repo.Packed.{ones, set_words, set_get}
use draugr_repo.Packed.Stream.{
  bit_at, AreWords, bit_at-split, shifted_below, shifted_from, digit-ones_below,
}

low_bits : (val fp k : ℕ) → fp ≤ 32 → k < fp → digit (u32 (bit_and val (ones fp))) k ≡ digit val k
low_bits val fp k high h =
    digit-mod 32 (bit_and val (ones fp)) k (omega arith)
    ∙ omega (arith, digit-bit_and val (ones fp) k, digit-ones_below fp k h, digit-lt val k)

module _ (table : List ℕ) (base off fp_bits : ℕ) (high : fp_bits ≤ 32)
    (fits : off * fp_bits + fp_bits ≤ 512) where
  abbrev wi : ℕ
  wi = off * fp_bits / 64

  abbrev bo : ℕ
  bo = off * fp_bits % 64

  -- The first bit of the entry in the table.
  abbrev pub first_bit : ℕ
  first_bit = base * 64 + off * fp_bits

  pub crosses : 64 < bo + fp_bits → (ltb (wi + 1) set_words && ltb 64 (bo + fp_bits)) ≡ true
  crosses h = ground arith

  pub within : bo + fp_bits ≤ 64 → (ltb (wi + 1) set_words && ltb 64 (bo + fp_bits)) ≡ false
  within h = ground arith

  pub in_first :
      (k : ℕ)
      → bo + k < 64
      → bit_at table (first_bit + k) ≡ digit (get_or table (base + wi) 0) (bo + k)
  in_first k h =
      let e : first_bit + k ≡ (base + wi) * 64 + (bo + k) = omega arith in
      ap (bit_at table) e ∙ bit_at-split table (base + wi) (bo + k) h

  pub in_second :
      (k : ℕ)
      → 64 ≤ bo + k
      → k ≤ 64
      → bit_at table (first_bit + k) ≡ digit (get_or table (base + wi + 1) 0) (bo + k - 64)
  in_second k h small =
      let e : first_bit + k ≡ (base + wi + 1) * 64 + (bo + k - 64) = omega arith in
      ap (bit_at table) e ∙ bit_at-split table (base + wi + 1) (bo + k - 64) (omega arith)

  module _ (words : AreWords table) where
    abbrev low : ℕ
    low = get_or table (base + wi) 0 / 2 ^ bo

    abbrev next : ℕ
    next = get_or table (base + wi + 1) 0

    both_words :
        (k : ℕ)
        → k < fp_bits
        → 64 < bo + fp_bits
        → digit (bit_or low (u64 (next <<< (64 - bo)))) k ≡ bit_at table (first_bit + k)
    both_words k h cross = elim (Bool-cases (ltb (bo + k) 64)) [
      | inl here ↦ omega (
        arith,
        digit-bit_or low (u64 (next <<< (64 - bo))) k,
        digit-shr (get_or table (base + wi) 0) bo k,
        shifted_below next (64 - bo) k (ground arith) (omega arith),
        in_first k (ground arith),
      )
      | inr there ↦
          let e : 64 - bo + (bo + k - 64) ≡ k = ground arith in
          let beyond : 64 ≤ bo + k = ground arith in
          omega (
            arith,
            digit-bit_or low (u64 (next <<< (64 - bo))) k,
            digit-shr (get_or table (base + wi) 0) bo k,
            digit-above 64 (get_or table (base + wi) 0) (bo + k) (words (base + wi)) beyond,
            ap (digit (u64 (next <<< (64 - bo)))) e,
            shifted_from next (64 - bo) (bo + k - 64) (omega arith),
            in_second k beyond (omega arith),
          )
    ]

    -- The digits that a read yields.
    pub digit-set_get :
        (k : ℕ)
        → k < fp_bits
        → digit (set_get table base off fp_bits) k ≡ bit_at table (first_bit + k)
    unfolding set_get
    digit-set_get k h = elim (Bool-cases (ltb 64 (bo + fp_bits))) [
      | inl cross ↦
          let far : 64 < bo + fp_bits = ground arith in
          rw (crosses far) (low_bits _ fp_bits k high h ∙ both_words k h far)
      | inr inside ↦
          let near : bo + fp_bits ≤ 64 = ground arith in
          rw (within near) (
            low_bits _ fp_bits k high h
            ∙ digit-shr (get_or table (base + wi) 0) bo k
            ∙ sym (in_first k (omega arith)))
    ]

cut-lt : (val fp : ℕ) → u32 (bit_and val (ones fp)) < 2 ^ fp
cut-lt val fp =
    let e : ones fp ≡ 2 ^ fp - 1 = omega arith in
    let below : val % 2 ^ fp < 2 ^ fp = mod-lt val (one-le-pow fp 2 (omega arith)) in
    omega (arith, ap (bit_and val) e, bit_and_mask fp val)

-- A read yields a number of `fp_bits` bits.
pub set_get-lt :
    (table : List ℕ) (base off fp_bits : ℕ) → set_get table base off fp_bits < 2 ^ fp_bits
unfolding set_get
set_get-lt table base off fp_bits = cut-lt _ fp_bits
