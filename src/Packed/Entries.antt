-- ===== src/Packed/Entries.antt =====
-- Entries of a table of sets, by their number: what a write does to each of them.
use draugr_repo.Base.{
  ℕ, suc, ◌+◌, ◌-◌, ◌*◌, ◌/◌, ◌%◌, ◌^◌, ◌≤◌, ◌<◌, ◌≡◌, ◌≢◌, ◌⊎◌, inl, inr, sym, ap, ◌∙◌, arith,
  List, get_or_ext, length, ltb, leb, ◌&&◌, Bool-cases,
}
use mathlib.Core.Path.{ap₂}
use native.Mathlib.Nat.{mod-lt, mul-le-mul_right, div-add-mod}
use draugr_repo.Base.Bits.{digit_ext}
use draugr_repo.Base.Bits.Shift.{digit-above}
use draugr_repo.Packed.{get_entry, put_entry}
use draugr_repo.Packed.Stream.{bit_at, AreWords, bit_at-split}
use draugr_repo.Packed.Fields.{digit-set_get, set_get-lt, first_bit}
use draugr_repo.Packed.Write.{length-set_set, set_set_inside, set_set_outside, set_set-AreWords}

-- Tables of words with the same bits are equal.
pub bit_at_ext :
    (t u : List ℕ)
    → length t ≡ length u
    → AreWords t
    → AreWords u
    → ((j : ℕ) → bit_at t j ≡ bit_at u j)
    → t ≡ u
bit_at_ext t u len wt wu h = get_or_ext 0 t u len λ i. digit_ext _ _ λ c.
    elim (Bool-cases (ltb c 64)) [
      | inl low ↦
          let small : c < 64 = ground arith in
          sym (bit_at-split t i c small) ∙ h (i * 64 + c) ∙ bit_at-split u i c small
      | inr high ↦
          let past : 64 ≤ c = ground arith in
          digit-above 64 _ c (wt i) past ∙ sym (digit-above 64 _ c (wu i) past)
    ]

module _ (eps fp_bits : ℕ) (low : 1 ≤ fp_bits) (high : fp_bits ≤ 32) (some_entry : 1 ≤ eps)
    (whole : eps * fp_bits ≤ 512) where
  next_entry : (a b : ℕ) → a < b → a * fp_bits + fp_bits ≤ b * fp_bits
  next_entry a b h =
      let wide : suc a * fp_bits ≤ b * fp_bits = mul-le-mul_right fp_bits h in omega arith

  pub fits : (idx : ℕ) → idx % eps * fp_bits + fp_bits ≤ 512
  fits idx = omega (arith, next_entry (idx % eps) eps (mod-lt idx some_entry))

  abbrev first : ℕ → List ℕ → ℕ
  first idx table = first_bit table (idx / eps * 8) (idx % eps) fp_bits high (fits idx)

  module _ (table : List ℕ) (words : AreWords table) (idx v : ℕ)
      (room : idx / eps * 8 + 8 ≤ length table) (small : v < 2 ^ fp_bits) where
    pub put_entry-AreWords : AreWords (put_entry eps fp_bits table idx v)
    put_entry-AreWords =
        set_set-AreWords table (idx / eps * 8) (idx % eps) fp_bits v low high (fits idx) small room
          words

    pub length-put_entry : length (put_entry eps fp_bits table idx v) ≡ length table
    length-put_entry =
        length-set_set table (idx / eps * 8) (idx % eps) fp_bits v low high (fits idx) small room

    -- The entry that is written is read back.
    pub entry_self : get_entry eps fp_bits (put_entry eps fp_bits table idx v) idx ≡ v
    entry_self = digit_ext _ _ λ k. elim (Bool-cases (ltb k fp_bits)) [
      | inl inside ↦
          let h : k < fp_bits = ground arith in
          digit-set_get (put_entry eps fp_bits table idx v) (idx / eps * 8) (idx % eps) fp_bits high
            (fits idx) put_entry-AreWords k h
          ∙ set_set_inside table (idx / eps * 8) (idx % eps) fp_bits v low high (fits idx) small
              room k h
      | inr outside ↦
          let h : fp_bits ≤ k = ground arith in
          digit-above fp_bits _ k
            (set_get-lt (put_entry eps fp_bits table idx v) (idx / eps * 8) (idx % eps) fp_bits) h
          ∙ sym (digit-above fp_bits v k small h)
    ]

    -- The entries lie apart.
    apart :
        (i k : ℕ)
        → idx ≢ i
        → k < fp_bits
        → (first i table + k < first idx table) ⊎ (first idx table + fp_bits ≤ first i table + k)
    apart i k ne h = elim (Bool-cases (ltb (i / eps) (idx / eps))) [
      | inl before ↦ let e : i / eps < idx / eps = ground arith in inl (omega (arith, fits i))
      | inr not_before ↦ elim (Bool-cases (ltb (idx / eps) (i / eps))) [
        | inl after ↦ let e : idx / eps < i / eps = ground arith in inr (omega (arith, fits idx))
        | inr not_after ↦
            let same : i / eps ≡ idx / eps = ground arith in
            elim (Bool-cases (ltb (i % eps) (idx % eps))) [
              | inl left ↦
                  let e : i % eps < idx % eps = ground arith in
                  inl (omega (arith, next_entry (i % eps) (idx % eps) e))
              | inr not_left ↦
                  let other : idx % eps ≢ i % eps = λ r. ne (
                    sym (div-add-mod idx eps)
                    ∙ ap₂ (λ (q r : ℕ). eps * q + r) (sym same) r
                    ∙ div-add-mod i eps) in
                  inr (omega (arith, next_entry (idx % eps) (i % eps) (ground (arith, other))))
            ]
      ]
    ]

    -- The other entries stay.
    pub entry_ne :
        (i : ℕ)
        → idx ≢ i
        → get_entry eps fp_bits (put_entry eps fp_bits table idx v) i
          ≡ get_entry eps fp_bits table i
    entry_ne i ne = digit_ext _ _ λ k. elim (Bool-cases (ltb k fp_bits)) [
      | inl inside ↦
          let h : k < fp_bits = ground arith in
          digit-set_get (put_entry eps fp_bits table idx v) (i / eps * 8) (i % eps) fp_bits high
            (fits i) put_entry-AreWords k h
          ∙ set_set_outside table (idx / eps * 8) (idx % eps) fp_bits v low high (fits idx) small
              room (first i table + k) (apart i k ne h)
          ∙ sym (digit-set_get table (i / eps * 8) (i % eps) fp_bits high (fits i) words k h)
      | inr outside ↦
          let h : fp_bits ≤ k = ground arith in
          digit-above fp_bits _ k
            (set_get-lt (put_entry eps fp_bits table idx v) (i / eps * 8) (i % eps) fp_bits) h
          ∙ sym (digit-above fp_bits _ k (set_get-lt table (i / eps * 8) (i % eps) fp_bits) h)
    ]

  -- Writing back what an entry was restores the table.
  pub put_entry_back :
      (table : List ℕ) (words : AreWords table) (idx v : ℕ)
      → idx / eps * 8 + 8 ≤ length table
      → v < 2 ^ fp_bits
      → put_entry eps fp_bits
          (put_entry eps fp_bits table idx v)
          idx
          (get_entry eps fp_bits table idx)
        ≡ table
  put_entry_back table words idx v room small =
      let old = get_entry eps fp_bits table idx in
      let old_small : old < 2 ^ fp_bits = set_get-lt table (idx / eps * 8) (idx % eps) fp_bits in
      let t' = put_entry eps fp_bits table idx v in
      let words' : AreWords t' = put_entry-AreWords table words idx v room small in
      let len' : length t' ≡ length table = length-put_entry table words idx v room small in
      let room' : idx / eps * 8 + 8 ≤ length t' = omega arith in
      let start = first idx table in
      bit_at_ext _ _ (length-put_entry t' words' idx old room' old_small ∙ len')
        (put_entry-AreWords t' words' idx old room' old_small) words
        λ j. elim (Bool-cases (leb start j && ltb j (start + fp_bits))) [
          | inl inside ↦
              let h : j - start < fp_bits = ground arith in
              let e : j ≡ start + (j - start) = ground arith in
              ap (bit_at _) e
              ∙ set_set_inside t' (idx / eps * 8) (idx % eps) fp_bits old low high (fits idx)
                  old_small room' (j - start) h
              ∙ digit-set_get table (idx / eps * 8) (idx % eps) fp_bits high (fits idx) words
                  (j - start) h
              ∙ ap (bit_at table) (sym e)
          | inr outside ↦
              let out : (j < start) ⊎ (start + fp_bits ≤ j) = ground arith in
              set_set_outside t' (idx / eps * 8) (idx % eps) fp_bits old low high (fits idx)
                old_small room' j out
              ∙ set_set_outside table (idx / eps * 8) (idx % eps) fp_bits v low high (fits idx)
                  small room j out
        ]
