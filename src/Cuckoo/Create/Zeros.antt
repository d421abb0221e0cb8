-- ===== src/Cuckoo/Create/Zeros.antt =====
-- A table of zeros has no entries; a filter that is reset is valid and finds nothing.
use draugr_repo.Base.{
  ℕ, zero, suc, ◌+◌, ◌*◌, ◌/◌, ◌%◌, ◌≡◌, refl, sym, ap, ◌∙◌, subst, arith, true, false, not, ltb,
  ◌==◌, Bool-cases, inl, inr, replicate, length-replicate, get_or-replicate,
}
use draugr_repo.Base.Bits.{digit, digit-zero, digit_ext}
use draugr_repo.Base.Bits.Shift.{digit-above}
use draugr_repo.Packed.{get_entry}
use draugr_repo.Packed.Stream.{bit_at, AreWords}
use draugr_repo.Packed.Fields.{digit-set_get, set_get-lt, first_bit}
use draugr_repo.Packed.Entries.{fits}
use draugr_repo.Packed.Tally.{IsTable, tally}
use draugr_repo.Cuckoo.Filter.{Cuckoo, cuckoo_filter_lookup, cuckoo_filter_reset}
use draugr_repo.Cuckoo.Filter.Valid.{IsValid, weigh, with_table-IsValid}
use draugr_repo.Cuckoo.Filter.Lookup.{of_hash, of_hash-IsMeasure, cuckoo_filter_lookup-weigh}

-- What a free place holds.
abbrev pub nothing : ℕ
nothing = 0

bit_at-zeros : (n j : ℕ) → bit_at (replicate n 0) j ≡ 0
bit_at-zeros n j =
    ap (λ (w : ℕ). digit w (j % 64)) (get_or-replicate n (j / 64) 0) ∙ digit-zero (j % 64)

pub zeros-AreWords : (n : ℕ) → AreWords (replicate n 0)
zeros-AreWords n i = omega (arith, get_or-replicate n i nothing)

module _ (eps fp_bits n m : ℕ) (t : IsTable eps fp_bits n (replicate m 0)) where
  entry-zeros : (idx : ℕ) → get_entry eps fp_bits (replicate m 0) idx ≡ 0
  entry-zeros idx =
      let inside = fits eps fp_bits t.low t.high t.some_entry t.whole idx in
      digit_ext _ _ λ k. elim (Bool-cases (ltb k fp_bits)) [
        | inl below ↦
            digit-set_get (replicate m 0) (idx / eps * 8) (idx % eps) fp_bits t.high inside t.words
              k (ground arith)
            ∙ bit_at-zeros m
                (first_bit (replicate m 0) (idx / eps * 8) (idx % eps) fp_bits t.high inside + k)
            ∙ sym (digit-zero k)
        | inr above ↦
            digit-above fp_bits _ k (set_get-lt (replicate m 0) (idx / eps * 8) (idx % eps) fp_bits)
              (ground arith)
            ∙ sym (digit-zero k)
      ]

  tally-zeros :
      (bs : ℕ) (f : ℕ → ℕ → ℕ) (k : ℕ)
      → ((b : ℕ) → f b 0 ≡ 0)
      → tally eps fp_bits bs f (replicate m 0) k ≡ 0
  tally-zeros bs f zero none_of = refl
  tally-zeros bs f (suc k) none_of =
      omega (arith, tally-zeros bs f k none_of, ap (f (k / bs)) (entry-zeros k), none_of (k / bs))

-- A valid filter whose table is all zeros finds nothing.
pub lookup-zeros :
    (cf : Cuckoo) (v : IsValid cf) (m hash : ℕ)
    → cf.table ≡ replicate m 0
    → cuckoo_filter_lookup cf hash ≡ false
lookup-zeros cf v m hash e =
    let f = of_hash cf v hash in
    let t : IsTable cf.entries_per_set cf.fingerprint_bits cf.num_entries (replicate m 0) =
      subst (IsTable cf.entries_per_set cf.fingerprint_bits cf.num_entries) e v.holds in
    let empty : weigh f cf ≡ 0 =
      subst
        (λ table.
          tally cf.entries_per_set cf.fingerprint_bits cf.bucket_size f table cf.num_entries ≡ 0)
        (sym e)
        (tally-zeros cf.entries_per_set cf.fingerprint_bits cf.num_entries m t cf.bucket_size f
          cf.num_entries (of_hash-IsMeasure cf v hash).empty) in
    let none_there : (weigh f cf == 0) ≡ true = ground (arith, empty) in
    cuckoo_filter_lookup-weigh cf v hash ∙ ap not none_there

-- A reset keeps a filter valid, and it finds nothing then and counts 0.
pub cuckoo_filter_reset-Empty :
    (cf : Cuckoo)
    → IsValid cf
    → IsValid (cuckoo_filter_reset cf)
      × ((hash : ℕ) → cuckoo_filter_lookup (cuckoo_filter_reset cf) hash ≡ false)
      × ((cuckoo_filter_reset cf).count ≡ 0)
unfolding cuckoo_filter_reset
cuckoo_filter_reset-Empty cf v =
    let m = cf.num_sets * 8 in
    let v' : IsValid (cuckoo_filter_reset cf) =
      with_table-IsValid cf v (replicate m 0) 0
        (record {
          low = v.holds.low;
          high = v.holds.high;
          some_entry = v.holds.some_entry;
          whole = v.holds.whole;
          words = zeros-AreWords m;
          room = λ idx h. omega (arith, v.holds.room idx h, v.sets, length-replicate m nothing);
        })
        (length-replicate m 0) in
    (v', λ hash. lookup-zeros (cuckoo_filter_reset cf) v' m hash refl, refl)
