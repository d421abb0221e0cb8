-- ===== src/Packed/Tally.antt =====
-- The contents of a table of fingerprints: a sum over its entries, by their buckets.
use draugr_repo.Base.{
  ℕ, zero, suc, ◌+◌, ◌*◌, ◌/◌, ◌%◌, ◌^◌, ◌≤◌, ◌<◌, ◌≡◌, ◌≢◌, inl, inr, refl, sym, ap, arith, List,
  length, ◌==◌, ==_iff, ==_false, Bool-cases, subst,
}
use native.Mathlib.Nat.{mul-le-mul_right, mul-add-div_right, div-eq_of_lt}
use draugr_repo.Packed.{get_entry, put_entry}
use draugr_repo.Packed.Stream.{AreWords}
use draugr_repo.Packed.Fields.{set_get-lt}
use draugr_repo.Packed.Entries.{
  put_entry-AreWords, length-put_entry, entry_self, entry_ne, put_entry_back,
}

-- A table with room for `n` entries of `fp_bits` bits, `eps` to a set.
pub record IsTable (eps fp_bits n : ℕ) (table : List ℕ) : Type 0 where
  pub low : 1 ≤ fp_bits
  pub high : fp_bits ≤ 32
  pub some_entry : 1 ≤ eps
  pub whole : eps * fp_bits ≤ 512
  pub words : AreWords table
  pub room : (idx : ℕ) → idx < n → idx / eps * 8 + 8 ≤ length table

-- The sum of `f bucket fingerprint` over the first `n` entries.
abbrev pub tally : ℕ → ℕ → ℕ → (ℕ → ℕ → ℕ) → List ℕ → ℕ → ℕ
tally eps fp_bits bs f table zero = 0
tally eps fp_bits bs f table (suc n) =
    tally eps fp_bits bs f table n + f (n / bs) (get_entry eps fp_bits table n)

module _ (eps fp_bits n : ℕ) where
  pub get_entry-lt : (table : List ℕ) (idx : ℕ) → get_entry eps fp_bits table idx < 2 ^ fp_bits
  get_entry-lt table idx = set_get-lt table (idx / eps * 8) (idx % eps) fp_bits

  module _ (table : List ℕ) (t : IsTable eps fp_bits n table) (idx v : ℕ) (inside : idx < n)
      (small : v < 2 ^ fp_bits) where
    pub put_entry-IsTable : IsTable eps fp_bits n (put_entry eps fp_bits table idx v)
    put_entry-IsTable = record {
      low = t.low;
      high = t.high;
      some_entry = t.some_entry;
      whole = t.whole;
      words =
          put_entry-AreWords eps fp_bits t.low t.high t.some_entry t.whole table t.words idx v
            (t.room idx inside) small;
      room = λ i h. omega (
        arith,
        t.room i h,
        length-put_entry eps fp_bits t.low t.high t.some_entry t.whole table t.words idx v
            (t.room idx inside) small,
      );
    }

    pub length-put : length (put_entry eps fp_bits table idx v) ≡ length table
    length-put =
        length-put_entry eps fp_bits t.low t.high t.some_entry t.whole table t.words idx v
          (t.room idx inside) small

    pub get-put_self : get_entry eps fp_bits (put_entry eps fp_bits table idx v) idx ≡ v
    get-put_self =
        entry_self eps fp_bits t.low t.high t.some_entry t.whole table t.words idx v
          (t.room idx inside) small

    pub get-put_ne :
        (i : ℕ)
        → idx ≢ i
        → get_entry eps fp_bits (put_entry eps fp_bits table idx v) i
          ≡ get_entry eps fp_bits table i
    get-put_ne i ne =
        entry_ne eps fp_bits t.low t.high t.some_entry t.whole table t.words idx v
          (t.room idx inside) small i ne

    pub put_back :
        put_entry eps fp_bits
          (put_entry eps fp_bits table idx v)
          idx
          (get_entry eps fp_bits table idx)
        ≡ table
    put_back =
        put_entry_back eps fp_bits t.low t.high t.some_entry t.whole table t.words idx v
          (t.room idx inside) small

    module _ (bs : ℕ) (f : ℕ → ℕ → ℕ) where
      tally-put_above :
          (m : ℕ)
          → m ≤ idx
          → tally eps fp_bits bs f (put_entry eps fp_bits table idx v) m
            ≡ tally eps fp_bits bs f table m
      tally-put_above zero h = refl
      tally-put_above (suc m) h =
          omega
            (arith, tally-put_above m (omega arith), ap (f (m / bs)) (get-put_ne m (omega arith)))

      -- A write exchanges one summand.
      pub tally-put :
          (m : ℕ)
          → idx < m
          → tally eps fp_bits bs f (put_entry eps fp_bits table idx v) m
              + f (idx / bs) (get_entry eps fp_bits table idx)
            ≡ tally eps fp_bits bs f table m + f (idx / bs) v
      tally-put zero h = absurd (omega arith)
      tally-put (suc m) h = elim (Bool-cases (m == idx)) [
        | inl last ↦
            let e : m ≡ idx = (==_iff m idx).0 last in
            subst
              (λ k.
                tally eps fp_bits bs f (put_entry eps fp_bits table idx v) (suc k)
                  + f (idx / bs) (get_entry eps fp_bits table idx)
                ≡ tally eps fp_bits bs f table (suc k) + f (idx / bs) v)
              (sym e)
              (omega (arith, tally-put_above idx (omega arith), ap (f (idx / bs)) get-put_self))
        | inr before ↦
            let ne : idx ≢ m = λ e. ==_false m idx before (sym e) in
            omega (arith, tally-put m (ground (arith, ne)), ap (f (m / bs)) (get-put_ne m ne))
      ]

  -- The place of a slot of a bucket.
  pub place-bucket : (bs b s : ℕ) → s < bs → (b * bs + s) / bs ≡ b
  place-bucket bs b s h =
      omega (arith, mul-add-div_right {m = bs} (omega arith) b s, div-eq_of_lt {n = s} {m = bs} h)

  pub place-lt : (bs nb b s : ℕ) → s < bs → b < nb → b * bs + s < nb * bs
  place-lt bs nb b s h k = let wide : suc b * bs ≤ nb * bs = mul-le-mul_right bs k in omega arith
