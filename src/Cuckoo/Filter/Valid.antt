-- ===== src/Cuckoo/Filter/Valid.antt =====
-- The invariant of the filter and its contents.
use draugr_repo.Base.{
  ℕ, ◌+◌, ◌-◌, ◌*◌, ◌%◌, ◌^◌, ◌≤◌, ◌<◌, ◌≡◌, ◌∙◌, arith, List, length, bit_and, bit_xor,
}
use native.Mathlib.Nat.{mod-lt, mod-eq_of_lt, one-le-pow}
use draugr_repo.Base.Bits.Word.{bit_and_mask, bit_xor_masked}
use draugr_repo.Packed.{put_entry}
use draugr_repo.Packed.Tally.{IsTable, tally, put_entry-IsTable, length-put, put_back}
use draugr_repo.Packed.Bucket.{slot-lt, slot-tally}
use draugr_repo.Cuckoo.{mix32, cuckoo_alt_index}
use draugr_repo.Cuckoo.Filter.{Cuckoo, cf_get, cf_set_entry}

-- The table has room for its entries, and the buckets are a power of two.
pub record IsValid (cf : Cuckoo) : Type 0 where
  pub holds : IsTable cf.entries_per_set cf.fingerprint_bits cf.num_entries cf.table
  pub sets : length cf.table ≡ cf.num_sets * 8
  pub entries : cf.num_entries ≡ cf.num_buckets * cf.bucket_size
  pub some_slot : 1 ≤ cf.bucket_size
  pub byte : cf.bucket_size < 256
  pub log_buckets : ℕ
  pub buckets : cf.num_buckets ≡ 2 ^ log_buckets
  pub mask : cf.bucket_mask ≡ 2 ^ log_buckets - 1

-- The sum of `f bucket fingerprint` over the entries.
abbrev pub weigh : (ℕ → ℕ → ℕ) → Cuckoo → ℕ
weigh f cf = tally cf.entries_per_set cf.fingerprint_bits cf.bucket_size f cf.table cf.num_entries

-- A measure of fingerprints that does not tell the two buckets of one apart, and does not count
-- empty slots.
pub record IsMeasure (cf : Cuckoo) (f : ℕ → ℕ → ℕ) : Type 0 where
  pub empty : (b : ℕ) → f b 0 ≡ 0
  pub twin : (b x : ℕ) → b < cf.num_buckets → f (cuckoo_alt_index b x cf.bucket_mask) x ≡ f b x

module _ (cf : Cuckoo) (v : IsValid cf) where
  pub masked-lt : (x : ℕ) → bit_and x cf.bucket_mask < cf.num_buckets
  masked-lt x =
      let low : x % 2 ^ v.log_buckets < 2 ^ v.log_buckets =
        mod-lt x (one-le-pow v.log_buckets 2 (omega arith)) in
      rw (v.mask, v.buckets, bit_and_mask v.log_buckets x) low

  pub masked_self : (x : ℕ) → x < cf.num_buckets → bit_and x cf.bucket_mask ≡ x
  masked_self x h =
      rw v.mask (bit_and_mask v.log_buckets x ∙ mod-eq_of_lt (omega (arith, v.buckets)))

  pub alt_back :
      (b x : ℕ)
      → b < cf.num_buckets
      → cuckoo_alt_index (cuckoo_alt_index b x cf.bucket_mask) x cf.bucket_mask ≡ b
  unfolding cuckoo_alt_index
  alt_back b x h = bit_xor_masked b (mix32 x) cf.bucket_mask (masked_self b h)

  pub alt-lt : (b x : ℕ) → cuckoo_alt_index b x cf.bucket_mask < cf.num_buckets
  unfolding cuckoo_alt_index
  alt-lt b x = masked-lt (bit_xor b (mix32 x))

  -- The table and the count may change.
  pub with_table-IsValid :
      (table : List ℕ) (count : ℕ)
      → IsTable cf.entries_per_set cf.fingerprint_bits cf.num_entries table
      → length table ≡ cf.num_sets * 8
      → IsValid (record cf { table = table; count = count })
  with_table-IsValid table count holds sets = record {
    holds = holds;
    sets = sets;
    entries = v.entries;
    some_slot = v.some_slot;
    byte = v.byte;
    log_buckets = v.log_buckets;
    buckets = v.buckets;
    mask = v.mask;
  }

  pub counted-IsValid : (count : ℕ) → IsValid (record cf { count = count })
  counted-IsValid count = with_table-IsValid cf.table count v.holds v.sets

  -- A slot of a bucket and a new value for it.
  module _ (b s x : ℕ) (in_table : b < cf.num_buckets) (in_bucket : s < cf.bucket_size)
      (small : x < 2 ^ cf.fingerprint_bits) where
    abbrev idx : ℕ
    idx = b * cf.bucket_size + s

    idx-lt : idx < cf.num_entries
    idx-lt =
        slot-lt cf.entries_per_set cf.fingerprint_bits cf.bucket_size cf.num_buckets cf.num_entries
          cf.table v.holds v.entries b s x in_table in_bucket small

    pub set_entry-IsValid : IsValid (cf_set_entry cf idx x)
    unfolding cf_set_entry
    set_entry-IsValid =
        with_table-IsValid (put_entry cf.entries_per_set cf.fingerprint_bits cf.table idx x)
          cf.count
          (put_entry-IsTable cf.entries_per_set cf.fingerprint_bits cf.num_entries cf.table v.holds
            idx x idx-lt small)
          (length-put cf.entries_per_set cf.fingerprint_bits cf.num_entries cf.table v.holds idx x
              idx-lt small
            ∙ v.sets)

    pub set_entry-weigh :
        (f : ℕ → ℕ → ℕ) → weigh f (cf_set_entry cf idx x) + f b (cf_get cf idx) ≡ weigh f cf + f b x
    unfolding cf_set_entry cf_get
    set_entry-weigh =
        slot-tally cf.entries_per_set cf.fingerprint_bits cf.bucket_size cf.num_buckets
          cf.num_entries cf.table v.holds v.entries b s x in_table in_bucket small

    -- Writing back what the slot held restores the table.
    pub set_entry_back :
        put_entry cf.entries_per_set cf.fingerprint_bits
          (cf_set_entry cf idx x).table
          idx
          (cf_get cf idx)
        ≡ cf.table
    unfolding cf_set_entry cf_get
    set_entry_back =
        put_back cf.entries_per_set cf.fingerprint_bits cf.num_entries cf.table v.holds idx x idx-lt
          small
