-- ===== src/Vacuum/Filter/Valid.antt =====
-- The invariant of the filter, its contents, and a write to one slot.
use draugr_repo.Base.{
  ℕ, ◌+◌, ◌*◌, ◌^◌, ◌≤◌, ◌<◌, ◌≡◌, sym, ap, ◌∙◌, List, length, ◌==◌, ==_iff, ==_false, Bool-cases,
  inl, inr,
}
use draugr_repo.Packed.{get_entry, put_entry}
use draugr_repo.Packed.Tally.{
  IsTable, tally, put_entry-IsTable, length-put, put_back, get-put_self, get-put_ne, get_entry-lt,
}
use draugr_repo.Packed.Bucket.{slot-lt, slot-tally}
use draugr_repo.Vacuum.{Vacuum, vacuum_alt_index}
use draugr_repo.Vacuum.Buckets.{IsRange, vacuum_alt_index-twin}
use draugr_repo.Vacuum.Filter.{vf_get, vf_set_entry}

-- The table has room for its entries, and whole ranges for every fingerprint.
pub record IsValid (vf : Vacuum) : Type 0 where
  pub holds : IsTable vf.entries_per_set vf.fingerprint_bits vf.num_entries vf.table
  pub sets : length vf.table ≡ vf.num_sets * 8
  pub entries : vf.num_entries ≡ vf.num_buckets * vf.bucket_size
  pub some_slot : 1 ≤ vf.bucket_size
  pub byte : vf.bucket_size < 256
  pub some_bucket : 1 ≤ vf.num_buckets
  pub few : vf.num_buckets < 2 ^ 32
  pub ranges : (fp : ℕ) → IsRange vf.ar vf.num_buckets fp

-- The sum of `f bucket fingerprint` over the entries.
abbrev pub weigh : (ℕ → ℕ → ℕ) → Vacuum → ℕ
weigh f vf = tally vf.entries_per_set vf.fingerprint_bits vf.bucket_size f vf.table vf.num_entries

-- A measure of fingerprints that does not tell the two buckets of one apart, and does not count
-- empty slots.
pub record IsMeasure (vf : Vacuum) (f : ℕ → ℕ → ℕ) : Type 0 where
  pub empty : (b : ℕ) → f b 0 ≡ 0
  pub twin : (b x : ℕ) → b < vf.num_buckets → f (vacuum_alt_index vf b x) x ≡ f b x

module _ (vf : Vacuum) (v : IsValid vf) where
  pub alt-lt : (b x : ℕ) → b < vf.num_buckets → vacuum_alt_index vf b x < vf.num_buckets
  alt-lt b x inside = (vacuum_alt_index-twin vf x (v.ranges x) b inside).0

  pub alt_back :
      (b x : ℕ) → b < vf.num_buckets → vacuum_alt_index vf (vacuum_alt_index vf b x) x ≡ b
  alt_back b x inside = (vacuum_alt_index-twin vf x (v.ranges x) b inside).2

  pub with_table-IsValid :
      (table : List ℕ) (count : ℕ)
      → IsTable vf.entries_per_set vf.fingerprint_bits vf.num_entries table
      → length table ≡ vf.num_sets * 8
      → IsValid (record vf { table = table; count = count })
  with_table-IsValid table count holds sets = record {
    holds = holds;
    sets = sets;
    entries = v.entries;
    some_slot = v.some_slot;
    byte = v.byte;
    some_bucket = v.some_bucket;
    few = v.few;
    ranges = v.ranges;
  }

  pub counted-IsValid : (count : ℕ) → IsValid (record vf { count = count })
  counted-IsValid count = with_table-IsValid vf.table count v.holds v.sets

  pub vf_get-lt : (idx : ℕ) → vf_get vf idx < 2 ^ vf.fingerprint_bits
  unfolding vf_get
  vf_get-lt idx = get_entry-lt vf.entries_per_set vf.fingerprint_bits 0 vf.table idx

  -- A slot of a bucket and a new value for it.
  module _ (b s x : ℕ) (in_table : b < vf.num_buckets) (in_bucket : s < vf.bucket_size)
      (small : x < 2 ^ vf.fingerprint_bits) where
    abbrev idx : ℕ
    idx = b * vf.bucket_size + s

    idx-lt : idx < vf.num_entries
    idx-lt =
        slot-lt vf.entries_per_set vf.fingerprint_bits vf.bucket_size vf.num_buckets vf.num_entries
          vf.table v.holds v.entries b s x in_table in_bucket small

    pub set_entry-IsValid : IsValid (vf_set_entry vf idx x)
    unfolding vf_set_entry
    set_entry-IsValid =
        with_table-IsValid (put_entry vf.entries_per_set vf.fingerprint_bits vf.table idx x)
          vf.count
          (put_entry-IsTable vf.entries_per_set vf.fingerprint_bits vf.num_entries vf.table v.holds
            idx x idx-lt small)
          (length-put vf.entries_per_set vf.fingerprint_bits vf.num_entries vf.table v.holds idx x
              idx-lt small
            ∙ v.sets)

    pub set_entry-weigh :
        (f : ℕ → ℕ → ℕ) → weigh f (vf_set_entry vf idx x) + f b (vf_get vf idx) ≡ weigh f vf + f b x
    unfolding vf_set_entry vf_get
    set_entry-weigh =
        slot-tally vf.entries_per_set vf.fingerprint_bits vf.bucket_size vf.num_buckets
          vf.num_entries vf.table v.holds v.entries b s x in_table in_bucket small

    -- Writing back what the slot held restores the table.
    pub set_entry_back :
        put_entry vf.entries_per_set vf.fingerprint_bits
          (vf_set_entry vf idx x).table
          idx
          (vf_get vf idx)
        ≡ vf.table
    unfolding vf_set_entry vf_get
    set_entry_back =
        put_back vf.entries_per_set vf.fingerprint_bits vf.num_entries vf.table v.holds idx x idx-lt
          small

    -- A slot that held the value already holds it still.
    pub get-set_entry : (i : ℕ) → vf_get vf i ≡ x → vf_get (vf_set_entry vf idx x) i ≡ x
    unfolding vf_set_entry vf_get
    get-set_entry i e = elim (Bool-cases (idx == i)) [
      | inl same ↦
          ap
            (get_entry vf.entries_per_set vf.fingerprint_bits
              (put_entry vf.entries_per_set vf.fingerprint_bits vf.table idx x))
            (sym ((==_iff idx i).0 same))
          ∙ get-put_self vf.entries_per_set vf.fingerprint_bits vf.num_entries vf.table v.holds idx
              x idx-lt small
      | inr other ↦
          get-put_ne vf.entries_per_set vf.fingerprint_bits vf.num_entries vf.table v.holds idx x
            idx-lt small i (==_false idx i other)
          ∙ e
    ]
