-- ===== src/Cuckoo/Filter/Insert.antt =====
-- `cuckoo_filter_insert` and `cuckoo_filter_delete`.
use draugr_repo.Base.{
  ℕ, ◌+◌, ◌-◌, ◌*◌, ◌^◌, ◌<◌, ◌≡◌, refl, ap, arith, [], Option, some, none, Bool, true, false, ◌==◌,
  if◌then◌else◌, bit_and, u32, ◌>>>◌,
}
use draugr_repo.Packed.{roll_back}
use draugr_repo.Packed.Search.{Search, find_from-Search}
use draugr_repo.Cuckoo.{cuckoo_fingerprint, cuckoo_hash_index, cuckoo_alt_index}
use draugr_repo.Cuckoo.Buckets.{fingerprint-range}
use draugr_repo.Cuckoo.Filter.{
  Cuckoo, CuckooErr, cf_get, cf_set_entry, find_empty_slot, find_fingerprint, store, take_out,
  evict_from, cuckoo_filter_insert, cuckoo_filter_lookup, cuckoo_filter_delete,
}
use draugr_repo.Cuckoo.Filter.Valid.{
  IsValid, weigh, IsMeasure, counted-IsValid, masked-lt, alt-lt, set_entry-IsValid, set_entry-weigh,
}
use draugr_repo.Cuckoo.Filter.Evict.{Ended, store-Ended, evict_from-Ended, Emptied}

module _ (cf : Cuckoo) (v : IsValid cf) (hash : ℕ) where
  -- The fingerprint of the hash and its two buckets.
  abbrev pub fp_of : ℕ
  fp_of = cuckoo_fingerprint hash cf.fingerprint_bits

  abbrev pub first_of : ℕ
  first_of = cuckoo_hash_index hash cf.bucket_mask

  abbrev pub second_of : ℕ
  second_of = cuckoo_alt_index first_of fp_of cf.bucket_mask

  pub fp-lt : fp_of < 2 ^ cf.fingerprint_bits
  fp-lt = (fingerprint-range hash cf.fingerprint_bits v.holds.low v.holds.high).1

  pub first-lt : first_of < cf.num_buckets
  unfolding cuckoo_hash_index
  first-lt = masked-lt cf v (hash >>> 32)

  pub second-lt : second_of < cf.num_buckets
  second-lt = alt-lt cf v first_of fp_of

  module _ (f : ℕ → ℕ → ℕ) (m : IsMeasure cf f) where
    abbrev gained : ℕ
    gained = weigh f cf + f first_of fp_of

    same_measure : f second_of fp_of ≡ f first_of fp_of
    same_measure = m.twin first_of fp_of first-lt

    started :
        (odd : Bool)
        → Ended cf v f m gained cf.table
            (evict_from cf fp_of (if odd then second_of else first_of) 0 cf.max_kicks [])
    unfolding roll_back
    started true =
        evict_from-Ended cf.max_kicks cf v f m fp_of second_of 0 [] gained cf.table fp-lt second-lt
          (omega (arith, same_measure)) refl
    started false =
        evict_from-Ended cf.max_kicks cf v f m fp_of first_of 0 [] gained cf.table fp-lt first-lt
          refl refl

    chosen :
        (r1 r2 : Option ℕ) (rest : CuckooErr × Cuckoo)
        → Emptied cf v f m first_of r1
        → Emptied cf v f m second_of r2
        → Ended cf v f m gained cf.table rest
        → Ended cf v f m gained cf.table (elim r1 [
          | some slot ↦ (CuckooErr.cuckoo_ok, store cf first_of slot fp_of)
          | none ↦ elim r2 [
            | some slot ↦ (CuckooErr.cuckoo_ok, store cf second_of slot fp_of)
            | none ↦ rest
          ]
        ])
    chosen (some s) r2 rest here there h =
        store-Ended cf v f m first_of s fp_of gained cf.table first-lt fp-lt here refl
    chosen none (some s) rest here there h =
        store-Ended cf v f m second_of s fp_of gained cf.table second-lt fp-lt there
          (omega (arith, same_measure))
    chosen none none rest here there h = h

    -- An insertion into a valid filter stores the fingerprint of the hash: the filter stays valid,
    -- and by every measure that does not tell the two buckets of a fingerprint apart its contents
    -- gain that fingerprint and no other; or the filter is full, and it is unchanged.
    pub cuckoo_filter_insert-Ended :
        Ended cf v f m (weigh f cf + f first_of fp_of) cf.table (cuckoo_filter_insert cf hash)
    unfolding cuckoo_filter_insert find_empty_slot
    cuckoo_filter_insert-Ended =
        chosen (find_empty_slot cf first_of) (find_empty_slot cf second_of) _
          (find_from-Search cf.entries_per_set cf.fingerprint_bits cf.table
            (first_of * cf.bucket_size) 0 0 cf.bucket_size)
          (find_from-Search cf.entries_per_set cf.fingerprint_bits cf.table
            (second_of * cf.bucket_size) 0 0 cf.bucket_size)
          (started (bit_and (first_of + second_of) 1 == 0))

    -- What a deletion does: one fingerprint of the hash leaves its buckets, or there is none.
    abbrev pub Deleted : CuckooErr × Cuckoo → Type 0
    Deleted (CuckooErr.cuckoo_ok, cf') =
        IsValid cf'
        × (weigh f cf' + f first_of fp_of ≡ weigh f cf)
        × (cf' ≡ record cf { table = cf'.table; count = u32 (cf.count + (2 ^ 32 - 1)) })
    Deleted (CuckooErr.cuckoo_err_not_found, cf') =
        (cf' ≡ cf) × (cuckoo_filter_lookup cf hash ≡ false)
    Deleted (_, cf') = ⊥

    taken :
        (b s : ℕ)
        → b < cf.num_buckets
        → f b fp_of ≡ f first_of fp_of
        → Search cf.entries_per_set cf.fingerprint_bits cf.table
            (b * cf.bucket_size)
            fp_of
            0
            cf.bucket_size
            (some s)
        → Deleted (CuckooErr.cuckoo_ok, take_out cf b s)
    unfolding take_out cf_set_entry
    taken b s in_table same (from, to, e) =
        let inside : s < cf.bucket_size = omega arith in
        let room : 0 < 2 ^ cf.fingerprint_bits = omega (arith, fp-lt) in
        let there : f b (cf_get cf (b * cf.bucket_size + s)) ≡ f b fp_of =
          unfold cf_get in ap (f b) e in
        (
          counted-IsValid (cf_set_entry cf (b * cf.bucket_size + s) 0)
              (set_entry-IsValid cf v b s 0 in_table inside room) (u32 (cf.count + (2 ^ 32 - 1))),
          omega (arith, set_entry-weigh cf v b s 0 in_table inside room f, there, same, m.empty b),
          refl,
        )

    removed :
        (r1 r2 : Option ℕ)
        → r1 ≡ find_fingerprint cf first_of fp_of
        → r2 ≡ find_fingerprint cf second_of fp_of
        → Search cf.entries_per_set cf.fingerprint_bits cf.table
            (first_of * cf.bucket_size)
            fp_of
            0
            cf.bucket_size
            r1
        → Search cf.entries_per_set cf.fingerprint_bits cf.table
            (second_of * cf.bucket_size)
            fp_of
            0
            cf.bucket_size
            r2
        → Deleted (elim r1 [
          | some slot ↦ (CuckooErr.cuckoo_ok, take_out cf first_of slot)
          | none ↦ elim r2 [
            | some slot ↦ (CuckooErr.cuckoo_ok, take_out cf second_of slot)
            | none ↦ (CuckooErr.cuckoo_err_not_found, cf)
          ]
        ])
    removed (some s) r2 e1 e2 here there = taken first_of s first-lt refl here
    removed none (some s) e1 e2 here there = taken second_of s second-lt same_measure there
    removed none none e1 e2 here there = (refl, unfold cuckoo_filter_lookup in rw (← e1, ← e2) refl)

    -- A deletion from a valid filter takes out one fingerprint of the hash and keeps the filter
    -- valid, or the filter is unchanged and a lookup does not find the hash.
    pub cuckoo_filter_delete-Deleted : Deleted (cuckoo_filter_delete cf hash)
    unfolding cuckoo_filter_delete find_fingerprint
    cuckoo_filter_delete-Deleted =
        removed (find_fingerprint cf first_of fp_of) (find_fingerprint cf second_of fp_of) refl refl
          (find_from-Search cf.entries_per_set cf.fingerprint_bits cf.table
            (first_of * cf.bucket_size) fp_of 0 cf.bucket_size)
          (find_from-Search cf.entries_per_set cf.fingerprint_bits cf.table
            (second_of * cf.bucket_size) fp_of 0 cf.bucket_size)
