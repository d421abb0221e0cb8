-- ===== src/Vacuum/Filter/Insert.antt =====
-- `vacuum_filter_insert` and `vacuum_filter_delete`.
use draugr_repo.Base.{
  ℕ, ◌+◌, ◌-◌, ◌*◌, ◌^◌, ◌≤◌, ◌<◌, ◌≡◌, refl, ap, arith, [], Option, some, none, Bool, true, false,
  ◌==◌, if◌then◌else◌, bit_and, u32,
}
use draugr_repo.Packed.{roll_back}
use draugr_repo.Cuckoo.{cuckoo_fingerprint}
use draugr_repo.Cuckoo.Buckets.{fingerprint-range}
use draugr_repo.Vacuum.{Vacuum, vacuum_fingerprint, vacuum_hash_index, vacuum_alt_index}
use draugr_repo.Vacuum.Buckets.{vacuum_hash_index-lt}
use draugr_repo.Vacuum.Filter.{
  VacuumErr, vf_get, vf_set_entry, find_in_bucket, kick_from, empty_slot, vacuum_filter_insert,
  vacuum_filter_lookup, vacuum_filter_delete,
}
use draugr_repo.Vacuum.Filter.Valid.{
  IsValid, weigh, IsMeasure, alt-lt, counted-IsValid, set_entry-IsValid, set_entry-weigh,
}
use draugr_repo.Vacuum.Filter.Moves.{
  Found, Ended, fill_slot-Ended, look_ahead-Ended, find_in_bucket-Found,
}
use draugr_repo.Vacuum.Filter.Evict.{kick_from-Ended}

module _ (vf : Vacuum) (v : IsValid vf) (hash : ℕ) (word : hash < 2 ^ 64) where
  -- The fingerprint of the hash and its two buckets.
  abbrev pub fp_of : ℕ
  fp_of = vacuum_fingerprint hash vf.fingerprint_bits

  abbrev pub first_of : ℕ
  first_of = vacuum_hash_index hash vf.num_buckets

  abbrev pub second_of : ℕ
  second_of = vacuum_alt_index vf first_of fp_of

  pub fp_bounds : (1 ≤ fp_of) × (fp_of < 2 ^ vf.fingerprint_bits)
  unfolding vacuum_fingerprint cuckoo_fingerprint
  fp_bounds = fingerprint-range hash vf.fingerprint_bits v.holds.low v.holds.high

  pub first-lt : first_of < vf.num_buckets
  first-lt = vacuum_hash_index-lt hash vf.num_buckets word v.some_bucket v.few

  pub second-lt : second_of < vf.num_buckets
  second-lt = alt-lt vf v first_of fp_of first-lt

  module _ (f : ℕ → ℕ → ℕ) (m : IsMeasure vf f) where
    abbrev gained : ℕ
    gained = weigh f vf + f first_of fp_of

    same_measure : f second_of fp_of ≡ f first_of fp_of
    same_measure = m.twin first_of fp_of first-lt

    second_sum : weigh f vf + f second_of fp_of ≡ gained
    second_sum = omega (arith, same_measure)

    kicked :
        (odd : Bool)
        → Ended vf v f m gained vf.table
            (kick_from vf fp_of (if odd then second_of else first_of) 0 vf.max_evicts [])
    unfolding roll_back
    kicked true =
        kick_from-Ended vf.max_evicts vf v f m fp_of second_of 0 [] gained vf.table fp_bounds.1
          second-lt second_sum refl
    kicked false =
        kick_from-Ended vf.max_evicts vf v f m fp_of first_of 0 [] gained vf.table fp_bounds.1
          first-lt refl refl

    -- An insertion of a hash of 64 bits into a valid filter stores its fingerprint: the filter stays
    -- valid, and by every measure that does not tell the two buckets of a fingerprint apart its
    -- contents gain that fingerprint and no other; or the filter is full, and it is unchanged.
    pub vacuum_filter_insert-Ended :
        Ended vf v f m (weigh f vf + f first_of fp_of) vf.table (vacuum_filter_insert vf hash)
    unfolding vacuum_filter_insert
    vacuum_filter_insert-Ended =
        fill_slot-Ended vf v f m first_of fp_of gained first-lt fp_bounds.1 refl vf.table
          (find_in_bucket vf first_of 0) _ (find_in_bucket-Found vf first_of 0)
          (fill_slot-Ended vf v f m second_of fp_of gained second-lt fp_bounds.1 second_sum vf.table
            (find_in_bucket vf second_of 0) _ (find_in_bucket-Found vf second_of 0)
            (look_ahead-Ended vf v f m first_of fp_of gained first-lt fp_bounds.1 refl vf.table _ (
              look_ahead-Ended vf v f m second_of fp_of gained second-lt fp_bounds.1 second_sum
                vf.table _ (kicked (bit_and (first_of + second_of) 1 == 0)))))

    -- What a deletion does: one fingerprint of the hash leaves its buckets, or there is none.
    abbrev pub Deleted : VacuumErr × Vacuum → Type 0
    Deleted (VacuumErr.vacuum_ok, vf') =
        IsValid vf'
        × (weigh f vf' + f first_of fp_of ≡ weigh f vf)
        × (vf' ≡ record vf { table = vf'.table; count = u32 (vf.count + (2 ^ 32 - 1)) })
    Deleted (VacuumErr.vacuum_err_not_found, vf') =
        (vf' ≡ vf) × (vacuum_filter_lookup vf hash ≡ false)
    Deleted (_, vf') = ⊥

    emptied :
        (b s : ℕ)
        → b < vf.num_buckets
        → f b fp_of ≡ f first_of fp_of
        → Found vf b fp_of (some s)
        → Deleted (VacuumErr.vacuum_ok, empty_slot vf b s)
    unfolding empty_slot vf_set_entry
    emptied b s in_table same (from, to, e) =
        let inside : s < vf.bucket_size = omega arith in
        let room : 0 < 2 ^ vf.fingerprint_bits = omega (arith, fp_bounds.1) in
        let there : f b (vf_get vf (b * vf.bucket_size + s)) ≡ f b fp_of =
          unfold vf_get in ap (f b) e in
        (
          counted-IsValid (vf_set_entry vf (b * vf.bucket_size + s) 0)
              (set_entry-IsValid vf v b s 0 in_table inside room) (u32 (vf.count + (2 ^ 32 - 1))),
          omega (arith, set_entry-weigh vf v b s 0 in_table inside room f, there, same, m.empty b),
          refl,
        )

    removed :
        (r1 r2 : Option ℕ)
        → r1 ≡ find_in_bucket vf first_of fp_of
        → r2 ≡ find_in_bucket vf second_of fp_of
        → Found vf first_of fp_of r1
        → Found vf second_of fp_of r2
        → Deleted (elim r1 [
          | some slot ↦ (VacuumErr.vacuum_ok, empty_slot vf first_of slot)
          | none ↦ elim r2 [
            | some slot ↦ (VacuumErr.vacuum_ok, empty_slot vf second_of slot)
            | none ↦ (VacuumErr.vacuum_err_not_found, vf)
          ]
        ])
    removed (some s) r2 e1 e2 here there = emptied first_of s first-lt refl here
    removed none (some s) e1 e2 here there = emptied second_of s second-lt same_measure there
    removed none none e1 e2 here there = (refl, unfold vacuum_filter_lookup in rw (← e1, ← e2) refl)

    -- A deletion of a hash of 64 bits from a valid filter takes out one fingerprint of the hash and
    -- keeps the filter valid, or the filter is unchanged and a lookup does not find the hash.
    pub vacuum_filter_delete-Deleted : Deleted (vacuum_filter_delete vf hash)
    unfolding vacuum_filter_delete
    vacuum_filter_delete-Deleted =
        removed (find_in_bucket vf first_of fp_of) (find_in_bucket vf second_of fp_of) refl refl
          (find_in_bucket-Found vf first_of fp_of) (find_in_bucket-Found vf second_of fp_of)
