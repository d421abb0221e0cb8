-- ===== src/Vacuum/Filter/Evict.antt =====
-- The eviction loop: the fingerprint in hand goes into the table, or the table is restored.
use draugr_repo.Base.{
  ℕ, zero, suc, ◌+◌, ◌*◌, ◌^◌, ◌<◌, ◌≡◌, ap, ◌∙◌, arith, List, ◌∷◌, u64, bit_xor, ◌>>>◌,
}
use draugr_repo.Packed.{roll_back}
use draugr_repo.Cuckoo.{mix32}
use draugr_repo.Cuckoo.Filter.Evict.{kicked-lt}
use draugr_repo.Vacuum.{Vacuum, vacuum_alt_index}
use draugr_repo.Vacuum.Filter.{VacuumErr, vf_get, vf_set_entry, find_in_bucket, kick_from}
use draugr_repo.Vacuum.Filter.Valid.{
  IsValid, weigh, IsMeasure, alt-lt, vf_get-lt, set_entry-IsValid, set_entry-weigh, set_entry_back,
}
use draugr_repo.Vacuum.Filter.Moves.{Ended, fill_slot-Ended, look_ahead-Ended, find_in_bucket-Found}

-- What is said of the filter after a write holds of the one before it.
rebase :
    (vf : Vacuum) (v : IsValid vf) (f : ℕ → ℕ → ℕ) (m : IsMeasure vf f) (table : List ℕ)
    (v' : IsValid (record vf { table = table })) (m' : IsMeasure (record vf { table = table }) f)
    (total : ℕ) (before : List ℕ) (r : VacuumErr × Vacuum)
    → Ended (record vf { table = table }) v' f m' total before r
    → Ended vf v f m total before r
rebase vf v f m table v' m' total before (VacuumErr.vacuum_ok, vf') h = h
rebase vf v f m table v' m' total before (VacuumErr.vacuum_err_full, vf') h = h
rebase vf v f m table v' m' total before (VacuumErr.vacuum_err_invalid_param, vf') h = h
rebase vf v f m table v' m' total before (VacuumErr.vacuum_err_not_found, vf') h = h
rebase vf v f m table v' m' total before (VacuumErr.vacuum_err_alloc, vf') h = h

pub kick_from-Ended :
    (left : ℕ) (vf : Vacuum) (v : IsValid vf) (f : ℕ → ℕ → ℕ) (m : IsMeasure vf f) (fp b n : ℕ)
    (evicted : List (ℕ × ℕ)) (total : ℕ) (before : List ℕ)
    → fp < 2 ^ vf.fingerprint_bits
    → b < vf.num_buckets
    → weigh f vf + f b fp ≡ total
    → roll_back vf.entries_per_set vf.fingerprint_bits vf.table evicted ≡ before
    → Ended vf v f m total before (kick_from vf fp b n left evicted)
unfolding kick_from vf_set_entry roll_back vacuum_alt_index
kick_from-Ended zero vf v f m fp b n evicted total before small in_table sum undo =
    ap (λ (t : List ℕ). record vf { table = t }) undo
kick_from-Ended (suc left) vf v f m fp b n evicted total before small in_table sum undo =
    let s = u64 (mix32 (bit_xor n fp) * vf.bucket_size) >>> 32 in
    let in_bucket : s < vf.bucket_size = kicked-lt n fp vf.bucket_size v.some_slot v.byte in
    let idx = b * vf.bucket_size + s in
    let temp = vf_get vf idx in
    let temp_small = vf_get-lt vf v idx in
    let vf' = vf_set_entry vf idx fp in
    let v' : IsValid vf' = set_entry-IsValid vf v b s fp in_table in_bucket small in
    let m' : IsMeasure vf' f = record { empty = m.empty; twin = m.twin } in
    let b' = vacuum_alt_index vf b temp in
    let b'-lt = alt-lt vf v b temp in_table in
    let sum' : weigh f vf' + f b' temp ≡ total = omega (
      arith,
      sum,
      set_entry-weigh vf v b s fp in_table in_bucket small f,
      m.twin b temp in_table,
    ) in
    look_ahead-Ended vf v f m b fp total in_table small sum before _ (
      rebase vf v f m vf'.table v' m' total before _ (
        fill_slot-Ended vf' v' f m' b' temp total b'-lt temp_small sum' before
          (find_in_bucket vf' b' 0) (kick_from vf' temp b' (n + 1) left ((idx, temp) ∷ evicted))
          (find_in_bucket-Found vf' b' 0)
          (kick_from-Ended left vf' v' f m' temp b' (n + 1) ((idx, temp) ∷ evicted) total before
            temp_small b'-lt sum'
            (ap (λ (t : List ℕ). roll_back vf.entries_per_set vf.fingerprint_bits t evicted)
                (set_entry_back vf v b s fp in_table in_bucket small)
              ∙ undo))))
