-- ===== src/Vacuum/Filter/Moves.antt =====
-- Storing a fingerprint in an empty slot, and the look-ahead, which first moves another one.
use draugr_repo.Base.{
  ℕ, zero, suc, ◌+◌, ◌*◌, ◌^◌, ◌≤◌, ◌<◌, ◌≡◌, refl, arith, List, Option, some, none, u32, ◌==◌,
  Bool-cases, inl, inr, ap,
}
use draugr_repo.Packed.Search.{Search, find_from-Search}
use draugr_repo.Vacuum.{Vacuum, vacuum_alt_index}
use draugr_repo.Vacuum.Filter.{
  VacuumErr, vf_get, vf_set_entry, find_in_bucket, fill_slot, look_ahead_from,
}
use draugr_repo.Vacuum.Filter.Valid.{
  IsValid, weigh, IsMeasure, alt-lt, counted-IsValid, vf_get-lt, set_entry-IsValid, set_entry-weigh,
  get-set_entry,
}

-- What a search of a bucket finds.
abbrev pub Found : Vacuum → ℕ → ℕ → Option ℕ → Type 0
Found vf b want r =
    Search vf.entries_per_set vf.fingerprint_bits vf.table (b * vf.bucket_size) want 0
      vf.bucket_size r

pub find_in_bucket-Found : (vf : Vacuum) (b want : ℕ) → Found vf b want (find_in_bucket vf b want)
unfolding find_in_bucket
find_in_bucket-Found vf b want =
    find_from-Search vf.entries_per_set vf.fingerprint_bits vf.table (b * vf.bucket_size) want 0
      vf.bucket_size

module _ (vf : Vacuum) (v : IsValid vf) (f : ℕ → ℕ → ℕ) (m : IsMeasure vf f) where
  -- The filter is valid, its contents weigh `total`, and besides the table only the count has
  -- changed, by one.
  abbrev pub Placed : ℕ → Vacuum → Type 0
  Placed total vf' =
      IsValid vf'
      × (weigh f vf' ≡ total)
      × (vf' ≡ record vf { table = vf'.table; count = u32 (vf.count + 1) })

  -- What an attempt to place a fingerprint ends with: it is placed, or the table is `before`.
  abbrev pub Ended : ℕ → List ℕ → VacuumErr × Vacuum → Type 0
  Ended total before (VacuumErr.vacuum_ok, vf') = Placed total vf'
  Ended total before (VacuumErr.vacuum_err_full, vf') = vf' ≡ record vf { table = before }
  Ended total before (_, vf') = ⊥

  module _ (b fp total : ℕ) (in_table : b < vf.num_buckets) (small : fp < 2 ^ vf.fingerprint_bits)
      (sum : weigh f vf + f b fp ≡ total) where
    fill_slot-Placed : (s : ℕ) → Found vf b 0 (some s) → Placed total (fill_slot vf b s fp)
    unfolding fill_slot vf_set_entry
    fill_slot-Placed s (from, to, e) =
        let inside : s < vf.bucket_size = omega arith in
        let none_there : f b (vf_get vf (b * vf.bucket_size + s)) ≡ 0 =
          unfold vf_get in rw e (m.empty b) in
        (
          counted-IsValid (vf_set_entry vf (b * vf.bucket_size + s) fp)
              (set_entry-IsValid vf v b s fp in_table inside small) (u32 (vf.count + 1)),
          omega (arith, set_entry-weigh vf v b s fp in_table inside small f, none_there),
          refl,
        )

    -- Placing the fingerprint, where the search has found a slot, or going on.
    pub fill_slot-Ended :
        (before : List ℕ) (r : Option ℕ) (rest : VacuumErr × Vacuum)
        → Found vf b 0 r
        → Ended total before rest
        → Ended total before
            (elim r [ some s ↦ (VacuumErr.vacuum_ok, fill_slot vf b s fp) | none ↦ rest ])
    fill_slot-Ended before (some s) rest found h = fill_slot-Placed s found
    fill_slot-Ended before none rest found h = h

    abbrev Moved : Option Vacuum → Type 0
    Moved (some vf') = Placed total vf'
    Moved none = Unit

    -- Slot `i` of the bucket holds `x`, which goes to its other bucket if that has a slot.
    exchanged :
        (i x : ℕ) (r : Option ℕ) (rest : Option Vacuum)
        → i < vf.bucket_size
        → vf_get vf (b * vf.bucket_size + i) ≡ x
        → x < 2 ^ vf.fingerprint_bits
        → Found vf (vacuum_alt_index vf b x) 0 r
        → Moved rest
        → Moved (elim r [
          | none ↦ rest
          | some alt_slot ↦
              let vf' = vf_set_entry vf (vacuum_alt_index vf b x * vf.bucket_size + alt_slot) x in
              let vf'' = vf_set_entry vf' (b * vf.bucket_size + i) fp in
              some (record vf'' { count = u32 (vf.count + 1) })
        ])
    unfolding vf_set_entry
    exchanged i x none rest inside held x_small found h = h
    exchanged i x (some s) rest inside held x_small (from, to, e) h =
        let alt = vacuum_alt_index vf b x in
        let alt_in = alt-lt vf v b x in_table in
        let s_in : s < vf.bucket_size = omega arith in
        let none_there : f alt (vf_get vf (alt * vf.bucket_size + s)) ≡ 0 =
          unfold vf_get in rw e (m.empty alt) in
        let vf' = vf_set_entry vf (alt * vf.bucket_size + s) x in
        let v' : IsValid vf' = set_entry-IsValid vf v alt s x alt_in s_in x_small in
        let still : vf_get vf' (b * vf.bucket_size + i) ≡ x =
          get-set_entry vf v alt s x alt_in s_in x_small (b * vf.bucket_size + i) held in
        let first = set_entry-weigh vf v alt s x alt_in s_in x_small f in
        let second = set_entry-weigh vf' v' b i fp in_table inside small f in
        let same_weight : f b (vf_get vf' (b * vf.bucket_size + i)) ≡ f b x = ap (f b) still in
        (
          counted-IsValid (vf_set_entry vf' (b * vf.bucket_size + i) fp)
              (set_entry-IsValid vf' v' b i fp in_table inside small) (u32 (vf.count + 1)),
          omega (arith, first, second, none_there, same_weight, m.twin b x in_table, sum),
          refl,
        )

    look_ahead_from-Moved :
        (left i : ℕ) → i + left ≤ vf.bucket_size → Moved (look_ahead_from vf b fp i left)
    unfolding look_ahead_from
    look_ahead_from-Moved zero i h = tt
    look_ahead_from-Moved (suc left) i h =
        let idx = b * vf.bucket_size + i in
        elim (Bool-cases (vf_get vf idx == 0)) [
          | inl empty ↦ rw empty (look_ahead_from-Moved left (i + 1) (omega arith))
          | inr full ↦ rw full (
              exchanged i (vf_get vf idx)
                (find_in_bucket vf (vacuum_alt_index vf b (vf_get vf idx)) 0)
                (look_ahead_from vf b fp (i + 1) left) (omega arith) refl (vf_get-lt vf v idx)
                (find_in_bucket-Found vf (vacuum_alt_index vf b (vf_get vf idx)) 0)
                (look_ahead_from-Moved left (i + 1) (omega arith)))
        ]

    taken_or :
        (before : List ℕ) (r : Option Vacuum) (rest : VacuumErr × Vacuum)
        → Moved r
        → Ended total before rest
        → Ended total before (elim r [ some moved ↦ (VacuumErr.vacuum_ok, moved) | none ↦ rest ])
    taken_or before (some vf') rest h k = h
    taken_or before none rest h k = k

    -- The look-ahead places the fingerprint, or the insertion goes on.
    pub look_ahead-Ended :
        (before : List ℕ) (rest : VacuumErr × Vacuum)
        → Ended total before rest
        → Ended total before (elim (look_ahead_from vf b fp 0 vf.bucket_size) [
          | some moved ↦ (VacuumErr.vacuum_ok, moved)
          | none ↦ rest
        ])
    look_ahead-Ended before rest =
        taken_or before (look_ahead_from vf b fp 0 vf.bucket_size) rest
          (look_ahead_from-Moved vf.bucket_size 0 (omega arith))
