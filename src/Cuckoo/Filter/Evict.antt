-- ===== src/Cuckoo/Filter/Evict.antt =====
-- The eviction loop: the fingerprint in hand goes into the table, or the table is restored.
use draugr_repo.Base.{
  ℕ, zero, suc, ◌+◌, ◌*◌, ◌/◌, ◌^◌, ◌≤◌, ◌<◌, ◌≡◌, refl, ap, ◌∙◌, arith, List, ◌∷◌, Option, some,
  none, bit_xor, u32, u64, ◌>>>◌,
}
use native.Mathlib.Nat.{mul-le-mul_right}
use draugr_repo.Base.Bits.Shift.{bit_xor-lt}
use draugr_repo.Packed.{roll_back}
use draugr_repo.Packed.Tally.{get_entry-lt}
use draugr_repo.Packed.Search.{Search, find_from-Search}
use draugr_repo.Cuckoo.{mix32, cuckoo_alt_index}
use draugr_repo.Cuckoo.Filter.{
  Cuckoo, CuckooErr, cf_get, cf_set_entry, find_empty_slot, store, evict_slot, evict_from,
}
use draugr_repo.Cuckoo.Filter.Valid.{
  IsValid, weigh, IsMeasure, counted-IsValid, alt-lt, set_entry-IsValid, set_entry-weigh,
  set_entry_back,
}

-- The mixer yields 32 bits.
mix32-lt : (x : ℕ) → mix32 x < 2 ^ 32
unfolding mix32
mix32-lt x =
    let x4 = u32 (
      bit_xor (u32 (bit_xor x (x / 2 ^ 16) * 2246822507))
        (u32 (bit_xor x (x / 2 ^ 16) * 2246822507) / 2 ^ 13)
      * 3266489909) in
    bit_xor-lt 32 x4 (x4 / 2 ^ 16) (omega arith) (omega arith)

-- The slot that is evicted is one of the bucket.
pub kicked-lt : (n fp bs : ℕ) → 1 ≤ bs → bs < 256 → u64 (mix32 (bit_xor n fp) * bs) >>> 32 < bs
kicked-lt n fp bs some_slot byte =
    let mixed = mix32 (bit_xor n fp) in
    let below : suc mixed * bs ≤ 2 ^ 32 * bs = mul-le-mul_right bs (mix32-lt (bit_xor n fp)) in
    omega arith

module _ (cf : Cuckoo) (v : IsValid cf) (f : ℕ → ℕ → ℕ) (m : IsMeasure cf f) where
  -- What an attempt to place a fingerprint ends with: the contents weigh `total` then, or the table
  -- is `before`.
  abbrev pub Ended : ℕ → List ℕ → CuckooErr × Cuckoo → Type 0
  Ended total before (CuckooErr.cuckoo_ok, cf') =
      IsValid cf'
      × (weigh f cf' ≡ total)
      × (cf' ≡ record cf { table = cf'.table; count = u32 (cf.count + 1) })
  Ended total before (CuckooErr.cuckoo_err_full, cf') = cf' ≡ record cf { table = before }
  Ended total before (_, cf') = ⊥

  abbrev pub Emptied : ℕ → Option ℕ → Type 0
  Emptied b r =
      Search cf.entries_per_set cf.fingerprint_bits cf.table (b * cf.bucket_size) 0 0 cf.bucket_size
        r

  -- A fingerprint that is put into an empty slot of its bucket.
  pub store-Ended :
      (b s fp total : ℕ) (before : List ℕ)
      → b < cf.num_buckets
      → fp < 2 ^ cf.fingerprint_bits
      → Emptied b (some s)
      → weigh f cf + f b fp ≡ total
      → Ended total before (CuckooErr.cuckoo_ok, store cf b s fp)
  unfolding store cf_set_entry
  store-Ended b s fp total before in_table small (from, to, e) sum =
      let inside : s < cf.bucket_size = omega arith in
      let none_there : f b (cf_get cf (b * cf.bucket_size + s)) ≡ 0 =
        unfold cf_get in rw e (m.empty b) in
      (
        counted-IsValid (cf_set_entry cf (b * cf.bucket_size + s) fp)
            (set_entry-IsValid cf v b s fp in_table inside small) (u32 (cf.count + 1)),
        omega (arith, set_entry-weigh cf v b s fp in_table inside small f, none_there),
        refl,
      )

  -- Placing the fingerprint, where the search has found a slot, or going on.
  placed-Ended :
      (b fp total : ℕ) (before : List ℕ) (r : Option ℕ) (rest : CuckooErr × Cuckoo)
      → b < cf.num_buckets
      → fp < 2 ^ cf.fingerprint_bits
      → Emptied b r
      → weigh f cf + f b fp ≡ total
      → Ended total before rest
      → Ended total before
          (elim r [ some s ↦ (CuckooErr.cuckoo_ok, store cf b s fp) | none ↦ rest ])
  placed-Ended b fp total before (some s) rest in_table small found sum h =
      store-Ended b s fp total before in_table small found sum
  placed-Ended b fp total before none rest in_table small found sum h = h

-- What is said of the filter after a write holds of the one before it.
rebase :
    (cf : Cuckoo) (v : IsValid cf) (f : ℕ → ℕ → ℕ) (m : IsMeasure cf f) (table : List ℕ)
    (v' : IsValid (record cf { table = table })) (m' : IsMeasure (record cf { table = table }) f)
    (total : ℕ) (before : List ℕ) (r : CuckooErr × Cuckoo)
    → Ended (record cf { table = table }) v' f m' total before r
    → Ended cf v f m total before r
rebase cf v f m table v' m' total before (CuckooErr.cuckoo_ok, cf') h = h
rebase cf v f m table v' m' total before (CuckooErr.cuckoo_err_full, cf') h = h
rebase cf v f m table v' m' total before (CuckooErr.cuckoo_err_invalid_param, cf') h = h
rebase cf v f m table v' m' total before (CuckooErr.cuckoo_err_not_found, cf') h = h
rebase cf v f m table v' m' total before (CuckooErr.cuckoo_err_dup_overflow, cf') h = h
rebase cf v f m table v' m' total before (CuckooErr.cuckoo_err_alloc, cf') h = h

pub evict_from-Ended :
    (left : ℕ) (cf : Cuckoo) (v : IsValid cf) (f : ℕ → ℕ → ℕ) (m : IsMeasure cf f) (fp i n : ℕ)
    (evicted : List (ℕ × ℕ)) (total : ℕ) (before : List ℕ)
    → fp < 2 ^ cf.fingerprint_bits
    → i < cf.num_buckets
    → weigh f cf + f i fp ≡ total
    → roll_back cf.entries_per_set cf.fingerprint_bits cf.table evicted ≡ before
    → Ended cf v f m total before (evict_from cf fp i n left evicted)
unfolding evict_from cf_set_entry cf_get find_empty_slot roll_back
evict_from-Ended zero cf v f m fp i n evicted total before small in_table sum undo =
    ap (λ (t : List ℕ). record cf { table = t }) undo
evict_from-Ended (suc left) cf v f m fp i n evicted total before small in_table sum undo =
    let s = evict_slot cf n fp in
    let in_bucket : s < cf.bucket_size =
      unfold evict_slot in kicked-lt n fp cf.bucket_size v.some_slot v.byte in
    let idx = i * cf.bucket_size + s in
    let temp = cf_get cf idx in
    let temp_small : temp < 2 ^ cf.fingerprint_bits =
      get_entry-lt cf.entries_per_set cf.fingerprint_bits 0 cf.table idx in
    let cf' = cf_set_entry cf idx fp in
    let v' : IsValid cf' = set_entry-IsValid cf v i s fp in_table in_bucket small in
    let m' : IsMeasure cf' f = record { empty = m.empty; twin = m.twin } in
    let i' = cuckoo_alt_index i temp cf.bucket_mask in
    let sum' : weigh f cf' + f i' temp ≡ total = omega (
      arith,
      sum,
      set_entry-weigh cf v i s fp in_table in_bucket small f,
      m.twin i temp in_table,
    ) in
    rebase cf v f m cf'.table v' m' total before _ (
      placed-Ended cf' v' f m' i' temp total before (find_empty_slot cf' i')
        (evict_from cf' temp i' (n + 1) left ((idx, temp) ∷ evicted)) (alt-lt cf v i temp)
        temp_small
        (find_from-Search cf.entries_per_set cf.fingerprint_bits cf'.table (i' * cf.bucket_size) 0 0
          cf.bucket_size)
        sum'
        (evict_from-Ended left cf' v' f m' temp i' (n + 1) ((idx, temp) ∷ evicted) total before
          temp_small (alt-lt cf v i temp) sum'
          (ap (λ (t : List ℕ). roll_back cf.entries_per_set cf.fingerprint_bits t evicted)
              (set_entry_back cf v i s fp in_table in_bucket small)
            ∙ undo)))
