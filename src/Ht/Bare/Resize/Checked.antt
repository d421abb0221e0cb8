-- ===== src/Ht/Bare/Resize/Checked.antt =====
-- The two entry points: `ht_bare_resize` with its test, and `ht_bare_compact`.
use draugr_repo.Base.{
  ℕ, zero, suc, List, ◌+◌, ◌-◌, ◌^◌, ◌≤◌, ◌≡◌, refl, arith, Bool, false, ◌&&◌, not, Option, some,
}
use draugr_repo.Base.{inl, inr, Bool-cases, ltb, u64, if◌then◌else◌, Gives}
use draugr_repo.Ht.Bare.{Bare}
use draugr_repo.Ht.Bare.Weigh.{weigh, sum_to, sum_to-le, in_slot, in_slot-le, in_lane}
use draugr_repo.Ht.Bare.Valid.{IsValid, IsProper, one_each}
use draugr_repo.Ht.Bare.Insert.Slots.{IsPow2}
use draugr_repo.Ht.Bare.Resize.{has_blocks, resized_capacity, ht_bare_resize, ht_bare_compact}
use draugr_repo.Ht.Bare.Resize.Rebuilt.{Rebuilt, rebuild-Rebuilt}
use draugr_repo.Ht.Bare.Resize.Sized.{IsRoomy, Resized, bare_resize_table-Resized}
use draugr_repo.Pow2.Least.{CountsZeros}

-- The number of entries in the slots.
abbrev pub in_main : Bare → ℕ
in_main t = sum_to (in_slot one_each) t.capacity t.hash_pd t.vals

lane-count : (n : ℕ) (xs ys : List ℕ) → sum_to (in_lane one_each) n xs ys ≡ n
unfolding sum_to
lane-count zero xs ys = refl
lane-count (suc n) xs ys = omega (arith, lane-count n xs ys)

-- `t->size - t->spill_len - t->overflow_len` does not wrap.
pub main_live_lem :
    (t : Bare)
    → IsValid t
    → u64 (u64 (t.size + 2 ^ 64 - t.spill_len) + 2 ^ 64 - t.overflow_len) ≡ in_main t
unfolding weigh
main_live_lem t valid = omega (
  arith,
  valid.counted,
  valid.small,
  valid.lane_small,
  sum_to-le (in_slot one_each) t.capacity t.hash_pd t.vals in_slot-le,
  lane-count t.overflow_len t.overflow_hash_pd t.overflow_vals,
  lane-count t.spill_len t.spill_hash_pd t.spill_vals,
)

module _ (calloc malloc : ℕ → Bool) (raw : Bare → ℕ) (t : Bare) (valid : IsValid t)
    (proper : IsProper t) (spacing : (u : Bare) → raw u ≤ 2 ^ 62) where
  -- In a valid table of at most 2 ^ 15 entries, none a sentinel in the stash or `VAL_NONE` in the
  -- spill lane, `ht_bare_resize` ends. If the new capacity that is asked for is at least the number
  -- of entries in the slots, the table is not being resized, and there is memory for the new blocks,
  -- it returns true with a valid table of the same entries, which has an empty slot. Whatever
  -- capacity is asked for, the number of its slots is a power of two, at least 4, at most 2 ^ 16 and
  -- at least twice the number of entries, those of the stash and the spill lane included, and less
  -- than four times that number unless it is 4. Else it returns false and changes nothing.
  pub ht_bare_resize-Resized :
      (clz : Option (ℕ → ℕ)) (new_capacity : ℕ)
      → CountsZeros clz
      → t.size ≤ 2 ^ 15
      → let cap = resized_capacity clz t.size in
        let fits = not (ltb new_capacity (in_main t)) in
        IsRoomy t.size cap
        × Gives
            (Resized t cap (fits && not t.resizing && has_blocks calloc malloc t cap))
            (ht_bare_resize clz calloc malloc raw t new_capacity)
  unfolding ht_bare_resize
  ht_bare_resize-Resized clz new_capacity z few =
      let (roomy, resized) =
        bare_resize_table-Resized calloc malloc raw t valid proper spacing clz z few in
      rw (main_live_lem t valid) (elim (Bool-cases (ltb new_capacity (in_main t))) [
        | inl less ↦ (roomy, rw less ((false, t), refl, refl))
        | inr fits ↦ (roomy, rw fits resized)
      ])

  -- A compaction of a valid table of at most 2 ^ 16 slots, a power of two, of as many entries as
  -- slots at most, none a sentinel in the stash or `VAL_NONE` in the spill lane, ends. If there is
  -- memory for the new blocks, the table is valid then, with its capacity and its entries; else it
  -- is unchanged.
  pub ht_bare_compact-Rebuilt :
      (grow : Bare → Bool × Bare)
      → IsPow2 t.capacity
      → t.capacity ≤ 2 ^ 16
      → t.size ≤ t.capacity
      → if has_blocks calloc malloc t t.capacity
        then Gives (Rebuilt t t.capacity) (ht_bare_compact malloc raw grow calloc t)
        else (ht_bare_compact malloc raw grow calloc t ≡ some t)
  unfolding ht_bare_compact
  ht_bare_compact-Rebuilt grow pow2 small enough =
      elim (Bool-cases (has_blocks calloc malloc t t.capacity)) [
        | inl given ↦ rw given (
            rebuild-Rebuilt malloc raw grow t t.capacity valid proper pow2 small
              (omega (arith, valid.counted)) spacing)
        | inr refused ↦ rw refused refl
      ]
