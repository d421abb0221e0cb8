-- ===== src/Ht/Bare/Probe/Special.antt =====
-- Lookups of the hashes 0 and 1 are complete: they have no place but the spill lane.
use native.Mathlib.Decide.{ℕ_discrete}
use draugr_repo.Base.{
  ℕ, zero, suc, ◌+◌, ◌<◌, ◌≤◌, ◌≡◌, ◌≢◌, refl, arith, true, none, some, List, bit_and,
}
use draugr_repo.Base.{inl, inr, Bool-cases, get_or, ◌==◌, ltb}
use draugr_repo.Ht.Slot.{hash_mask, hpd_hash, hpd_live}
use draugr_repo.Ht.Bare.{Bare}
use draugr_repo.Ht.Bare.Weigh.{weigh, sum_to, in_slot, in_lane, copies, is_entry}
use draugr_repo.Ht.Bare.Valid.{IsProper}
use draugr_repo.Ht.Bare.Spill.{spill_find_from, bare_spill_find}
use draugr_repo.Ht.Bare.Spill.Find.{bare_spill_find-stored}
use draugr_repo.Ht.Bare.Probe.{ht_bare_find}
use draugr_repo.Ht.Bare.Shift.Freed.{live-ge-two}

sum_to-zero :
    (g : ℕ → ℕ → ℕ) (n : ℕ) (xs ys : List ℕ)
    → ((j : ℕ) → j < n → g (get_or xs j 0) (get_or ys j 0) ≡ 0)
    → sum_to g n xs ys ≡ 0
unfolding sum_to
sum_to-zero g zero xs ys all = refl
sum_to-zero g (suc n) xs ys all =
    omega (arith, sum_to-zero g n xs ys (λ j below. all j (omega arith)), all n (omega arith))

other_hash : (h v k w : ℕ) → k ≢ h → is_entry h v k w ≡ 0
other_hash h v k w ne = ground (arith, ne)

module _ (t : Bare) (h : ℕ) where
  missed :
      (left i : ℕ)
      → i + left ≡ t.spill_len
      → spill_find_from t h i left ≡ none
      → (j : ℕ) → i ≤ j
      → j < t.spill_len
      → hpd_hash (get_or t.spill_hash_pd j 0) ≢ h
  unfolding spill_find_from
  missed zero i e = λ found j low high. absurd (omega (arith, e))
  missed (suc left) i e = elim (Bool-cases (hpd_hash (get_or t.spill_hash_pd i 0) == h)) [
    | inl hit ↦ rw hit (λ found j low high. cc)
    | inr miss ↦ rw miss (λ found j low high. elim (ℕ_discrete i j) [
      | yes same ↦ rw (← same) (ground (arith, miss))
      | no ne ↦ missed left (i + 1) (omega (arith, e)) found j (omega arith) high
    ])
  ]

  module _ (proper : IsProper t) (special : h < 2) (v : ℕ) where
    not_in_slots : (x y : ℕ) → in_slot (is_entry h v) x y ≡ 0
    not_in_slots x y = elim (Bool-cases (hpd_live x)) [
      | inl live ↦ rw live (other_hash h v (hpd_hash x) y (omega (arith, live-ge-two x live)))
      | inr dead ↦ rw dead refl
    ]

    bare_spill_find-none : bare_spill_find t h ≡ none → copies h v t ≡ 0
    unfolding copies weigh bare_spill_find
    bare_spill_find-none found =
        let lane = missed t.spill_len 0 (omega arith) found in
        omega (
          arith,
          sum_to-zero (in_slot (is_entry h v)) t.capacity t.hash_pd t.vals
              (λ j below. not_in_slots (get_or t.hash_pd j 0) (get_or t.vals j 0)),
          sum_to-zero (in_lane (is_entry h v)) t.overflow_len t.overflow_hash_pd t.overflow_vals
              (λ j below.
                other_hash h v (hpd_hash (get_or t.overflow_hash_pd j 0))
                  (get_or t.overflow_vals j 0) (omega (arith, proper.stash_live j below))),
          sum_to-zero (in_lane (is_entry h v)) t.spill_len t.spill_hash_pd t.spill_vals (λ j below.
              other_hash h v (hpd_hash (get_or t.spill_hash_pd j 0)) (get_or t.spill_vals j 0)
                (lane j (omega arith) below)),
        )

-- In a table without a sentinel in its stash, if `ht_bare_find` finds nothing for a hash whose low 48
-- bits are 0 or 1, no entry is stored under these bits, whatever its value.
pub ht_bare_find-special :
    (t : Bare) (hash v : ℕ)
    → IsProper t
    → bit_and hash hash_mask < 2
    → ht_bare_find t hash ≡ none
    → copies (bit_and hash hash_mask) v t ≡ 0
unfolding ht_bare_find
ht_bare_find-special t hash v proper special =
    let below : ltb (bit_and hash hash_mask) 2 ≡ true = ground (arith, special) in
    rw below (bare_spill_find-none t (bit_and hash hash_mask) proper special v)

-- What `ht_bare_find` returns for such a hash is stored under these bits.
pub ht_bare_find-special-stored :
    (t : Bare) (hash v : ℕ)
    → bit_and hash hash_mask < 2
    → ht_bare_find t hash ≡ some v
    → 1 ≤ copies (bit_and hash hash_mask) v t
unfolding ht_bare_find
ht_bare_find-special-stored t hash v special =
    let below : ltb (bit_and hash hash_mask) 2 ≡ true = ground (arith, special) in
    rw below (bare_spill_find-stored t (bit_and hash hash_mask) v)
