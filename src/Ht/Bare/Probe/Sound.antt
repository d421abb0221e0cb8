-- ===== src/Ht/Bare/Probe/Sound.antt =====
-- What a lookup returns is stored under the hash.
use draugr_repo.Base.{ℕ, zero, suc, ◌+◌, ◌<◌, ◌≤◌, ◌≡◌, arith, false, bit_and, some}
use draugr_repo.Base.{inl, inr, Bool-cases, get_or, ltb, ◌==◌, u16, ==_iff}
use draugr_repo.Ht.Slot.{hash_mask, hpd_hash, hpd_pd, hpd_empty, hpd_tomb}
use draugr_repo.Ht.Bare.{Bare, slot_at, ideal_slot}
use draugr_repo.Ht.Bare.Weigh.{weigh, sum_to-ge, in_slot, copies, is_entry, is_entry_self}
use draugr_repo.Ht.Bare.Valid.{IsValid}
use draugr_repo.Ht.Bare.Spill.Find.{bare_spill_find-stored}
use draugr_repo.Ht.Bare.Stash.Find.{stash_find-stored}
use draugr_repo.Ht.Bare.Insert.Slots.{IsPow2, slot_at-lt, ideal_slot-lt}
use draugr_repo.Ht.Bare.Probe.{past_limit, find_from, ht_bare_find}
use draugr_repo.Ht.Bare.Probe.Remove.{in_slot-full}

module _ (t : Bare) (h v : ℕ) where
  pub slot-stored :
      (idx : ℕ)
      → idx < t.capacity
      → hpd_empty (get_or t.hash_pd idx 0) ≡ false
      → hpd_tomb (get_or t.hash_pd idx 0) ≡ false
      → hpd_hash (get_or t.hash_pd idx 0) ≡ h
      → get_or t.vals idx 0 ≡ v
      → 1 ≤ copies h v t
  unfolding copies weigh
  slot-stored idx below whole alive eh ev = omega (
    arith,
    sum_to-ge (in_slot (is_entry h v)) t.capacity idx t.hash_pd t.vals below,
    in_slot-full (is_entry h v) (get_or t.hash_pd idx 0) (get_or t.vals idx 0) whole alive,
    is_entry_self (hpd_hash (get_or t.hash_pd idx 0)) h (get_or t.vals idx 0) v eh ev,
  )

  module _ (valid : IsValid t) (pow2 : IsPow2 t.capacity) where
    find_from-stored :
        (left idx dist : ℕ)
        → idx < t.capacity
        → find_from t h idx dist left ≡ some v
        → 1 ≤ copies h v t
    unfolding find_from
    find_from-stored zero idx dist below = stash_find-stored t h v
    find_from-stored (suc left) idx dist below =
        let slot = get_or t.hash_pd idx 0 in
        let stash = stash_find-stored t h v in
        let rest =
          find_from-stored left (slot_at t.capacity idx 1) (u16 (dist + 1))
            (slot_at-lt t.capacity idx 1 pow2 (omega (arith, valid.small))) in
        elim (Bool-cases (hpd_empty slot)) [
          | inl empty ↦ rw empty stash
          | inr whole ↦ elim (Bool-cases (hpd_tomb slot)) [
            | inl tomb ↦ rw (whole, tomb) rest
            | inr alive ↦ elim (Bool-cases (ltb (hpd_pd slot) dist)) [
              | inl early ↦ rw (whole, alive, early) stash
              | inr on ↦ elim (Bool-cases (past_limit t dist)) [
                | inl far ↦ rw (whole, alive, on, far) stash
                | inr near ↦ elim (Bool-cases (hpd_hash slot == h)) [
                  | inl hit ↦
                      rw (whole, alive, on, near, hit)
                        (λ found. slot-stored idx below whole alive ((==_iff _ _).0 hit) (cc))
                  | inr miss ↦ rw (whole, alive, on, near, miss) rest
                ]
              ]
            ]
          ]
        ]

-- In a valid table whose capacity is a power of two, the value that `ht_bare_find` returns is
-- stored under the low 48 bits of the hash, in a slot, in the stash or in the spill lane.
pub ht_bare_find-stored :
    (t : Bare) (hash v : ℕ)
    → IsValid t
    → IsPow2 t.capacity
    → ht_bare_find t hash ≡ some v
    → 1 ≤ copies (bit_and hash hash_mask) v t
unfolding ht_bare_find
ht_bare_find-stored t hash v valid pow2 =
    let h48 = bit_and hash hash_mask in
    elim (Bool-cases (ltb h48 2)) [
      | inl small ↦ rw small (bare_spill_find-stored t h48 v)
      | inr big ↦ rw big (
          find_from-stored t h48 v valid pow2 (suc t.capacity) (ideal_slot t.capacity h48) 0
            (ideal_slot-lt t.capacity h48 pow2))
    ]
