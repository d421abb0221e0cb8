-- ===== src/Ht/Bare/Spill/Find.antt =====
-- What a lookup in the spill returns is stored there.
use draugr_repo.Base.{ℕ, zero, suc, ◌+◌, ◌≤◌, ◌≡◌, arith, some}
use draugr_repo.Base.{inl, inr, Bool-cases, get_or, ◌==◌, ==_iff}
use draugr_repo.Ht.Slot.{hpd_hash}
use draugr_repo.Ht.Bare.{Bare}
use draugr_repo.Ht.Bare.Weigh.{weigh, sum_to-ge, in_lane, copies, is_entry, is_entry_self}
use draugr_repo.Ht.Bare.Spill.{spill_find_from, bare_spill_find}

module _ (t : Bare) (h v : ℕ) where
  here-stored :
      (i : ℕ)
      → suc i ≤ t.spill_len
      → hpd_hash (get_or t.spill_hash_pd i 0) ≡ h
      → get_or t.spill_vals i 0 ≡ v
      → 1 ≤ copies h v t
  unfolding copies weigh
  here-stored i below eh ev = omega (
    arith,
    sum_to-ge (in_lane (is_entry h v)) t.spill_len i t.spill_hash_pd t.spill_vals below,
    is_entry_self (hpd_hash (get_or t.spill_hash_pd i 0)) h (get_or t.spill_vals i 0) v eh ev,
  )

  spill_find_from-stored :
      (left i : ℕ) → i + left ≡ t.spill_len → spill_find_from t h i left ≡ some v → 1 ≤ copies h v t
  unfolding spill_find_from
  spill_find_from-stored zero i e = λ found. cc
  spill_find_from-stored (suc left) i e =
      elim (Bool-cases (hpd_hash (get_or t.spill_hash_pd i 0) == h)) [
        | inl hit ↦ rw hit (λ found. here-stored i (omega arith) ((==_iff _ _).0 hit) (cc))
        | inr miss ↦ rw miss (spill_find_from-stored left (i + 1) (omega arith))
      ]

  pub bare_spill_find-stored : bare_spill_find t h ≡ some v → 1 ≤ copies h v t
  unfolding bare_spill_find
  bare_spill_find-stored = spill_find_from-stored t.spill_len 0 (omega arith)
