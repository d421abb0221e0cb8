-- ===== src/Ht/Bare/Stash/Find.antt =====
-- What a lookup in the stash returns is stored there.
use draugr_repo.Base.{ℕ, zero, suc, ◌+◌, ◌≤◌, ◌≡◌, arith, some}
use draugr_repo.Base.{inl, inr, Bool-cases, get_or, ◌==◌, ==_iff}
use draugr_repo.Ht.Slot.{hpd_hash}
use draugr_repo.Ht.Bare.{Bare}
use draugr_repo.Ht.Bare.Weigh.{weigh, sum_to-ge, in_lane, copies, is_entry, is_entry_self}
use draugr_repo.Ht.Bare.Stash.{stash_find_from, stash_find}

module _ (t : Bare) (h v : ℕ) where
  here-stored :
      (i : ℕ)
      → suc i ≤ t.overflow_len
      → hpd_hash (get_or t.overflow_hash_pd i 0) ≡ h
      → get_or t.overflow_vals i 0 ≡ v
      → 1 ≤ copies h v t
  unfolding copies weigh
  here-stored i below eh ev = omega (
    arith,
    sum_to-ge (in_lane (is_entry h v)) t.overflow_len i t.overflow_hash_pd t.overflow_vals below,
    is_entry_self (hpd_hash (get_or t.overflow_hash_pd i 0)) h (get_or t.overflow_vals i 0) v eh ev,
  )

  stash_find_from-stored :
      (left i : ℕ)
      → i + left ≡ t.overflow_len
      → stash_find_from t h i left ≡ some v
      → 1 ≤ copies h v t
  unfolding stash_find_from
  stash_find_from-stored zero i e = λ found. cc
  stash_find_from-stored (suc left) i e =
      elim (Bool-cases (hpd_hash (get_or t.overflow_hash_pd i 0) == h)) [
        | inl hit ↦ rw hit (λ found. here-stored i (omega arith) ((==_iff _ _).0 hit) (cc))
        | inr miss ↦ rw miss (stash_find_from-stored left (i + 1) (omega arith))
      ]

  pub stash_find-stored : stash_find t h ≡ some v → 1 ≤ copies h v t
  unfolding stash_find
  stash_find-stored = stash_find_from-stored t.overflow_len 0 (omega arith)
