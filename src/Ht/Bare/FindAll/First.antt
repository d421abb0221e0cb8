-- ===== src/Ht/Bare/FindAll/First.antt =====
-- `ht_bare_find` returns the first value that `ht_bare_find_all` reports.
use draugr_repo.Base.{ℕ, zero, suc, ◌+◌, ◌≡◌, refl, Bool, false, Option, none, some, u16}
use draugr_repo.Ht.Bare.{Bare, slot_at}
use draugr_repo.Ht.Bare.Spill.{spill_find_from, bare_spill_find}
use draugr_repo.Ht.Bare.Stash.{stash_find_from, stash_find}
use draugr_repo.Ht.Bare.Probe.{find_from, ht_bare_find}
use draugr_repo.Ht.Bare.FindAll.{
  report, spill_find_all_from, bare_spill_find_all, stash_find_all_from, stash_find_all,
  find_all_from, ht_bare_find_all,
}

-- A callback that keeps the value and stops the search.
abbrev pub keep_first : Option ℕ → ℕ → Bool × Option ℕ
keep_first ctx val = (false, some val)

module _ (t : Bare) where
  spill-first :
      (h i left : ℕ) → spill_find_all_from keep_first t h i left none ≡ spill_find_from t h i left
  unfolding spill_find_all_from spill_find_from report
  spill-first h i zero = refl
  spill-first h i (suc left) = rw (spill-first h (i + 1) left) refl

  stash-first :
      (h i left : ℕ) → stash_find_all_from keep_first t h i left none ≡ stash_find_from t h i left
  unfolding stash_find_all_from stash_find_from report
  stash-first h i zero = refl
  stash-first h i (suc left) = rw (stash-first h (i + 1) left) refl

  all_stash-first : (h : ℕ) → stash_find_all keep_first t h none ≡ stash_find t h
  unfolding stash_find_all stash_find
  all_stash-first h = stash-first h 0 t.overflow_len

  slots-first :
      (h idx dist left : ℕ)
      → find_all_from keep_first t h idx dist left none ≡ find_from t h idx dist left
  unfolding find_all_from find_from report
  slots-first h idx dist zero = all_stash-first h
  slots-first h idx dist (suc left) =
      rw (slots-first h (slot_at t.capacity idx 1) (u16 (dist + 1)) left, all_stash-first h) refl

  all_spill-first : (h : ℕ) → bare_spill_find_all keep_first t h none ≡ bare_spill_find t h
  unfolding bare_spill_find_all bare_spill_find
  all_spill-first h = spill-first h 0 t.spill_len

  -- `ht_bare_find_all` with a callback that keeps the first value and stops the search ends with
  -- what `ht_bare_find` returns.
  pub ht_bare_find_all-ht_bare_find :
      (hash : ℕ) → ht_bare_find_all keep_first t hash none ≡ ht_bare_find t hash
  unfolding ht_bare_find_all ht_bare_find
  ht_bare_find_all-ht_bare_find hash = rw (all_spill-first _, slots-first _ _ _ _) refl
