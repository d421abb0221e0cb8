-- ===== src/Ht/Bare/Iterate.antt =====
-- `ht_bare_iter_next`: the live slots, then the spill lane, then the stash, one entry a call.
pub mod Visits
pub mod Listed
use draugr_repo.Base.{
  ℕ, zero, suc, ◌+◌, ◌-◌, Bool, true, false, ◌&&◌, not, Option, none, some, List, [], ◌∷◌,
}
use draugr_repo.Base.{ltb, ◌==◌, if◌then◌else◌, u64, get_or, ◌>>=◌}
use draugr_repo.Ht.Slot.{hpd_hash, hpd_live, val_none}
use draugr_repo.Ht.Bare.{Bare}

-- What each loop of the iterator takes.
abbrev pub has_val : ℕ → ℕ → Bool
has_val hpd val = not (val == val_none)

abbrev pub live_val : ℕ → ℕ → Bool
live_val hpd val = hpd_live hpd && not (val == val_none)

-- A loop from place `i` of two arrays, with `left` rounds to go: `iter->idx`, which is `off` more,
-- and the entry that is written out.
unfoldable pub next_from : (ℕ → ℕ → Bool) → List ℕ → List ℕ → ℕ → ℕ → ℕ → ℕ × Option (ℕ × ℕ)
next_from keep xs ys off i zero = (off + i, none)
next_from keep xs ys off i (suc left) =
    let hpd = get_or xs i 0 in
    let val = get_or ys i 0 in
    let rest = next_from keep xs ys off (suc i) left in
    if keep hpd val then (off + suc i, some (hpd_hash hpd, val)) else rest

stash_next : Bare → ℕ → ℕ × Option (ℕ × ℕ)
stash_next t idx =
    let overflow_off = u64 (t.capacity + t.spill_len) in
    let overflow_idx = idx - overflow_off in
    next_from has_val t.overflow_hash_pd t.overflow_vals overflow_off overflow_idx
      (t.overflow_len - overflow_idx)

lane_next : Bare → ℕ → ℕ × Option (ℕ × ℕ)
lane_next t idx =
    let spill_idx = idx - t.capacity in
    if ltb idx (u64 (t.capacity + t.spill_len))
    then next_from has_val t.spill_hash_pd t.spill_vals t.capacity spill_idx
        (t.spill_len - spill_idx)
    else (idx, none)

-- The next part, where one has come to its end.
or_else : ℕ × Option (ℕ × ℕ) → (ℕ → ℕ × Option (ℕ × ℕ)) → ℕ × Option (ℕ × ℕ)
or_else (idx, some entry) next = (idx, some entry)
or_else (idx, none) next = next idx

-- The new `iter->idx`, and the entry if the call returns true.
unfoldable pub ht_bare_iter_next : Bare → ℕ → ℕ × Option (ℕ × ℕ)
unfolding stash_next lane_next or_else
ht_bare_iter_next t idx =
    or_else (or_else (next_from live_val t.hash_pd t.vals 0 idx (t.capacity - idx)) (lane_next t))
      (stash_next t)

-- The entries of a loop `while (ht_bare_iter_next(…))`, of at most `fuel` rounds.
unfoldable pub iterate : ℕ → Bare → ℕ → Option (List (ℕ × ℕ))
iterate zero t idx = none
iterate (suc fuel) t idx =
    let (idx', found) = ht_bare_iter_next t idx in
    elim found [ none ↦ some [] | some entry ↦ iterate fuel t idx' >>= λ rest. some (entry ∷ rest) ]
