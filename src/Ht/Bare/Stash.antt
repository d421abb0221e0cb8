-- ===== src/Ht/Bare/Stash.antt =====
-- The overflow stash, 32 entries for what lies beyond the probe distance limit.
pub mod Laws
pub mod Compacted
pub mod Drops
pub mod Purge
pub mod Find
use draugr_repo.Base.{ℕ, zero, suc, ◌+◌, ◌-◌, ◌^◌, Bool, true, false, ◌&&◌, not, Option, none, some}
use draugr_repo.Base.{leb, ◌==◌, if◌then◌else◌, u64, get_or, set}
use draugr_repo.Ht.Slot.{hpd_hash, hpd_pack}
use draugr_repo.Ht.Bare.{Bare, inc, dec, stash_cap}

unfoldable pub overflow_stash_insert : Bare → ℕ → ℕ → Bool × Bare
overflow_stash_insert t h48 val = if leb stash_cap t.overflow_len then (false, t) else (
  true,
  record t {
    overflow_hash_pd = set t.overflow_hash_pd t.overflow_len (hpd_pack h48 0);
    overflow_vals = set t.overflow_vals t.overflow_len val;
    overflow_len = inc t.overflow_len;
    size = inc t.size;
  },
)

-- The last entry takes the place of the one at index `i`.
drop_stash : Bare → ℕ → Bare
drop_stash t i =
    let last = dec t.overflow_len in
    record t {
      overflow_len = last;
      overflow_hash_pd = set t.overflow_hash_pd i (get_or t.overflow_hash_pd last 0);
      overflow_vals = set t.overflow_vals i (get_or t.overflow_vals last 0);
      size = dec t.size;
    }

stash_remove_val_from : Bare → ℕ → ℕ → ℕ → ℕ → Bool × Bare
stash_remove_val_from t h48 val i zero = (false, t)
stash_remove_val_from t h48 val i (suc left) =
    if hpd_hash (get_or t.overflow_hash_pd i 0) == h48 && get_or t.overflow_vals i 0 == val
    then (true, drop_stash t i)
    else stash_remove_val_from t h48 val (i + 1) left

unfoldable pub overflow_stash_remove_val : Bare → ℕ → ℕ → Bool × Bare
unfolding drop_stash stash_remove_val_from
overflow_stash_remove_val t h48 val = stash_remove_val_from t h48 val 0 t.overflow_len

-- `overflow_hash_pd[w] = overflow_hash_pd[i]` and the same for the values, skipped at `i == w`.
pub keep_stash : Bare → ℕ → ℕ → Bare
keep_stash t w i =
    if not (i == w)
    then record t {
      overflow_hash_pd = set t.overflow_hash_pd w (get_or t.overflow_hash_pd i 0);
      overflow_vals = set t.overflow_vals w (get_or t.overflow_vals i 0);
    }
    else t

-- The loop of `overflow_stash_remove`, with the write index `w` behind the read index `i`.
pub stash_remove_from : Bare → ℕ → ℕ → ℕ → ℕ → ℕ × Bare
stash_remove_from t h48 w i zero = (w, t)
stash_remove_from t h48 w i (suc left) = elim (hpd_hash (get_or t.overflow_hash_pd i 0) == h48) [
  | true ↦ stash_remove_from (record t { size = dec t.size }) h48 w (i + 1) left
  | false ↦ stash_remove_from (keep_stash t w i) h48 (w + 1) (i + 1) left
]

unfoldable pub overflow_stash_remove : Bare → ℕ → ℕ × Bare
unfolding keep_stash stash_remove_from
overflow_stash_remove t h48 =
    let (w, t') = stash_remove_from t h48 0 0 t.overflow_len in
    (u64 (t'.overflow_len + 2 ^ 64 - w), record t' { overflow_len = w })

-- The scan of the stash that ends `ht_bare_find`.
unfoldable pub stash_find_from : Bare → ℕ → ℕ → ℕ → Option ℕ
stash_find_from t h48 i zero = none
stash_find_from t h48 i (suc left) =
    if hpd_hash (get_or t.overflow_hash_pd i 0) == h48
    then some (get_or t.overflow_vals i 0)
    else stash_find_from t h48 (i + 1) left

unfoldable pub stash_find : Bare → ℕ → Option ℕ
unfolding stash_find_from
stash_find t h48 = stash_find_from t h48 0 t.overflow_len
