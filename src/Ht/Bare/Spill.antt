-- ===== src/Ht/Bare/Spill.antt =====
-- The spill lane, a growing array for the hashes 0 and 1.
pub mod Grow
pub mod Proper
pub mod Drop
pub mod Purge
pub mod Find
use draugr_repo.Base.{ℕ, zero, suc, ◌+◌, ◌-◌, ◌*◌, ◌/◌, Bool, true, false, ◌&&◌, not, List, ◌++◌}
use draugr_repo.Base.{Option, none, some, ltb, leb, ◌==◌, if◌then◌else◌, u64}
use draugr_repo.Base.{get_or, set, replicate, move_down}
use draugr_repo.Ht.Slot.{hpd_hash, hpd_pack, hash_empty, val_none}
use draugr_repo.Ht.Bare.{Bare, inc, dec}

-- The new block of `bare_spill_grow`: the arrays have `spill_cap` elements, so the copy and the
-- fill are an append.
grown_lane : Bare → ℕ → Bare
grown_lane t new_cap = record t {
  spill_hash_pd = t.spill_hash_pd ++ replicate (new_cap - t.spill_cap) hash_empty;
  spill_vals = t.spill_vals ++ replicate (new_cap - t.spill_cap) val_none;
  spill_cap = new_cap;
}

pub grown_cap : ℕ → ℕ
grown_cap old_cap = if old_cap == 0 then 8 else u64 (old_cap * 2)

-- `malloc` says whether an allocation of so many bytes succeeds.
unfoldable pub bare_spill_grow : (ℕ → Bool) → Bare → Bool × Bare
unfolding grown_lane grown_cap
bare_spill_grow malloc t =
    let new_cap = grown_cap t.spill_cap in
    let new_size = u64 (new_cap * 12) in
    if ltb 0 new_cap && not (new_size / new_cap == 12)
    then (false, t)
    else if malloc new_size
    then (true, grown_lane t new_cap)
    else (false, t)

-- The three assignments behind the capacity check of `bare_spill_insert`.
pub spill_append : Bare → ℕ → ℕ → Bool × Bare
spill_append t h48 val = (
  true,
  record t {
    spill_hash_pd = set t.spill_hash_pd t.spill_len (hpd_pack h48 0);
    spill_vals = set t.spill_vals t.spill_len val;
    spill_len = inc t.spill_len;
    size = inc t.size;
  },
)

unfoldable pub bare_spill_insert : (ℕ → Bool) → Bare → ℕ → ℕ → Bool × Bare
unfolding spill_append
bare_spill_insert malloc t h48 val =
    if leb t.spill_cap t.spill_len
    then (let (grown, t') = bare_spill_grow malloc t in
        if grown then spill_append t' h48 val else (false, t'))
    else spill_append t h48 val

-- The loop of `bare_spill_find` at index `i`, with `left` rounds to go.
unfoldable pub spill_find_from : Bare → ℕ → ℕ → ℕ → Option ℕ
spill_find_from t h48 i zero = none
spill_find_from t h48 i (suc left) =
    if hpd_hash (get_or t.spill_hash_pd i 0) == h48
    then some (get_or t.spill_vals i 0)
    else spill_find_from t h48 (i + 1) left

unfoldable pub bare_spill_find : Bare → ℕ → Option ℕ
unfolding spill_find_from
bare_spill_find t h48 = spill_find_from t h48 0 t.spill_len

-- What both removals do to the lane at index `i`.
pub drop_spill : Bare → ℕ → Bare
drop_spill t i =
    let last = dec t.spill_len in
    record t {
      spill_hash_pd = set (move_down t.spill_hash_pd i (t.spill_len - i - 1)) last hash_empty;
      spill_vals = set (move_down t.spill_vals i (t.spill_len - i - 1)) last val_none;
      spill_len = last;
      size = dec t.size;
    }

-- The loop of `bare_spill_remove`: a removal leaves `i` where it is.
spill_remove_from : Bare → ℕ → ℕ → ℕ → ℕ → ℕ × Bare
spill_remove_from t h48 i removed zero = (removed, t)
spill_remove_from t h48 i removed (suc left) = elim (hpd_hash (get_or t.spill_hash_pd i 0) == h48) [
  | true ↦ spill_remove_from (drop_spill t i) h48 i (inc removed) left
  | false ↦ spill_remove_from t h48 (i + 1) removed left
]

unfoldable pub bare_spill_remove : Bare → ℕ → ℕ × Bare
unfolding drop_spill spill_remove_from
bare_spill_remove t h48 = spill_remove_from t h48 0 0 t.spill_len

spill_remove_val_from : Bare → ℕ → ℕ → ℕ → ℕ → Bool × Bare
spill_remove_val_from t h48 val i zero = (false, t)
spill_remove_val_from t h48 val i (suc left) =
    if hpd_hash (get_or t.spill_hash_pd i 0) == h48 && get_or t.spill_vals i 0 == val
    then (true, drop_spill t i)
    else spill_remove_val_from t h48 val (i + 1) left

unfoldable pub bare_spill_remove_val : Bare → ℕ → ℕ → Bool × Bare
unfolding drop_spill spill_remove_val_from
bare_spill_remove_val t h48 val = spill_remove_val_from t h48 val 0 t.spill_len
