-- ===== src/Ht/Bare/Life.antt =====
-- The life cycle of a bare table: `ht_bare_clear` and
-- `bare_place_prophylactic_tombstones`.
pub mod Clear
pub mod Tombs
use draugr_repo.Base.{
  ℕ, zero, suc, ◌+◌, false, Option, none, some, replicate, get_or, ltb, if◌then◌else◌, u64,
}
use draugr_repo.Ht.Slot.{val_none, hash_tomb, hpd_empty}
use draugr_repo.Ht.Bare.{Bare, inc, put_slot}

-- The arrays of the stash keep what they held.
unfoldable pub ht_bare_clear : Bare → Bare
ht_bare_clear t = record t {
  hash_pd = replicate t.capacity 0;
  vals = replicate t.capacity val_none;
  spill_hash_pd = replicate t.spill_cap 0;
  spill_vals = replicate t.spill_cap val_none;
  size = 0;
  tombstone_cnt = 0;
  spill_len = 0;
  overflow_len = 0;
  overflow_violated = false;
}

-- `if (hpd_empty(t->hash_pd[pos])) { … }`
unfoldable pub tomb_at : Bare → ℕ → Bare
tomb_at t pos =
    if hpd_empty (get_or t.hash_pd pos 0)
    then (let t' = put_slot t pos hash_tomb val_none in
        record t' { tombstone_cnt = inc t.tombstone_cnt })
    else t

-- The loop from `pos`; `none` is a loop that has not ended within the fuel.
unfoldable pub tombs_from : ℕ → ℕ → ℕ → Bare → Option Bare
tombs_from spacing zero pos t = none
tombs_from spacing (suc fuel) pos t =
    let rest = tombs_from spacing fuel (u64 (pos + spacing)) (tomb_at t pos) in
    if ltb pos t.capacity then rest else some t

-- `raw` is `(size_t)(x * C_P_DEFAULT)`, computed in floating point.
unfoldable pub bare_place_prophylactic_tombstones : ℕ → ℕ → Bare → Option Bare
bare_place_prophylactic_tombstones raw fuel t =
    let spacing = if ltb raw 4 then 4 else raw in tombs_from spacing fuel 0 t
