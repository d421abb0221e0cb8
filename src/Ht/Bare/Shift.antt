-- ===== src/Ht/Bare/Shift.antt =====
-- Backward shift after a removal: `bare_verify_ideal_safe`, `bare_commit_backward_shift` and
-- `bare_delete_compact`.
pub mod Freed
pub mod Commit
pub mod Compact
use draugr_repo.Base.{ℕ, zero, suc, ◌+◌, ◌-◌, ◌/◌, ◌^◌, Bool, true, false, ◌&&◌, not}
use draugr_repo.Base.{ltb, ◌==◌, if◌then◌else◌, u16, get_or}
use draugr_repo.Ht.Slot.{
  hash_empty, val_none, hpd_hash, hpd_pd, hpd_pack, hpd_empty, hpd_tomb, hpd_live,
}
use draugr_repo.Ht.Bare.{Bare, dec, slot_at, ideal_slot, put_slot}
use draugr_repo.Ht.Bare.Insert.{bshift_cap}

-- The loop of `bare_verify_ideal_safe` at round `i`, with `left` rounds to go.
verify_from : Bare → ℕ → ℕ → ℕ → ℕ → Bool
verify_from t idx write_offset i zero = true
verify_from t idx write_offset i (suc left) =
    let hpd = get_or t.hash_pd (slot_at t.capacity idx (1 + i)) 0 in
    let target = slot_at t.capacity idx write_offset in
    let ideal = ideal_slot t.capacity (hpd_hash hpd) in
    let skip = verify_from t idx write_offset (i + 1) left in
    let rest = verify_from t idx (write_offset + 1) (i + 1) left in
    if not (hpd_live hpd)
    then skip
    else if ltb target ideal && ltb (ideal - target) (t.capacity / 2)
    then false
    else if ltb (hpd_pd hpd) (i + 1 - write_offset)
    then false
    else rest

unfoldable pub bare_verify_ideal_safe : Bare → ℕ → ℕ → Bool
unfolding verify_from
bare_verify_ideal_safe t idx len = verify_from t idx 0 0 len

-- A live entry moves from offset `1 + i` to `write_offset`.
shift_entry : Bare → ℕ → ℕ → ℕ → Bare
shift_entry t idx write_offset i =
    let read_pos = slot_at t.capacity idx (1 + i) in
    let hpd = get_or t.hash_pd read_pos 0 in
    let shift = i + 1 - write_offset in
    put_slot t (slot_at t.capacity idx write_offset)
      (hpd_pack (hpd_hash hpd) (u16 (hpd_pd hpd + 2 ^ 16 - u16 shift))) (get_or t.vals read_pos 0)

pub uncount_tomb : Bare → Bare
uncount_tomb t = record t { tombstone_cnt = dec t.tombstone_cnt }

-- `hash_pd[read_pos] = HASH_EMPTY; vals[read_pos] = VAL_NONE;`
clear_slot : Bare → ℕ → ℕ → Bare
clear_slot t idx i = put_slot t (slot_at t.capacity idx (1 + i)) hash_empty val_none

-- The loop of `bare_commit_backward_shift`, with the decrement behind it.
commit_from : Bare → ℕ → ℕ → ℕ → ℕ → Bare
commit_from t idx write_offset i zero = uncount_tomb t
commit_from t idx write_offset i (suc left) =
    elim (hpd_live (get_or t.hash_pd (slot_at t.capacity idx (1 + i)) 0)) [
      | true ↦
          commit_from (clear_slot (shift_entry t idx write_offset i) idx i) idx (write_offset + 1)
            (i + 1) left
      | false ↦ commit_from (clear_slot (uncount_tomb t) idx i) idx write_offset (i + 1) left
    ]

unfoldable pub bare_commit_backward_shift : Bare → ℕ → ℕ → Bare
unfolding commit_from shift_entry uncount_tomb clear_slot
bare_commit_backward_shift t idx len = commit_from t idx 0 0 len

-- What the scan of `bare_delete_compact` finds out.
pub record Chain : Type 0 where
  pub chain_len : ℕ
  pub live_count : ℕ
  pub ends_at_empty : Bool

-- The scan, `chain_len + 1` places behind `idx`, with `left` rounds to go.
chain_from : Bare → ℕ → ℕ → ℕ → ℕ → Chain
chain_from t idx chain_len live_count zero = record {
  chain_len = chain_len;
  live_count = live_count;
  ends_at_empty = false;
}
chain_from t idx chain_len live_count (suc left) =
    let hpd = get_or t.hash_pd (slot_at t.capacity idx (1 + chain_len)) 0 in
    let tombs = chain_from t idx (chain_len + 1) live_count left in
    let lives = chain_from t idx (chain_len + 1) (live_count + 1) left in
    if hpd_empty hpd
    then record { chain_len = chain_len; live_count = live_count; ends_at_empty = true }
    else if hpd_tomb hpd
    then tombs
    else if hpd_pd hpd == 0
    then record { chain_len = chain_len; live_count = live_count; ends_at_empty = false }
    else lives

unfoldable pub bare_delete_compact : Bare → ℕ → Bare
unfolding chain_from
bare_delete_compact t idx =
    let chain = chain_from t idx 0 0 bshift_cap in
    if chain.ends_at_empty && ltb 0 chain.live_count && bare_verify_ideal_safe t idx chain.chain_len
    then bare_commit_backward_shift t idx chain.chain_len
    else t
