-- ===== src/Ht/Bare/Insert.antt =====
-- Robin-Hood insertion, `bare_rh_insert_bounded` and `bare_rh_insert_unbounded`. A round of each
-- `while (1)` is a step on the table and on what the loop carries.
pub mod Slots
pub mod Frame
pub mod Placing
pub mod Unbounded
pub mod Overflow
pub mod Bounded
mod Tests
use draugr_repo.Base.{ℕ, zero, suc, ◌+◌, Bool, true, false, ◌&&◌, Option, none, some}
use draugr_repo.Base.{ltb, ◌==◌, if◌then◌else◌, u16, get_or}
use draugr_repo.Ht.Slot.{hpd_hash, hpd_pd, hpd_pack, hpd_empty, hpd_tomb, hpd_available}
use draugr_repo.Ht.Bare.{Bare, inc, dec, slot_at, ideal_slot, put_slot}
use draugr_repo.Ht.Bare.Stash.{overflow_stash_insert}

abbrev pub bshift_cap : ℕ
bshift_cap = 16

-- The entry that looks for a place: `h48`, `cur_val`, and where the probe stands.
pub record Hand : Type 0 where
  pub h48 : ℕ
  pub val : ℕ
  pub idx : ℕ
  pub dist : ℕ

-- How a round ends: a return, another round, or the fallback to the unbounded insertion.
pub data Step : Type 0 where
  done : Bool → Bare → Step
  again : Bare → Hand → Step
  fallback : Bare → Hand → Step

-- The loop that sets `blocked`, at offset `k` with `left` rounds to go.
blocked_from : Bare → ℕ → ℕ → ℕ → ℕ → Bool
blocked_from t idx dist k zero = false
blocked_from t idx dist k (suc left) =
    let chk_hpd = get_or t.hash_pd (slot_at t.capacity idx k) 0 in
    let rest = blocked_from t idx dist (k + 1) left in
    if hpd_empty chk_hpd
    then false
    else if hpd_tomb chk_hpd
    then rest
    else if ltb (dist + u16 k) (hpd_pd chk_hpd)
    then true
    else rest

unfoldable pub blocked : Bare → ℕ → ℕ → Bool
unfolding blocked_from
blocked t idx dist = blocked_from t idx dist 1 bshift_cap

-- `idx = (idx + 1) & cap_mask; dist++;`
unfoldable pub next_slot : Bare → Hand → Hand
next_slot t p = record p { idx = slot_at t.capacity p.idx 1; dist = u16 (p.dist + 1) }

-- `if (hpd_tomb(slot_hpd)) { … t->tombstone_cnt--; }`
unfoldable pub reuse_tomb : Bare → ℕ → Bare
reuse_tomb t slot_hpd =
    if hpd_tomb slot_hpd then record t { tombstone_cnt = dec t.tombstone_cnt } else t

unfoldable pub place : Bare → Hand → Bare
place t p =
    let t' = put_slot t p.idx (hpd_pack p.h48 p.dist) p.val in record t' { size = inc t.size }

-- The slot takes the entry in hand, and the entry of the slot goes on to the next one.
unfoldable pub displace : Bare → Hand → ℕ → Hand
displace t p slot_hpd = record {
  h48 = hpd_hash slot_hpd;
  val = get_or t.vals p.idx 0;
  idx = slot_at t.capacity p.idx 1;
  dist = u16 (hpd_pd slot_hpd + 1);
}

-- `if (dist > t->capacity) { if (!bare_resize_table(t)) return false; … }`, for the given resize.
unfoldable pub probe_on : (Bare → Bool × Bare) → Bare → Hand → Step
probe_on grow t p =
    if ltb t.capacity p.dist
    then (let (grown, t') = grow t in
        if grown
        then again t' (record p { idx = ideal_slot t'.capacity p.h48; dist = 0 })
        else done false t')
    else again t p

unfoldable pub unbounded_step : (Bare → Bool × Bare) → Bare → Hand → Step
unfolding next_slot reuse_tomb place displace probe_on
unbounded_step grow t p =
    let slot_hpd = get_or t.hash_pd p.idx 0 in
    if hpd_available slot_hpd
    then (if hpd_tomb slot_hpd && blocked t p.idx p.dist
        then again t (next_slot t p)
        else done true (place (reuse_tomb t slot_hpd) p))
    else if ltb (hpd_pd slot_hpd) p.dist
    then again (put_slot t p.idx (hpd_pack p.h48 p.dist) p.val) (displace t p slot_hpd)
    else probe_on grow t (next_slot t p)

-- `t->max_probe_dist > 0 && dist > t->max_probe_dist`
unfoldable pub over_limit : Bare → ℕ → Bool
over_limit t dist = ltb 0 t.max_probe_dist && ltb t.max_probe_dist dist

-- Beyond the limit the entry goes to the stash, or with a full stash to the unbounded insertion.
unfoldable pub to_stash : Bare → Hand → Step
to_stash t p =
    let (stored, t') = overflow_stash_insert t p.h48 p.val in
    if stored then done true t' else fallback (record t' { overflow_violated = true }) p

unfoldable pub bounded_step : (Bare → Bool × Bare) → Bare → Hand → Step
unfolding next_slot reuse_tomb place displace probe_on over_limit to_stash
bounded_step grow t p =
    let slot_hpd = get_or t.hash_pd p.idx 0 in
    if hpd_available slot_hpd
    then (if hpd_tomb slot_hpd && blocked t p.idx p.dist
        then again t (next_slot t p)
        else (let t' = reuse_tomb t slot_hpd in
            if over_limit t' p.dist then to_stash t' p else done true (place t' p)))
    else if ltb (hpd_pd slot_hpd) p.dist
    then (let t' = put_slot t p.idx (hpd_pack p.h48 p.dist) p.val in
        let p' = displace t p slot_hpd in
        if over_limit t' p'.dist then to_stash t' p' else again t' p')
    else (let p' = next_slot t p in
        if over_limit t p'.dist then to_stash t p' else probe_on grow t p')

module _ (grow : Bare → Bool × Bare) where
  -- `none` is a loop that has not ended within the fuel.
  unfoldable pub unbounded_loop : ℕ → Bare → Hand → Option (Bool × Bare)
  unbounded_loop zero t p = none
  unbounded_loop (suc fuel) t p = elim (unbounded_step grow t p) [
    | done ok t' ↦ some (ok, t')
    | again t' p' ↦ unbounded_loop fuel t' p'
    | fallback t' p' ↦ none
  ]

  unfoldable pub bare_rh_insert_unbounded : ℕ → Bare → ℕ → ℕ → Option (Bool × Bare)
  bare_rh_insert_unbounded fuel t h48 val =
      unbounded_loop fuel t
        (record { h48 = h48; val = val; idx = ideal_slot t.capacity h48; dist = 0 })

  -- `full` is the fuel of the unbounded insertion, if that is called.
  unfoldable pub bounded_loop : ℕ → ℕ → Bare → Hand → Option (Bool × Bare)
  bounded_loop full zero t p = none
  bounded_loop full (suc fuel) t p = elim (bounded_step grow t p) [
    | done ok t' ↦ some (ok, t')
    | again t' p' ↦ bounded_loop full fuel t' p'
    | fallback t' p' ↦ bare_rh_insert_unbounded full t' p'.h48 p'.val
  ]

  unfoldable pub bare_rh_insert_bounded : ℕ → Bare → ℕ → ℕ → Option (Bool × Bare)
  bare_rh_insert_bounded fuel t h48 val =
      if t.capacity == 0
      then bare_rh_insert_unbounded fuel t h48 val
      else bounded_loop fuel fuel t
          (record { h48 = h48; val = val; idx = ideal_slot t.capacity h48; dist = 0 })
