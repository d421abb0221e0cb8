-- ===== src/Ht/Bare/Tests.antt =====
-- A small table, what the operations do to it, and the theorems at it.
use draugr_repo.Base.{
  ℕ, zero, suc, ◌+◌, ◌%◌, ◌^◌, ◌≤◌, ◌≡◌, refl, arith, inr, Bool, true, false, none, some, [], ◌∷◌,
  replicate, bit_and,
}
use draugr_repo.Ht.Slot.{
  hash_mask, val_none, hpd_hash, hpd_pd, hpd_empty, hpd_tomb, hpd_live, hpd_available, hpd_pack,
}
use draugr_repo.Ht.Slot.Laws.{unpack-pack}
use draugr_repo.Ht.Bare.{Bare, slot_at, ideal_slot, put_slot}
use draugr_repo.Ht.Bare.Weigh.{weigh, sum_to, copies}
use draugr_repo.Ht.Bare.Valid.{IsValid, Stored, Removed}
use draugr_repo.Ht.Bare.Purged.{Purged}
use draugr_repo.Ht.Bare.Life.{ht_bare_clear, bare_place_prophylactic_tombstones}
use draugr_repo.Ht.Bare.Life.Tombs.{place_tombstones-Keeps}
use draugr_repo.Ht.Bare.Life.Clear.{ht_bare_clear-Empty}
use draugr_repo.Ht.Bare.Probe.Purge.{ClearBeside, ht_bare_remove-Purged}
use draugr_repo.Ht.Bare.FindAll.{ht_bare_find_all}
use draugr_repo.Ht.Bare.FindAll.First.{keep_first, ht_bare_find_all-ht_bare_find}
use draugr_repo.Ht.Bare.Spill.{
  bare_spill_insert, bare_spill_remove, bare_spill_remove_val, bare_spill_find, bare_spill_grow,
}
use draugr_repo.Ht.Bare.Spill.Grow.{bare_spill_insert-Stored}
use draugr_repo.Ht.Bare.Stash.{
  overflow_stash_insert, overflow_stash_remove_val, overflow_stash_remove, stash_find,
}
use draugr_repo.Ht.Bare.Insert.{
  blocked, unbounded_step, bounded_step, unbounded_loop, bounded_loop, bare_rh_insert_unbounded,
  bare_rh_insert_bounded,
}
use draugr_repo.Ht.Bare.Insert.Slots.{IsPow2}
use draugr_repo.Ht.Bare.Insert.Placing.{Ends}
use draugr_repo.Ht.Bare.Insert.Unbounded.{bare_rh_insert_unbounded-Ends}
use draugr_repo.Ht.Bare.Insert.Bounded.{bare_rh_insert_bounded-stores}
use draugr_repo.Ht.Bare.Shift.{
  bare_delete_compact, bare_commit_backward_shift, bare_verify_ideal_safe,
}
use draugr_repo.Ht.Bare.Shift.Freed.{Keeps}
use draugr_repo.Ht.Bare.Shift.Commit.{bare_commit_backward_shift-Keeps}
use draugr_repo.Ht.Bare.Shift.Compact.{bare_delete_compact-Keeps}
use draugr_repo.Ht.Bare.Probe.{
  past_limit, find_from, ht_bare_find, entomb, remove_val_from, ht_bare_remove_val, remove_from,
  ht_bare_remove,
}
use draugr_repo.Ht.Bare.Probe.Sound.{ht_bare_find-stored}
use draugr_repo.Ht.Bare.Probe.Complete.{Reaches, Passes, slot_off, ht_bare_find-Reaches}
use draugr_repo.Ht.Bare.Probe.Remove.{ht_bare_remove_val-Removed}

program : Unit {0}
unfolding hpd_hash hpd_pd hpd_empty hpd_tomb hpd_live hpd_available hpd_pack slot_at ideal_slot
    put_slot weigh sum_to copies bare_spill_insert bare_spill_remove_val bare_spill_find
    bare_spill_grow overflow_stash_insert overflow_stash_remove_val overflow_stash_remove stash_find
    blocked unbounded_step bounded_step unbounded_loop bounded_loop bare_rh_insert_unbounded
    bare_rh_insert_bounded bare_delete_compact bare_commit_backward_shift bare_verify_ideal_safe
    past_limit find_from ht_bare_find entomb remove_val_from ht_bare_remove_val remove_from
    ht_bare_remove bare_spill_remove
program = tt

-- Four slots: 4 at its ideal slot 0, 8 one place on, a tombstone, and an empty slot. One entry in
-- the stash and one in the spill lane.
abbrev pub tiny : Bare
tiny = record {
  hash_pd = 4 ∷ (2 ^ 48 + 8) ∷ 1 ∷ 0 ∷ [];
  vals = 40 ∷ 80 ∷ val_none ∷ val_none ∷ [];
  capacity = 4;
  size = 4;
  tombstone_cnt = 1;
  spill_hash_pd = 1 ∷ replicate 7 0;
  spill_vals = 10 ∷ replicate 7 val_none;
  spill_cap = 8;
  spill_len = 1;
  max_probe_dist = 255;
  overflow_len = 1;
  overflow_hash_pd = 12 ∷ replicate 31 0;
  overflow_vals = 120 ∷ replicate 31 0;
  overflow_violated = false;
  resizing = false;
}

no_resize : Bare → Bool × Bare
no_resize t = (false, t)

found :
    (ht_bare_find tiny 8 ≡ some 80)
    × (ht_bare_find tiny 12 ≡ some 120)
    × (ht_bare_find tiny 1 ≡ some 10)
    × (ht_bare_find tiny 16 ≡ none)
unfolding program
found = (refl, refl, refl, refl)

-- Hash 4 leaves slot 0, and 8 moves back to it.
removed : ht_bare_remove_val tiny 4 40 ≡ (
  true,
  record tiny {
    hash_pd = 8 ∷ 0 ∷ 0 ∷ 0 ∷ [];
    vals = 80 ∷ val_none ∷ val_none ∷ val_none ∷ [];
    size = 3;
    tombstone_cnt = 0;
  },
)
unfolding program
removed = refl

pub tiny-IsValid : IsValid tiny
unfolding program
tiny-IsValid = record {
  slots = refl;
  slot_vals = refl;
  lane = refl;
  lane_vals = refl;
  stash = refl;
  stash_vals = refl;
  lane_in = omega arith;
  stash_in = omega arith;
  small = omega arith;
  lane_small = omega arith;
  counted = refl;
}

four-IsPow2 : IsPow2 4
four-IsPow2 = (2, refl, omega arith)

unpack-pack_example : (hpd_hash (hpd_pack 8 1) ≡ 8 % 2 ^ 48) × (hpd_pd (hpd_pack 8 1) ≡ 1)
unpack-pack_example = unpack-pack 8 1 (omega arith)

bare_rh_insert_bounded-stores_example :
    (t' : Bare) × (bare_rh_insert_bounded no_resize 4 tiny 20 7 ≡ some (true, t'))
    × IsValid t'
    × ((f : ℕ → ℕ → ℕ) → weigh f t' ≡ weigh f tiny + f 20 7)
unfolding program
bare_rh_insert_bounded-stores_example =
    bare_rh_insert_bounded-stores no_resize 4 tiny 20 7 3 tiny-IsValid four-IsPow2 (omega arith)
      (omega arith) (omega arith) (omega arith) (omega arith) refl

bare_rh_insert_unbounded-Ends_example :
    Ends tiny
      (record { h48 = 20; val = 7; idx = ideal_slot 4 20; dist = 0 })
      (bare_rh_insert_unbounded no_resize 4 tiny 20 7)
unfolding program
bare_rh_insert_unbounded-Ends_example =
    bare_rh_insert_unbounded-Ends no_resize 4 tiny 20 7 3 tiny-IsValid four-IsPow2 (omega arith)
      (omega arith) (omega arith) (omega arith) (omega arith) refl

ht_bare_remove_val-Removed_example :
    Removed tiny (bit_and 4 hash_mask) 40 (ht_bare_remove_val tiny 4 40)
ht_bare_remove_val-Removed_example = ht_bare_remove_val-Removed tiny tiny-IsValid four-IsPow2 4 40

ht_bare_find-stored_example : 1 ≤ copies (bit_and 8 hash_mask) 80 tiny
unfolding program
ht_bare_find-stored_example = ht_bare_find-stored tiny 8 80 tiny-IsValid four-IsPow2 refl

up_to_one : (P : ℕ → Type 0) → P 0 → P 1 → (j : ℕ) → j ≤ 1 → P j
up_to_one P a b zero h = a
up_to_one P a b (suc zero) h = b
up_to_one P a b (suc (suc j)) h = absurd (omega arith)

eight-Reaches : Reaches tiny (bit_and 8 hash_mask) (ideal_slot 4 (bit_and 8 hash_mask)) 0 1
unfolding program
eight-Reaches = record {
  pow2 = four-IsPow2;
  inside = omega arith;
  small = omega arith;
  near = λ j h. inr (inr (omega arith));
  path =
      up_to_one (λ j. Passes (slot_off tiny (ideal_slot 4 (bit_and 8 hash_mask)) j) (0 + j))
        (refl, inr (omega arith)) (refl, inr (omega arith));
  whole = refl;
  match = refl;
}

ht_bare_find-Reaches_example :
    (v : ℕ) × (ht_bare_find tiny 8 ≡ some v) × (1 ≤ copies (bit_and 8 hash_mask) v tiny)
ht_bare_find-Reaches_example =
    ht_bare_find-Reaches tiny 8 1 tiny-IsValid (omega arith) (omega arith) eight-Reaches

bare_delete_compact-Keeps_example : Keeps tiny (bare_delete_compact tiny 2)
unfolding program
bare_delete_compact-Keeps_example =
    bare_delete_compact-Keeps tiny 2 tiny-IsValid four-IsPow2 (omega arith) refl

bare_commit_backward_shift-Keeps_example : Keeps tiny (bare_commit_backward_shift tiny 2 3)
unfolding program
bare_commit_backward_shift-Keeps_example =
    bare_commit_backward_shift-Keeps tiny 2 3 tiny-IsValid four-IsPow2 (omega arith) (omega arith)
      refl

plenty : ℕ → Bool
plenty bytes = true

bare_spill_insert-Stored_example : Stored tiny 0 5 (bare_spill_insert plenty tiny 0 5)
bare_spill_insert-Stored_example =
    bare_spill_insert-Stored plenty tiny 0 5 tiny-IsValid (omega arith) (omega arith)

-- Hash 4 leaves its slot, hash 12 the stash, hash 1 the spill lane.
purged :
    ((ht_bare_remove tiny 4).0 ≡ 1)
    × ((ht_bare_remove tiny 12).0 ≡ 1)
    × ((ht_bare_remove tiny 1).0 ≡ 1)
    × ((ht_bare_remove tiny 16).0 ≡ 0)
unfolding program
purged = (refl, refl, refl, refl)

ht_bare_remove-Purged_example :
    Purged tiny (bit_and 4 hash_mask) 0 (ht_bare_remove tiny 4)
    × ClearBeside (bit_and 4 hash_mask) (ht_bare_remove tiny 4).1
    × ((v : ℕ) → ht_bare_find tiny 4 ≡ some v → 1 ≤ (ht_bare_remove tiny 4).0)
ht_bare_remove-Purged_example = ht_bare_remove-Purged tiny tiny-IsValid four-IsPow2 4

ht_bare_find_all-ht_bare_find_example :
    ht_bare_find_all keep_first tiny 8 none ≡ ht_bare_find tiny 8
ht_bare_find_all-ht_bare_find_example = ht_bare_find_all-ht_bare_find tiny 8

ht_bare_clear-Empty_example :
    IsValid (ht_bare_clear tiny)
    × ((ht_bare_clear tiny).capacity ≡ 4)
    × ((f : ℕ → ℕ → ℕ) → weigh f (ht_bare_clear tiny) ≡ 0)
    × ((hash : ℕ) → ht_bare_find (ht_bare_clear tiny) hash ≡ none)
ht_bare_clear-Empty_example = ht_bare_clear-Empty tiny tiny-IsValid

place_tombstones-Keeps_example :
    (t' : Bare) × (bare_place_prophylactic_tombstones 6 5 tiny ≡ some t') × Keeps tiny t'
place_tombstones-Keeps_example = place_tombstones-Keeps 6 tiny tiny-IsValid (omega arith)
