-- ===== src/Ht/Bare/Life/Clear.antt =====
-- A cleared table is valid and empty.
use draugr_repo.Base.{ℕ, zero, suc, ◌≡◌, refl, arith, true, none, List, replicate, bit_and, ltb}
use draugr_repo.Base.{length-replicate, get_or, get_or-replicate, inl, inr, Bool-cases}
use draugr_repo.Ht.Slot.{hash_empty, hash_mask, val_none, hpd_hash, hpd_empty, hpd_live}
use draugr_repo.Ht.Bare.{Bare, ideal_slot}
use draugr_repo.Ht.Bare.Weigh.{weigh, sum_to, in_slot}
use draugr_repo.Ht.Bare.Valid.{IsValid, one_each}
use draugr_repo.Ht.Bare.Spill.{bare_spill_find, spill_find_from}
use draugr_repo.Ht.Bare.Stash.{stash_find, stash_find_from}
use draugr_repo.Ht.Bare.Probe.{find_from, ht_bare_find}
use draugr_repo.Ht.Bare.Life.{ht_bare_clear}

in_slot-empty : (f : ℕ → ℕ → ℕ) (v : ℕ) → in_slot f 0 v ≡ 0
unfolding hpd_live hpd_hash
in_slot-empty f v = refl

get_or-empty : (n i : ℕ) → get_or (replicate n hash_empty) i hash_empty ≡ hash_empty
get_or-empty n i = get_or-replicate n i hash_empty

pub sum_to-empty :
    (f : ℕ → ℕ → ℕ) (n m : ℕ) (ys : List ℕ) → sum_to (in_slot f) n (replicate m 0) ys ≡ 0
unfolding sum_to
sum_to-empty f zero m ys = refl
sum_to-empty f (suc n) m ys =
    rw (sum_to-empty f n m ys, get_or-empty m n, in_slot-empty f (get_or ys n 0)) refl

weigh-clear : (f : ℕ → ℕ → ℕ) (t : Bare) → weigh f (ht_bare_clear t) ≡ 0
unfolding weigh ht_bare_clear sum_to
weigh-clear f t =
    omega (arith, sum_to-empty f t.capacity t.capacity (replicate t.capacity val_none))

pub empty-zero : hpd_empty 0 ≡ true
unfolding hpd_empty hpd_hash
empty-zero = refl

find-clear : (t : Bare) (hash : ℕ) → ht_bare_find (ht_bare_clear t) hash ≡ none
unfolding ht_bare_find ht_bare_clear find_from stash_find stash_find_from bare_spill_find
    spill_find_from
find-clear t hash =
    let h48 = bit_and hash hash_mask in
    elim (Bool-cases (ltb h48 2)) [
      | inl small ↦ rw small refl
      | inr big ↦ rw (big, get_or-empty t.capacity (ideal_slot t.capacity h48), empty-zero) refl
    ]

-- Clearing a valid table leaves a valid table of the same capacity that holds no entry and in
-- which `ht_bare_find` finds nothing.
pub ht_bare_clear-Empty :
    (t : Bare)
    → IsValid t
    → IsValid (ht_bare_clear t)
      × ((ht_bare_clear t).capacity ≡ t.capacity)
      × ((f : ℕ → ℕ → ℕ) → weigh f (ht_bare_clear t) ≡ 0)
      × ((hash : ℕ) → ht_bare_find (ht_bare_clear t) hash ≡ none)
ht_bare_clear-Empty t valid = (
  record {
    slots = unfold ht_bare_clear in length-replicate t.capacity 0;
    slot_vals = unfold ht_bare_clear in length-replicate t.capacity val_none;
    lane = unfold ht_bare_clear in length-replicate t.spill_cap 0;
    lane_vals = unfold ht_bare_clear in length-replicate t.spill_cap val_none;
    stash = unfold ht_bare_clear in valid.stash;
    stash_vals = unfold ht_bare_clear in valid.stash_vals;
    lane_in = unfold ht_bare_clear in omega arith;
    stash_in = unfold ht_bare_clear in omega arith;
    small = unfold ht_bare_clear in valid.small;
    lane_small = unfold ht_bare_clear in valid.lane_small;
    counted = unfold ht_bare_clear in omega (arith, weigh-clear one_each t);
  },
  unfold ht_bare_clear in refl,
  λ f. weigh-clear f t,
  find-clear t,
)
