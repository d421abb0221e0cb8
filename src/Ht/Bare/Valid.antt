-- ===== src/Ht/Bare/Valid.antt =====
-- The invariant of the bare table, and what it means to store and to remove one entry.
use draugr_repo.Base.{
  ℕ, ◌+◌, ◌^◌, ◌<◌, ◌≤◌, ◌≡◌, ◌≢◌, refl, arith, Bool, true, false, List, length, suc, get_or, set,
  get_or-set_self, get_or-set_ne,
}
use native.Mathlib.Decide.{ℕ_discrete}
use draugr_repo.Ht.Slot.{hpd_hash, val_none}
use draugr_repo.Ht.Bare.{Bare, stash_cap}
use draugr_repo.Ht.Bare.Weigh.{weigh, sum_to-le, in_slot, in_slot-le, in_lane}

abbrev pub one_each : ℕ → ℕ → ℕ
one_each h v = 1

-- The arrays have their lengths, the counts stay inside, and `size` is the number of entries.
pub record IsValid (t : Bare) : Type 0 where
  pub slots : length t.hash_pd ≡ t.capacity
  pub slot_vals : length t.vals ≡ t.capacity
  pub lane : length t.spill_hash_pd ≡ t.spill_cap
  pub lane_vals : length t.spill_vals ≡ t.spill_cap
  pub stash : length t.overflow_hash_pd ≡ stash_cap
  pub stash_vals : length t.overflow_vals ≡ stash_cap
  pub lane_in : t.spill_len ≤ t.spill_cap
  pub stash_in : t.overflow_len ≤ stash_cap
  pub small : t.capacity ≤ 2 ^ 60
  pub lane_small : t.spill_cap ≤ 2 ^ 60
  pub counted : t.size ≡ weigh one_each t

-- A call that stores (h, v): on success the contents gain that entry and no other, on failure
-- the table is the same.
abbrev pub Stored : Bare → ℕ → ℕ → Bool × Bare → Type 0
Stored t h v (true, t') = IsValid t' × ((f : ℕ → ℕ → ℕ) → weigh f t' ≡ weigh f t + f h v)
Stored t h v (false, t') = t' ≡ t

-- A call that removes (h, v): on success the contents lose one such entry, on failure the table
-- is the same.
abbrev pub Removed : Bare → ℕ → ℕ → Bool × Bare → Type 0
Removed t h v (true, t') = IsValid t' × ((f : ℕ → ℕ → ℕ) → weigh f t' + f h v ≡ weigh f t)
Removed t h v (false, t') = t' ≡ t

-- No counter of a valid table is near the end of `size_t`.
pub size-lt : {t : Bare} → IsValid t → t.size < 2 ^ 63
unfolding weigh
size-lt {t} v = omega (
  arith,
  sum_to-le (in_slot one_each) t.capacity t.hash_pd t.vals in_slot-le,
  sum_to-le (in_lane one_each) t.overflow_len t.overflow_hash_pd t.overflow_vals
      (λ x y. omega arith),
  sum_to-le (in_lane one_each) t.spill_len t.spill_hash_pd t.spill_vals (λ x y. omega arith),
)

-- The invariant and the contents say nothing of the tombstone counter and the flag.
pub marked-IsValid :
    (t : Bare) (c : ℕ) (b : Bool)
    → IsValid t
    → IsValid (record t { tombstone_cnt = c; overflow_violated = b })
marked-IsValid t c b v = record {
  slots = v.slots;
  slot_vals = v.slot_vals;
  lane = v.lane;
  lane_vals = v.lane_vals;
  stash = v.stash;
  stash_vals = v.stash_vals;
  lane_in = v.lane_in;
  stash_in = v.stash_in;
  small = v.small;
  lane_small = v.lane_small;
  counted = unfold weigh in v.counted;
}

pub weigh_marked :
    (f : ℕ → ℕ → ℕ) (t : Bare) (c : ℕ) (b : Bool)
    → weigh f (record t { tombstone_cnt = c; overflow_violated = b }) ≡ weigh f t
unfolding weigh
weigh_marked f t c b = refl

pub flagged-IsValid : (t : Bare) (b : Bool) → IsValid t → IsValid (record t { resizing = b })
flagged-IsValid t b v = record {
  slots = v.slots;
  slot_vals = v.slot_vals;
  lane = v.lane;
  lane_vals = v.lane_vals;
  stash = v.stash;
  stash_vals = v.stash_vals;
  lane_in = v.lane_in;
  stash_in = v.stash_in;
  small = v.small;
  lane_small = v.lane_small;
  counted = unfold weigh in v.counted;
}

pub weigh_flagged :
    (f : ℕ → ℕ → ℕ) (t : Bare) (b : Bool) → weigh f (record t { resizing = b }) ≡ weigh f t
unfolding weigh
weigh_flagged f t b = refl

-- What `ht_bare_insert` stores: no sentinel in the stash, no `VAL_NONE` in the spill lane.
pub record IsProper (t : Bare) : Type 0 where
  pub stash_live : (i : ℕ) → i < t.overflow_len → 2 ≤ hpd_hash (get_or t.overflow_hash_pd i 0)
  pub lane_valued : (i : ℕ) → i < t.spill_len → get_or t.spill_vals i 0 ≢ val_none

-- An entry that is pushed on an array leaves the ones below.
pub push-all {κ} :
    (P : ℕ → Type κ) (n : ℕ) (xs : List ℕ) (x : ℕ)
    → n < length xs
    → P x
    → ((i : ℕ) → i < n → P (get_or xs i 0))
    → (i : ℕ) → i < suc n
    → P (get_or (set xs n x) i 0)
push-all P n xs x room good all i below = elim (ℕ_discrete n i) [
  | yes e ↦ rw (← e, get_or-set_self xs n x 0 room) good
  | no ne ↦ rw (get_or-set_ne xs n i x 0 ne) (all i (omega arith))
]
