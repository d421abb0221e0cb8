-- ===== src/Ht/Bare.antt =====
-- The bare table of src/ht.c: `uint64_t hash → uint32_t val`, with several values for a hash.
-- The slots are two arrays side by side; entries that may not stand in a slot go to the spill
-- lane (hashes 0 and 1) or to the overflow stash (probe distance above the limit).
pub mod Spill
pub mod Stash
pub mod Weigh
pub mod Valid
pub mod Purged
pub mod Insert
pub mod Shift
pub mod Probe
pub mod FindAll
pub mod Life
pub mod Resize
pub mod Growth
pub mod Iterate
pub mod Create
mod Tests
use draugr_repo.Base.{ℕ, ◌+◌, ◌-◌, ◌%◌, ◌^◌, bit_and, Bool, List, u64, set}

-- `struct ht_bare`. `main_block`, `spill_block` and the two pointers into each are the arrays
-- here; the load factors are read only by the functions that take them as a parameter.
pub record Bare : Type 0 where
  pub hash_pd : List ℕ
  pub vals : List ℕ
  pub capacity : ℕ
  pub size : ℕ
  pub tombstone_cnt : ℕ
  pub spill_hash_pd : List ℕ
  pub spill_vals : List ℕ
  pub spill_cap : ℕ
  pub spill_len : ℕ
  pub max_probe_dist : ℕ
  pub overflow_len : ℕ
  pub overflow_hash_pd : List ℕ
  pub overflow_vals : List ℕ
  pub overflow_violated : Bool
  pub resizing : Bool

-- `x++` and `x--` on a `size_t`.
abbrev pub inc : ℕ → ℕ
inc n = u64 (n + 1)

abbrev pub dec : ℕ → ℕ
dec n = u64 (n + 2 ^ 64 - 1)

abbrev pub stash_cap : ℕ
stash_cap = 32

-- `(idx + off) & cap_mask`, for `cap_mask = t->capacity - 1`.
unfoldable pub slot_at : ℕ → ℕ → ℕ → ℕ
slot_at capacity idx off = bit_and (u64 (idx + off)) (dec capacity)

-- `h48 & cap_mask`, the slot where the probe of a hash starts.
unfoldable pub ideal_slot : ℕ → ℕ → ℕ
ideal_slot capacity h48 = bit_and h48 (dec capacity)

-- `hash_pd[idx] = hpd; vals[idx] = val;`
unfoldable pub put_slot : Bare → ℕ → ℕ → ℕ → Bare
put_slot t idx hpd val = record t { hash_pd = set t.hash_pd idx hpd; vals = set t.vals idx val }
