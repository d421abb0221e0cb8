-- ===== src/Ht/Bare/Insert/Slots.antt =====
-- Indices that wrap around the table, and what a write to one slot does to the contents.
use native.Mathlib.Decide.{dec_lt}
use native.Mathlib.Nat.{mod-add-mod, pow-le-pow_right, one-le-pow}
use draugr_repo.Base.{
  ℕ, suc, ◌+◌, ◌-◌, ◌%◌, ◌^◌, ◌<◌, ◌≤◌, ◌≡◌, ◌≢◌, arith, ap, ◌∙◌, true, false, bit_and,
}
use draugr_repo.Base.{get_or, length-set, u64}
use draugr_repo.Base.Bits.Word.{bit_and_mask}
use draugr_repo.Ht.Slot.{hpd_hash, hpd_pack, hpd_live, hpd_available}
use draugr_repo.Ht.Slot.Laws.{hpd_hash-pack}
use draugr_repo.Ht.Bare.{Bare, dec, slot_at, ideal_slot, put_slot}
use draugr_repo.Ht.Bare.Weigh.{weigh, sum_to-set, in_slot}
use draugr_repo.Ht.Bare.Valid.{IsValid, one_each}

-- The capacity is a power of two, as `next_pow2` makes it.
abbrev pub IsPow2 : ℕ → Type 0
IsPow2 c = (k : ℕ) × (c ≡ 2 ^ k) × (k ≤ 60)

pub IsPow2-pos : (c : ℕ) → IsPow2 c → (0 < c) × (c ≤ 2 ^ 60)
IsPow2-pos c (k, e, h) = rw e (one-le-pow k 2 (omega arith), pow-le-pow_right (omega arith) h)

mask_mod : (c x : ℕ) → IsPow2 c → bit_and x (dec c) ≡ x % c
mask_mod c x (k, e, h) =
    let d : dec c ≡ 2 ^ k - 1 = omega (arith, IsPow2-pos c (k, e, h)) in
    rw (d, e) (bit_and_mask k x)

pub slot_at-eq-mod : (c i o : ℕ) → IsPow2 c → i + o < 2 ^ 64 → slot_at c i o ≡ (i + o) % c
unfolding slot_at
slot_at-eq-mod c i o p h = let e : u64 (i + o) ≡ i + o = omega arith in rw e (mask_mod c (i + o) p)

pub ideal_slot-eq-mod : (c h : ℕ) → IsPow2 c → ideal_slot c h ≡ h % c
unfolding ideal_slot
ideal_slot-eq-mod c h p = mask_mod c h p

pub slot_at-lt : (c i o : ℕ) → IsPow2 c → i + o < 2 ^ 64 → slot_at c i o < c
slot_at-lt c i o p h = rw (slot_at-eq-mod c i o p h) (omega (arith, IsPow2-pos c p))

pub ideal_slot-lt : (c h : ℕ) → IsPow2 c → ideal_slot c h < c
ideal_slot-lt c h p = rw (ideal_slot-eq-mod c h p) (omega (arith, IsPow2-pos c p))

-- One step and then `n` are `n + 1` steps.
pub mod_step : (c i n : ℕ) → 0 < c → ((i + 1) % c + n) % c ≡ (i + suc n) % c
mod_step c i n h = mod-add-mod (i + 1) c n ∙ ap (λ (t : ℕ). t % c) (omega arith)

-- No step at all.
pub zero_offset : (c i n : ℕ) → i < c → n ≤ 0 → (i + n) % c ≡ i
zero_offset c i n p q = grind arith

-- Fewer steps than slots do not come back.
pub mod_ne_self : (c i n : ℕ) → i < c → 0 < n → n < c → (i + n) % c ≢ i
mod_ne_self c i n p q r = grind arith

-- From any slot each other one is some number of steps on.
pub way_to : (c i j : ℕ) → i < c → j < c → (n : ℕ) × (n < c) × ((i + n) % c ≡ j)
way_to c i j p q = elim (dec_lt j i) [
  | yes wraps ↦ (j + c - i, omega arith, grind arith)
  | no ahead ↦ (j - i, omega arith, grind arith)
]

-- A write to a slot exchanges what it held for what is written.
pub put_slot-weigh :
    (t : Bare) (i x y : ℕ) (f : ℕ → ℕ → ℕ)
    → IsValid t
    → i < t.capacity
    → weigh f (put_slot t i x y) + in_slot f (get_or t.hash_pd i 0) (get_or t.vals i 0)
      ≡ weigh f t + in_slot f x y
unfolding weigh put_slot
put_slot-weigh t i x y f valid h =
    omega (
      arith,
      sum_to-set (in_slot f) t.capacity i t.hash_pd t.vals x y h (omega arith) (omega arith),
    )

-- Writing a slot and the two counters keeps the table valid if `size` still counts the entries.
pub put_slot-IsValid :
    (t : Bare) (i x y s c : ℕ)
    → IsValid t
    → s ≡ weigh one_each (put_slot t i x y)
    → IsValid (let t' = put_slot t i x y in record t' { size = s; tombstone_cnt = c })
unfolding put_slot
put_slot-IsValid t i x y s c valid e = record {
  slots = omega (arith, length-set t.hash_pd i x);
  slot_vals = omega (arith, length-set t.vals i y);
  lane = valid.lane;
  lane_vals = valid.lane_vals;
  stash = valid.stash;
  stash_vals = valid.stash_vals;
  lane_in = valid.lane_in;
  stash_in = valid.stash_in;
  small = valid.small;
  lane_small = valid.lane_small;
  counted = unfold weigh in e;
}

-- The weight of a packed live entry, and of a slot that is free.
pub in_slot-pack :
    (f : ℕ → ℕ → ℕ) (h d v : ℕ)
    → 2 ≤ h
    → h < 2 ^ 48
    → d < 2 ^ 16
    → in_slot f (hpd_pack h d) v ≡ f h v
unfolding hpd_live
in_slot-pack f h d v live fits small = rw (hpd_hash-pack h d fits small) (ground arith)

pub in_slot-available : (f : ℕ → ℕ → ℕ) (x v : ℕ) → hpd_available x ≡ true → in_slot f x v ≡ 0
unfolding hpd_live hpd_available
in_slot-available f x v free = ground arith

pub in_slot-taken :
    (f : ℕ → ℕ → ℕ) (x v : ℕ) → hpd_available x ≡ false → in_slot f x v ≡ f (hpd_hash x) v
unfolding hpd_live hpd_available
in_slot-taken f x v taken = ground arith

-- The same, with what the slot held under other names.
pub put_slot-weigh_over :
    (t : Bare) (i x y a b : ℕ) (f : ℕ → ℕ → ℕ)
    → IsValid t
    → i < t.capacity
    → get_or t.hash_pd i 0 ≡ a
    → get_or t.vals i 0 ≡ b
    → weigh f (put_slot t i x y) + in_slot f a b ≡ weigh f t + in_slot f x y
put_slot-weigh_over t i x y a b f valid h p q = rw (← p, ← q) (put_slot-weigh t i x y f valid h)
