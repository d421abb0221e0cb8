-- ===== src/Ht/Bare/Insert/Frame.antt =====
-- What an insertion leaves as it is: the spill lane, the settings, and a table without tombstones.
use native.Mathlib.Decide.{ℕ_discrete}
use draugr_repo.Base.{ℕ, zero, suc, ◌+◌, ◌^◌, ◌<◌, ◌≤◌, ◌≡◌, refl, arith, ◌∙◌, Bool, true, false}
use draugr_repo.Base.{
  inl, inr, Bool-cases, get_or, get_or-set_self, get_or-set_ne, set, leb, if◌then◌else◌,
}
use draugr_repo.Ht.Slot.{hpd_hash, hpd_pack, hpd_empty, hpd_tomb, hpd_live}
use draugr_repo.Ht.Slot.Laws.{hpd_hash-pack}
use draugr_repo.Ht.Bare.{Bare, inc, stash_cap, put_slot}
use draugr_repo.Ht.Bare.Weigh.{weigh, sum_to, in_slot}
use draugr_repo.Ht.Bare.Valid.{IsValid, IsProper, one_each, push-all}
use draugr_repo.Ht.Bare.Stash.{overflow_stash_insert}

-- No slot is a tombstone.
abbrev pub NoTombs : Bare → Type 0
NoTombs t = (j : ℕ) → hpd_tomb (get_or t.hash_pd j 0) ≡ false

pub record Frame (t t' : Bare) : Type 0 where
  pub no_tombs : NoTombs t → NoTombs t'
  pub lane : t'.spill_len ≡ t.spill_len
  pub lane_cap : t'.spill_cap ≡ t.spill_cap
  pub proper : IsProper t → IsProper t'
  pub limit : t'.max_probe_dist ≡ t.max_probe_dist

pub self-Frame : (t : Bare) → Frame t t
self-Frame t = record {
  no_tombs = λ w. w;
  lane = refl;
  lane_cap = refl;
  proper = λ p. p;
  limit = refl;
}

pub Frame-trans : {t t' t'' : Bare} → Frame t t' → Frame t' t'' → Frame t t''
Frame-trans p q = record {
  no_tombs = λ w. q.no_tombs (p.no_tombs w);
  lane = q.lane ∙ p.lane;
  lane_cap = q.lane_cap ∙ p.lane_cap;
  proper = λ w. q.proper (p.proper w);
  limit = q.limit ∙ p.limit;
}

pack-tomb : (h d : ℕ) → 2 ≤ h → h < 2 ^ 48 → d < 2 ^ 16 → hpd_tomb (hpd_pack h d) ≡ false
unfolding hpd_tomb
pack-tomb h d live fits small = rw (hpd_hash-pack h d fits small) (ground arith)

-- A packed entry that is written to a slot, with the two counters.
pub put_slot-Frame :
    (t : Bare) (i h d v s c : ℕ)
    → IsValid t
    → i < t.capacity
    → 2 ≤ h
    → h < 2 ^ 48
    → d < 2 ^ 16
    → Frame t (let t' = put_slot t i (hpd_pack h d) v in record t' { size = s; tombstone_cnt = c })
unfolding put_slot
put_slot-Frame t i h d v s c valid inside live fits small = record {
  no_tombs = λ w j. elim (ℕ_discrete i j) [
    | yes e ↦
        rw (← e, get_or-set_self t.hash_pd i (hpd_pack h d) 0 (omega (arith, valid.slots)))
          (pack-tomb h d live fits small)
    | no ne ↦ rw (get_or-set_ne t.hash_pd i j (hpd_pack h d) 0 ne) (w j)
  ];
  lane = refl;
  lane_cap = refl;
  proper = λ p. record { stash_live = p.stash_live; lane_valued = p.lane_valued };
  limit = refl;
}

pub marked-Frame :
    (t t' : Bare) (c : ℕ) (b : Bool)
    → Frame t t'
    → Frame t (record t' { tombstone_cnt = c; overflow_violated = b })
marked-Frame t t' c b f = record {
  no_tombs = f.no_tombs;
  lane = f.lane;
  lane_cap = f.lane_cap;
  proper =
      λ p. record { stash_live = (f.proper p).stash_live; lane_valued = (f.proper p).lane_valued };
  limit = f.limit;
}

pushed-Frame :
    (t : Bare) (h v : ℕ)
    → IsValid t
    → t.overflow_len < stash_cap
    → 2 ≤ h
    → h < 2 ^ 48
    → Frame t (record t {
      overflow_hash_pd = set t.overflow_hash_pd t.overflow_len (hpd_pack h 0);
      overflow_vals = set t.overflow_vals t.overflow_len v;
      overflow_len = inc t.overflow_len;
      size = inc t.size;
    })
pushed-Frame t h v valid room live fits = record {
  no_tombs = λ w. w;
  lane = refl;
  lane_cap = refl;
  proper = λ p. record {
    stash_live = λ i below.
        push-all (λ x. 2 ≤ hpd_hash x) t.overflow_len t.overflow_hash_pd (hpd_pack h 0)
          (omega (arith, valid.stash)) (rw (hpd_hash-pack h 0 fits (omega arith)) live) p.stash_live
          i (omega arith);
    lane_valued = p.lane_valued;
  };
  limit = refl;
}

pub overflow_stash_insert-Frame :
    (t : Bare) (h v : ℕ) → IsValid t → 2 ≤ h → h < 2 ^ 48 → Frame t (overflow_stash_insert t h v).1
unfolding overflow_stash_insert
overflow_stash_insert-Frame t h v valid live fits =
    elim (Bool-cases (leb stash_cap t.overflow_len)) [
      | inl full ↦ rw full (self-Frame t)
      | inr room ↦ rw room (pushed-Frame t h v valid (ground arith) live fits)
    ]

whole-live : (x : ℕ) → hpd_tomb x ≡ false → hpd_empty x ≡ false → hpd_live x ≡ true
unfolding hpd_tomb hpd_empty hpd_live
whole-live x p q = ground arith

pub empty-dead : (x : ℕ) → hpd_empty x ≡ true → hpd_live x ≡ false
unfolding hpd_empty hpd_live
empty-dead x h = ground arith

abbrev pub is_gap : ℕ → ℕ → ℕ
is_gap hpd val = if hpd_empty hpd then 1 else 0

-- The number of empty slots.
abbrev pub gaps : Bare → ℕ
gaps t = sum_to is_gap t.capacity t.hash_pd t.vals

-- Without tombstones each slot is empty or has an entry.
pub gaps-live :
    (t : Bare) (n : ℕ)
    → NoTombs t
    → sum_to is_gap n t.hash_pd t.vals + sum_to (in_slot one_each) n t.hash_pd t.vals ≡ n
unfolding sum_to
gaps-live t zero w = refl
gaps-live t (suc n) w = elim (Bool-cases (hpd_empty (get_or t.hash_pd n 0))) [
  | inl gap ↦ rw (gap, empty-dead (get_or t.hash_pd n 0) gap) (omega (arith, gaps-live t n w))
  | inr taken ↦
      rw (taken, whole-live (get_or t.hash_pd n 0) (w n) taken) (omega (arith, gaps-live t n w))
]

-- Where the count is not 0 there is one.
pub first_gap :
    (t : Bare) (n : ℕ)
    → 1 ≤ sum_to is_gap n t.hash_pd t.vals
    → (j : ℕ) × (j < n) × (hpd_empty (get_or t.hash_pd j 0) ≡ true)
unfolding sum_to
first_gap t zero h = absurd (omega (arith, h))
first_gap t (suc n) h = elim (Bool-cases (hpd_empty (get_or t.hash_pd n 0))) [
  | inl gap ↦ (n, omega arith, gap)
  | inr taken ↦
      let (j, below, gap) = first_gap t n (omega (arith, (rw taken at h))) in (j, omega arith, gap)
]

-- A table without tombstones that has fewer entries than slots has an empty slot.
pub gap_below :
    (t : Bare)
    → NoTombs t
    → weigh one_each t < t.capacity
    → (j : ℕ) × (j < t.capacity) × (hpd_empty (get_or t.hash_pd j 0) ≡ true)
unfolding weigh
gap_below t w room = first_gap t t.capacity (omega (arith, gaps-live t t.capacity w, room))
