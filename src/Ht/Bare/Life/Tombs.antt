-- ===== src/Ht/Bare/Life/Tombs.antt =====
-- The tombstones that are placed after a resize change no entry, and placing them ends.
use draugr_repo.Base.{
  ℕ, zero, suc, ◌+◌, ◌*◌, ◌^◌, ◌<◌, ◌≤◌, ◌≡◌, refl, ap, ◌∙◌, arith, true, false, some, inl, inr,
}
use draugr_repo.Base.{Bool-cases, get_or, ltb, ltb→lt, le→ltb, u64, if◌then◌else◌, ◌/◌, set, Gives}
use draugr_repo.Ht.Slot.{hash_tomb, val_none, hpd_empty}
use draugr_repo.Ht.Bare.{Bare, inc, put_slot}
use draugr_repo.Ht.Bare.Weigh.{weigh, sum_to, sum_to-set}
use draugr_repo.Ht.Bare.Valid.{IsValid, IsProper, one_each}
use draugr_repo.Ht.Bare.Insert.Slots.{put_slot-weigh, put_slot-IsValid}
use draugr_repo.Ht.Bare.Insert.Frame.{gaps, is_gap, empty-dead}
use draugr_repo.Ht.Bare.Shift.Freed.{Keeps, Keeps-trans, in_slot-dead}
use draugr_repo.Ht.Bare.Probe.Remove.{in_slot-tomb}
use draugr_repo.Ht.Bare.Life.{tomb_at, tombs_from, bare_place_prophylactic_tombstones}

self-Keeps : (t : Bare) → IsValid t → Keeps t t
self-Keeps t valid = record { valid = valid; same = λ f. refl; capacity = refl }

-- Up to `k` empty slots became tombstones, and the entries are the same.
pub record Tombed (t t' : Bare) (k : ℕ) : Type 0 where
  pub keeps : Keeps t t'
  pub proper : IsProper t → IsProper t'
  pub gaps_left : gaps t ≤ gaps t' + k

self-Tombed : (t : Bare) (k : ℕ) → IsValid t → Tombed t t k
self-Tombed t k valid = record {
  keeps = self-Keeps t valid;
  proper = λ p. p;
  gaps_left = omega arith;
}

put_tomb-Tombed :
    (t : Bare) (pos : ℕ)
    → IsValid t
    → pos < t.capacity
    → hpd_empty (get_or t.hash_pd pos 0) ≡ true
    → Tombed t
        (let t' = put_slot t pos hash_tomb val_none in
          record t' { tombstone_cnt = inc t.tombstone_cnt })
        1
put_tomb-Tombed t pos valid below empty =
    let dead = empty-dead (get_or t.hash_pd pos 0) empty in
    let same : (f : ℕ → ℕ → ℕ) → weigh f (put_slot t pos hash_tomb val_none) ≡ weigh f t = λ f.
      omega (
        arith,
        put_slot-weigh t pos hash_tomb val_none f valid below,
        in_slot-dead f (get_or t.hash_pd pos 0) (get_or t.vals pos 0) dead,
        in_slot-tomb f val_none,
      ) in
    record {
      keeps = record {
        valid =
            unfold put_slot in
            put_slot-IsValid t pos hash_tomb val_none t.size (inc t.tombstone_cnt) valid
              (omega (arith, same one_each, valid.counted));
        same = λ f. unfold put_slot weigh in same f;
        capacity = unfold put_slot in refl;
      };
      proper =
          unfold put_slot in λ p. record { stash_live = p.stash_live; lane_valued = p.lane_valued };
      gaps_left = unfold put_slot in one_less;
    }
  where
    one_less :
        gaps t
        ≤ sum_to is_gap t.capacity (set t.hash_pd pos hash_tomb) (set t.vals pos val_none) + 1
    one_less =
        let spent : is_gap (get_or t.hash_pd pos 0) (get_or t.vals pos 0) ≤ 1 =
          rw empty (omega arith) in
        omega (
          arith,
          spent,
          sum_to-set is_gap t.capacity pos t.hash_pd t.vals hash_tomb val_none below
              (omega (arith, valid.slots)) (omega (arith, valid.slot_vals)),
        )

tomb_at-Tombed : (t : Bare) (pos : ℕ) → IsValid t → pos < t.capacity → Tombed t (tomb_at t pos) 1
unfolding tomb_at
tomb_at-Tombed t pos valid below = elim (Bool-cases (hpd_empty (get_or t.hash_pd pos 0))) [
  | inl empty ↦ rw empty (put_tomb-Tombed t pos valid below empty)
  | inr full ↦ rw full (self-Tombed t 1 valid)
]

Tombed-trans : {t t' t'' : Bare} {k : ℕ} → Tombed t t' 1 → Tombed t' t'' k → Tombed t t'' (suc k)
Tombed-trans p q = record {
  keeps = Keeps-trans p.keeps q.keeps;
  proper = λ w. q.proper (p.proper w);
  gaps_left = omega (arith, p.gaps_left, q.gaps_left);
}

-- The places left from `pos`, four at a time, are at most `k`, and fit the fuel.
tombs_from-Tombed :
    (spacing fuel k pos : ℕ) (t : Bare)
    → IsValid t
    → 4 ≤ spacing
    → spacing ≤ 2 ^ 62
    → k ≤ fuel
    → t.capacity ≤ pos + 4 * k
    → Gives (λ t'. Tombed t t' k) (tombs_from spacing (suc fuel) pos t)
unfolding tombs_from
tombs_from-Tombed spacing fuel zero pos t valid low high fits enough =
    let past : ltb pos t.capacity ≡ false = le→ltb pos t.capacity (omega arith) in
    (t, rw past refl, self-Tombed t zero valid)
tombs_from-Tombed spacing zero (suc k) pos t valid low high fits enough = absurd (omega arith)
tombs_from-Tombed spacing (suc fuel) (suc k) pos t valid low high fits enough =
    elim (Bool-cases (ltb pos t.capacity)) [
      | inl inside ↦
          let below = ltb→lt pos t.capacity inside in
          let first = tomb_at-Tombed t pos valid below in
          let next : u64 (pos + spacing) ≡ pos + spacing = omega (arith, valid.small) in
          let (t', ends, rest) =
            tombs_from-Tombed spacing fuel k (pos + spacing) (tomb_at t pos) first.keeps.valid low
              high (omega arith) (omega (arith, first.keeps.capacity)) in
          (
            t',
            rw inside (ap (λ (p : ℕ). tombs_from spacing (suc fuel) p (tomb_at t pos)) next ∙ ends),
            Tombed-trans first rest,
          )
      | inr past ↦ (t, rw past refl, self-Tombed t (suc k) valid)
    ]

fitting :
    (raw : ℕ)
    → raw ≤ 2 ^ 62
    → (4 ≤ (if ltb raw 4 then 4 else raw)) × ((if ltb raw 4 then 4 else raw) ≤ 2 ^ 62)
fitting raw h = elim (Bool-cases (ltb raw 4)) [
  | inl small ↦ rw small (omega arith, omega arith)
  | inr large ↦ rw large (ground arith, h)
]

-- At most every fourth slot becomes a tombstone.
pub place_tombstones-Tombed :
    (raw : ℕ) (t : Bare)
    → IsValid t
    → raw ≤ 2 ^ 62
    → Gives
        (λ t'. Tombed t t' ((t.capacity + 3) / 4))
        (bare_place_prophylactic_tombstones raw (suc t.capacity) t)
unfolding bare_place_prophylactic_tombstones
place_tombstones-Tombed raw t valid h =
    let (low, high) = fitting raw h in
    tombs_from-Tombed _ t.capacity ((t.capacity + 3) / 4) 0 t valid low high (omega arith)
      (omega arith)

-- In a valid table, for a computed spacing of at most 2 ^ 62, placing the tombstones ends within one
-- round for each slot and one more; the table stays valid with its capacity, and its entries are
-- the same.
pub place_tombstones-Keeps :
    (raw : ℕ) (t : Bare)
    → IsValid t
    → raw ≤ 2 ^ 62
    → (t' : Bare) × (bare_place_prophylactic_tombstones raw (suc t.capacity) t ≡ some t')
      × Keeps t t'
place_tombstones-Keeps raw t valid h =
    let (t', ends, x) = place_tombstones-Tombed raw t valid h in (t', ends, x.keeps)
