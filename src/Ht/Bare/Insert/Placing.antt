-- ===== src/Ht/Bare/Insert/Placing.antt =====
-- The rounds of an insertion: the entry in hand is placed, exchanged or carried on, and an empty
-- slot comes one place nearer.
use draugr_repo.Base.{
  ℕ, suc, ◌+◌, ◌%◌, ◌^◌, ◌<◌, ◌≤◌, ◌≡◌, ◌≢◌, refl, arith, sym, ◌∙◌, Bool, true, false, Option, some,
  subst,
}
use draugr_repo.Base.{inl, inr, Bool-cases, get_or, ltb, u16, get_or-set_ne, le→ltb}
use draugr_repo.Ht.Slot.{hpd_hash, hpd_pd, hpd_pack, hpd_empty, hpd_tomb, hpd_available}
use draugr_repo.Ht.Slot.Laws.{hpd_hash-lt}
use draugr_repo.Ht.Bare.{Bare, inc, dec, slot_at, put_slot}
use draugr_repo.Ht.Bare.Weigh.{weigh}
use draugr_repo.Ht.Bare.Valid.{IsValid, one_each, size-lt}
use draugr_repo.Ht.Bare.Insert.{Hand, Step, next_slot, reuse_tomb, place, displace, probe_on}
use draugr_repo.Ht.Bare.Insert.Frame.{Frame, self-Frame, Frame-trans, put_slot-Frame}
use draugr_repo.Ht.Bare.Insert.Slots.{
  IsPow2, IsPow2-pos, slot_at-eq-mod, slot_at-lt, mod_step, mod_ne_self, put_slot-weigh,
  put_slot-IsValid, in_slot-pack, in_slot-available, in_slot-taken,
}

-- The slot `n` places on from `i` is empty.
abbrev pub EmptyAt : Bare → ℕ → ℕ → Type 0
EmptyAt t i n = hpd_empty (get_or t.hash_pd ((i + n) % t.capacity) 0) ≡ true

-- A table and an entry in hand, with an empty slot `n` places on, before the probe wraps.
pub record CanPlace (t : Bare) (p : Hand) (n : ℕ) : Type 0 where
  pub valid : IsValid t
  pub pow2 : IsPow2 t.capacity
  pub live : 2 ≤ p.h48
  pub fits : p.h48 < 2 ^ 48
  pub inside : p.idx < t.capacity
  pub short : n < t.capacity
  pub dist_small : p.dist + n < 2 ^ 16
  pub dist_in : p.dist + n ≤ t.capacity
  pub empty : EmptyAt t p.idx n

-- The step returns with the entry stored, or goes on with an exchanged entry one place nearer to
-- the empty slot, the contents and the entry in hand being the same together.
pub record Exchanges (t t' : Bare) (p p' : Hand) (n : ℕ) : Type 0 where
  pub ready : CanPlace t' p' n
  pub same : (f : ℕ → ℕ → ℕ) → weigh f t' + f p'.h48 p'.val ≡ weigh f t + f p.h48 p.val
  pub capacity : t'.capacity ≡ t.capacity
  pub framed : Frame t t'

pub record Places (t t' : Bare) (p : Hand) : Type 0 where
  pub valid : IsValid t'
  pub added : (f : ℕ → ℕ → ℕ) → weigh f t' ≡ weigh f t + f p.h48 p.val
  pub capacity : t'.capacity ≡ t.capacity
  pub framed : Frame t t'

-- `place` behind `reuse_tomb` is one write with two counters.
abbrev placed : Bare → Hand → ℕ → Bare
placed t p c =
    let t' = put_slot t p.idx (hpd_pack p.h48 p.dist) p.val in
    record t' { size = inc t.size; tombstone_cnt = c }

place-reuse_tomb :
    (t : Bare) (p : Hand) (slot : ℕ) → (c : ℕ) × (place (reuse_tomb t slot) p ≡ placed t p c)
unfolding place reuse_tomb put_slot
place-reuse_tomb t p slot = elim (Bool-cases (hpd_tomb slot)) [
  | inl tomb ↦ (dec t.tombstone_cnt, rw tomb)
  | inr empty ↦ (t.tombstone_cnt, rw empty)
]

module _ (t : Bare) (p : Hand) where
  placed-Places :
      (c : ℕ) {n : ℕ}
      → CanPlace t p n
      → hpd_available (get_or t.hash_pd p.idx 0) ≡ true
      → Places t (placed t p c) p
  placed-Places c can free =
      let w = hpd_pack p.h48 p.dist in
      let old = get_or t.hash_pd p.idx 0 in
      let added : (f : ℕ → ℕ → ℕ) → weigh f (put_slot t p.idx w p.val) ≡ weigh f t + f p.h48 p.val =
        λ f. omega (
          arith,
          put_slot-weigh t p.idx w p.val f can.valid can.inside,
          in_slot-pack f p.h48 p.dist p.val can.live can.fits (omega arith),
          in_slot-available f old (get_or t.vals p.idx 0) free,
        ) in
      record {
        valid =
            put_slot-IsValid t p.idx w p.val (inc t.size) c can.valid
              (omega (arith, added one_each, can.valid.counted, size-lt can.valid));
        added = unfold weigh put_slot in λ f. (unfold weigh put_slot in added f);
        capacity = unfold put_slot in refl;
        framed =
            put_slot-Frame t p.idx p.h48 p.dist p.val (inc t.size) c can.valid can.inside can.live
              can.fits (omega arith);
      }

  pub place-Places :
      {n : ℕ}
      → CanPlace t p n
      → hpd_available (get_or t.hash_pd p.idx 0) ≡ true
      → Places t (place (reuse_tomb t (get_or t.hash_pd p.idx 0)) p) p
  place-Places can free =
      let (c, e) = place-reuse_tomb t p (get_or t.hash_pd p.idx 0) in
      rw e (placed-Places c can free)

  -- The empty slot stays where it is, one step nearer.
  EmptyAt-next : (n : ℕ) → CanPlace t p (suc n) → EmptyAt t (slot_at t.capacity p.idx 1) n
  EmptyAt-next n can =
      rw
        (
          slot_at-eq-mod t.capacity p.idx 1 can.pow2
              (omega (arith, IsPow2-pos t.capacity can.pow2)),
          mod_step t.capacity p.idx n (omega arith),
        )
        can.empty

  -- A write to the slot of the probe leaves it empty.
  EmptyAt-put :
      (n w : ℕ)
      → CanPlace t p (suc n)
      → EmptyAt (put_slot t p.idx w p.val) (slot_at t.capacity p.idx 1) n
  unfolding put_slot
  EmptyAt-put n w can =
      let ne : p.idx ≢ (slot_at t.capacity p.idx 1 + n) % t.capacity =
        rw
          (
            slot_at-eq-mod t.capacity p.idx 1 can.pow2 (omega (arith, can.valid.small)),
            mod_step t.capacity p.idx n (omega arith),
          )
          (λ e. mod_ne_self t.capacity p.idx (suc n) can.inside (omega arith) can.short (sym e)) in
      rw (get_or-set_ne t.hash_pd p.idx ((slot_at t.capacity p.idx 1 + n) % t.capacity) w 0 ne)
        (EmptyAt-next n can)

  -- Moving on one place.
  pub next-CanPlace : (n : ℕ) → CanPlace t p (suc n) → CanPlace t (next_slot t p) n
  unfolding next_slot
  next-CanPlace n can = record {
    valid = can.valid;
    pow2 = can.pow2;
    live = can.live;
    fits = can.fits;
    inside = slot_at-lt t.capacity p.idx 1 can.pow2 (omega (arith, can.valid.small));
    short = omega arith;
    dist_small = omega arith;
    dist_in = omega arith;
    empty = EmptyAt-next n can;
  }

  pub displace-Exchanges :
      (n : ℕ)
      → CanPlace t p (suc n)
      → hpd_available (get_or t.hash_pd p.idx 0) ≡ false
      → hpd_pd (get_or t.hash_pd p.idx 0) < p.dist
      → Exchanges t
          (put_slot t p.idx (hpd_pack p.h48 p.dist) p.val)
          p
          (displace t p (get_or t.hash_pd p.idx 0))
          n
  displace-Exchanges n can taken less =
      let w = hpd_pack p.h48 p.dist in
      let old = get_or t.hash_pd p.idx 0 in
      let t' = put_slot t p.idx w p.val in
      let same : (f : ℕ → ℕ → ℕ)
          → weigh f t' + f (hpd_hash old) (get_or t.vals p.idx 0) ≡ weigh f t + f p.h48 p.val =
        λ f. omega (
          arith,
          put_slot-weigh t p.idx w p.val f can.valid can.inside,
          in_slot-pack f p.h48 p.dist p.val can.live can.fits (omega arith),
          in_slot-taken f old (get_or t.vals p.idx 0) taken,
        ) in
      record {
        ready = record {
          valid =
              unfold put_slot in
              put_slot-IsValid t p.idx w p.val t.size t.tombstone_cnt can.valid
                (omega (arith, same one_each, can.valid.counted));
          pow2 = unfold put_slot in can.pow2;
          live = unfold displace hpd_available in ground arith;
          fits = unfold displace in hpd_hash-lt old;
          inside =
              unfold displace put_slot in
              slot_at-lt t.capacity p.idx 1 can.pow2 (omega (arith, can.valid.small));
          short = unfold put_slot in omega arith;
          dist_small = unfold displace in omega arith;
          dist_in = unfold displace put_slot in omega arith;
          empty = unfold displace in EmptyAt-put n w can;
        };
        same = unfold displace in same;
        capacity = unfold put_slot in refl;
        framed =
            unfold put_slot in
            put_slot-Frame t p.idx p.h48 p.dist p.val t.size t.tombstone_cnt can.valid can.inside
              can.live can.fits (omega arith);
      }

pub next-Exchanges :
    (t : Bare) (p : Hand) (n : ℕ) → CanPlace t p (suc n) → Exchanges t t p (next_slot t p) n
next-Exchanges t p n can = record {
  ready = next-CanPlace t p n can;
  same = unfold next_slot in λ f. refl;
  capacity = refl;
  framed = self-Frame t;
}

-- The table is not resized on the way to the empty slot.
pub probe_on-next :
    (grow : Bare → Bool × Bare) (t : Bare) (p : Hand) (n : ℕ)
    → CanPlace t p (suc n)
    → probe_on grow t (next_slot t p) ≡ Step.again t (next_slot t p)
unfolding probe_on next_slot
probe_on-next grow t p n can =
    let e : ltb t.capacity (u16 (p.dist + 1)) ≡ false = le→ltb _ _ (omega arith) in rw e

pub empty-free : (x : ℕ) → hpd_empty x ≡ true → (hpd_available x ≡ true) × (hpd_tomb x ≡ false)
unfolding hpd_empty hpd_available hpd_tomb
empty-free x h = ground arith

pub EmptyAt-zero :
    (t : Bare) (p : Hand) → CanPlace t p 0 → hpd_empty (get_or t.hash_pd p.idx 0) ≡ true
EmptyAt-zero t p can =
    let e : (p.idx + 0) % t.capacity ≡ p.idx = add_zero-mod p.idx t.capacity can.inside in
    subst (λ (i : ℕ). hpd_empty (get_or t.hash_pd i 0) ≡ true) e can.empty
  where
    add_zero-mod : (i c : ℕ) → i < c → (i + 0) % c ≡ i
    add_zero-mod i c h = grind arith

-- The loop has ended, with the entry stored.
pub record Ends (t : Bare) (p : Hand) (result : Option (Bool × Bare)) : Type 0 where
  pub final : Bare
  pub returns : result ≡ some (true, final)
  pub places : Places t final p

pub Ends-Exchanges :
    (t t' : Bare) (p p' : Hand) (n : ℕ) (result : Option (Bool × Bare))
    → Exchanges t t' p p' n
    → Ends t' p' result
    → Ends t p result
Ends-Exchanges t t' p p' n result x e = record {
  final = e.final;
  returns = e.returns;
  places = record {
    valid = e.places.valid;
    added = λ f. e.places.added f ∙ x.same f;
    capacity = e.places.capacity ∙ x.capacity;
    framed = Frame-trans x.framed e.places.framed;
  };
}
