-- ===== src/Ht/Bare/Insert/Overflow.antt =====
-- A round of the bounded insertion: beyond the probe limit the entry in hand goes to the stash, or
-- with a full stash to the unbounded insertion.
use draugr_repo.Base.{
  ℕ, zero, suc, ◌+◌, ◌%◌, ◌^◌, ◌<◌, ◌≤◌, ◌≡◌, refl, arith, ◌∙◌, Bool, true, false,
}
use draugr_repo.Base.{inl, inr, Bool-cases, get_or, ltb, ◌&&◌, if◌then◌else◌}
use draugr_repo.Ht.Slot.{hpd_pd, hpd_empty, hpd_tomb, hpd_available}
use draugr_repo.Ht.Bare.{Bare, dec}
use draugr_repo.Ht.Bare.Weigh.{weigh}
use draugr_repo.Ht.Bare.Valid.{IsValid, Stored, marked-IsValid, weigh_marked}
use draugr_repo.Ht.Bare.Stash.{overflow_stash_insert}
use draugr_repo.Ht.Bare.Stash.Laws.{overflow_stash_insert-Stored, capacity-overflow_stash_insert}
use draugr_repo.Ht.Bare.Insert.{
  Hand, Step, bounded_step, blocked, to_stash, over_limit, reuse_tomb, next_slot, place,
}
use draugr_repo.Ht.Bare.Insert.Frame.{
  Frame, self-Frame, Frame-trans, marked-Frame, overflow_stash_insert-Frame,
}
use draugr_repo.Ht.Bare.Insert.Slots.{IsPow2-pos}
use draugr_repo.Ht.Bare.Insert.Placing.{
  CanPlace, Places, Exchanges, EmptyAt-zero, empty-free, place-Places, next-Exchanges,
  displace-Exchanges, probe_on-next,
}

-- The entry in hand may have changed; the table has an empty slot somewhere.
pub record Carries (t t' : Bare) (p p' : Hand) : Type 0 where
  pub valid : IsValid t'
  pub live : 2 ≤ p'.h48
  pub fits : p'.h48 < 2 ^ 48
  pub same : (f : ℕ → ℕ → ℕ) → weigh f t' + f p'.h48 p'.val ≡ weigh f t + f p.h48 p.val
  pub capacity : t'.capacity ≡ t.capacity
  pub framed : Frame t t'
  pub gap : ℕ
  pub gap_in : gap < t'.capacity
  pub gap_empty : hpd_empty (get_or t'.hash_pd gap 0) ≡ true

abbrev pub Advances : Bare → Hand → ℕ → Step → Type 0
Advances t p n (Step.done ok t') = (ok ≡ true) × Places t t' p
Advances t p n (Step.again t' p') = (m : ℕ) × (n ≡ suc m) × Exchanges t t' p p' m
Advances t p n (Step.fallback t' p') = Carries t t' p p'

Carries-Exchanges : {t t' : Bare} {p p' : Hand} {n : ℕ} → Exchanges t t' p p' n → Carries t t' p p'
Carries-Exchanges {t} {t'} {p} {p'} {n} x = record {
  valid = x.ready.valid;
  live = x.ready.live;
  fits = x.ready.fits;
  same = x.same;
  capacity = x.capacity;
  framed = x.framed;
  gap = (p'.idx + n) % t'.capacity;
  gap_in = omega (arith, IsPow2-pos t'.capacity x.ready.pow2);
  gap_empty = x.ready.empty;
}

Carries-here : (t : Bare) (p : Hand) (n : ℕ) → CanPlace t p n → Carries t t p p
Carries-here t p n can = record {
  valid = can.valid;
  live = can.live;
  fits = can.fits;
  same = λ f. refl;
  capacity = refl;
  framed = self-Frame t;
  gap = (p.idx + n) % t.capacity;
  gap_in = omega (arith, IsPow2-pos t.capacity can.pow2);
  gap_empty = can.empty;
}

Carries-marked :
    (t t' : Bare) (p p' : Hand) (c : ℕ) (b : Bool)
    → Carries t t' p p'
    → Carries t (record t' { tombstone_cnt = c; overflow_violated = b }) p p'
Carries-marked t t' p p' c b x = record {
  valid = marked-IsValid t' c b x.valid;
  live = x.live;
  fits = x.fits;
  same = λ f. rw (weigh_marked f t' c b) (x.same f);
  capacity = x.capacity;
  framed = marked-Frame t t' c b x.framed;
  gap = x.gap;
  gap_in = x.gap_in;
  gap_empty = x.gap_empty;
}

-- Taking a tombstone off the counter changes no entry.
reuse_tomb-Carries :
    (t : Bare) (p : Hand) (n slot : ℕ) → CanPlace t p n → Carries t (reuse_tomb t slot) p p
reuse_tomb-Carries t p n slot can =
    let unmarked = Carries-here t p n can in
    elim (Bool-cases (hpd_tomb slot)) [
      | inl tomb ↦
          unfold reuse_tomb in
          rw tomb (Carries-marked t t p p (dec t.tombstone_cnt) t.overflow_violated unmarked)
      | inr whole ↦ unfold reuse_tomb in rw whole unmarked
    ]

-- What the stash answers.
stashed :
    (t t' : Bare) (p p' : Hand) (n : ℕ) (r : Bool × Bare)
    → Carries t t' p p'
    → Stored t' p'.h48 p'.val r
    → r.1.capacity ≡ t'.capacity
    → Frame t' r.1
    → Advances t p n (
        if r.0
        then Step.done true r.1
        else Step.fallback (record r.1 { overflow_violated = true }) p')
stashed t t' p p' n (true, u) c (valid, added) e f = (
  refl,
  record {
    valid = valid;
    added = λ g. added g ∙ c.same g;
    capacity = e ∙ c.capacity;
    framed = Frame-trans c.framed f;
  },
)
stashed t t' p p' n (false, u) c same e f =
    rw same (Carries-marked t t' p p' t'.tombstone_cnt true c)

stash-Advances :
    (t t' : Bare) (p p' : Hand) (n : ℕ) → Carries t t' p p' → Advances t p n (to_stash t' p')
unfolding to_stash
stash-Advances t t' p p' n c =
    stashed t t' p p' n (overflow_stash_insert t' p'.h48 p'.val) c
      (overflow_stash_insert-Stored t' c.valid p'.h48 p'.val c.fits)
      (capacity-overflow_stash_insert t' p'.h48 p'.val)
      (overflow_stash_insert-Frame t' p'.h48 p'.val c.valid c.live c.fits)

-- The check of the limit behind an exchange, and before a placement.
overtaken :
    (t t' : Bare) (p p' : Hand) (m : ℕ)
    → Exchanges t t' p p' m
    → Advances t p (suc m) (if over_limit t' p'.dist then to_stash t' p' else Step.again t' p')
overtaken t t' p p' m x = elim (Bool-cases (over_limit t' p'.dist)) [
  | inl over ↦ rw over (stash-Advances t t' p p' (suc m) (Carries-Exchanges x))
  | inr under ↦ rw under (m, refl, x)
]

placed_or_stashed :
    (t : Bare) (p : Hand) (n : ℕ)
    → CanPlace t p n
    → hpd_available (get_or t.hash_pd p.idx 0) ≡ true
    → let t' = reuse_tomb t (get_or t.hash_pd p.idx 0) in
      Advances t p n (if over_limit t' p.dist then to_stash t' p else Step.done true (place t' p))
placed_or_stashed t p n can free =
    let slot = get_or t.hash_pd p.idx 0 in
    elim (Bool-cases (over_limit (reuse_tomb t slot) p.dist)) [
      | inl over ↦
          rw over (stash-Advances t (reuse_tomb t slot) p p n (reuse_tomb-Carries t p n slot can))
      | inr under ↦ rw under (refl, place-Places t p can free)
    ]

step_zero-Advances :
    (grow : Bare → Bool × Bare) (t : Bare) (p : Hand)
    → CanPlace t p 0
    → Advances t p 0 (bounded_step grow t p)
unfolding bounded_step
step_zero-Advances grow t p can =
    let slot = get_or t.hash_pd p.idx 0 in
    let (free, whole) = empty-free slot (EmptyAt-zero t p can) in
    rw (free, whole) (rw whole at (placed_or_stashed t p 0 can free))

step_suc-Advances :
    (grow : Bare → Bool × Bare) (t : Bare) (p : Hand) (m : ℕ)
    → CanPlace t p (suc m)
    → Advances t p (suc m) (bounded_step grow t p)
unfolding bounded_step
step_suc-Advances grow t p m can =
    let slot = get_or t.hash_pd p.idx 0 in
    elim (Bool-cases (hpd_available slot)) [
      | inl free ↦ elim (Bool-cases (hpd_tomb slot && blocked t p.idx p.dist)) [
        | inl stop ↦ rw (free, stop) (m, refl, next-Exchanges t p m can)
        | inr go ↦ rw (free, go) (placed_or_stashed t p (suc m) can free)
      ]
      | inr taken ↦ elim (Bool-cases (ltb (hpd_pd slot) p.dist)) [
        | inl richer ↦
            rw (taken, richer)
              (overtaken t _ p _ m (displace-Exchanges t p m can taken (ground arith)))
        | inr poorer ↦
            rw (taken, poorer, probe_on-next grow t p m can)
              (overtaken t t p (next_slot t p) m (next-Exchanges t p m can))
      ]
    ]

pub step-Advances :
    (grow : Bare → Bool × Bare) (t : Bare) (p : Hand) (n : ℕ)
    → CanPlace t p n
    → Advances t p n (bounded_step grow t p)
step-Advances grow t p zero can = step_zero-Advances grow t p can
step-Advances grow t p (suc m) can = step_suc-Advances grow t p m can
