-- ===== src/Ht/Bare/Shift/Freed.antt =====
-- Tables with the same entries, and emptied slots.
use native.Mathlib.Decide.{ℕ_discrete}
use draugr_repo.Base.{ℕ, ◌+◌, ◌%◌, ◌<◌, ◌≤◌, ◌≡◌, ◌≢◌, refl, arith, sym, ◌∙◌, true, false}
use draugr_repo.Base.{get_or, get_or-set_ne, get_or-set_self}
use draugr_repo.Ht.Slot.{hpd_hash, hpd_live}
use draugr_repo.Ht.Bare.{Bare, dec, put_slot}
use draugr_repo.Ht.Bare.Weigh.{weigh, in_slot}
use draugr_repo.Ht.Bare.Valid.{IsValid, one_each, marked-IsValid, weigh_marked}
use draugr_repo.Ht.Bare.Insert.Slots.{IsPow2, put_slot-weigh, put_slot-IsValid}
use draugr_repo.Ht.Bare.Shift.{uncount_tomb}

-- No live entry stands `n` places behind `idx`.
abbrev pub FreeAt : Bare → ℕ → ℕ → Type 0
FreeAt t idx n = hpd_live (get_or t.hash_pd ((idx + n) % t.capacity) 0) ≡ false

-- The places from `w` to `i` are free, and a shift up to the one at `i + left` does not wrap.
pub record CanShift (t : Bare) (idx w i left : ℕ) : Type 0 where
  pub valid : IsValid t
  pub pow2 : IsPow2 t.capacity
  pub inside : idx < t.capacity
  pub order : w ≤ i
  pub short : i + left < t.capacity
  pub free : (n : ℕ) → w ≤ n → n ≤ i → FreeAt t idx n

-- The table after is valid, with the contents and the capacity of the one before.
pub record Keeps (t t' : Bare) : Type 0 where
  pub valid : IsValid t'
  pub same : (f : ℕ → ℕ → ℕ) → weigh f t' ≡ weigh f t
  pub capacity : t'.capacity ≡ t.capacity

pub zero-dead : hpd_live 0 ≡ false
unfolding hpd_live hpd_hash
zero-dead = refl

-- Two offsets below the capacity are two slots.
pub offsets_ne : (c i m n : ℕ) → i < c → m < n → n < c → (i + m) % c ≢ (i + n) % c
offsets_ne c i m n p q r = grind arith

pub in_slot-dead : (f : ℕ → ℕ → ℕ) (x v : ℕ) → hpd_live x ≡ false → in_slot f x v ≡ 0
in_slot-dead f x v h = rw h

pub in_slot-live : (f : ℕ → ℕ → ℕ) (x v : ℕ) → hpd_live x ≡ true → in_slot f x v ≡ f (hpd_hash x) v
in_slot-live f x v h = rw h

pub live-ge-two : (x : ℕ) → hpd_live x ≡ true → 2 ≤ hpd_hash x
unfolding hpd_live
live-ge-two x h = ground arith

pub uncounted-IsValid : (t : Bare) → IsValid t → IsValid (uncount_tomb t)
unfolding uncount_tomb
uncounted-IsValid t v = marked-IsValid t (dec t.tombstone_cnt) t.overflow_violated v

pub weigh-uncount_tomb : (f : ℕ → ℕ → ℕ) (t : Bare) → weigh f (uncount_tomb t) ≡ weigh f t
unfolding uncount_tomb
weigh-uncount_tomb f t = weigh_marked f t (dec t.tombstone_cnt) t.overflow_violated

-- Emptying a slot without a live entry.
pub emptied-Keeps :
    (t : Bare) (r v : ℕ)
    → IsValid t
    → r < t.capacity
    → hpd_live (get_or t.hash_pd r 0) ≡ false
    → Keeps t (put_slot t r 0 v)
emptied-Keeps t r v valid h dead =
    let same : (f : ℕ → ℕ → ℕ) → weigh f (put_slot t r 0 v) ≡ weigh f t = λ f. omega (
      arith,
      put_slot-weigh t r 0 v f valid h,
      in_slot-dead f (get_or t.hash_pd r 0) (get_or t.vals r 0) dead,
      in_slot-dead f 0 v zero-dead,
    ) in
    record {
      valid =
          unfold put_slot in
          put_slot-IsValid t r 0 v t.size t.tombstone_cnt valid
            (omega (arith, same one_each, valid.counted));
      same = same;
      capacity = unfold put_slot in refl;
    }

-- An emptied slot is free, and any other is as it was.
pub FreeAt-emptied :
    (t : Bare) (idx r v n : ℕ)
    → IsValid t
    → r < t.capacity
    → ((idx + n) % t.capacity ≢ r → FreeAt t idx n)
    → FreeAt (put_slot t r 0 v) idx n
unfolding put_slot
FreeAt-emptied t idx r v n valid h free = elim (ℕ_discrete ((idx + n) % t.capacity) r) [
  | yes e ↦ rw (e, get_or-set_self t.hash_pd r 0 0 (omega arith)) zero-dead
  | no ne ↦ rw (get_or-set_ne t.hash_pd r ((idx + n) % t.capacity) 0 0 (λ e. ne (sym e))) (free ne)
]

pub Keeps-trans : {t u v : Bare} → Keeps t u → Keeps u v → Keeps t v
Keeps-trans p q = record {
  valid = q.valid;
  same = λ f. q.same f ∙ p.same f;
  capacity = q.capacity ∙ p.capacity;
}
