-- ===== src/Cache/Table.antt =====
-- The bare hash table as the table of the cache.
use draugr_repo.Base.{
  ℕ, ◌+◌, ◌≤◌, ◌≡◌, sym, ap, subst, arith, Bool, true, false, if◌then◌else◌, count, Option, none,
  some, Gives, ◌^◌,
}
use mathlib.Core.Bool.{true≢false}
use draugr_repo.Ht.Bare.{Bare}
use draugr_repo.Ht.Bare.Weigh.{weigh, copies, is_entry}
use draugr_repo.Ht.Bare.Valid.{IsValid, Removed}
use draugr_repo.Ht.Bare.Insert.Slots.{IsPow2}
use draugr_repo.Ht.Bare.Probe.{ht_bare_remove_val}
use draugr_repo.Ht.Bare.Probe.Remove.{ht_bare_remove_val-Removed, ht_bare_remove_val-capacity}
use draugr_repo.Ht.Bare.FindAll.{ht_bare_find_all}
use draugr_repo.Ht.Bare.FindAll.Reported.{reported, ht_bare_find_all-visit, reported-stored}
use draugr_repo.Ht.Bare.Life.{ht_bare_clear}
use draugr_repo.Ht.Bare.Life.Clear.{ht_bare_clear-Empty}
use draugr_repo.Ht.Bare.Growth.{ht_bare_insert}
use draugr_repo.Ht.Bare.Growth.Stored.{IsReady, Inserted}
use draugr_repo.Ht.Bare.Growth.Inserts.{ht_bare_insert-Inserted}
use draugr_repo.Pow2.Least.{CountsZeros}
use draugr_repo.Cache.Interface.{Index, low48}

-- A table that the probes stay inside.
pub record IsSound (t : Bare) : Type 0 where
  pub valid : IsValid t
  pub pow2 : IsPow2 t.capacity

-- The weights after a removal, on both branches.
pub remove_sound-weigh :
    (t : Bare) (h v : ℕ) (r : Bool × Bare)
    → Removed t h v r
    → (f : ℕ → ℕ → ℕ) → weigh f (r.1) + (if r.0 then f h v else 0) ≡ weigh f t
remove_sound-weigh t h v (true, t') (valid, lost) f = lost f
remove_sound-weigh t h v (false, t') same f = omega (arith, ap (weigh f) same)

pub remove_sound-IsValid :
    (t : Bare) (h v : ℕ) (r : Bool × Bare) → IsValid t → Removed t h v r → IsValid (r.1)
remove_sound-IsValid t h v (true, t') valid (valid', lost) = valid'
remove_sound-IsValid t h v (false, t') valid same = subst IsValid (sym same) valid

pub remove_sound-failed :
    (t : Bare) (h v : ℕ) (r : Bool × Bare) → Removed t h v r → r.0 ≡ false → r.1 ≡ t
remove_sound-failed t h v (true, t') removed e = absurd (true≢false e)
remove_sound-failed t h v (false, t') same e = same

pub stored :
    (t : Bare) (hash val : ℕ)
    → IsSound t
    → 1 ≤ count val (reported t hash)
    → 1 ≤ weigh (is_entry (low48 hash) val) t
stored t hash val sound there =
    unfold copies in reported-stored t hash val sound.valid sound.pow2 there

-- A table that `ht_bare_insert` ends for: one with an empty slot, whose slots, entries and lane
-- are within the bounds.
pub record CanInsert (t : Bare) : Type 0 where
  pub ready : IsReady t t
  pub few : t.size ≤ 2 ^ 15
  pub lane_few : t.spill_cap ≤ 2 ^ 59

pub Inserted-IsSound : (t : Bare) (h v : ℕ) (r : Bool × Bare) → Inserted t h v r → IsSound (r.1)
Inserted-IsSound t h v (true, t') (valid, proper, pow2, added) = record {
  valid = valid;
  pow2 = pow2;
}
Inserted-IsSound t h v (false, t') (valid, proper, pow2, same) = record {
  valid = valid;
  pow2 = pow2;
}

pub Inserted-weigh :
    (t : Bare) (h v : ℕ) (r : Bool × Bare) (f : ℕ → ℕ → ℕ)
    → Inserted t h v r
    → weigh f (r.1) ≡ weigh f t + (if r.0 then f h v else 0)
Inserted-weigh t h v (true, t') f (valid, proper, pow2, added) = added f
Inserted-weigh t h v (false, t') f (valid, proper, pow2, same) = omega (arith, same f)

-- The result of a call that ends; `t` is for one that does not.
pub ended : Bare → Option (Bool × Bare) → Bool × Bare
ended t none = (false, t)
ended t (some r) = r

ended-Gives :
    (P : Bool × Bare → Type 0) (t : Bare) (result : Option (Bool × Bare))
    → Gives P result
    → P (ended t result)
unfolding ended
ended-Gives P t result (r, ends, p) = rw ends p

module _ (clz : Option (ℕ → ℕ)) (calloc malloc : ℕ → ℕ → Bool) (raw : Bare → ℕ)
    (overloaded : Bare → ℕ → Bool) (grow : Bare → Bool × Bare)
    (spacing : (u : Bare) → raw u ≤ 2 ^ 62) (z : CountsZeros clz) where
  unfoldable pub table_insert : Bare → ℕ → ℕ → Bool × Bare
  unfolding ended
  table_insert t hash val =
      ended t (ht_bare_insert clz calloc malloc raw overloaded grow t hash val)

  pub table_insert-Inserted :
      (t : Bare) (hash val : ℕ)
      → CanInsert t
      → Inserted t (low48 hash) val (table_insert t hash val)
  unfolding table_insert
  table_insert-Inserted t hash val can = ended-Gives (Inserted t (low48 hash) val) t _ (
      ht_bare_insert-Inserted clz calloc malloc raw overloaded grow t can.ready spacing z can.few
        can.lane_few hash val)

  -- The operations of the bare table fulfil the interface.
  abbrev pub bare_index : Index
  bare_index = record {
    T = Bare;
    IsValid = IsSound;
    weigh = weigh;
    insert = table_insert;
    CanInsert = CanInsert;
    find_all = λ S cb. ht_bare_find_all cb;
    remove_val = ht_bare_remove_val;
    clear = ht_bare_clear;
    reported = reported;
    insert-IsValid = λ t hash val sound can.
        Inserted-IsSound t (low48 hash) val (table_insert t hash val)
          (table_insert-Inserted t hash val can);
    insert-weigh = λ t hash val sound can f.
        Inserted-weigh t (low48 hash) val (table_insert t hash val) f
          (table_insert-Inserted t hash val can);
    find_all-visit = λ S cb t hash ctx. ht_bare_find_all-visit cb t hash ctx;
    reported-stored = stored;
    remove_val-IsValid = λ t hash val sound. record {
      valid =
          remove_sound-IsValid t (low48 hash) val (ht_bare_remove_val t hash val) sound.valid
            (ht_bare_remove_val-Removed t sound.valid sound.pow2 hash val);
      pow2 =
          subst IsPow2 (sym (ht_bare_remove_val-capacity t sound.valid sound.pow2 hash val))
            sound.pow2;
    };
    remove_val-weigh = λ t hash val sound.
        remove_sound-weigh t (low48 hash) val (ht_bare_remove_val t hash val)
          (ht_bare_remove_val-Removed t sound.valid sound.pow2 hash val);
    remove_val-failed = λ t hash val sound.
        remove_sound-failed t (low48 hash) val (ht_bare_remove_val t hash val)
          (ht_bare_remove_val-Removed t sound.valid sound.pow2 hash val);
    clear-IsValid = λ t sound. record {
      valid = (ht_bare_clear-Empty t sound.valid).0;
      pow2 = subst IsPow2 (sym (ht_bare_clear-Empty t sound.valid).1) sound.pow2;
    };
    clear-weigh = λ t f sound. (ht_bare_clear-Empty t sound.valid).2 f;
  }
