-- ===== src/Cache/Interface.antt =====
-- What the cache asks of the table that finds slots by hash: `ht_bare_insert`, `ht_bare_find_all`,
-- `ht_bare_remove_val` and `ht_bare_clear` of src/ht.c, as operations and laws.
use draugr_repo.Base.{ℕ, ◌+◌, ◌≤◌, ◌≡◌, Bool, false, List, if◌then◌else◌, bit_and, count}
use draugr_repo.Base.Visit.{visit}
use draugr_repo.Ht.Slot.{hash_mask}
use draugr_repo.Ht.Bare.Weigh.{is_entry}

-- The part of a hash by which the table knows an entry.
abbrev pub low48 : ℕ → ℕ
low48 hash = bit_and hash hash_mask

-- `weigh f t` is the sum of `f hash val` over the entries of `t`. The laws of insertion are asked of
-- a table that has `CanInsert` only.
pub record Index : Type 1 where
  pub T : Type 0
  pub IsValid : T → Type 0
  pub CanInsert : T → Type 0
  pub weigh : (ℕ → ℕ → ℕ) → T → ℕ
  pub insert : T → ℕ → ℕ → Bool × T
  pub find_all : (S : Type 0) → (S → ℕ → Bool × S) → T → ℕ → S → S
  pub remove_val : T → ℕ → ℕ → Bool × T
  pub clear : T → T
  pub reported : T → ℕ → List ℕ
  pub insert-IsValid :
      (t : T) (hash val : ℕ) → IsValid t → CanInsert t → IsValid (insert t hash val).1
  pub insert-weigh :
      (t : T) (hash val : ℕ)
      → IsValid t
      → CanInsert t
      → (f : ℕ → ℕ → ℕ)
      → weigh f (insert t hash val).1
        ≡ weigh f t + (if (insert t hash val).0 then f (low48 hash) val else 0)
  pub find_all-visit :
      (S : Type 0) (cb : S → ℕ → Bool × S) (t : T) (hash : ℕ) (ctx : S)
      → find_all S cb t hash ctx ≡ visit cb ctx (reported t hash)
  pub reported-stored :
      (t : T) (hash val : ℕ)
      → IsValid t
      → 1 ≤ count val (reported t hash)
      → 1 ≤ weigh (is_entry (low48 hash) val) t
  pub remove_val-IsValid : (t : T) (hash val : ℕ) → IsValid t → IsValid (remove_val t hash val).1
  pub remove_val-weigh :
      (t : T) (hash val : ℕ)
      → IsValid t
      → (f : ℕ → ℕ → ℕ)
      → weigh f (remove_val t hash val).1
          + (if (remove_val t hash val).0 then f (low48 hash) val else 0)
        ≡ weigh f t
  pub remove_val-failed :
      (t : T) (hash val : ℕ)
      → IsValid t
      → (remove_val t hash val).0 ≡ false
      → (remove_val t hash val).1 ≡ t
  pub clear-IsValid : (t : T) → IsValid t → IsValid (clear t)
  pub clear-weigh : (t : T) (f : ℕ → ℕ → ℕ) → IsValid t → weigh f (clear t) ≡ 0
