-- ===== src/Ht/Table.antt =====
-- The lookups of the high-level table of src/ht.c, from keys to values in bytes, over the bare
-- table, which maps a hash to numbers of entries.
pub mod Lookup
mod Tests
use draugr_repo.Base.{
  ℕ, zero, suc, Bool, true, false, ◌&&◌, not, Option, none, some, List, [], ◌∷◌, length, get_or,
  ◌==◌, if◌then◌else◌, u16, ◌>>>◌,
}
use draugr_repo.Ht.Bare.{Bare}
use draugr_repo.Ht.Bare.FindAll.{ht_bare_find_all}

-- `ht_entry_t`, with the block behind `kv_ptr` as its two parts; the lengths are those of the parts.
pub record Entry : Type 0 where
  pub hash_hi : ℕ
  pub key : List ℕ
  pub value : List ℕ

-- What the lookups read of `struct ht_table`. `eq_fn` may be null.
pub record Table : Type 0 where
  pub bare : Bare
  pub entries : List Entry
  pub hash_fn : List ℕ → ℕ
  pub eq_fn : Option (List ℕ → List ℕ → Bool)

abbrev pub no_entry : Entry
no_entry = record { hash_hi = 0; key = []; value = [] }

-- `t->entries[eidx]`
abbrev pub entry_at : Table → ℕ → Entry
entry_at t eidx = get_or t.entries eidx no_entry

-- `memcmp(…) == 0` on as many bytes.
unfoldable pub memcmp_eq : List ℕ → List ℕ → Bool
memcmp_eq [] bs = true
memcmp_eq (a ∷ as') [] = true
memcmp_eq (a ∷ as') (b ∷ bs) = a == b && memcmp_eq as' bs

-- `eq_fn` where there is one, else the bytes.
unfoldable pub keys_equal : Option (List ℕ → List ℕ → Bool) → List ℕ → List ℕ → Bool
keys_equal none key_a key_b = memcmp_eq key_a key_b
keys_equal (some eq_fn) key_a key_b = eq_fn key_a key_b

unfoldable pub keys_match : Table → ℕ → ℕ → List ℕ → Bool
keys_match t eidx hash_hi key =
    let e = entry_at t eidx in
    if not (e.hash_hi == hash_hi)
    then false
    else if not (length e.key == length key)
    then false
    else keys_equal t.eq_fn e.key key

unfoldable pub vals_match : Table → ℕ → List ℕ → Bool
vals_match t eidx val =
    let e = entry_at t eidx in
    if not (length e.value == length val) then false else memcmp_eq e.value val

-- The upper bits of a hash, `(uint16_t)(hash >> 48)`.
abbrev pub hash_hi_of : ℕ → ℕ
hash_hi_of hash = u16 (hash >>> 48)

-- A search that keeps the first number that passes a test, `eidx` and `found` being an option.
abbrev pub keep_match : (ℕ → Bool) → Option ℕ → ℕ → Bool × Option ℕ
keep_match test found val = if test val then (false, some val) else (true, found)

abbrev pub value_of : Table → Option ℕ → Option (List ℕ)
value_of t none = none
value_of t (some eidx) = some (entry_at t eidx).value

abbrev pub hl_find_one_cb : Table → ℕ → List ℕ → Option ℕ → ℕ → Bool × Option ℕ
hl_find_one_cb t hash_hi key = keep_match (λ val. keys_match t val hash_hi key)

unfoldable pub ht_find_with_hash : Table → ℕ → List ℕ → Option (List ℕ)
ht_find_with_hash t hash key =
    value_of t (ht_bare_find_all (hl_find_one_cb t (hash_hi_of hash) key) t.bare hash none)

unfoldable pub ht_find : Table → List ℕ → Option (List ℕ)
ht_find t key = ht_find_with_hash t (t.hash_fn key) key

abbrev pub hl_kv_find_cb : Table → ℕ → List ℕ → List ℕ → Option ℕ → ℕ → Bool × Option ℕ
hl_kv_find_cb t hash_hi key value =
    keep_match (λ val. keys_match t val hash_hi key && vals_match t val value)

unfoldable pub ht_find_kv_with_hash : Table → ℕ → List ℕ → List ℕ → Option (List ℕ)
ht_find_kv_with_hash t hash key value =
    value_of t (ht_bare_find_all (hl_kv_find_cb t (hash_hi_of hash) key value) t.bare hash none)

unfoldable pub ht_find_kv : Table → List ℕ → List ℕ → Option (List ℕ)
ht_find_kv t key value = ht_find_kv_with_hash t (t.hash_fn key) key value

-- `user_cb` is given the key and the value of an entry, with its context.
module _ {S : Type 0} (user_cb : S → List ℕ → List ℕ → Bool × S) where
  abbrev pub hl_find_all_cb : Table → S → ℕ → Bool × S
  hl_find_all_cb t user_ctx val = let e = entry_at t val in user_cb user_ctx e.key e.value

  unfoldable pub ht_find_all : Table → ℕ → S → S
  ht_find_all t hash user_ctx = ht_bare_find_all (hl_find_all_cb t) t.bare hash user_ctx

  abbrev pub hl_key_find_cb : Table → ℕ → List ℕ → S → ℕ → Bool × S
  hl_key_find_cb t hash_hi key user_ctx val =
      if keys_match t val hash_hi key then hl_find_all_cb t user_ctx val else (true, user_ctx)

  unfoldable pub ht_find_key_all_with_hash : Table → ℕ → List ℕ → S → S
  ht_find_key_all_with_hash t hash key user_ctx =
      ht_bare_find_all (hl_key_find_cb t (hash_hi_of hash) key) t.bare hash user_ctx

  unfoldable pub ht_find_key_all : Table → List ℕ → S → S
  ht_find_key_all t key user_ctx = ht_find_key_all_with_hash t (t.hash_fn key) key user_ctx
