-- ===== src/Ht/Table/Lookup.antt =====
-- What the lookups of the high-level table find, among the entries that the bare table reports.
use draugr_repo.Base.{
  ℕ, ◌≤◌, ◌≡◌, refl, ◌∙◌, arith, Bool, true, false, ◌&&◌, Option, none, some, List, [], ◌∷◌, length,
  count, inl, inr, Bool-cases, ◌==◌, bit_and,
}
use draugr_repo.Base.Visit.{visit}
use draugr_repo.Ht.Slot.{hash_mask}
use draugr_repo.Ht.Bare.Weigh.{copies}
use draugr_repo.Ht.Bare.Valid.{IsValid}
use draugr_repo.Ht.Bare.Insert.Slots.{IsPow2}
use draugr_repo.Ht.Bare.FindAll.Reported.{reported, ht_bare_find_all-visit, reported-stored}
use draugr_repo.Ht.Table.{
  Table, entry_at, memcmp_eq, keys_equal, keys_match, vals_match, hash_hi_of, keep_match, value_of,
  hl_find_one_cb, ht_find_with_hash, ht_find, ht_find_kv_with_hash, hl_key_find_cb,
  ht_find_key_all_with_hash, ht_find_key_all,
}

-- The end of a search of a list for the first number that passes a test: that number is of the
-- list, or none of the list passes.
abbrev Picked : (ℕ → Bool) → List ℕ → Option ℕ → Type 0
Picked test vals (some v) = (1 ≤ count v vals) × (test v ≡ true)
Picked test vals none = (v : ℕ) → 1 ≤ count v vals → test v ≡ false

Picked-tail :
    (test : ℕ → Bool) (val : ℕ) (vals : List ℕ) (found : Option ℕ)
    → test val ≡ false
    → Picked test vals found
    → Picked test (val ∷ vals) found
Picked-tail test val vals (some v) skip (there, good) = (ground (arith, there), good)
Picked-tail test val vals none skip all = λ v there. elim (Bool-cases (val == v)) [
  | inl e ↦ (let same : val ≡ v = ground (arith, e) in rw same at skip)
  | inr ne ↦ all v (ground (arith, ne, there))
]

visit-Picked :
    (test : ℕ → Bool) (vals : List ℕ) → Picked test vals (visit (keep_match test) none vals)
visit-Picked test [] = λ v there. absurd (omega (arith, there))
visit-Picked test (val ∷ vals) = elim (Bool-cases (test val)) [
  | inl good ↦ rw good (here val vals, good)
  | inr skip ↦ rw skip (Picked-tail test val vals _ skip (visit-Picked test vals))
]
  where
    here : (v : ℕ) (vs : List ℕ) → 1 ≤ count v (v ∷ vs)
    here v vs = ground arith

memcmp_eq-same : (as' bs : List ℕ) → length as' ≡ length bs → memcmp_eq as' bs ≡ true → as' ≡ bs
unfolding memcmp_eq
memcmp_eq-same [] [] e same = refl
memcmp_eq-same [] (b ∷ bs) e same = absurd (omega (arith, e))
memcmp_eq-same (a ∷ as') [] e same = absurd (omega (arith, e))
memcmp_eq-same (a ∷ as') (b ∷ bs) e same =
    let first : a ≡ b = ground (arith, same) in
    let rest : memcmp_eq as' bs ≡ true = ground (arith, same) in
    rw (first, memcmp_eq-same as' bs (omega (arith, e)) rest) refl

-- Without `eq_fn` a match is the same key under the same upper bits of the hash.
keys_match-same :
    (t : Table) (eidx hash_hi : ℕ) (key : List ℕ)
    → t.eq_fn ≡ none
    → keys_match t eidx hash_hi key ≡ true
    → ((entry_at t eidx).hash_hi ≡ hash_hi) × ((entry_at t eidx).key ≡ key)
unfolding keys_match keys_equal
keys_match-same t eidx hash_hi key plain same =
    let e = entry_at t eidx in
    let upper : e.hash_hi ≡ hash_hi = ground (arith, same) in
    let sized : length e.key ≡ length key = ground (arith, same) in
    let equal : keys_equal t.eq_fn e.key key ≡ true = ground (arith, same) in
    let bytes : memcmp_eq e.key key ≡ true = bytewise t.eq_fn e.key key plain ∙ equal in
    (upper, memcmp_eq-same e.key key sized bytes)
  where
    bytewise :
        (eq_fn : Option (List ℕ → List ℕ → Bool)) (a b : List ℕ)
        → eq_fn ≡ none
        → memcmp_eq a b ≡ keys_equal eq_fn a b
    bytewise eq_fn a b e = rw e refl

vals_match-same :
    (t : Table) (eidx : ℕ) (val : List ℕ)
    → vals_match t eidx val ≡ true
    → (entry_at t eidx).value ≡ val
unfolding vals_match
vals_match-same t eidx val same =
    let e = entry_at t eidx in
    let sized : length e.value ≡ length val = ground (arith, same) in
    let bytes : memcmp_eq e.value val ≡ true = ground (arith, same) in
    memcmp_eq-same e.value val sized bytes

module _ (t : Table) (valid : IsValid t.bare) (pow2 : IsPow2 t.bare.capacity) where
  -- An entry that the bare table stores under the hash.
  abbrev pub Stored : ℕ → ℕ → Type 0
  Stored hash eidx = 1 ≤ copies (bit_and hash hash_mask) eidx t.bare

  -- A lookup yields the value of a stored entry that matches, or none that is reported matches.
  abbrev pub Found : ℕ → List ℕ → Option (List ℕ) → Type 0
  Found hash key (some value) =
      (eidx : ℕ) × Stored hash eidx
      × (keys_match t eidx (hash_hi_of hash) key ≡ true)
      × (value ≡ (entry_at t eidx).value)
  Found hash key none =
      (eidx : ℕ)
      → 1 ≤ count eidx (reported t.bare hash)
      → keys_match t eidx (hash_hi_of hash) key ≡ false

  search-Found :
      (hash : ℕ) (key : List ℕ) (found : Option ℕ)
      → Picked (λ v. keys_match t v (hash_hi_of hash) key) (reported t.bare hash) found
      → Found hash key (value_of t found)
  search-Found hash key (some v) (there, good) =
      (v, reported-stored t.bare hash v valid pow2 there, good, refl)
  search-Found hash key none all = all

  -- In a valid table whose capacity is a power of two, a lookup of a key yields the value of an
  -- entry that the bare table stores under the hash of the key and that matches the key; or it
  -- yields none, and no entry that the bare table reports for the hash matches.
  pub ht_find-Found : (key : List ℕ) → Found (t.hash_fn key) key (ht_find t key)
  unfolding ht_find ht_find_with_hash
  ht_find-Found key =
      let hash = t.hash_fn key in
      let test : ℕ → Bool = λ v. keys_match t v (hash_hi_of hash) key in
      rw (ht_bare_find_all-visit (keep_match test) t.bare hash none)
        (search-Found hash key _ (visit-Picked test (reported t.bare hash)))

  abbrev pub FoundKv : ℕ → List ℕ → List ℕ → Option (List ℕ) → Type 0
  FoundKv hash key value (some value') =
      (value' ≡ value)
      × (eidx : ℕ) × Stored hash eidx
      × ((entry_at t eidx).key ≡ key)
      × ((entry_at t eidx).value ≡ value)
  FoundKv hash key value none =
      (eidx : ℕ)
      → 1 ≤ count eidx (reported t.bare hash)
      → (keys_match t eidx (hash_hi_of hash) key && vals_match t eidx value) ≡ false

  search-FoundKv :
      (hash : ℕ) (key value : List ℕ) (found : Option ℕ)
      → t.eq_fn ≡ none
      → Picked
          (λ v. keys_match t v (hash_hi_of hash) key && vals_match t v value)
          (reported t.bare hash)
          found
      → FoundKv hash key value (value_of t found)
  search-FoundKv hash key value (some v) plain (there, good) =
      let of_key : keys_match t v (hash_hi_of hash) key ≡ true = ground (arith, good) in
      let of_value : vals_match t v value ≡ true = ground (arith, good) in
      let same = vals_match-same t v value of_value in
      (
        same,
        v,
        reported-stored t.bare hash v valid pow2 there,
        (keys_match-same t v (hash_hi_of hash) key plain of_key).1,
        same,
      )
  search-FoundKv hash key value none plain all = all

  -- In a valid table whose capacity is a power of two, and that compares keys by their bytes, the
  -- lookup of a key with a value yields that value, and there is an entry that the bare table stores
  -- under the hash with this key and this value; or it yields none, and no entry that the bare table
  -- reports for the hash matches both.
  pub ht_find_kv_with_hash-Found :
      (hash : ℕ) (key value : List ℕ)
      → t.eq_fn ≡ none
      → FoundKv hash key value (ht_find_kv_with_hash t hash key value)
  unfolding ht_find_kv_with_hash
  ht_find_kv_with_hash-Found hash key value plain =
      let test : ℕ → Bool = λ v. keys_match t v (hash_hi_of hash) key && vals_match t v value in
      rw (ht_bare_find_all-visit (keep_match test) t.bare hash none)
        (search-FoundKv hash key value _ plain (visit-Picked test (reported t.bare hash)))

-- A callback that keeps the first value.
abbrev pub first_value : Option (List ℕ) → List ℕ → List ℕ → Bool × Option (List ℕ)
first_value found key value = (false, some value)

visit-first_value :
    (t : Table) (hash_hi : ℕ) (key : List ℕ) (vals : List ℕ)
    → visit (hl_key_find_cb first_value t hash_hi key) none vals
      ≡ value_of t (visit (hl_find_one_cb t hash_hi key) none vals)
visit-first_value t hash_hi key [] = refl
visit-first_value t hash_hi key (v ∷ vals) = elim (Bool-cases (keys_match t v hash_hi key)) [
  | inl good ↦ rw good refl
  | inr skip ↦ rw skip (visit-first_value t hash_hi key vals)
]

-- `ht_find_key_all` with a callback that keeps the first value and stops the search ends with what
-- `ht_find` returns.
pub ht_find_key_all-ht_find :
    (t : Table) (key : List ℕ) → ht_find_key_all first_value t key none ≡ ht_find t key
unfolding ht_find_key_all ht_find_key_all_with_hash ht_find ht_find_with_hash
ht_find_key_all-ht_find t key =
    let hash = t.hash_fn key in
    rw
      (
        ht_bare_find_all-visit (hl_key_find_cb first_value t (hash_hi_of hash) key) t.bare hash
            none,
        ht_bare_find_all-visit (hl_find_one_cb t (hash_hi_of hash) key) t.bare hash none,
      )
      (visit-first_value t (hash_hi_of hash) key (reported t.bare hash))
