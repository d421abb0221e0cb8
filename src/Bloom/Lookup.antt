-- ===== src/Bloom/Lookup.antt =====
-- What the Bloom filter answers after any insertions.
use draugr_repo.Base.{ℕ, ◌≡◌, refl, sym, ◌∙◌, Bool, true, ◌&&◌, ◌||◌, List, [], ◌∷◌, ◌==◌, ==_iff}
use mathlib.Core.Path.{ap₂}
use mathlib.Core.Bool.{or_assoc, or-false, or-true}
use draugr_repo.Bloom.{
  Bloom, bloom_filter_hashes, bloom_filter_insert, get_bit, bloom_filter_lookup,
}
use draugr_repo.Bloom.Laws.{
  IsValid, occurs, every, some_of, positions, insert_all, lookup-every, insert-num_bits,
  insert-num_hashes, insert-IsValid, get_bit-insert,
}

-- Whether position `q` belongs to one of the items.
abbrev pub covered : ℕ → ℕ → List (List ℕ) → ℕ → Bool
covered m k items q = some_of (λ item. occurs q (positions m k item)) items

get_bit-insert_all :
    (bf : Bloom) (items : List (List ℕ)) (q : ℕ)
    → IsValid bf
    → get_bit (insert_all bf items).bits q
      ≡ (get_bit bf.bits q || covered bf.num_bits bf.num_hashes items q)
get_bit-insert_all bf [] q valid = sym (or-false (get_bit bf.bits q))
get_bit-insert_all bf (item ∷ items) q valid =
    let bf' = bloom_filter_insert bf item in
    get_bit-insert_all bf' items q (insert-IsValid bf item valid)
    ∙ rw (get_bit-insert bf item q valid, insert-num_bits bf item, insert-num_hashes bf item)
        (or_assoc (get_bit bf.bits q) (occurs q (positions bf.num_bits bf.num_hashes item))
          (covered bf.num_bits bf.num_hashes items q))

every_same : (f g : ℕ → Bool) (ps : List ℕ) → ((p : ℕ) → f p ≡ g p) → every f ps ≡ every g ps
every_same f g [] same = refl
every_same f g (p ∷ ps) same = ap₂ (λ a b. a && b) (same p) (every_same f g ps same)

pub insert_all-num_bits :
    (bf : Bloom) (items : List (List ℕ)) → (insert_all bf items).num_bits ≡ bf.num_bits
insert_all-num_bits bf [] = refl
insert_all-num_bits bf (item ∷ items) =
    insert_all-num_bits (bloom_filter_insert bf item) items ∙ insert-num_bits bf item

pub insert_all-num_hashes :
    (bf : Bloom) (items : List (List ℕ)) → (insert_all bf items).num_hashes ≡ bf.num_hashes
insert_all-num_hashes bf [] = refl
insert_all-num_hashes bf (item ∷ items) =
    insert_all-num_hashes (bloom_filter_insert bf item) items ∙ insert-num_hashes bf item

-- After the insertions of `items` into a valid filter, a nonempty item is found if and only if
-- each of its positions had its bit set before or is a position of an inserted item.
pub lookup-insert_all :
    (bf : Bloom) (items : List (List ℕ)) (byte : ℕ) (bytes : List ℕ)
    → IsValid bf
    → bloom_filter_lookup (insert_all bf items) (byte ∷ bytes)
      ≡ every
          (λ p. get_bit bf.bits p || covered bf.num_bits bf.num_hashes items p)
          (bloom_filter_hashes (byte ∷ bytes) bf.num_bits bf.num_hashes)
lookup-insert_all bf items byte bytes valid =
    lookup-every (insert_all bf items) byte bytes
    ∙ rw (insert_all-num_bits bf items, insert_all-num_hashes bf items)
        (every_same _ _ (bloom_filter_hashes (byte ∷ bytes) bf.num_bits bf.num_hashes)
          (λ p. get_bit-insert_all bf items p valid))

occurs-append_self : (p : ℕ) (ps : List ℕ) → (p == p || occurs p ps) ≡ true
occurs-append_self p ps = rw ((==_iff p p).1 refl) refl

every-occurs :
    (f : ℕ → Bool) (ps : List ℕ) → ((p : ℕ) → occurs p ps ≡ true → f p ≡ true) → every f ps ≡ true
every-occurs f [] h = refl
every-occurs f (p ∷ ps) h =
    rw (h p (occurs-append_self p ps))
      (every-occurs f ps (λ q e. h q (rw (e, or-true (p == q)) refl)))

-- An item that was inserted into a valid filter is found, whatever is inserted after it.
pub lookup-inserted :
    (bf : Bloom) (byte : ℕ) (bytes : List ℕ) (later : List (List ℕ))
    → IsValid bf
    → bloom_filter_lookup (insert_all (bloom_filter_insert bf (byte ∷ bytes)) later) (byte ∷ bytes)
      ≡ true
lookup-inserted bf byte bytes later valid =
    let ps = bloom_filter_hashes (byte ∷ bytes) bf.num_bits bf.num_hashes in
    lookup-insert_all bf ((byte ∷ bytes) ∷ later) byte bytes valid
    ∙ every-occurs
        (λ p. get_bit bf.bits p || covered bf.num_bits bf.num_hashes ((byte ∷ bytes) ∷ later) p) ps
        (λ p e. rw (e, or-true (get_bit bf.bits p)) refl)
