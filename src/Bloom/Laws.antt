-- ===== src/Bloom/Laws.antt =====
-- What an insertion into the Bloom filter does to the bits, and what a lookup reads.
use draugr_repo.Base.{
  ℕ, zero, suc, ◌+◌, ◌/◌, ◌<◌, ◌≤◌, ◌*◌, ◌≡◌, refl, sym, subst, ap, ◌∙◌, arith, Bool, true, false,
  not, ◌&&◌, ◌||◌, List, [], ◌∷◌, inl, inr, Bool-cases, ◌==◌, ==_iff, ==_false, length,
  if◌then◌else◌,
}
use mathlib.Core.Bool.{or_assoc, or-false, or-true}
use native.Mathlib.Nat.{mod-lt}
use draugr_repo.Bloom.{
  Bloom, position, hashes_from, bloom_filter_hashes, double_hash, set_bit, insert_from,
  bloom_filter_insert, get_bit, lookup_from, bloom_filter_lookup,
}
use draugr_repo.Bloom.Marks.{
  bit_of, get_bit-bit_of, set_bit_self, set_bit_ne, length-set_bit, word-lt,
}

-- The array has a word for each bit, and there is a bit.
pub record IsValid (bf : Bloom) : Type 0 where
  pub covered : bf.num_bits ≤ 64 * length bf.bits
  pub inhabited : 0 < bf.num_bits

-- Whether `q` is one of the positions.
abbrev pub occurs : ℕ → List ℕ → Bool
occurs q [] = false
occurs q (p ∷ ps) = p == q || occurs q ps

abbrev pub every {ℓ} : {A : Type ℓ} → (A → Bool) → List A → Bool
every test [] = true
every test (x ∷ xs) = test x && every test xs

abbrev pub some_of {ℓ} : {A : Type ℓ} → (A → Bool) → List A → Bool
some_of test [] = false
some_of test (x ∷ xs) = test x || some_of test xs

position-lt : (m : ℕ) (h : ℕ × ℕ) (i : ℕ) → 0 < m → position m h i < m
unfolding position
position-lt m (h1, h2) i some_bits = mod-lt _ some_bits

get_bit-set_bit :
    (bits : List ℕ) (p q : ℕ)
    → p / 64 < length bits
    → get_bit (set_bit bits p) q ≡ (get_bit bits q || p == q)
get_bit-set_bit bits p q h = elim (Bool-cases (p == q)) [
  | inl same ↦
      let e : bit_of (set_bit bits p) q ≡ 1 =
        subst (λ k. bit_of (set_bit bits p) k ≡ 1) ((==_iff p q).0 same) (set_bit_self bits p h) in
      rw (get_bit-bit_of, e, same, or-true (get_bit bits q)) refl
  | inr other ↦
      rw
        (
          other,
          or-false (get_bit bits q),
          get_bit-bit_of (set_bit bits p) q,
          get_bit-bit_of bits q,
          set_bit_ne bits p q h (==_false p q other),
        )
        refl
]

length-insert_from :
    (m : ℕ) (h : ℕ × ℕ) (bits : List ℕ) (i left : ℕ)
    → length (insert_from m h bits i left) ≡ length bits
unfolding insert_from
length-insert_from m h bits i zero = refl
length-insert_from m h bits i (suc left) =
    length-insert_from m h (set_bit bits (position m h i)) (i + 1) left
    ∙ length-set_bit bits (position m h i)

get_bit-insert_from :
    (m : ℕ) (h : ℕ × ℕ) (bits : List ℕ) (i left q : ℕ)
    → 0 < m
    → m ≤ 64 * length bits
    → get_bit (insert_from m h bits i left) q
      ≡ (get_bit bits q || occurs q (hashes_from m h i left))
unfolding insert_from hashes_from
get_bit-insert_from m h bits i zero q some_bits e = sym (or-false (get_bit bits q))
get_bit-insert_from m h bits i (suc left) q some_bits e =
    let p = position m h i in
    let inside : p / 64 < length bits = word-lt m p (length bits) (position-lt m h i some_bits) e in
    get_bit-insert_from m h (set_bit bits p) (i + 1) left q some_bits
      (omega (arith, e, length-set_bit bits p))
    ∙ ap (λ b. b || occurs q (hashes_from m h (i + 1) left)) (get_bit-set_bit bits p q inside)
    ∙ or_assoc (get_bit bits q) (p == q) (occurs q (hashes_from m h (i + 1) left))

guarded : (b rest : Bool) → (if not b then false else rest) ≡ (b && rest)
guarded true rest = refl
guarded false rest = refl

lookup_from-every :
    (m : ℕ) (h : ℕ × ℕ) (bits : List ℕ) (i left : ℕ)
    → lookup_from m h bits i left ≡ every (get_bit bits) (hashes_from m h i left)
unfolding lookup_from hashes_from
lookup_from-every m h bits i zero = refl
lookup_from-every m h bits i (suc left) =
    guarded (get_bit bits (position m h i)) (lookup_from m h bits (i + 1) left)
    ∙ ap (λ b. get_bit bits (position m h i) && b) (lookup_from-every m h bits (i + 1) left)

-- The positions an item stands for: none for an empty item, which is never inserted.
abbrev pub positions : ℕ → ℕ → List ℕ → List ℕ
positions m k [] = []
positions m k (byte ∷ bytes) = bloom_filter_hashes (byte ∷ bytes) m k

abbrev pub insert_all : Bloom → List (List ℕ) → Bloom
insert_all bf [] = bf
insert_all bf (item ∷ items) = insert_all (bloom_filter_insert bf item) items

pub lookup-every :
    (bf : Bloom) (byte : ℕ) (bytes : List ℕ)
    → bloom_filter_lookup bf (byte ∷ bytes)
      ≡ every (get_bit bf.bits) (positions bf.num_bits bf.num_hashes (byte ∷ bytes))
unfolding bloom_filter_lookup bloom_filter_hashes
lookup-every bf byte bytes =
    lookup_from-every bf.num_bits (double_hash (byte ∷ bytes)) bf.bits 0 bf.num_hashes

pub insert-num_bits :
    (bf : Bloom) (item : List ℕ) → (bloom_filter_insert bf item).num_bits ≡ bf.num_bits
unfolding bloom_filter_insert
insert-num_bits bf [] = refl
insert-num_bits bf (byte ∷ bytes) = refl

pub insert-num_hashes :
    (bf : Bloom) (item : List ℕ) → (bloom_filter_insert bf item).num_hashes ≡ bf.num_hashes
unfolding bloom_filter_insert
insert-num_hashes bf [] = refl
insert-num_hashes bf (byte ∷ bytes) = refl

pub insert-IsValid :
    (bf : Bloom) (item : List ℕ) → IsValid bf → IsValid (bloom_filter_insert bf item)
unfolding bloom_filter_insert
insert-IsValid bf [] valid = valid
insert-IsValid bf (byte ∷ bytes) valid = record {
  covered = omega (
    arith,
    valid.covered,
    length-insert_from bf.num_bits (double_hash (byte ∷ bytes)) bf.bits 0 bf.num_hashes,
  );
  inhabited = valid.inhabited;
}

-- The insertion of an item into a valid filter sets the bits of the item's positions, and changes
-- no other bit.
pub get_bit-insert :
    (bf : Bloom) (item : List ℕ) (q : ℕ)
    → IsValid bf
    → get_bit (bloom_filter_insert bf item).bits q
      ≡ (get_bit bf.bits q || occurs q (positions bf.num_bits bf.num_hashes item))
unfolding bloom_filter_insert bloom_filter_hashes
get_bit-insert bf [] q valid = sym (or-false (get_bit bf.bits q))
get_bit-insert bf (byte ∷ bytes) q valid =
    get_bit-insert_from bf.num_bits (double_hash (byte ∷ bytes)) bf.bits 0 bf.num_hashes q
      valid.inhabited valid.covered
