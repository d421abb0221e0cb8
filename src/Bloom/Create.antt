-- ===== src/Bloom/Create.antt =====
-- New filters, and `bloom_filter_reset`.
use draugr_repo.Base.{
  ℕ, zero, suc, ◌≤◌, ◌-◌, ◌^◌, ◌≡◌, refl, sym, subst, ◌∙◌, arith, Bool, true, false, ◌||◌, Option,
  none, some, List, [], ◌∷◌, ◌==◌, if◌then◌else◌, replicate, length-replicate,
}
use mathlib.Core.Option.{none-ne-some, some-injective}
use mathlib.Core.Bool.{or-true, true≢false}
use draugr_repo.Bloom.{
  Bloom, position, double_hash, num_words, bloom_filter_create_raw, bloom_filter_reset, lookup_from,
  bloom_filter_lookup,
}
use draugr_repo.Bloom.Marks.{get_bit-bit_of, bit_of-replicate, num_words-enough}
use draugr_repo.Bloom.Laws.{IsValid, insert_all}
use draugr_repo.Bloom.Lookup.{insert_all-num_bits, insert_all-num_hashes}

-- A result behind a guard that refuses.
unguard :
    (b : Bool) (x : Option Bloom) {y : Bloom}
    → (if b then none else x) ≡ some y
    → (b ≡ false) × (x ≡ some y)
unguard true x {y} e = absurd (none-ne-some y e)
unguard false x e = (refl, e)

fresh : ℕ → ℕ → Bloom
fresh m k = record { bits = replicate (num_words m) 0; num_bits = m; count = 0; num_hashes = k }

create_raw-fresh :
    (malloc : ℕ → Bool) (m k : ℕ) (bf : Bloom)
    → bloom_filter_create_raw malloc m k ≡ some bf
    → ((m == 0 || k == 0) ≡ false) × (fresh m k ≡ bf)
unfolding bloom_filter_create_raw fresh
create_raw-fresh malloc m k bf made =
    let (sizes, after_sizes) = unguard _ _ made in
    let (_, after_filter) = unguard _ _ after_sizes in
    let (_, after_bits) = unguard _ _ after_filter in (sizes, some-injective _ _ after_bits)

fresh-Empty :
    (m k : ℕ)
    → m ≤ 2 ^ 64 - 64
    → (m == 0 || k == 0) ≡ false
    → IsValid (fresh m k) × ((item : List ℕ) → bloom_filter_lookup (fresh m k) item ≡ false)
unfolding fresh bloom_filter_lookup lookup_from
fresh-Empty zero k small e = absurd (true≢false e)
fresh-Empty (suc m) zero small e = absurd (true≢false (sym (or-true (suc m == 0)) ∙ e))
fresh-Empty (suc m) (suc k) small e = (
  record {
    covered =
        omega
          (arith, num_words-enough (suc m) small, length-replicate {A = ℕ} (num_words (suc m)) 0);
    inhabited = omega arith;
  },
  elim [
    | [] ↦ refl
    | (byte ∷ bytes) ↦
        let p = position (suc m) (double_hash (byte ∷ bytes)) 0 in
        let bits : List ℕ = replicate (num_words (suc m)) 0 in
        rw (get_bit-bit_of bits p, bit_of-replicate (num_words (suc m)) p) refl
  ],
)

-- A filter of at most 2 ^ 64 - 64 bits that `bloom_filter_create_raw` returns is valid, and it finds
-- no item.
pub create_raw-Empty :
    (malloc : ℕ → Bool) (m k : ℕ) (bf : Bloom)
    → m ≤ 2 ^ 64 - 64
    → bloom_filter_create_raw malloc m k ≡ some bf
    → IsValid bf × ((item : List ℕ) → bloom_filter_lookup bf item ≡ false)
create_raw-Empty malloc m k bf small made =
    let (sizes, e) = create_raw-fresh malloc m k bf made in
    subst (λ b. IsValid b × ((item : List ℕ) → bloom_filter_lookup b item ≡ false)) e
      (fresh-Empty m k small sizes)

reset-fresh :
    (bf : Bloom) (m k : ℕ) → bf.num_bits ≡ m → bf.num_hashes ≡ k → bloom_filter_reset bf ≡ fresh m k
unfolding bloom_filter_reset fresh
reset-fresh bf m k e e' = rw (e, e') refl

fresh_again : (m k : ℕ) (bf : Bloom) → fresh m k ≡ bf → fresh bf.num_bits bf.num_hashes ≡ bf
unfolding fresh
fresh_again m k bf e = subst (λ b. fresh b.num_bits b.num_hashes ≡ b) e refl

-- `bloom_filter_reset` takes a filter back to what `bloom_filter_create_raw` made, whatever was
-- inserted since.
pub reset-insert_all :
    (malloc : ℕ → Bool) (m k : ℕ) (items : List (List ℕ)) (bf : Bloom)
    → bloom_filter_create_raw malloc m k ≡ some bf
    → bloom_filter_reset (insert_all bf items) ≡ bf
reset-insert_all malloc m k items bf made =
    reset-fresh (insert_all bf items) bf.num_bits bf.num_hashes (insert_all-num_bits bf items)
      (insert_all-num_hashes bf items)
    ∙ fresh_again m k bf (create_raw-fresh malloc m k bf made).1
