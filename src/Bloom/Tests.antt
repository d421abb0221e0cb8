-- ===== src/Bloom/Tests.antt =====
-- A filter of 100 bits and three hash functions, and the theorems at it.
use draugr_repo.Base.{arith, ℕ, ◌≡◌, refl, Bool, true, false, ◌||◌, some, [], ◌∷◌}
use draugr_repo.Bloom.{
  Bloom, position, hashes_from, bloom_filter_hashes, double_hash, num_words,
  bloom_filter_create_raw, bloom_filter_reset, set_bit, insert_from, bloom_filter_insert, get_bit,
  lookup_from, bloom_filter_lookup,
}
use draugr_repo.Bloom.Laws.{IsValid, every, insert_all}
use draugr_repo.Bloom.Lookup.{covered, lookup-insert_all, lookup-inserted}
use draugr_repo.Bloom.Create.{create_raw-Empty}

program : Unit {0}
unfolding double_hash position hashes_from bloom_filter_hashes num_words bloom_filter_create_raw
    bloom_filter_reset set_bit insert_from bloom_filter_insert get_bit lookup_from
    bloom_filter_lookup
program = tt

abbrev no_items : Bloom
no_items = record { bits = 0 ∷ 0 ∷ []; num_bits = 100; count = 0; num_hashes = 3 }

abbrev always : ℕ → Bool
always n = true

created : bloom_filter_create_raw always 100 3 ≡ some no_items
unfolding program
created = refl

no_items-IsValid : IsValid no_items
no_items-IsValid = (create_raw-Empty always 100 3 no_items (omega arith) created).0

found :
    (bloom_filter_lookup (bloom_filter_insert no_items (97 ∷ [])) (97 ∷ []) ≡ true)
    × (bloom_filter_lookup (bloom_filter_insert no_items (97 ∷ [])) (98 ∷ []) ≡ false)
unfolding program
found = (refl, refl)

lookup-insert_all_example :
    bloom_filter_lookup (insert_all no_items ((97 ∷ []) ∷ (98 ∷ []) ∷ [])) (99 ∷ [])
    ≡ every
        (λ p. get_bit no_items.bits p || covered 100 3 ((97 ∷ []) ∷ (98 ∷ []) ∷ []) p)
        (bloom_filter_hashes (99 ∷ []) 100 3)
lookup-insert_all_example =
    lookup-insert_all no_items ((97 ∷ []) ∷ (98 ∷ []) ∷ []) 99 [] no_items-IsValid

lookup-inserted_example :
    bloom_filter_lookup
      (insert_all (bloom_filter_insert no_items (97 ∷ [])) ((98 ∷ []) ∷ []))
      (97 ∷ [])
    ≡ true
lookup-inserted_example = lookup-inserted no_items 97 [] ((98 ∷ []) ∷ []) no_items-IsValid
