-- ===== src/Bloom.antt =====
-- src/bloom_filter.c and include/draugr/bloom_filter.h: the Bloom filter. An item is its bytes; the
-- pointers are not null, and a filter that `calloc` refuses is a failed allocation.
mod Marks
pub mod Laws
pub mod Lookup
pub mod Create
mod Tests
use draugr_repo.Base.{
  ℕ, zero, suc, ◌+◌, ◌*◌, ◌/◌, ◌%◌, ◌^◌, Bool, true, false, not, ◌||◌, Option, none, some, List, [],
  ◌∷◌, bit_and, bit_or, bit_xor,
}
use draugr_repo.Base.{◌==◌, if◌then◌else◌, u64, ◌<<<◌, get_or, set, replicate}

pub record Bloom : Type 0 where
  pub bits : List ℕ
  pub num_bits : ℕ
  pub count : ℕ
  pub num_hashes : ℕ

abbrev pub bloom_fnv_offset_basis : ℕ
bloom_fnv_offset_basis = 2166136261

abbrev pub bloom_fnv_prime : ℕ
bloom_fnv_prime = 16777619

-- One of the two loops of `double_hash`: `hash ^= bytes[i]; hash *= prime;`.
fnv_from : ℕ → ℕ → List ℕ → ℕ
fnv_from prime hash [] = hash
fnv_from prime hash (byte ∷ bytes) = fnv_from prime (u64 (bit_xor hash byte * prime)) bytes

unfoldable pub double_hash : List ℕ → ℕ × ℕ
unfolding fnv_from
double_hash bytes = (
  fnv_from bloom_fnv_prime bloom_fnv_offset_basis bytes,
  fnv_from 1099511628211 (bit_xor 14695981039346656037 3735928559) bytes,
)

-- `(h1 + (uint64_t)i * h2) % num_bits`
unfoldable pub position : ℕ → ℕ × ℕ → ℕ → ℕ
position num_bits (h1, h2) i = u64 (h1 + u64 (i * h2)) % num_bits

-- The loop of `bloom_filter_hashes` from `i`, with `left` positions to go.
unfoldable pub hashes_from : ℕ → ℕ × ℕ → ℕ → ℕ → List ℕ
hashes_from num_bits h i zero = []
hashes_from num_bits h i (suc left) = position num_bits h i ∷ hashes_from num_bits h (i + 1) left

unfoldable pub bloom_filter_hashes : List ℕ → ℕ → ℕ → List ℕ
bloom_filter_hashes bytes num_bits num_hashes =
    hashes_from num_bits (double_hash bytes) 0 num_hashes

unfoldable pub num_words : ℕ → ℕ
num_words num_bits = u64 (num_bits + 63) / 64

-- `none` for NULL; `malloc` says of each of the two allocations whether it succeeds.
unfoldable pub bloom_filter_create_raw : (ℕ → Bool) → ℕ → ℕ → Option Bloom
bloom_filter_create_raw malloc bits hashes =
    if bits == 0 || hashes == 0
    then none
    else if not (malloc 0)
    then none
    else if not (malloc 1)
    then none
    else some (record {
      bits = replicate (num_words bits) 0;
      num_bits = bits;
      count = 0;
      num_hashes = hashes;
    })

unfoldable pub bloom_filter_reset : Bloom → Bloom
bloom_filter_reset bf = record bf { bits = replicate (num_words bf.num_bits) 0; count = 0 }

-- `bf->bits[pos / 64] |= (1ULL << (pos % 64))`
unfoldable pub set_bit : List ℕ → ℕ → List ℕ
set_bit bits pos = set bits (pos / 64) (bit_or (get_or bits (pos / 64) 0) (1 <<< (pos % 64)))

-- The loop of `bloom_filter_insert` from `i`, with `left` rounds to go.
unfoldable pub insert_from : ℕ → ℕ × ℕ → List ℕ → ℕ → ℕ → List ℕ
insert_from num_bits h bits i zero = bits
insert_from num_bits h bits i (suc left) =
    insert_from num_bits h (set_bit bits (position num_bits h i)) (i + 1) left

unfoldable pub bloom_filter_insert : Bloom → List ℕ → Bloom
bloom_filter_insert bf [] = bf
bloom_filter_insert bf (byte ∷ bytes) = record bf {
  bits = insert_from bf.num_bits (double_hash (byte ∷ bytes)) bf.bits 0 bf.num_hashes;
  count = u64 (bf.count + 1);
}

-- `bf->bits[pos / 64] & (1ULL << (pos % 64))`, as a truth value.
unfoldable pub get_bit : List ℕ → ℕ → Bool
get_bit bits pos = not (bit_and (get_or bits (pos / 64) 0) (1 <<< (pos % 64)) == 0)

-- The loop of `bloom_filter_lookup` from `i`, with `left` rounds to go.
unfoldable pub lookup_from : ℕ → ℕ × ℕ → List ℕ → ℕ → ℕ → Bool
lookup_from num_bits h bits i zero = true
lookup_from num_bits h bits i (suc left) =
    let rest = lookup_from num_bits h bits (i + 1) left in
    if not (get_bit bits (position num_bits h i)) then false else rest

unfoldable pub bloom_filter_lookup : Bloom → List ℕ → Bool
bloom_filter_lookup bf [] = false
bloom_filter_lookup bf (byte ∷ bytes) =
    lookup_from bf.num_bits (double_hash (byte ∷ bytes)) bf.bits 0 bf.num_hashes
