-- ===== src/Cuckoo.antt =====
-- src/cuckoo_filter.c: the fingerprint of a hash and its two buckets.
pub mod Buckets
pub mod Filter
pub mod Create
mod Tests
use draugr_repo.Base.{ℕ, ◌-◌, ◌*◌, ◌==◌, if◌then◌else◌, bit_and, bit_xor, u32, ◌<<<◌, ◌>>>◌}

unfoldable pub mix32 : ℕ → ℕ
mix32 x =
    let x1 = bit_xor x (x >>> 16) in
    let x2 = u32 (x1 * 2246822507) in
    let x3 = bit_xor x2 (x2 >>> 13) in let x4 = u32 (x3 * 3266489909) in bit_xor x4 (x4 >>> 16)

unfoldable pub cuckoo_fingerprint : ℕ → ℕ → ℕ
cuckoo_fingerprint hash fp_bits =
    let fp = u32 (bit_and hash ((1 <<< fp_bits) - 1)) in if fp == 0 then 1 else fp

unfoldable pub cuckoo_hash_index : ℕ → ℕ → ℕ
cuckoo_hash_index hash bucket_mask = bit_and (hash >>> 32) bucket_mask

unfoldable pub cuckoo_alt_index : ℕ → ℕ → ℕ → ℕ
cuckoo_alt_index current_index fingerprint bucket_mask =
    bit_and (bit_xor current_index (mix32 fingerprint)) bucket_mask
