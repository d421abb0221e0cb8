-- ===== src/Ht/Slot.antt =====
-- include/draugr/ht_internal.h: a slot word holds 48 bits of hash under 16 bits of probe distance.
-- Hashes 0 and 1 are the sentinels for an empty slot and a tombstone.
pub mod Laws
use draugr_repo.Base.{ℕ, ◌-◌, ◌^◌, bit_and, bit_or, Bool, u16, u64, ◌<<<◌, ◌>>>◌, ◌==◌, leb}

abbrev pub hash_empty : ℕ
hash_empty = 0

abbrev pub hash_tomb : ℕ
hash_tomb = 1

abbrev pub hash_mask : ℕ
hash_mask = 2 ^ 48 - 1

abbrev pub val_none : ℕ
val_none = 2 ^ 32 - 1

unfoldable pub hpd_hash : ℕ → ℕ
hpd_hash hpd = bit_and hpd hash_mask

unfoldable pub hpd_pd : ℕ → ℕ
hpd_pd hpd = u16 (hpd >>> 48)

unfoldable pub hpd_empty : ℕ → Bool
hpd_empty hpd = hpd_hash hpd == hash_empty

unfoldable pub hpd_tomb : ℕ → Bool
hpd_tomb hpd = hpd_hash hpd == hash_tomb

unfoldable pub hpd_available : ℕ → Bool
hpd_available hpd = leb (hpd_hash hpd) hash_tomb

unfoldable pub hpd_live : ℕ → Bool
hpd_live hpd = leb 2 (hpd_hash hpd)

unfoldable pub hpd_pack : ℕ → ℕ → ℕ
hpd_pack hash probe_dist = bit_or (u64 (probe_dist <<< 48)) (bit_and hash hash_mask)
