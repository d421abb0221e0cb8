-- ===== src/Ht/Slot/Laws.antt =====
-- Packing a hash and a probe distance into a slot word, and taking them out again.
use draugr_repo.Base.{ℕ, ◌+◌, ◌*◌, ◌%◌, ◌^◌, ◌<◌, ◌≡◌, arith}
use draugr_repo.Base.Bits.Word.{bit_and_mask, bit_or_field}
use draugr_repo.Ht.Slot.{hpd_hash, hpd_pd, hpd_pack}

pub hpd_hash-eq-mod : (w : ℕ) → hpd_hash w ≡ w % 2 ^ 48
unfolding hpd_hash
hpd_hash-eq-mod w = bit_and_mask 48 w

pub hpd_hash-lt : (w : ℕ) → hpd_hash w < 2 ^ 48
hpd_hash-lt w = omega (arith, hpd_hash-eq-mod w)

pub hpd_pack-eq-add : (h d : ℕ) → d < 2 ^ 16 → hpd_pack h d ≡ d * 2 ^ 48 + h % 2 ^ 48
unfolding hpd_pack
hpd_pack-eq-add h d fits =
    let small : d * 2 ^ 48 % 2 ^ 64 ≡ d * 2 ^ 48 = omega arith in
    rw (bit_and_mask 48 h, small) (bit_or_field 48 d (h % 2 ^ 48) (omega arith))

-- A packed word gives back the low 48 bits of the hash and a probe distance below 2 ^ 16.
pub unpack-pack :
    (h d : ℕ) → d < 2 ^ 16 → (hpd_hash (hpd_pack h d) ≡ h % 2 ^ 48) × (hpd_pd (hpd_pack h d) ≡ d)
unfolding hpd_pd
unpack-pack h d fits = (
  omega (arith, hpd_hash-eq-mod (hpd_pack h d), hpd_pack-eq-add h d fits),
  omega (arith, hpd_pack-eq-add h d fits),
)

pub hpd_pd-lt : (w : ℕ) → hpd_pd w < 2 ^ 16
unfolding hpd_pd
hpd_pd-lt w = omega arith

-- A hash of 48 bits is stored whole.
pub hpd_hash-pack : (h d : ℕ) → h < 2 ^ 48 → d < 2 ^ 16 → hpd_hash (hpd_pack h d) ≡ h
hpd_hash-pack h d p q = omega (arith, unpack-pack h d q)
