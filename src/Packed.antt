-- ===== src/Packed.antt =====
-- `set_get` and `set_set`, which src/cuckoo_filter.c and src/vacuum_filter.c have alike: entries of
-- `fp_bits` bits in sets of eight words. A set is given by the place of its first word in the
-- table.
pub mod Stream
pub mod Fields
pub mod Write
pub mod Entries
pub mod Tally
pub mod Search
pub mod Bucket
use draugr_repo.Base.{
  ℕ, zero, suc, ◌+◌, Option, none, some, Bool, true, false, [], ◌∷◌, ◌==◌, ◌-◌, ◌*◌, ◌/◌, ◌%◌, ◌^◌,
  List, get_or, set, ltb, ◌&&◌, if◌then◌else◌, u32, u64, bit_and, bit_or, ◌<<<◌, ◌>>>◌,
}

-- CUCKOO_SET_WORDS and VACUUM_SET_WORDS
abbrev pub set_words : ℕ
set_words = 8

-- `(1ULL << fp_bits) - 1`
abbrev pub ones : ℕ → ℕ
ones fp_bits = (1 <<< fp_bits) - 1

-- `(word & ~mask) | bits`
unfoldable pub merge : ℕ → ℕ → ℕ → ℕ
merge word mask bits = bit_or (bit_and word (2 ^ 64 - 1 - mask)) bits

unfoldable pub set_get : List ℕ → ℕ → ℕ → ℕ → ℕ
set_get table base off fp_bits =
    let bp = off * fp_bits in
    let wi = bp / 64 in
    let bo = bp % 64 in
    let low = get_or table (base + wi) 0 >>> bo in
    let val =
      if ltb (wi + 1) set_words && ltb 64 (bo + fp_bits)
      then bit_or low (u64 (get_or table (base + wi + 1) 0 <<< (64 - bo)))
      else low in
    u32 (bit_and val (ones fp_bits))

unfoldable pub set_set : List ℕ → ℕ → ℕ → ℕ → ℕ → List ℕ
set_set table base off fp_bits v =
    let bp = off * fp_bits in
    let wi = bp / 64 in
    let bo = bp % 64 in
    let mask = u64 (ones fp_bits <<< bo) in
    let word = merge (get_or table (base + wi) 0) mask (u64 (v <<< bo)) in
    let table' = set table (base + wi) word in
    let mask2 = ones fp_bits >>> (64 - bo) in
    let word2 = merge (get_or table' (base + wi + 1) 0) mask2 (v >>> (64 - bo)) in
    if ltb (wi + 1) set_words && ltb 64 (bo + fp_bits)
    then set table' (base + wi + 1) word2
    else table'

-- The entry with the number `idx`, as `cf_get` and `vf_get` reach it: `eps` entries go into a set.
abbrev pub get_entry : ℕ → ℕ → List ℕ → ℕ → ℕ
get_entry eps fp_bits table idx = set_get table (idx / eps * set_words) (idx % eps) fp_bits

-- `cf_set_entry` and `vf_set_entry` on the table.
abbrev pub put_entry : ℕ → ℕ → List ℕ → ℕ → ℕ → List ℕ
put_entry eps fp_bits table idx v = set_set table (idx / eps * set_words) (idx % eps) fp_bits v

-- The loop of `find_empty_slot` and of `find_fingerprint`: the first of the entries from `base + i`
-- on that is `fp`.
unfoldable pub find_from : ℕ → ℕ → List ℕ → ℕ → ℕ → ℕ → ℕ → Option ℕ
find_from eps fp_bits table base fp i zero = none
find_from eps fp_bits table base fp i (suc left) =
    let rest = find_from eps fp_bits table base fp (i + 1) left in
    if get_entry eps fp_bits table (base + i) == fp then some i else rest

-- The loop at the end of a failed insertion: the entries that were replaced, the last first, are
-- written back.
unfoldable pub roll_back : ℕ → ℕ → List ℕ → List (ℕ × ℕ) → List ℕ
roll_back eps fp_bits table [] = table
roll_back eps fp_bits table ((idx, orig) ∷ evicted) =
    roll_back eps fp_bits (put_entry eps fp_bits table idx orig) evicted

-- Whether a search has found something.
abbrev pub is_some : Option ℕ → Bool
is_some (some x) = true
is_some none = false
