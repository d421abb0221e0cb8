-- ===== src/Cuckoo/Create.antt =====
-- src/cuckoo_filter.c: sizing and allocation. `ceil((double)capacity / 0.95)` is an argument, as is
-- the answer of `calloc` to a size.
pub mod Sizes
pub mod Zeros
pub mod Empty
use draugr_repo.Base.{
  ℕ, zero, suc, ◌+◌, ◌-◌, ◌*◌, ◌/◌, ◌^◌, Bool, true, false, not, ◌||◌, Option, none, some, ◌==◌,
  ltb, if◌then◌else◌, u32, u64, replicate,
}
use draugr_repo.Packed.{set_words}
use draugr_repo.Pow2.{fill_down}
use draugr_repo.Cuckoo.Filter.{Cuckoo}

unfoldable pub next_power_of_2 : ℕ → ℕ
next_power_of_2 n = if n == 0 then 1 else u64 (fill_down (n - 1) + 1)

-- The loop that halves the number of buckets until it fits.
unfoldable pub cap_buckets : ℕ → ℕ → ℕ → Option ℕ
cap_buckets zero bucket_size num_buckets = none
cap_buckets (suc fuel) bucket_size num_buckets =
    let rest = cap_buckets fuel bucket_size (num_buckets / 2) in
    if ltb (2 ^ 31) num_buckets || ltb (2 ^ 32 - 1) (num_buckets * bucket_size)
    then rest
    else some num_buckets

-- The default for a parameter that is 0.
abbrev pub or_default : ℕ → ℕ → ℕ
or_default given default = if given == 0 then default else given

-- The filter of `num_buckets` buckets, where its size does not overflow and `calloc` serves it.
unfoldable pub allocate : (ℕ → Bool) → ℕ → ℕ → ℕ → ℕ → Option Cuckoo
allocate calloc num_buckets bucket_size fp_bits max_kicks =
    let entries_per_set = 512 / fp_bits in
    let num_entries = num_buckets * bucket_size in
    let num_sets = (num_entries + entries_per_set - 1) / entries_per_set in
    if ltb ((2 ^ 64 - 1 - 32) / 64) num_sets
    then none
    else if not (calloc (32 + num_sets * 64))
    then none
    else some (record {
      num_entries = u32 num_entries;
      count = 0;
      num_buckets = u32 num_buckets;
      entries_per_set = u32 entries_per_set;
      num_sets = u32 num_sets;
      fingerprint_bits = fp_bits;
      bucket_size = bucket_size;
      max_kicks = max_kicks;
      bucket_mask = u32 (num_buckets - 1);
      table = replicate (num_sets * set_words) 0;
    })

unfoldable pub cuckoo_filter_create : (ℕ → Bool) → ℕ → ℕ → ℕ → ℕ → ℕ → Option Cuckoo
cuckoo_filter_create calloc total_entries capacity bucket_size fp_bits max_kicks =
    let bs = or_default bucket_size 4 in
    let fp = or_default fp_bits 10 in
    let kicks = or_default max_kicks 200 in
    if capacity == 0
    then none
    else if ltb bs 1 || ltb 16 bs
    then none
    else if ltb fp 1 || ltb 32 fp
    then none
    else if ltb (2 ^ 32 - 1) capacity
    then none
    else elim (cap_buckets 64 bs (next_power_of_2 ((total_entries + bs - 1) / bs))) [
      | none ↦ none
      | some num_buckets ↦ allocate calloc num_buckets bs fp kicks
    ]
