-- ===== src/Cuckoo/Create/Empty.antt =====
-- A filter that is created is valid and finds nothing.
use draugr_repo.Base.{
  ℕ, ◌+◌, ◌-◌, ◌*◌, ◌/◌, ◌^◌, ◌≤◌, ◌<◌, ◌≡◌, refl, ap, ◌∙◌, arith, Bool, true, false, ltb, ◌==◌,
  ==_iff, ◌||◌, Bool-cases, inl, inr, some, replicate, length-replicate, u32,
}
use native.Mathlib.Nat.{
  mul-le-mul, mul-le-mul_left, mul-le-mul_right, div-mul-le_self, div-add-mod', mod-lt, div-le_self,
  mul_assoc,
}
use draugr_repo.Packed.Tally.{IsTable}
use draugr_repo.Cuckoo.Filter.{Cuckoo, cuckoo_filter_lookup}
use draugr_repo.Cuckoo.Filter.Valid.{IsValid}
use draugr_repo.Cuckoo.Create.{
  next_power_of_2, cap_buckets, or_default, allocate, cuckoo_filter_create,
}
use draugr_repo.Cuckoo.Create.Sizes.{next_power_of_2-power, Fits, cap_buckets-Fits}
use draugr_repo.Cuckoo.Create.Zeros.{nothing, zeros-AreWords, lookup-zeros}

-- A set holds at least an entry, and the sets hold all entries.
sets_enough : (eps ne idx : ℕ) → 1 ≤ eps → idx < ne → idx / eps * 8 + 8 ≤ (ne + eps - 1) / eps * 8
sets_enough eps ne idx some_entry h =
    let q = (ne + eps - 1) / eps in
    let down = div-mul-le_self idx eps in
    let next : q < idx / eps + 1 → ⊥ = λ low.
      let few : q * eps ≤ idx / eps * eps =
        mul-le-mul_right eps (let z : q ≤ idx / eps = omega arith in z) in
      omega (arith, div-add-mod' (ne + eps - 1) eps, mod-lt (ne + eps - 1) some_entry, few, down) in
    ground (arith, next)

module _ (nb bs fp kicks : ℕ) (size : Fits bs nb) (some_slot : 1 ≤ bs) (few_slots : bs ≤ 16)
    (low : 1 ≤ fp) (high : fp ≤ 32) where
  abbrev eps : ℕ
  eps = 512 / fp

  abbrev sets : ℕ
  sets = (nb * bs + eps - 1) / eps

  eps-whole : eps * fp ≤ 512
  eps-whole = div-mul-le_self 512 fp

  many_of_set : 16 ≤ eps
  many_of_set = elim (Bool-cases (ltb eps 16)) [
    | inl few ↦
        let short : eps ≤ 15 = ground (arith, few) in
        let e : eps * fp ≤ 15 * 32 = mul-le-mul short high in
        absurd (omega (arith, div-add-mod' 512 fp, mod-lt 512 low))
    | inr fine ↦ ground (arith, fine)
  ]

  some_entry : 1 ≤ eps
  some_entry = omega (arith, many_of_set)

  all_sets : u32 sets ≡ sets
  all_sets =
      let e : sets * 16 ≤ sets * eps = mul-le-mul_left sets many_of_set in
      omega (arith, e, div-mul-le_self (nb * bs + eps - 1) eps, div-le_self 512 fp, size.entries)

  sets-lt : sets < 2 ^ 33
  sets-lt = omega (arith, all_sets)

  abbrev made : Cuckoo
  made = record {
    num_entries = u32 (nb * bs);
    count = 0;
    num_buckets = u32 nb;
    entries_per_set = u32 eps;
    num_sets = u32 sets;
    fingerprint_bits = fp;
    bucket_size = bs;
    max_kicks = kicks;
    bucket_mask = u32 (nb - 1);
    table = replicate (sets * 8) 0;
  }

  made-IsTable : IsTable eps fp (nb * bs) (replicate (sets * 8) 0)
  made-IsTable = record {
    low = low;
    high = high;
    some_entry = some_entry;
    whole = eps-whole;
    words = zeros-AreWords (sets * 8);
    room = λ idx h.
        omega
          (arith, sets_enough eps (nb * bs) idx some_entry h, length-replicate (sets * 8) nothing);
  }

  all_entries : u32 (nb * bs) ≡ nb * bs
  all_entries = omega (arith, size.entries)

  all_buckets : u32 nb ≡ nb
  all_buckets = omega (arith, size.few)

  made-IsValid : IsValid made
  made-IsValid =
      let all_of_set : u32 eps ≡ eps = omega (arith, div-le_self 512 fp) in
      record {
        holds = rw (all_entries, all_of_set) made-IsTable;
        sets = omega (arith, all_sets, length-replicate (sets * 8) nothing);
        entries = rw (all_buckets, all_entries) refl;
        some_slot = some_slot;
        byte = omega arith;
        log_buckets = size.log;
        buckets = omega (arith, all_buckets, size.power);
        mask = omega (arith, size.few, size.power);
      }

  -- The allocation of a size that fits.
  allocate-Empty :
      (calloc : ℕ → Bool)
      → calloc (32 + sets * 64) ≡ true
      → (cf : Cuckoo) × (allocate calloc nb bs fp kicks ≡ some cf)
        × IsValid cf
        × (cf.num_entries ≡ nb * bs)
        × (cf.bucket_size ≡ bs)
        × (cf.count ≡ 0)
        × ((hash : ℕ) → cuckoo_filter_lookup cf hash ≡ false)
  unfolding allocate
  allocate-Empty calloc served =
      let room : ltb ((2 ^ 64 - 1 - 32) / 64) sets ≡ false = ground (arith, sets-lt) in
      let v = made-IsValid in
      (
        made,
        rw (room, served) refl,
        v,
        all_entries,
        refl,
        refl,
        λ hash. lookup-zeros made v (sets * 8) hash refl,
      )

or_default-range :
    (given default high : ℕ)
    → given ≤ high
    → default ≤ high
    → 1 ≤ default
    → (1 ≤ or_default given default) × (or_default given default ≤ high)
or_default-range given default high g d low = elim (Bool-cases (given == 0)) [
  | inl missing ↦ rw missing (low, d)
  | inr there ↦ rw there (ground (arith, there), g)
]

in_range : (x high : ℕ) → 1 ≤ x → x ≤ high → (ltb x 1 || ltb high x) ≡ false
in_range x high low up = ground arith

-- The slots of the least power of two of buckets for `total` entries.
rounded_up :
    (total bs p : ℕ)
    → 1 ≤ bs
    → bs ≤ 16
    → 1 ≤ total
    → total ≤ 2 ^ 30 - 16
    → (total + bs - 1) / bs ≤ p
    → (1 ≤ (total + bs - 1) / bs → p < 2 * ((total + bs - 1) / bs))
    → (total ≤ p * bs) × (p * bs < 2 * (total + bs)) × (p ≤ 2 ^ 31)
rounded_up total bs p low high some_items bounded enough tight =
    let w = (total + bs - 1) / bs in
    let whole = div-add-mod' (total + bs - 1) bs in
    let rest = mod-lt (total + bs - 1) low in
    let up : w * bs ≤ p * bs = mul-le-mul_right bs enough in
    let some_buckets : 1 ≤ w = elim (Bool-cases (w == 0)) as (λ x. 1 ≤ w) [
      | inl none_of ↦
          let empty : w * bs ≡ 0 * bs = ap (λ (n : ℕ). n * bs) ((==_iff w 0).0 none_of) in
          absurd (omega (arith, empty, whole, rest))
      | inr there ↦ ground (arith, there)
    ] in
    let short : p ≤ 2 * w = omega (arith, tight some_buckets) in
    let two : (2 * w) * bs ≡ w * bs + w * bs = mul_assoc 2 w bs ∙ omega arith in
    let single : w * 1 ≤ w * bs = mul-le-mul_left w low in
    let down : p * bs ≤ (2 * w) * bs = mul-le-mul_right bs short in
    (
      omega (arith, up, whole, rest),
      omega (arith, down, whole, rest, two),
      omega (arith, short, single, whole),
    )

-- With parameters in their ranges, memory for every size, and a capacity of at least 1 that the
-- guessed number of entries covers, that number being at most 2 ^ 30 - 16, a filter is created. It
-- is valid, has at least the guessed number of entries, and fewer than twice the sum of that
-- number and the size of a bucket; it counts 0 and finds nothing.
pub cuckoo_filter_create-Empty :
    (calloc : ℕ → Bool) (total_entries capacity bucket_size fp_bits max_kicks : ℕ)
    → ((size : ℕ) → calloc size ≡ true)
    → 1 ≤ capacity
    → capacity ≤ total_entries
    → total_entries ≤ 2 ^ 30 - 16
    → bucket_size ≤ 16
    → fp_bits ≤ 32
    → (cf : Cuckoo) × (cuckoo_filter_create calloc total_entries capacity bucket_size fp_bits
          max_kicks
        ≡ some cf)
      × IsValid cf
      × (total_entries ≤ cf.num_entries)
      × (cf.num_entries < 2 * (total_entries + cf.bucket_size))
      × (cf.count ≡ 0)
      × ((hash : ℕ) → cuckoo_filter_lookup cf hash ≡ false)
unfolding cuckoo_filter_create
cuckoo_filter_create-Empty calloc total capacity bucket_size fp_bits max_kicks served some_items
      few_items bounded few_slots few_bits =
    let bs = or_default bucket_size 4 in
    let fp = or_default fp_bits 10 in
    let (bs_low, bs_high) =
      or_default-range bucket_size 4 16 few_slots (omega arith) (omega arith) in
    let (fp_low, fp_high) = or_default-range fp_bits 10 32 few_bits (omega arith) (omega arith) in
    let capacity_ok : (capacity == 0) ≡ false = ground (arith, some_items) in
    let bs_ok : (ltb bs 1 || ltb 16 bs) ≡ false = in_range bs 16 bs_low bs_high in
    let fp_ok : (ltb fp 1 || ltb 32 fp) ≡ false = in_range fp 32 fp_low fp_high in
    let items_ok : ltb (2 ^ 32 - 1) capacity ≡ false = ground (arith, few_items, bounded) in
    let wanted = (total + bs - 1) / bs in
    let (k, short, power, enough, tight) =
      next_power_of_2-power wanted (omega (arith, div-le_self (total + bs - 1) bs)) in
    let (covers, below, few_buckets) =
      rounded_up total bs (2 ^ k) bs_low bs_high (omega (arith, few_items)) bounded enough tight in
    let (nb, capped, fits_all, whole) = cap_buckets-Fits k 64 bs bs_high short in
    let capped' : cap_buckets 64 bs (next_power_of_2 wanted) ≡ some nb =
      ap (cap_buckets 64 bs) power ∙ capped in
    let all : nb ≡ 2 ^ k = whole few_buckets (omega (arith, below, bounded, bs_high)) in
    let (cf, made_it, v, entries, slots, none_counted, finds) =
      allocate-Empty nb bs fp (or_default max_kicks 200) fits_all bs_low bs_high fp_low fp_high
        calloc (served _) in
    let size : cf.num_entries ≡ 2 ^ k * bs = entries ∙ ap (λ (n : ℕ). n * bs) all in
    (
      cf,
      rw (capacity_ok, bs_ok, fp_ok, items_ok, capped') made_it,
      v,
      omega (arith, size, covers),
      omega (arith, size, below, slots),
      none_counted,
      finds,
    )
