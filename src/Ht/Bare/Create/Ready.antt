-- ===== src/Ht/Bare/Create/Ready.antt =====
-- A created table is empty, and ready for insertions.
use draugr_repo.Base.{
  ℕ, ◌+◌, ◌*◌, ◌^◌, ◌≤◌, ◌≡◌, refl, ◌-◌, arith, Bool, true, false, not, ◌&&◌, Option, none, some,
}
use draugr_repo.Base.{if◌then◌else◌, length-replicate}
use draugr_repo.Ht.Bare.{Bare, stash_cap}
use draugr_repo.Ht.Bare.Weigh.{weigh, sum_to}
use draugr_repo.Ht.Bare.Valid.{IsValid, one_each}
use draugr_repo.Ht.Bare.Insert.Slots.{IsPow2, IsPow2-pos}
use draugr_repo.Ht.Bare.Insert.Frame.{gaps, gaps-live}
use draugr_repo.Ht.Bare.Probe.{ht_bare_find}
use draugr_repo.Ht.Bare.Life.{ht_bare_clear}
use draugr_repo.Ht.Bare.Life.Clear.{ht_bare_clear-Empty}
use draugr_repo.Ht.Bare.Resize.{spill_initial, new_blocks, bare_alloc_main_block}
use draugr_repo.Ht.Bare.Resize.Refill.{Filling}
use draugr_repo.Ht.Bare.Resize.Rebuilt.{new_blocks-Filling}
use draugr_repo.Ht.Bare.Resize.Sized.{least-below}
use draugr_repo.Ht.Bare.Growth.Stored.{IsReady}
use draugr_repo.Ht.Bare.Create.{Config, chosen, zeroed, limit_of, wanted, ht_bare_create}
use draugr_repo.Pow2.{next_pow2}
use draugr_repo.Pow2.Least.{IsLeast, CountsZeros, next_pow2-IsLeast}

zeroed-IsValid : (limit : ℕ) → IsValid (zeroed limit)
unfolding weigh sum_to
zeroed-IsValid limit = record {
  slots = refl;
  slot_vals = refl;
  lane = refl;
  lane_vals = refl;
  stash = length-replicate {A = ℕ} stash_cap 0;
  stash_vals = length-replicate {A = ℕ} stash_cap 0;
  lane_in = omega arith;
  stash_in = omega arith;
  small = omega arith;
  lane_small = omega arith;
  counted = refl;
}

module _ (limit cap : ℕ) (pow2 : IsPow2 cap) (small : cap ≤ 2 ^ 16) (some_slots : 1 ≤ cap) where
  abbrev made : Bare
  made = new_blocks (zeroed limit) cap spill_initial

  made-Filling : Filling cap 0 spill_initial limit (λ f. 0 + 0) made
  unfolding sum_to
  made-Filling = new_blocks-Filling (zeroed limit) cap (zeroed-IsValid limit) (omega arith)

  made-gaps : 1 ≤ gaps made
  unfolding weigh
  made-gaps =
      let x = made-Filling in
      omega (arith, gaps-live made made.capacity x.no_tombs, x.same one_each, x.capacity)

  made-IsReady : IsReady made made
  made-IsReady =
      let x = made-Filling in
      record {
        valid = x.valid;
        proper = x.proper;
        pow2 = rw x.capacity pow2;
        small = omega (arith, x.capacity);
        gap = made-gaps;
        same = λ f. refl;
      }

  -- Clearing it changes nothing.
  made-clear : ht_bare_clear made ≡ made
  unfolding ht_bare_clear new_blocks
  made-clear = refl

  made-find : (hash : ℕ) → ht_bare_find made hash ≡ none
  made-find hash =
      let x = made-Filling in
      let (_, _, _, finds) = ht_bare_clear-Empty made x.valid in (rw made-clear at (finds hash))

-- The probe limit for the one that is asked for: 255 for 0, and at most 2 ^ 16 - 1.
pub record IsLimit (asked limit : ℕ) : Type 0 where
  pub unset : asked ≡ 0 → limit ≡ 255
  pub given : 1 ≤ asked → asked ≤ 2 ^ 16 - 1 → limit ≡ asked
  pub capped : 2 ^ 16 - 1 ≤ asked → limit ≡ 2 ^ 16 - 1

limit_of-IsLimit : (asked : ℕ) → IsLimit asked (limit_of asked)
limit_of-IsLimit asked = record {
  unset = λ e. ground (arith, e);
  given = λ low high. ground (arith, low, high);
  capped = λ low. ground (arith, low);
}

-- A table of `cap` slots for `n` of them, ready for insertions and with nothing in it.
pub record Created (n cap asked : ℕ) (t : Bare) : Type 0 where
  pub ready : IsReady t t
  pub least : IsLeast n cap
  pub capacity : t.capacity ≡ cap
  pub limit : IsLimit asked t.max_probe_dist
  pub empty : (f : ℕ → ℕ → ℕ) → weigh f t ≡ 0
  pub finds_none : (hash : ℕ) → ht_bare_find t hash ≡ none

made-Created :
    (n cap asked : ℕ)
    → n ≤ 2 ^ 16
    → IsLeast n cap
    → Created n cap asked (new_blocks (zeroed (limit_of asked)) cap spill_initial)
made-Created n cap asked few x =
    let limit = limit_of asked in
    let (pow2, small) = least-below n cap few x in
    let some_slots = IsPow2-pos cap pow2 in
    let y = made-Filling limit cap pow2 small (omega arith) in
    record {
      ready = made-IsReady limit cap pow2 small (omega arith);
      least = x;
      capacity = y.capacity;
      limit = rw y.limit_is (limit_of-IsLimit asked);
      empty = y.same;
      finds_none = made-find limit cap pow2 small (omega arith);
    }

-- The three allocations, one after the other.
answered :
    (P : Bare → Type 0) (a b c : Bool) (t : Bare)
    → P t
    → let r = if not a then none else if not b then none else if not c then none else some t in
      if a && b && c then ((u : Bare) × (r ≡ some u) × P u) else (r ≡ none)
answered P true true true t p = (t, refl, p)
answered P true true false t p = refl
answered P true false c t p = refl
answered P false b c t p = refl

-- With an initial capacity of at most 2 ^ 16, the default one or a given one, `ht_bare_create`
-- returns a table where the three allocations are served, and else none. The table is valid and
-- ready for insertions, holds no entry, and finds nothing; its capacity is the least power of two
-- that is at least the initial capacity and 4. Its probe limit is 255 where the configuration, the
-- default one or the given one, has 0, and else the one of the configuration, but at most 2 ^ 16 - 1.
pub ht_bare_create-Created :
    (clz : Option (ℕ → ℕ)) (calloc malloc : ℕ → Bool) (bytes : ℕ) (cfg : Option Config)
    → CountsZeros clz
    → (chosen cfg).initial_capacity ≤ 2 ^ 16
    → let n = wanted (chosen cfg).initial_capacity in
      let cap = next_pow2 clz n in
      if calloc bytes && bare_alloc_main_block calloc cap && malloc (spill_initial * 12)
      then ((t : Bare) × (ht_bare_create clz calloc malloc bytes cfg ≡ some t)
          × Created n cap (chosen cfg).max_probe_dist t)
      else (ht_bare_create clz calloc malloc bytes cfg ≡ none)
unfolding ht_bare_create
ht_bare_create-Created clz calloc malloc bytes cfg z few =
    let n = wanted (chosen cfg).initial_capacity in
    let x = next_pow2-IsLeast clz n z (ground arith) (ground (arith, few)) in
    answered _ (calloc bytes) (bare_alloc_main_block calloc (next_pow2 clz n))
      (malloc (spill_initial * 12)) _
      (made-Created n (next_pow2 clz n) (chosen cfg).max_probe_dist (ground (arith, few)) x)
