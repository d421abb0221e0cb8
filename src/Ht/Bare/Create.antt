-- ===== src/Ht/Bare/Create.antt =====
-- `ht_bare_create`.
pub mod Ready
use draugr_repo.Base.{
  ℕ, ◌*◌, ◌-◌, ◌^◌, Bool, true, false, not, ◌&&◌, Option, none, some, [], replicate, ltb, ◌==◌,
  if◌then◌else◌,
}
use draugr_repo.Ht.Bare.{Bare, stash_cap}
use draugr_repo.Ht.Bare.Resize.{spill_initial, new_blocks, bare_alloc_main_block}
use draugr_repo.Pow2.{next_pow2}

-- The fields of `ht_config_t` that go into the record of the table; the others are the load factors
-- and the window of an incremental clean-up.
pub record Config : Type 0 where
  pub initial_capacity : ℕ
  pub max_probe_dist : ℕ

abbrev pub default_cfg : Config
default_cfg = record { initial_capacity = 64; max_probe_dist = 255 }

abbrev pub chosen : Option Config → Config
chosen none = default_cfg
chosen (some cfg) = cfg

-- The struct from `calloc`, with the limit that is set at the end.
abbrev pub zeroed : ℕ → Bare
zeroed limit = record {
  hash_pd = [];
  vals = [];
  capacity = 0;
  size = 0;
  tombstone_cnt = 0;
  spill_hash_pd = [];
  spill_vals = [];
  spill_cap = 0;
  spill_len = 0;
  max_probe_dist = limit;
  overflow_len = 0;
  overflow_hash_pd = replicate stash_cap 0;
  overflow_vals = replicate stash_cap 0;
  overflow_violated = false;
  resizing = false;
}

-- `(c.max_probe_dist == 0) ? 255 : (c.max_probe_dist > UINT16_MAX) ? UINT16_MAX : c.max_probe_dist`
abbrev pub limit_of : ℕ → ℕ
limit_of dist = if dist == 0 then 255 else if ltb (2 ^ 16 - 1) dist then 2 ^ 16 - 1 else dist

-- `if (c.initial_capacity < 4) c.initial_capacity = 4;`
abbrev pub wanted : ℕ → ℕ
wanted initial_capacity = if ltb initial_capacity 4 then 4 else initial_capacity

-- `bytes` is the size of the struct, `calloc` and `malloc` say whether a size is served. `none` is
-- the null pointer.
unfoldable pub ht_bare_create :
    Option (ℕ → ℕ) → (ℕ → Bool) → (ℕ → Bool) → ℕ → Option Config → Option Bare
ht_bare_create clz calloc malloc bytes cfg =
    let c = chosen cfg in
    let cap = next_pow2 clz (wanted c.initial_capacity) in
    if not (calloc bytes)
    then none
    else if not (bare_alloc_main_block calloc cap)
    then none
    else if not (malloc (spill_initial * 12))
    then none
    else some (new_blocks (zeroed (limit_of c.max_probe_dist)) cap spill_initial)
