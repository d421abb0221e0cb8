-- ===== src/Cache.antt =====
-- src/ht_cache.c and include/draugr/ht_cache_internal.h: a cache of a fixed number of slots with
-- eviction of the least recently used one. Entries and keys are their bytes, and a pointer to an
-- entry is the number of its slot.
pub mod Lru
pub mod Interface
pub mod Free
pub mod Holds
pub mod Release
pub mod Evict
pub mod Put
pub mod Get
pub mod Fresh
pub mod Iterate
pub mod Table
mod Tests
use draugr_repo.Base.{
  ℕ, zero, suc, ◌+◌, ◌-◌, ◌≡◌, Bool, true, false, ◌||◌, not, Option, none, some, List, [], ◌∷◌, ltb,
  leb, ◌==◌, if◌then◌else◌, u32, get_or, set, length, replicate, u64, ◌*◌, ◌/◌, ◌^◌,
}
use draugr_repo.Ht.Bare.{inc, dec}
use draugr_repo.Pow2.{next_pow2}
use Lru.{Links, no_slot, lru_add_head, lru_remove, lru_promote}
use Interface.{Index}

-- `struct ht_cache` over the type of the bare table. The links of the list are a record of their
-- own, and the three callbacks are arguments of the functions that call them.
pub record Cache (T : Type 0) : Type 0 where
  pub bare : T
  pub entries : List (List ℕ)
  pub hashes : List ℕ
  pub live : List ℕ
  pub lru : Links
  pub free_stack : List ℕ
  pub free_top : ℕ
  pub capacity : ℕ
  pub entry_size : ℕ
  pub size : ℕ

-- `ht_cache_iter_t`.
pub record CacheIter : Type 0 where
  pub idx : ℕ
  pub started : Bool

-- `free_stack[i] = (uint32_t)(cap - 1 - i)` for each `i` below `n`.
unfoldable pub fill_free : ℕ → ℕ → List ℕ → List ℕ
fill_free cap zero stack = stack
fill_free cap (suc n) stack = set (fill_free cap n stack) n (u32 (cap - 1 - n))

-- The links of an empty list, as creation and `ht_cache_clear` set them.
unfoldable pub no_links : ℕ → Links
no_links cap = record {
  prev = replicate cap no_slot;
  next = replicate cap no_slot;
  head = no_slot;
  tail = no_slot;
}

-- `(off + (n - 1)) & ~(size_t)(n - 1)` for `n` a power of two.
round_up : ℕ → ℕ → ℕ
round_up n off = u64 (off + (n - 1)) / n * n

-- `block_sz`: the entries, the hashes, the marks, the two links and the free slots, each aligned.
block_size : ℕ → ℕ → ℕ
unfolding round_up
block_size cap entry_size =
    let hashes = round_up 8 (u64 (cap * entry_size)) in
    let live = round_up 8 (u64 (hashes + u64 (cap * 8))) in
    let lru_prev = round_up 4 (u64 (live + cap)) in
    let lru_next = round_up 4 (u64 (lru_prev + u64 (cap * 4))) in
    let free_stack = round_up 4 (u64 (lru_next + u64 (cap * 4))) in u64 (free_stack + u64 (cap * 4))

-- `bare_cap`
bare_capacity : Option (ℕ → ℕ) → ℕ → ℕ
bare_capacity clz cap =
    let bare_cap = if ltb ((2 ^ 64 - 1) / 2) cap then 2 ^ 64 - 1 else next_pow2 clz (cap * 2) in
    if ltb bare_cap 64 then 64 else bare_cap

module _ {T : Type 0} where
  -- `struct_given` is the answer to the allocation of the struct, `calloc` the one for a block of a
  -- size, and `bare` what `ht_bare_create` returns for an initial capacity.
  unfoldable pub ht_cache_create :
      Option (ℕ → ℕ) → Bool → (ℕ → Bool) → (ℕ → Option T) → ℕ → ℕ → Option (Cache T)
  unfolding block_size bare_capacity
  ht_cache_create clz struct_given calloc bare cap entry_size =
      if cap == 0 || entry_size == 0
      then none
      else if not struct_given
      then none
      else if not (calloc (block_size cap entry_size))
      then none
      else elim (bare (bare_capacity clz cap)) [
        | none ↦ none
        | some t ↦ some (record {
          bare = t;
          entries = replicate cap (replicate entry_size 0);
          hashes = replicate cap 0;
          live = replicate cap 0;
          lru = no_links cap;
          free_stack = fill_free cap cap (replicate cap 0);
          free_top = cap;
          capacity = cap;
          entry_size = entry_size;
          size = 0;
        })
      ]

  -- The end of an eviction and of a removal: the slot leaves the list and becomes free.
  unfoldable pub release : Cache T → ℕ → Cache T
  release c idx = record c {
    lru = lru_remove c.lru idx;
    live = set c.live idx 0;
    free_stack = set c.free_stack c.free_top idx;
    free_top = inc c.free_top;
    size = dec c.size;
  }

  unfoldable pub ht_cache_promote : Cache T → ℕ → Cache T
  ht_cache_promote c idx =
      if leb c.capacity idx || get_or c.live idx 0 == 0
      then c
      else record c { lru = lru_promote c.lru idx }

  -- The loop of `ht_cache_iter_next` from `idx`, with `left` slots to go: the index it stops at, and
  -- the live slot it found.
  unfoldable pub next_live : Cache T → ℕ → ℕ → ℕ × Option ℕ
  next_live c idx zero = (idx, none)
  next_live c idx (suc left) =
      let rest = next_live c (inc idx) left in
      if ltb idx c.capacity
      then (if get_or c.live idx 0 == 0 then rest else (idx, some idx))
      else (idx, none)

  -- The iterator after the call, and the slot of `*out_entry`, or `none` for `false`.
  unfoldable pub ht_cache_iter_next : Cache T → CacheIter → CacheIter × Option ℕ
  ht_cache_iter_next c iter =
      let start = if iter.started then inc iter.idx else 0 in
      let (idx, found) = next_live c start (c.capacity - start) in
      (record { idx = idx; started = true }, found)

module _ (ix : Index) where
  open ix use {T, insert, find_all, remove_val, clear}

  unfoldable pub ht_cache_clear : Cache T → Cache T
  ht_cache_clear c = record c {
    bare = clear c.bare;
    live = replicate c.capacity 0;
    hashes = replicate c.capacity 0;
    size = 0;
    lru = no_links c.capacity;
    free_stack = fill_free c.capacity c.capacity c.free_stack;
    free_top = c.capacity;
  }

  unfoldable pub ht_cache_evict : Cache T → Bool × Cache T
  ht_cache_evict c =
      let tail = c.lru.tail in
      if c.size == 0
      then (false, c)
      else if tail == no_slot
      then (false, c)
      else (let (removed, bare) = remove_val c.bare (get_or c.hashes tail 0) tail in
          if removed
          then (true, release (record c { bare = bare }) tail)
          else (false, record c { bare = bare }))

  module _ (hash_fn : List ℕ → ℕ) where
    -- `ht_cache_put` from `slot = c->free_stack[--c->free_top]` on.
    unfoldable pub store_entry : Cache T → List ℕ → Option ℕ × Cache T
    store_entry c entry =
        let top = dec c.free_top in
        let slot = get_or c.free_stack top 0 in
        let hash = hash_fn entry in
        let (stored, bare) = insert c.bare hash slot in
        let c' = record c { bare = bare; entries = set c.entries slot entry } in
        if stored
        then (
          some slot,
          record c' {
            hashes = set c.hashes slot hash;
            free_top = top;
            live = set c.live slot 1;
            lru = lru_add_head c.lru slot;
            size = inc c.size;
          },
        )
        else (
          none,
          record c' {
            hashes = set (set c.hashes slot hash) slot 0;
            free_stack = set c.free_stack top slot;
            free_top = inc top;
          },
        )

    unfoldable pub ht_cache_put : Cache T → List ℕ → Option ℕ × Cache T
    ht_cache_put c entry =
        if not (length entry == c.entry_size)
        then (none, c)
        else if c.free_top == 0
        then (let (evicted, c') = ht_cache_evict c in
            if evicted then store_entry c' entry else (none, c'))
        else store_entry c entry

    -- `eq_fn` is `none` for a null pointer. The context is `matched_idx`.
    module _ (eq_fn : Option (List ℕ → List ℕ → Bool)) where
      unfoldable pub matches : List ℕ → List ℕ → Bool
      matches key entry = elim eq_fn [ none ↦ true | some eq ↦ eq key entry ]

      unfoldable pub get_scan_cb : Cache T → List ℕ → ℕ → ℕ → Bool × ℕ
      unfolding matches
      get_scan_cb c key matched val =
          if leb c.capacity val
          then (true, matched)
          else if get_or c.live val 0 == 0
          then (true, matched)
          else if matches key (get_or c.entries val [])
          then (false, val)
          else (true, matched)

      -- `remove_scan_cb` has the code of `get_scan_cb`.
      abbrev pub remove_scan_cb : Cache T → List ℕ → ℕ → ℕ → Bool × ℕ
      remove_scan_cb = get_scan_cb

      unfoldable pub ht_cache_get : Cache T → List ℕ → Option ℕ × Cache T
      ht_cache_get c key =
          let matched = find_all ℕ (get_scan_cb c key) c.bare (hash_fn key) no_slot in
          if matched == no_slot
          then (none, c)
          else (some matched, record c { lru = lru_promote c.lru matched })

      unfoldable pub ht_cache_remove : Cache T → List ℕ → Bool × Cache T
      ht_cache_remove c key =
          let hash = hash_fn key in
          let matched = find_all ℕ (remove_scan_cb c key) c.bare hash no_slot in
          if matched == no_slot
          then (false, c)
          else (let (removed, bare) = remove_val c.bare hash matched in
              let c' = record c { bare = bare; live = set c.live matched 0 } in
              if removed
              then (true, release c' matched)
              else (false, record c' { live = set (set c.live matched 0) matched 1 }))

  -- `scan_fn` takes its context and returns it; it answers `false` for a match.
  module _ {U : Type 0} (scan_fn : U → List ℕ → Bool × U) where
    unfoldable pub find_scan_cb : Cache T → U × Option ℕ → ℕ → Bool × (U × Option ℕ)
    find_scan_cb c (user_ctx, matched) val =
        if leb c.capacity val
        then (true, (user_ctx, matched))
        else if get_or c.live val 0 == 0
        then (true, (user_ctx, matched))
        else (let (more, user_ctx') = scan_fn user_ctx (get_or c.entries val []) in
            if not more then (false, (user_ctx', some val)) else (true, (user_ctx', matched)))

    unfoldable pub ht_cache_find : Cache T → ℕ → U → U × Option ℕ
    ht_cache_find c hash user_ctx =
        find_all (U × Option ℕ) (find_scan_cb c) c.bare hash (user_ctx, none)
