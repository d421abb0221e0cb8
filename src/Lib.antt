-- ===== src/Lib.antt =====
-- draugr: hash tables and filters in C.
--
-- The program. `ht_bare` is a Robin-Hood hash table from 48-bit hashes to 32-bit values, with a
-- spill lane for the two hashes that are sentinels and a stash for entries beyond the probe
-- distance limit; `ht` keeps keys and values behind it, `ht_cache` an LRU cache, `htc` a
-- concurrent table. The filters (Bloom, cuckoo, vacuum, quotient) stand on their own and answer
-- whether an item may have been inserted.
--
-- Which file models what.
--   Base, Base/Test, Base/Array, Base/Bits, Base/Chain: C's comparisons and casts on native numbers, arrays as
--     lists with `get_or` and `set`, and the bit operations by their binary digits. Base/Chain has
--     chains and loops of steps of which each may fail to end.
--   Ht/Slot: the slot word of include/draugr/ht_internal.h, `hpd_pack` and the tests on it.
--   Ht/Bare: `struct ht_bare` as the record Bare. The pointers into the memory blocks are arrays of
--     the record. Ht/Bare/Valid has the invariant, Ht/Bare/Weigh the contents.
--   Ht/Bare/Spill: `bare_spill_grow`, `bare_spill_insert`, `bare_spill_find`, `bare_spill_remove`,
--     `bare_spill_remove_val` of src/ht.c.
--   Ht/Bare/Stash: `overflow_stash_insert`, `overflow_stash_remove_val`, `overflow_stash_remove`,
--     and the loop over the stash at the end of `ht_bare_find`.
--   Ht/Bare/Insert: `bare_rh_insert_bounded` and `bare_rh_insert_unbounded`.
--   Ht/Bare/Shift: `bare_verify_ideal_safe`, `bare_commit_backward_shift`, `bare_delete_compact`.
--   Ht/Bare/Probe: `ht_bare_find`, `ht_bare_remove_val`, `ht_bare_remove`. Ht/Bare/Purged
--     says what it means to remove entries of one hash and to count them.
--   Ht/Bare/FindAll: `ht_bare_find_all` and `bare_spill_find_all`, with the callback as an
--     argument that takes its context and returns it.
--   Ht/Bare/Life: `ht_bare_clear`, `bare_place_prophylactic_tombstones`.
--   Ht/Bare/Resize: `bare_resize_table` with `bare_reinsert_main` and `bare_reinsert_spill`,
--     `ht_bare_resize`, `ht_bare_compact`. Ht/Bare/Resize/Refill has the rounds of the
--     reinsertion, Ht/Bare/Resize/Rebuilt the rebuilt table, Ht/Bare/Resize/Sized its capacity.
--   Ht/Bare/Growth: `ht_bare_insert`, which resizes before it stores, twice at most. The allocator
--     answers each of the two resizes on its own.
--   Ht/Bare/Create: `ht_bare_create`. Ht/Bare/Iterate: `ht_bare_iter_next`, and a loop over it.
--   Ht/Table: `struct ht_table`, the high-level table from keys to values, with the lookups
--     `ht_find`, `ht_find_kv`, `ht_find_all`, `ht_find_key_all` and their forms with a hash.
--   Cache: src/ht_cache.c, with `struct ht_cache` as the record Cache. Cache/Lru has the list in the
--     two arrays of links, Cache/Interface what the cache asks of the bare table, as operations and
--     laws, Cache/Holds the abstract view, the order of the live slots. Cache/Table fills the
--     interface with Ht/Bare, where CanInsert is what `ht_bare_insert` needs to end.
--   Bloom: src/bloom_filter.c.
--   Packed: entries of a few bits in sets of eight words, `set_get` and `set_set`, which
--     src/cuckoo_filter.c and src/vacuum_filter.c have alike, and the searches of a bucket.
--     Packed/Stream reads a table as one run of bits, Packed/Tally sums over its entries.
--   Cuckoo: src/cuckoo_filter.c. The root has the fingerprint and the two buckets of a hash,
--     Cuckoo/Filter the operations, Cuckoo/Create the sizing and the allocation.
--   Vacuum: src/vacuum_filter.c. The root has the fingerprint and the two buckets of a hash,
--     Vacuum/Filter the operations.
--   Pow2: `next_pow2` of src/util.c.
--
-- How. A function that changes a table takes the record and returns the new one, with the C
-- result beside it. `size_t` counters wrap at 2 ^ 64 (`inc`, `dec`), probe distances at 2 ^ 16
-- (`u16`). An index `& cap_mask` is `slot_at` or `ideal_slot`. The contents of a table are a
-- weight: `weigh f t` is the sum of `f h v` over all entries (h, v), in the slots, the stash and
-- the spill lane, so that an equation for every `f` says which entries there are, with their
-- multiplicities, and forgets where they stand.
--
-- Loops and fuel. A `for` loop is recursion on the rounds left. Each `while (1)` of an insertion is a
-- step (`bounded_step`, `unbounded_step`) that is run on fuel; running out of fuel is `none`, and
-- the theorems show that as many rounds as the table has slots are enough where one slot is empty.
-- `unbounded_step` and `bounded_step` take the resize function as an argument: within those
-- rounds it is not called. Placing tombstones takes a round for each slot at most, and one more.
-- A resize gives each insertion as many rounds as the new table has slots; the theorems show that
-- it ends. The resize that an insertion of a resize may ask for is refused, as `resizing` is set.
--
-- The halving of the number of buckets takes at most as many rounds as the number has digits, 64.
--
-- Bounds. IsValid limits the capacities to 2 ^ 60, which no allocation of 12 bytes a slot exceeds.
-- The insertion theorems ask for at most 2 ^ 16 slots, since the probe distance has 16 bits.
--
-- In the cache a pointer to an entry is the number of its slot, and entries and keys are their
-- bytes. The hash and the equality are pure functions; they and the callback of `ht_cache_find` do
-- not change the cache. The theorems take at most `NONE` slots, since the links have 32 bits.
--
-- Parameters. `malloc` is the answer of the allocator to a request; `raw` is the spacing of
-- tombstones that `bare_compute_x` yields in floating point; `total_entries` is the first guess at
-- the size of a cuckoo filter, also computed in floating point; `calloc`
-- says whether a size is served; `clz` is the built-in count of leading zeros; `overloaded` is the
-- comparison of the load factor with its limit, in floating point; `grow` is the resize that a probe
-- may call, whatever it does.
--
-- Not modelled: destruction and the statistics of src/ht.c; the insertions, removals and resizes of
-- the high-level table; src/htc.c, src/arena.c; the creation of the vacuum filter,
-- and the quotient filters; sizing and estimates in floating point; null pointers.
pub mod Base
pub mod Ht
pub mod Bloom
pub mod Packed
pub mod Pow2
pub mod Cuckoo
pub mod Vacuum
pub mod Cache
