-- ===== src/Cache/Fresh.antt =====
-- New caches, and `ht_cache_clear`.
use draugr_repo.Base.{
  ℕ, ◌≤◌, ◌≡◌, refl, sym, ap, ◌∙◌, subst, arith, Bool, true, false, not, Option, none, some,
  if◌then◌else◌, List, [], length, length-replicate, get_or, get_or-replicate, replicate, ◌==◌,
  ◌||◌,
}
use mathlib.Core.Option.{none-ne-some, some-injective}
use draugr_repo.Cache.{Cache, block_size, fill_free, no_links, ht_cache_create, ht_cache_clear}
use draugr_repo.Cache.Free.{count_to, count_to-fill_free, length-fill_free, fill_free-below}
use draugr_repo.Cache.Holds.{Holds}
use draugr_repo.Cache.Interface.{Index}
use draugr_repo.Cache.Lru.{no_slot}
use draugr_repo.Cache.Lru.Order.{IsOrder}

no_links-IsOrder : (cap : ℕ) → IsOrder cap (no_links cap) []
unfolding no_links
no_links-IsOrder cap = record {
  prevs = length-replicate cap no_slot;
  nexts = length-replicate cap no_slot;
  head = refl;
  tail = refl;
  chain = tt;
  distinct = λ i. omega arith;
  below = λ i h. absurd (omega arith);
}

-- The mark of a slot that is not live.
abbrev dead : ℕ
dead = 0

get_or-zero : (cap i : ℕ) → get_or (replicate cap 0) i dead ≡ dead
get_or-zero cap i = get_or-replicate cap i dead

-- A result behind a guard that refuses.
unguard :
    {T : Type 0} (b : Bool) (x : Option T) {y : T}
    → (if b then none else x) ≡ some y
    → (b ≡ false) × (x ≡ some y)
unguard true x {y} e = absurd (none-ne-some y e)
unguard false x e = (refl, e)

module _ (ix : Index) where
  -- The parts of an empty cache.
  empty-Holds :
      (c : Cache ix.T) (stack : List ℕ)
      → c.capacity ≤ no_slot
      → length stack ≡ c.capacity
      → length c.hashes ≡ c.capacity
      → length c.entries ≡ c.capacity
      → ix.IsValid c.bare
      → ((f : ℕ → ℕ → ℕ) → ix.weigh f c.bare ≡ 0)
      → c.lru ≡ no_links c.capacity
      → c.live ≡ replicate c.capacity 0
      → c.free_stack ≡ fill_free c.capacity c.capacity stack
      → c.free_top ≡ c.capacity
      → c.size ≡ 0
      → Holds ix c []
  empty-Holds c stack small len hashes entries valid nothing lru live free top size =
      let cap = c.capacity in
      let all : (i : ℕ)
          → count_to i c.free_top c.free_stack ≡ count_to i cap (fill_free cap cap stack) =
        λ i. rw (top, free) refl in
      record {
        ordered = subst (λ l. IsOrder cap l []) (sym lru) (no_links-IsOrder cap);
        small = small;
        stack_len = ap length free ∙ length-fill_free cap cap stack ∙ len;
        live_len = ap length live ∙ length-replicate cap 0;
        hashes_len = hashes;
        entries_len = entries;
        counted = size;
        top = omega (arith, top);
        parted = λ i below.
            ground (arith, all i, count_to-fill_free cap cap i stack (omega arith) small len below);
        free_below = λ i there.
            fill_free-below cap cap i stack (omega arith) small len (omega (arith, all i));
        alive = λ i below. ap (λ (l : List ℕ). get_or l i 0) live ∙ get_or-zero cap i;
        valid = valid;
        indexed = nothing;
      }

  -- Clearing a cache leaves no live slot.
  pub ht_cache_clear-Holds :
      (c : Cache ix.T) (order : List ℕ) → Holds ix c order → Holds ix (ht_cache_clear ix c) []
  unfolding ht_cache_clear
  ht_cache_clear-Holds c order h =
      empty-Holds (ht_cache_clear ix c) c.free_stack h.small h.stack_len
        (length-replicate c.capacity 0) h.entries_len (ix.clear-IsValid c.bare h.valid)
        (λ f. ix.clear-weigh c.bare f h.valid) refl refl refl refl refl

  -- A cache of at most `NONE` slots that is created over an empty table has no live slot.
  pub ht_cache_create-Holds :
      (clz : Option (ℕ → ℕ)) (struct_given : Bool) (calloc : ℕ → Bool) (bare : ix.T)
      (cap entry_size : ℕ) (c : Cache ix.T)
      → cap ≤ no_slot
      → ix.IsValid bare
      → ((f : ℕ → ℕ → ℕ) → ix.weigh f bare ≡ 0)
      → ht_cache_create clz struct_given calloc (λ n. some bare) cap entry_size ≡ some c
      → Holds ix c []
  unfolding ht_cache_create
  ht_cache_create-Holds clz struct_given calloc bare cap entry_size c small valid nothing made =
      let (sized, after_sizes) = unguard (cap == 0 || entry_size == 0) _ made in
      let (_, after_struct) = unguard (not struct_given) _ after_sizes in
      let (_, after_block) = unguard (not (calloc (block_size cap entry_size))) _ after_struct in
      subst (λ d. Holds ix d []) (some-injective _ _ after_block)
        (empty-Holds _ (replicate cap 0) small (length-replicate cap 0) (length-replicate cap 0)
          (length-replicate cap (replicate entry_size 0)) valid nothing refl refl refl refl refl)
