-- ===== src/Cache/Tests.antt =====
-- A cache of two slots with entries of two bytes, a key and a value, over a bare table of four slots,
-- and the theorems at it.
use draugr_repo.Base.{
  ℕ, ◌+◌, ◌≤◌, ltb, none, ◌≡◌, refl, arith, Bool, true, false, Option, some, List, [], ◌∷◌, ◌==◌,
  get_or, replicate,
}
use draugr_repo.Ht.Slot.{val_none, hpd_hash, hpd_live, hpd_pack}
use draugr_repo.Ht.Bare.{Bare}
use draugr_repo.Ht.Bare.Weigh.{weigh, sum_to}
use draugr_repo.Ht.Bare.Stash.{overflow_stash_insert}
use draugr_repo.Ht.Bare.{slot_at, ideal_slot, put_slot}
use draugr_repo.Ht.Slot.{hpd_pd, hpd_empty, hpd_tomb, hpd_available}
use draugr_repo.Ht.Bare.Insert.Frame.{gaps}
use draugr_repo.Ht.Bare.Insert.{
  blocked, next_slot, reuse_tomb, place, displace, probe_on, over_limit, to_stash, bounded_step,
  bounded_loop, bare_rh_insert_bounded,
}
use draugr_repo.Ht.Bare.Growth.{ht_bare_insert}
use draugr_repo.Pow2.Least.{CountsZeros}
use mathlib.Core.Option.{none-ne-some}
use draugr_repo.Cache.{
  Cache, CacheIter, fill_free, no_links, ht_cache_create, release, ht_cache_promote, next_live,
  ht_cache_iter_next, ht_cache_clear, ht_cache_evict, store_entry, ht_cache_put, ht_cache_get,
  ht_cache_remove,
}
use draugr_repo.Cache.Interface.{Index}
use draugr_repo.Cache.Table.{IsSound, CanInsert, table_insert, bare_index}
use draugr_repo.Cache.Holds.{Holds}
use draugr_repo.Cache.Lru.{write_link, lru_add_head, lru_remove, lru_promote}
use draugr_repo.Cache.Put.{Put, ht_cache_put-Put}
use draugr_repo.Cache.Evict.{Evicted, ht_cache_evict-Evicted}
use draugr_repo.Cache.Get.{Got, ht_cache_get-Got, Dropped, ht_cache_remove-Dropped}
use draugr_repo.Cache.Iterate.{Next, ht_cache_iter_next-Next}
use draugr_repo.Cache.Lru.Order.{IsOrder}
use draugr_repo.Cache.Lru.Promote.{without, lru_promote-IsOrder}
use draugr_repo.Ht.Bare.FindAll.{ht_bare_find_all}
use draugr_repo.Ht.Bare.FindAll.Reported.{reported, ht_bare_find_all-visit}
use draugr_repo.Base.Visit.{visit}
use draugr_repo.Cache.Fresh.{ht_cache_create-Holds}

program : Unit {0}
unfolding hpd_hash hpd_live hpd_pack weigh sum_to overflow_stash_insert fill_free no_links
    ht_cache_create release ht_cache_promote next_live ht_cache_iter_next ht_cache_clear
    ht_cache_evict store_entry ht_cache_put write_link lru_add_head lru_remove lru_promote
    table_insert ht_bare_insert hpd_pd hpd_empty hpd_tomb hpd_available slot_at ideal_slot put_slot
    blocked next_slot reuse_tomb place displace probe_on over_limit to_stash bounded_step
    bounded_loop bare_rh_insert_bounded
program = tt

abbrev always : ℕ → ℕ → Bool
always k n = true

abbrev every_fourth : Bare → ℕ
every_fourth t = 4

-- More than three quarters of four slots.
abbrev full_four : Bare → ℕ → Bool
full_four t main_live = ltb 3 (main_live + 1)

abbrev no_grow : Bare → Bool × Bare
no_grow t = (false, t)

portable : CountsZeros none
portable = record { zeros = λ count x e. absurd (none-ne-some count e) }

-- The bare table without a built-in count of zeros, with memory for every size.
abbrev table : Index
table = bare_index none always always every_fourth full_four no_grow (λ u. omega arith) portable

abbrev blank : Bare
blank = record {
  hash_pd = 0 ∷ 0 ∷ 0 ∷ 0 ∷ [];
  vals = val_none ∷ val_none ∷ val_none ∷ val_none ∷ [];
  capacity = 4;
  size = 0;
  tombstone_cnt = 0;
  spill_hash_pd = replicate 8 0;
  spill_vals = replicate 8 val_none;
  spill_cap = 8;
  spill_len = 0;
  max_probe_dist = 255;
  overflow_len = 0;
  overflow_hash_pd = replicate 32 0;
  overflow_vals = replicate 32 0;
  overflow_violated = false;
  resizing = false;
}

blank-IsSound : IsSound blank
unfolding program
blank-IsSound = record {
  valid = record {
    slots = refl;
    slot_vals = refl;
    lane = refl;
    lane_vals = refl;
    stash = refl;
    stash_vals = refl;
    lane_in = omega arith;
    stash_in = omega arith;
    small = omega arith;
    lane_small = omega arith;
    counted = refl;
  };
  pow2 = (2, refl, omega arith);
}

-- A sound table of four slots with nothing in its stash or its lane.
plain-CanInsert :
    (t : Bare)
    → IsSound t
    → t.capacity ≡ 4
    → t.size ≤ 4
    → t.spill_cap ≡ 8
    → t.spill_len ≡ 0
    → t.overflow_len ≡ 0
    → 1 ≤ gaps t
    → CanInsert t
plain-CanInsert t sound cap few lane_cap lane stash gap = record {
  ready = record {
    valid = sound.valid;
    proper = record {
      stash_live = λ i below. absurd (omega (arith, stash));
      lane_valued = λ i below. absurd (omega (arith, lane));
    };
    pow2 = sound.pow2;
    small = omega (arith, cap);
    gap = gap;
    same = λ f. refl;
  };
  few = omega (arith, few);
  lane_few = omega (arith, lane_cap);
}

blank-CanInsert : CanInsert blank
unfolding program
blank-CanInsert =
    let four : gaps blank ≡ 4 = refl in
    plain-CanInsert blank blank-IsSound refl (omega arith) refl refl refl (omega (arith, four))

abbrev hash_first : List ℕ → ℕ
hash_first bytes = 16 + get_or bytes 0 0

abbrev same_first : Option (List ℕ → List ℕ → Bool)
same_first = some (λ key entry. get_or key 0 0 == get_or entry 0 0)

abbrev empty_cache : Cache Bare
empty_cache = record {
  bare = blank;
  entries = (0 ∷ 0 ∷ []) ∷ (0 ∷ 0 ∷ []) ∷ [];
  hashes = 0 ∷ 0 ∷ [];
  live = 0 ∷ 0 ∷ [];
  lru = record {
    prev = 4294967295 ∷ 4294967295 ∷ [];
    next = 4294967295 ∷ 4294967295 ∷ [];
    head = 4294967295;
    tail = 4294967295;
  };
  free_stack = 1 ∷ 0 ∷ [];
  free_top = 2;
  capacity = 2;
  entry_size = 2;
  size = 0;
}

created : ht_cache_create none true (λ n. true) (λ n. some blank) 2 2 ≡ some empty_cache
unfolding program
created = refl

empty-Holds : Holds table empty_cache []
unfolding program
empty-Holds =
    ht_cache_create-Holds table none true (λ n. true) blank 2 2 empty_cache (omega arith)
      blank-IsSound (λ f. refl) created

-- The cache after two insertions: slot 1 holds the later entry.
abbrev one_cache : Cache Bare
unfolding program
one_cache = (ht_cache_put table hash_first empty_cache (7 ∷ 70 ∷ [])).1

abbrev two_cache : Cache Bare
unfolding program
two_cache = (ht_cache_put table hash_first one_cache (8 ∷ 80 ∷ [])).1

ht_cache_put-Put_example :
    Put table hash_first empty_cache []
      (7 ∷ 70 ∷ [])
      (ht_cache_put table hash_first empty_cache (7 ∷ 70 ∷ []))
ht_cache_put-Put_example =
    ht_cache_put-Put table hash_first empty_cache [] (7 ∷ 70 ∷ []) empty-Holds blank-CanInsert

one_cache-Holds : Holds table one_cache (0 ∷ [])
unfolding program
one_cache-Holds = let p = ht_cache_put-Put_example in p.holds

one-CanInsert : CanInsert one_cache.bare
unfolding program
one-CanInsert =
    let three : gaps one_cache.bare ≡ 3 = refl in
    plain-CanInsert one_cache.bare one_cache-Holds.valid refl (omega arith) refl refl refl
      (omega (arith, three))

two_cache-Holds : Holds table two_cache (1 ∷ 0 ∷ [])
unfolding program
two_cache-Holds =
    let p : Put table hash_first one_cache (0 ∷ []) (8 ∷ 80 ∷ []) (some 1, two_cache) =
      ht_cache_put-Put table hash_first one_cache (0 ∷ []) (8 ∷ 80 ∷ []) one_cache-Holds
        one-CanInsert in
    p.holds

-- The list after two insertions and what the third would take out.
linked :
    (two_cache.lru.head ≡ 1)
    × (two_cache.lru.tail ≡ 0)
    × (two_cache.free_top ≡ 0)
    × (two_cache.size ≡ 2)
unfolding program
linked = (refl, refl, refl, refl)

ht_cache_evict-Evicted_example :
    Evicted table two_cache (1 ∷ 0 ∷ []) (ht_cache_evict table two_cache)
ht_cache_evict-Evicted_example = ht_cache_evict-Evicted table two_cache (1 ∷ 0 ∷ []) two_cache-Holds

ht_cache_get-Got_example :
    Got table hash_first same_first two_cache
      (7 ∷ [])
      (1 ∷ 0 ∷ [])
      two_cache-Holds
      (ht_cache_get table hash_first same_first two_cache (7 ∷ []))
ht_cache_get-Got_example =
    ht_cache_get-Got table hash_first same_first two_cache (7 ∷ []) (1 ∷ 0 ∷ []) two_cache-Holds

ht_cache_remove-Dropped_example :
    Dropped table hash_first same_first two_cache
      (7 ∷ [])
      (1 ∷ 0 ∷ [])
      two_cache-Holds
      (ht_cache_remove table hash_first same_first two_cache (7 ∷ []))
ht_cache_remove-Dropped_example =
    ht_cache_remove-Dropped table hash_first same_first two_cache (7 ∷ []) (1 ∷ 0 ∷ [])
      two_cache-Holds

-- The iterator after its first call.
abbrev at_first : CacheIter
at_first = record { idx = 0; started = true }

ht_cache_iter_next-Next_example :
    Next table two_cache (1 ∷ 0 ∷ []) two_cache-Holds 1 (ht_cache_iter_next two_cache at_first)
ht_cache_iter_next-Next_example =
    ht_cache_iter_next-Next table two_cache (1 ∷ 0 ∷ []) two_cache-Holds at_first (omega arith)

lru_promote-IsOrder_example : IsOrder 2 (lru_promote two_cache.lru 0) (0 ∷ without 0 (1 ∷ 0 ∷ []))
unfolding two_cache
lru_promote-IsOrder_example =
    lru_promote-IsOrder 2 (omega arith) two_cache.lru 0 (1 ∷ 0 ∷ []) (omega arith)
      two_cache-Holds.ordered

-- A callback that keeps every value.
abbrev keep : List ℕ → ℕ → Bool × List ℕ
keep vals val = (true, val ∷ vals)

ht_bare_find_all-visit_example :
    ht_bare_find_all keep blank 20 [] ≡ visit keep [] (reported blank 20)
ht_bare_find_all-visit_example = ht_bare_find_all-visit keep blank 20 []
