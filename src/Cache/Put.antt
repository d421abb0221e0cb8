-- ===== src/Cache/Put.antt =====
-- `ht_cache_put`.
use draugr_repo.Base.{
  ℕ, suc, ◌+◌, ◌-◌, ◌≤◌, ◌<◌, ◌≡◌, ◌⊎◌, refl, sym, ap, ◌∙◌, subst, arith, Bool, true, false, Option,
  none, some, List, [], ◌∷◌, length, length-set, get_or, set, get_or-set_self, get_or-set_ne,
  set-set_self, set-get_or, count, one, one_self, one_ne, Bool-cases, inl, inr, ◌==◌, ==_iff,
  ==_false, if◌then◌else◌,
}
use draugr_repo.Ht.Bare.{inc, dec}
use draugr_repo.Cache.{Cache, ht_cache_evict, store_entry, ht_cache_put}
use draugr_repo.Cache.Evict.{ht_cache_evict-Evicted, Evicted}
use draugr_repo.Cache.Free.{count_to}
use draugr_repo.Cache.Holds.{Holds, sum_over, sum_over_ext, length-without}
use draugr_repo.Cache.Interface.{Index, low48}
use draugr_repo.Cache.Lru.{no_slot, lru_add_head}
use draugr_repo.Cache.Lru.AddHead.{lru_add_head-IsOrder}
use draugr_repo.Cache.Lru.Chain.{last_or, ne_of_count}
use draugr_repo.Cache.Lru.Promote.{without}

module _ (ix : Index) (hash_fn : List ℕ → ℕ) where
  -- The entry is in a slot that was free, the first of the order, and the other entries are as
  -- they were.
  pub record Placed (c : Cache ix.T) (order : List ℕ) (entry : List ℕ) (slot : ℕ) (c' : Cache ix.T)
      : Type 0 where
    pub holds : Holds ix c' (slot ∷ order)
    pub new : count slot order ≡ 0
    pub placed : get_or c'.entries slot [] ≡ entry
    pub hashed : get_or c'.hashes slot 0 ≡ hash_fn entry
    pub kept : (i : ℕ) → 1 ≤ count i order → get_or c'.entries i [] ≡ get_or c.entries i []

  -- What storing an entry does, where a slot is free.
  abbrev pub Stores : Cache ix.T → List ℕ → List ℕ → Option ℕ × Cache ix.T → Type 0
  Stores c order entry (some i, c') = Placed c order entry i c'
  Stores c order entry (none, c') = Holds ix c' order

  module _ (c : Cache ix.T) (order : List ℕ) (h : Holds ix c order) (n : ℕ) (e : c.free_top ≡ suc n)
      (entry : List ℕ) (can : ix.CanInsert c.bare) where
    abbrev slot : ℕ
    slot = get_or c.free_stack n 0

    popped : dec c.free_top ≡ n
    popped = omega (arith, h.top, h.small)

    split : (i : ℕ) → count_to i c.free_top c.free_stack ≡ count_to i n c.free_stack + one i slot
    split i = rw e refl

    inside : slot < c.capacity
    inside = h.free_below slot (omega (arith, split slot, one_self slot))

    free : (count slot order ≡ 0) × (count_to slot n c.free_stack ≡ 0)
    free =
        let whole = h.parted slot inside in
        (omega (arith, split slot, one_self slot), omega (arith, split slot, one_self slot))

    abbrev hash : ℕ
    hash = hash_fn entry

    abbrev result : Bool × ix.T
    result = ix.insert c.bare hash slot

    -- A new hash of the slot does not touch the live ones.
    sums :
        (g : ℕ) (f : ℕ → ℕ → ℕ)
        → sum_over (λ i. f (low48 (get_or (set c.hashes slot g) i 0)) i) order
          ≡ sum_over (λ i. f (low48 (get_or c.hashes i 0)) i) order
    sums g f = sum_over_ext _ _ order (λ i k.
        ap (λ (x : ℕ). f (low48 x) i)
          (get_or-set_ne c.hashes slot i g 0 (ne_of_count slot i order free.0 k)))

    stored : Cache ix.T
    stored = record c {
      bare = result.1;
      entries = set c.entries slot entry;
      hashes = set c.hashes slot hash;
      free_top = n;
      live = set c.live slot 1;
      lru = lru_add_head c.lru slot;
      size = inc c.size;
    }

    kept_entries :
        (i : ℕ) → 1 ≤ count i order → get_or (set c.entries slot entry) i [] ≡ get_or c.entries i []
    kept_entries i k = get_or-set_ne c.entries slot i entry [] (ne_of_count slot i order free.0 k)

    alive_stored :
        (i : ℕ) → i < c.capacity → get_or (set c.live slot 1) i 0 ≡ count i (slot ∷ order)
    alive_stored i below = elim (Bool-cases (i == slot)) [
      | inl same ↦
          subst (λ k. get_or (set c.live slot 1) k 0 ≡ count k (slot ∷ order))
            (sym ((==_iff i slot).0 same))
            (get_or-set_self c.live slot 1 0 (omega (arith, h.live_len, inside))
              ∙ omega (arith, free.0, one_self slot))
      | inr other ↦
          get_or-set_ne c.live slot i 1 0 (λ s. ==_false i slot other (sym s))
          ∙ omega (arith, h.alive i below, one_ne i slot (==_false i slot other))
    ]

    stored-Holds : result.0 ≡ true → Holds ix stored (slot ∷ order)
    unfolding stored
    stored-Holds ok = record {
      ordered = lru_add_head-IsOrder c.capacity h.small c.lru slot order inside free.0 h.ordered;
      small = h.small;
      stack_len = h.stack_len;
      live_len = length-set c.live slot 1 ∙ h.live_len;
      hashes_len = length-set c.hashes slot hash ∙ h.hashes_len;
      entries_len = length-set c.entries slot entry ∙ h.entries_len;
      counted = omega (arith, h.counted, h.top, h.small);
      top = omega (arith, h.top, e);
      parted = λ i below. omega (arith, h.parted i below, split i);
      free_below = λ i k. h.free_below i (omega (arith, split i));
      alive = alive_stored;
      valid = ix.insert-IsValid c.bare hash slot h.valid can;
      indexed = λ f.
          let own : get_or (set c.hashes slot hash) slot 0 ≡ hash =
            get_or-set_self c.hashes slot hash 0 (omega (arith, h.hashes_len, inside)) in
          omega (
            arith,
            (rw ok at (ix.insert-weigh c.bare hash slot h.valid can f)),
            h.indexed f,
            sums hash f,
            ap (λ (x : ℕ). f (low48 x) slot) own,
          );
    }

    stored-Placed : result.0 ≡ true → Placed c order entry slot stored
    stored-Placed ok = record {
      holds = stored-Holds ok;
      new = free.0;
      placed =
          unfold stored in
          get_or-set_self c.entries slot entry [] (omega (arith, h.entries_len, inside));
      hashed =
          unfold stored in
          get_or-set_self c.hashes slot hash 0 (omega (arith, h.hashes_len, inside));
      kept = unfold stored in kept_entries;
    }

    refused : Cache ix.T
    refused = record c {
      bare = result.1;
      entries = set c.entries slot entry;
      hashes = set c.hashes slot 0;
    }

    refused-Holds : result.0 ≡ false → Holds ix refused order
    unfolding refused
    refused-Holds no_room = record {
      ordered = h.ordered;
      small = h.small;
      stack_len = h.stack_len;
      live_len = h.live_len;
      hashes_len = length-set c.hashes slot 0 ∙ h.hashes_len;
      entries_len = length-set c.entries slot entry ∙ h.entries_len;
      counted = h.counted;
      top = h.top;
      parted = h.parted;
      free_below = h.free_below;
      alive = h.alive;
      valid = ix.insert-IsValid c.bare hash slot h.valid can;
      indexed = λ f. omega (
        arith,
        (rw no_room at (ix.insert-weigh c.bare hash slot h.valid can f)),
        h.indexed f,
        sums 0 f,
      );
    }

    pub store_entry-Stores : Stores c order entry (store_entry ix hash_fn c entry)
    unfolding store_entry stored refused
    store_entry-Stores = elim (Bool-cases result.0) [
      | inl ok ↦ rw (popped, ok) (stored-Placed ok)
      | inr no_room ↦
          let pushed : set c.free_stack n slot ≡ c.free_stack = set-get_or c.free_stack n 0 in
          let back : inc n ≡ c.free_top = omega (arith, e, h.top, h.small) in
          rw (popped, no_room, pushed, back, set-set_self c.hashes slot hash 0)
            (refused-Holds no_room)
    ]

  -- The order when a slot is there for the new entry: with no slot free, without the least recently
  -- used one.
  abbrev pub made_room : Cache ix.T → List ℕ → List ℕ
  made_room c order = if c.free_top == 0 then without (last_or no_slot order) order else order

  -- What `ht_cache_put` does: the entry is placed, or it is not and the live slots are those of
  -- before, less at most the least recently used one.
  abbrev pub Put : Cache ix.T → List ℕ → List ℕ → Option ℕ × Cache ix.T → Type 0
  Put c order entry (some i, c') = Placed c (made_room c order) entry i c'
  Put c order entry (none, c') = Holds ix c' order ⊎ Holds ix c' (made_room c order)

  with_room :
      (c : Cache ix.T) (order entry : List ℕ) (r : Option ℕ × Cache ix.T)
      → (c.free_top == 0) ≡ false
      → Stores c order entry r
      → Put c order entry r
  with_room c order entry (some i, c') room s = rw room s
  with_room c order entry (none, c') room s = inl s

  moved_Placed :
      (c d : Cache ix.T) (order entry : List ℕ) (slot : ℕ) (c' : Cache ix.T)
      → d.entries ≡ c.entries
      → Placed d order entry slot c'
      → Placed c order entry slot c'
  moved_Placed c d order entry i' c' same p = record {
    holds = p.holds;
    new = p.new;
    placed = p.placed;
    hashed = p.hashed;
    kept = λ i k. p.kept i k ∙ ap (λ (es : List (List ℕ)). get_or es i []) same;
  }

  placed_after :
      (c d : Cache ix.T) (order entry : List ℕ) (r : Option ℕ × Cache ix.T)
      → (c.free_top == 0) ≡ true
      → d.entries ≡ c.entries
      → Stores d (without (last_or no_slot order) order) entry r
      → Put c order entry r
  placed_after c d order entry (some i, c') full same p =
      rw full (moved_Placed c d (without (last_or no_slot order) order) entry i c' same p)
  placed_after c d order entry (none, c') full same h = inr (rw full h)

  after_eviction :
      (c : Cache ix.T) (order entry : List ℕ) (r : Bool × Cache ix.T)
      → (c.free_top == 0) ≡ true
      → Holds ix c order
      → Evicted ix c order r
      → ix.CanInsert (r.1.bare)
      → Put c order entry (if r.0 then store_entry ix hash_fn r.1 entry else (none, r.1))
  after_eviction c order entry (false, d) full h (same, why) can =
      inl (subst (λ x. Holds ix x order) (sym same) h)
  after_eviction c order entry (true, d) full h (here, h', cap, same) can =
      let last = last_or no_slot order in
      let n = d.free_top - 1 in
      let e : d.free_top ≡ suc n =
        ground (arith, h'.top, h.top, length-without last order here, cap) in
      let s = store_entry-Stores d (without last order) h' n e entry can in
      placed_after c d order entry (store_entry ix hash_fn d entry) full same s

  -- The table that the entry goes into: with no slot free, that after the eviction.
  abbrev pub table_for : Cache ix.T → ix.T
  table_for c = if c.free_top == 0 then (ht_cache_evict ix c).1.bare else c.bare

  -- Putting an entry into a cache whose table, after the eviction where no slot is free, can take an
  -- insertion: it is placed in a slot that is not live, which becomes the
  -- first of the order, the least recently used slot having left the order if none was free, and
  -- the entries of the other live slots are as before; or no entry is placed, and the live slots
  -- are those of before, less at most the least recently used one.
  pub ht_cache_put-Put :
      (c : Cache ix.T) (order entry : List ℕ)
      → Holds ix c order
      → ix.CanInsert (table_for c)
      → Put c order entry (ht_cache_put ix hash_fn c entry)
  unfolding ht_cache_put
  ht_cache_put-Put c order entry h can = elim (Bool-cases (length entry == c.entry_size)) [
    | inr wrong ↦ rw wrong (inl h)
    | inl sized ↦ elim (Bool-cases (c.free_top == 0)) [
      | inl full ↦
          rw (sized, full)
            (after_eviction c order entry (ht_cache_evict ix c) full h
              (ht_cache_evict-Evicted ix c order h) (rw full at can))
      | inr room ↦
          let n = c.free_top - 1 in
          let e : c.free_top ≡ suc n = ground arith in
          rw (sized, room)
            (with_room c order entry (store_entry ix hash_fn c entry) room
              (store_entry-Stores c order h n e entry (rw room at can)))
    ]
  ]
