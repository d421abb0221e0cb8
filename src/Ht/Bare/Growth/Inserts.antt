-- ===== src/Ht/Bare/Growth/Inserts.antt =====
-- `ht_bare_insert` as a whole.
use mathlib.Core.Bool.{true≢false}
use mathlib.Core.Option.{some-injective}
use draugr_repo.Base.{
  ℕ, ◌+◌, ◌^◌, ◌<◌, ◌≤◌, ◌≡◌, ◌≢◌, ◌⊎◌, refl, arith, sym, Bool, true, false, Option, none, some,
  subst, ◌∙◌, bit_and,
}
use draugr_repo.Base.{inl, inr, Bool-cases, ltb, ◌==◌, Gives, bind-Gives, ◌>>=◌}
use draugr_repo.Base.Bits.Word.{bit_and_mask}
use draugr_repo.Ht.Slot.{hash_mask, val_none}
use draugr_repo.Ht.Bare.{Bare}
use draugr_repo.Ht.Bare.Weigh.{weigh, copies, is_entry, is_entry_self}
use draugr_repo.Ht.Bare.Probe.{ht_bare_find}
use draugr_repo.Ht.Bare.Probe.Special.{ht_bare_find-special, ht_bare_find-special-stored}
use draugr_repo.Ht.Bare.Valid.{IsValid}
use draugr_repo.Ht.Bare.Spill.{bare_spill_insert}
use draugr_repo.Ht.Bare.Spill.Grow.{bare_spill_insert-Stored}
use draugr_repo.Ht.Bare.Spill.Proper.{
  bare_spill_insert-IsProper, bare_spill_insert-capacity, bare_spill_insert-served,
}
use draugr_repo.Ht.Bare.Growth.{relieve, reserve_unless, insert_unless, ht_bare_insert}
use draugr_repo.Ht.Bare.Growth.Stored.{
  IsReady, IsServed, OnWay, Inserted, Ending, relieve-OnWay, reserve_unless-OnWay,
  insert_unless-Ending, spill-Ending,
}
use draugr_repo.Pow2.Least.{CountsZeros}

module _ (clz : Option (ℕ → ℕ)) (calloc malloc : ℕ → ℕ → Bool) (raw : Bare → ℕ)
    (overloaded : Bare → ℕ → Bool) (grow : Bare → Bool × Bare) (t : Bare) (start : IsReady t t)
    (spacing : (u : Bare) → raw u ≤ 2 ^ 62) (z : CountsZeros clz) (few : t.size ≤ 2 ^ 15)
    (lane_few : t.spill_cap ≤ 2 ^ 59) where
  main-Ending :
      (h v : ℕ)
      → 2 ≤ h
      → h < 2 ^ 48
      → Gives (Ending calloc malloc t h v) (
          relieve clz calloc malloc raw overloaded grow t
          >>= reserve_unless clz calloc malloc raw overloaded grow
          >>= insert_unless clz calloc malloc raw overloaded grow h v)
  main-Ending h v live fits =
      let here : OnWay calloc malloc t (true, t) = record {
        ready = start;
        done = λ s. (refl, s.idle);
      } in
      bind-Gives _ _ _ _
        (bind-Gives _ _ _ _
          (relieve-OnWay calloc malloc t clz raw spacing z few overloaded grow here)
          (λ r way.
            reserve_unless-OnWay calloc malloc t clz raw spacing z few overloaded grow r start.valid
              way))
        (λ r way. insert_unless-Ending calloc malloc t h v clz raw overloaded grow r way live fits)

  lane-Ending :
      (h v : ℕ)
      → h < 2 ^ 48
      → v ≢ val_none
      → Ending calloc malloc t h v (bare_spill_insert (malloc 0) t h v)
  lane-Ending h v fits valued =
      spill-Ending calloc malloc t h v (bare_spill_insert (malloc 0) t h v) start.valid start.proper
        (bare_spill_insert-Stored (malloc 0) t h v start.valid lane_few fits)
        (bare_spill_insert-IsProper (malloc 0) t h v start.valid lane_few valued start.proper)
        (rw (bare_spill_insert-capacity (malloc 0) t h v) start.pow2)
        (bare_spill_insert-served (malloc 0) t h v start.valid lane_few)

  valued-Ending :
      (hash val : ℕ)
      → val ≢ val_none
      → Gives
          (Ending calloc malloc t (bit_and hash hash_mask) val)
          (ht_bare_insert clz calloc malloc raw overloaded grow t hash val)
  unfolding ht_bare_insert
  valued-Ending hash val valued =
      let h48 = bit_and hash hash_mask in
      let fits : h48 < 2 ^ 48 = rw (bit_and_mask 48 hash) (omega arith) in
      let kept : (val == val_none) ≡ false = ground (arith, valued) in
      elim (Bool-cases (ltb h48 2)) [
        | inl special ↦
            rw (kept, special)
              (bare_spill_insert (malloc 0) t h48 val, refl, lane-Ending h48 val fits valued)
        | inr plain ↦ rw (kept, plain) (main-Ending h48 val (ground (arith, plain)) fits)
      ]

  refused :
      (hash val : ℕ)
      → (val == val_none) ≡ true
      → ht_bare_insert clz calloc malloc raw overloaded grow t hash val ≡ some (false, t)
  unfolding ht_bare_insert
  refused hash val e = rw e refl

  -- In a valid table of at most 2 ^ 16 slots, a power of two, one of them empty, with at most
  -- 2 ^ 15 entries and 2 ^ 59 places in the spill lane, no sentinel in the stash and no `VAL_NONE`
  -- in the spill lane, `ht_bare_insert` ends, whatever the load test and the allocator answer. The
  -- table is valid and without these still, and its capacity a power of two; its contents gain the
  -- entry under the low 48 bits of the hash, if the call returns true, and are what they were, if it
  -- returns false.
  pub ht_bare_insert-Inserted :
      (hash val : ℕ)
      → Gives
          (Inserted t (bit_and hash hash_mask) val)
          (ht_bare_insert clz calloc malloc raw overloaded grow t hash val)
  ht_bare_insert-Inserted hash val = elim (Bool-cases (val == val_none)) [
    | inl none_given ↦ (
      (false, t),
      refused hash val none_given,
      (start.valid, start.proper, start.pow2, λ f. refl),
    )
    | inr valued ↦
        let (r, ends, x) = valued-Ending hash val (ground (arith, valued)) in (r, ends, x.0)
  ]

  succeeded :
      (h v : ℕ) (result : Option (Bool × Bare))
      → IsServed calloc malloc t
      → Gives (Ending calloc malloc t h v) result
      → (t' : Bare) × (result ≡ some (true, t'))
        × IsValid t'
        × ((f : ℕ → ℕ → ℕ) → weigh f t' ≡ weigh f t + f h v)
  succeeded h v result s ((true, u), ends, ((valid, proper, pow2, added), done)) =
      (u, ends, valid, added)
  succeeded h v result s ((false, u), ends, (kept, done)) = absurd (true≢false (sym (done s)))

  -- In a valid table of at most 2 ^ 16 slots, a power of two, one of them empty, with at most 2 ^
  -- 15 entries and 2 ^ 59 places in the spill lane, no sentinel in the stash and no `VAL_NONE` in
  -- the spill lane, that is not being resized, where every allocation is served, `ht_bare_insert`
  -- of a value other than `VAL_NONE` returns true, whatever the load test answers, with a valid
  -- table whose contents gain the entry under the low 48 bits of the hash and no other.
  pub ht_bare_insert-served :
      (hash val : ℕ)
      → IsServed calloc malloc t
      → val ≢ val_none
      → (t' : Bare) × (ht_bare_insert clz calloc malloc raw overloaded grow t hash val
          ≡ some (true, t'))
        × IsValid t'
        × ((f : ℕ → ℕ → ℕ) → weigh f t' ≡ weigh f t + f (bit_and hash hash_mask) val)
  ht_bare_insert-served hash val s valued =
      succeeded (bit_and hash hash_mask) val _ s (valued-Ending hash val valued)

  -- The value inserted, or one that was stored under the hash before.
  abbrev pub IsOf : ℕ → ℕ → ℕ → Type 0
  IsOf hash val w = (w ≡ val) ⊎ (1 ≤ copies (bit_and hash hash_mask) w t)

  which :
      (hash val w : ℕ)
      → let h48 = bit_and hash hash_mask in
        1 ≤ weigh (is_entry h48 w) t + is_entry h48 w h48 val → IsOf hash val w
  unfolding copies
  which hash val w some_there = elim (Bool-cases (w == val)) [
    | inl same ↦ inl (ground arith)
    | inr other ↦ inr (ground arith)
  ]

  not_missed :
      (hash val : ℕ) (t' : Bare) (found : Option ℕ)
      → Inserted t (bit_and hash hash_mask) val (true, t')
      → bit_and hash hash_mask < 2
      → ht_bare_find t' hash ≡ found
      → (w : ℕ) × (ht_bare_find t' hash ≡ some w) × IsOf hash val w
  unfolding copies
  not_missed hash val t' none (valid, proper, pow2, added) special e =
      let h48 = bit_and hash hash_mask in
      absurd (
        omega (
          arith,
          ht_bare_find-special t' hash val proper special e,
          added (is_entry h48 val),
          is_entry_self h48 h48 val val refl refl,
        ))
  not_missed hash val t' (some w) (valid, proper, pow2, added) special e =
      let h48 = bit_and hash hash_mask in
      let stored = ht_bare_find-special-stored t' hash w special e in
      (w, e, which hash val w (omega (arith, stored, added (is_entry h48 w))))

  -- In a valid table of at most 2 ^ 16 slots, a power of two, one of them empty, with at most 2 ^ 15
  -- entries and 2 ^ 59 places in the spill lane, no sentinel in the stash and no `VAL_NONE` in the
  -- spill lane, after `ht_bare_insert` has returned true for a hash whose low 48 bits are 0 or 1,
  -- `ht_bare_find` finds a value: the one inserted, or one that the table held under those 48 bits
  -- before.
  pub ht_bare_find-insert :
      (hash val : ℕ) (t' : Bare)
      → bit_and hash hash_mask < 2
      → ht_bare_insert clz calloc malloc raw overloaded grow t hash val ≡ some (true, t')
      → (w : ℕ) × (ht_bare_find t' hash ≡ some w) × IsOf hash val w
  ht_bare_find-insert hash val t' special returned =
      let (r, ends, x) = ht_bare_insert-Inserted hash val in
      let same : r ≡ (true, t') = some-injective _ _ (sym ends ∙ returned) in
      not_missed hash val t' (ht_bare_find t' hash)
        (subst (Inserted t (bit_and hash hash_mask) val) same x) special refl
