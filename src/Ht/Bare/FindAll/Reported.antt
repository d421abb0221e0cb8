-- ===== src/Ht/Bare/FindAll/Reported.antt =====
-- What `ht_bare_find_all` reports: a list of values, each of them stored under the hash.
use draugr_repo.Base.{
  ℕ, zero, suc, ◌+◌, ◌≤◌, ◌<◌, ◌≡◌, refl, sym, arith, Bool, false, List, [], ◌∷◌, ltb, ◌==◌, ==_iff,
  if◌then◌else◌, u16, get_or, bit_and, count, one_ne, ==_false, Bool-cases, inl, inr,
}
use draugr_repo.Base.Visit.{visit}
use draugr_repo.Ht.Slot.{hash_mask, hpd_hash, hpd_pd, hpd_empty, hpd_tomb}
use draugr_repo.Ht.Bare.{Bare, slot_at, ideal_slot}
use draugr_repo.Ht.Bare.Weigh.{weigh, copies, sum_to-ge, in_lane, is_entry, is_entry_self}
use draugr_repo.Ht.Bare.Valid.{IsValid}
use draugr_repo.Ht.Bare.Insert.Slots.{IsPow2, slot_at-lt, ideal_slot-lt}
use draugr_repo.Ht.Bare.Probe.{past_limit}
use draugr_repo.Ht.Bare.Probe.Sound.{slot-stored}
use draugr_repo.Ht.Bare.FindAll.{
  report, spill_find_all_from, bare_spill_find_all, stash_find_all_from, stash_find_all,
  find_all_from, ht_bare_find_all,
}

-- The values of `h` in `left` places of a lane from `i` on.
lane_reported : List ℕ → List ℕ → ℕ → ℕ → ℕ → List ℕ
lane_reported hpds vals h i zero = []
lane_reported hpds vals h i (suc left) =
    let rest = lane_reported hpds vals h (i + 1) left in
    if hpd_hash (get_or hpds i 0) == h then get_or vals i 0 ∷ rest else rest

stash_reported : Bare → ℕ → List ℕ
stash_reported t h = lane_reported t.overflow_hash_pd t.overflow_vals h 0 t.overflow_len

slots_reported : Bare → ℕ → ℕ → ℕ → ℕ → List ℕ
slots_reported t h idx dist zero = stash_reported t h
slots_reported t h idx dist (suc left) =
    let slot_hpd = get_or t.hash_pd idx 0 in
    let rest = slots_reported t h (slot_at t.capacity idx 1) (u16 (dist + 1)) left in
    if hpd_empty slot_hpd
    then stash_reported t h
    else if hpd_tomb slot_hpd
    then rest
    else if ltb (hpd_pd slot_hpd) dist
    then stash_reported t h
    else if past_limit t dist
    then stash_reported t h
    else if hpd_hash slot_hpd == h
    then get_or t.vals idx 0 ∷ rest
    else rest

pub reported : Bare → ℕ → List ℕ
reported t hash =
    let h48 = bit_and hash hash_mask in
    if ltb h48 2
    then lane_reported t.spill_hash_pd t.spill_vals h48 0 t.spill_len
    else slots_reported t h48 (ideal_slot t.capacity h48) 0 (suc t.capacity)

module _ {S : Type 0} (cb : S → ℕ → Bool × S) (t : Bare) where
  report-visit :
      (ctx : S) (v : ℕ) (rest : S → S) (vals : List ℕ)
      → ((ctx' : S) → rest ctx' ≡ visit cb ctx' vals)
      → report cb ctx v rest ≡ visit cb ctx (v ∷ vals)
  unfolding report
  report-visit ctx v rest vals same = elim (Bool-cases ((cb ctx v).0)) [
    | inl more ↦ rw more (same ((cb ctx v).1))
    | inr stop ↦ rw stop refl
  ]

  stash_from-visit :
      (h i left : ℕ) (ctx : S)
      → stash_find_all_from cb t h i left ctx
        ≡ visit cb ctx (lane_reported t.overflow_hash_pd t.overflow_vals h i left)
  unfolding stash_find_all_from lane_reported
  stash_from-visit h i zero ctx = refl
  stash_from-visit h i (suc left) ctx =
      elim (Bool-cases (hpd_hash (get_or t.overflow_hash_pd i 0) == h)) [
        | inl hit ↦
            rw hit
              (report-visit ctx (get_or t.overflow_vals i 0) _ _ (stash_from-visit h (i + 1) left))
        | inr miss ↦ rw miss (stash_from-visit h (i + 1) left ctx)
      ]

  spill_from-visit :
      (h i left : ℕ) (ctx : S)
      → spill_find_all_from cb t h i left ctx
        ≡ visit cb ctx (lane_reported t.spill_hash_pd t.spill_vals h i left)
  unfolding spill_find_all_from lane_reported
  spill_from-visit h i zero ctx = refl
  spill_from-visit h i (suc left) ctx =
      elim (Bool-cases (hpd_hash (get_or t.spill_hash_pd i 0) == h)) [
        | inl hit ↦
            rw hit
              (report-visit ctx (get_or t.spill_vals i 0) _ _ (spill_from-visit h (i + 1) left))
        | inr miss ↦ rw miss (spill_from-visit h (i + 1) left ctx)
      ]

  stash-visit : (h : ℕ) (ctx : S) → stash_find_all cb t h ctx ≡ visit cb ctx (stash_reported t h)
  unfolding stash_find_all stash_reported
  stash-visit h ctx = stash_from-visit h 0 t.overflow_len ctx

  slots-visit :
      (h idx dist left : ℕ) (ctx : S)
      → find_all_from cb t h idx dist left ctx ≡ visit cb ctx (slots_reported t h idx dist left)
  unfolding find_all_from slots_reported
  slots-visit h idx dist zero ctx = stash-visit h ctx
  slots-visit h idx dist (suc left) ctx =
      let slot = get_or t.hash_pd idx 0 in
      let rest = slots-visit h (slot_at t.capacity idx 1) (u16 (dist + 1)) left in
      elim (Bool-cases (hpd_empty slot)) [
        | inl empty ↦ rw empty (stash-visit h ctx)
        | inr whole ↦ elim (Bool-cases (hpd_tomb slot)) [
          | inl tomb ↦ rw (whole, tomb) (rest ctx)
          | inr alive ↦ elim (Bool-cases (ltb (hpd_pd slot) dist)) [
            | inl early ↦ rw (whole, alive, early) (stash-visit h ctx)
            | inr on ↦ elim (Bool-cases (past_limit t dist)) [
              | inl far ↦ rw (whole, alive, on, far) (stash-visit h ctx)
              | inr near ↦ elim (Bool-cases (hpd_hash slot == h)) [
                | inl hit ↦
                    rw (whole, alive, on, near, hit)
                      (report-visit ctx (get_or t.vals idx 0) _ _ rest)
                | inr miss ↦ rw (whole, alive, on, near, miss) (rest ctx)
              ]
            ]
          ]
        ]
      ]

  -- Whatever the callback, `ht_bare_find_all` gives it the values of one list, in order, until it
  -- answers `false`.
  pub ht_bare_find_all-visit :
      (hash : ℕ) (ctx : S) → ht_bare_find_all cb t hash ctx ≡ visit cb ctx (reported t hash)
  unfolding ht_bare_find_all reported bare_spill_find_all
  ht_bare_find_all-visit hash ctx =
      let h48 = bit_and hash hash_mask in
      elim (Bool-cases (ltb h48 2)) [
        | inl small ↦ rw small (spill_from-visit h48 0 t.spill_len ctx)
        | inr big ↦ rw big (slots-visit h48 (ideal_slot t.capacity h48) 0 (suc t.capacity) ctx)
      ]

module _ (t : Bare) (h v : ℕ) where
  lane-stored :
      (hpds vals : List ℕ) (left i : ℕ)
      → 1 ≤ count v (lane_reported hpds vals h i left)
      → (j : ℕ) × (j < i + left) × (hpd_hash (get_or hpds j 0) ≡ h) × (get_or vals j 0 ≡ v)
  unfolding lane_reported
  lane-stored hpds vals zero i there = absurd (omega arith)
  lane-stored hpds vals (suc left) i there = elim (Bool-cases (hpd_hash (get_or hpds i 0) == h)) [
    | inr miss ↦
        let (j, low, p, q) = lane-stored hpds vals left (i + 1) (rw miss at there) in
        (j, omega arith, p, q)
    | inl hit ↦ elim (Bool-cases (v == get_or vals i 0)) [
      | inl same ↦ (i, omega arith, (==_iff _ _).0 hit, sym ((==_iff _ _).0 same))
      | inr other ↦
          let both : 1 ≤ count v (get_or vals i 0 ∷ lane_reported hpds vals h (i + 1) left) =
            rw hit at there in
          let (j, low, p, q) =
            lane-stored hpds vals left (i + 1)
              (omega (arith, one_ne v (get_or vals i 0) (==_false _ _ other))) in
          (j, omega arith, p, q)
    ]
  ]

  stash-stored : 1 ≤ count v (stash_reported t h) → 1 ≤ copies h v t
  unfolding stash_reported copies weigh
  stash-stored there =
      let (j, low, p, q) = lane-stored t.overflow_hash_pd t.overflow_vals t.overflow_len 0 there in
      omega (
        arith,
        sum_to-ge (in_lane (is_entry h v)) t.overflow_len j t.overflow_hash_pd t.overflow_vals
            (omega arith),
        is_entry_self (hpd_hash (get_or t.overflow_hash_pd j 0)) h (get_or t.overflow_vals j 0) v p
            q,
      )

  spill-stored :
      1 ≤ count v (lane_reported t.spill_hash_pd t.spill_vals h 0 t.spill_len) → 1 ≤ copies h v t
  unfolding copies weigh
  spill-stored there =
      let (j, low, p, q) = lane-stored t.spill_hash_pd t.spill_vals t.spill_len 0 there in
      omega (
        arith,
        sum_to-ge (in_lane (is_entry h v)) t.spill_len j t.spill_hash_pd t.spill_vals (omega arith),
        is_entry_self (hpd_hash (get_or t.spill_hash_pd j 0)) h (get_or t.spill_vals j 0) v p q,
      )

  module _ (valid : IsValid t) (pow2 : IsPow2 t.capacity) where
    -- The slot's value is the one looked for, or that comes later.
    found :
        (idx : ℕ) (vals : List ℕ)
        → idx < t.capacity
        → hpd_empty (get_or t.hash_pd idx 0) ≡ false
        → hpd_tomb (get_or t.hash_pd idx 0) ≡ false
        → hpd_hash (get_or t.hash_pd idx 0) ≡ h
        → (1 ≤ count v vals → 1 ≤ copies h v t)
        → 1 ≤ count v (get_or t.vals idx 0 ∷ vals)
        → 1 ≤ copies h v t
    found idx vals below whole alive e later there = elim (Bool-cases (v == get_or t.vals idx 0)) [
      | inl same ↦ slot-stored t h v idx below whole alive e (sym ((==_iff _ _).0 same))
      | inr other ↦ later (omega (arith, one_ne v (get_or t.vals idx 0) (==_false _ _ other)))
    ]

    slots-stored :
        (left idx dist : ℕ)
        → idx < t.capacity
        → 1 ≤ count v (slots_reported t h idx dist left)
        → 1 ≤ copies h v t
    unfolding slots_reported
    slots-stored zero idx dist below = stash-stored
    slots-stored (suc left) idx dist below =
        let slot = get_or t.hash_pd idx 0 in
        let rest =
          slots-stored left (slot_at t.capacity idx 1) (u16 (dist + 1))
            (slot_at-lt t.capacity idx 1 pow2 (omega (arith, valid.small))) in
        elim (Bool-cases (hpd_empty slot)) [
          | inl empty ↦ rw empty stash-stored
          | inr whole ↦ elim (Bool-cases (hpd_tomb slot)) [
            | inl tomb ↦ rw (whole, tomb) rest
            | inr alive ↦ elim (Bool-cases (ltb (hpd_pd slot) dist)) [
              | inl early ↦ rw (whole, alive, early) stash-stored
              | inr on ↦ elim (Bool-cases (past_limit t dist)) [
                | inl far ↦ rw (whole, alive, on, far) stash-stored
                | inr near ↦ elim (Bool-cases (hpd_hash slot == h)) [
                  | inl hit ↦
                      rw (whole, alive, on, near, hit)
                        (found idx _ below whole alive ((==_iff _ _).0 hit) rest)
                  | inr miss ↦ rw (whole, alive, on, near, miss) rest
                ]
              ]
            ]
          ]
        ]

-- In a valid table whose capacity is a power of two, each value of that list is stored under the
-- low 48 bits of the hash.
pub reported-stored :
    (t : Bare) (hash v : ℕ)
    → IsValid t
    → IsPow2 t.capacity
    → 1 ≤ count v (reported t hash)
    → 1 ≤ copies (bit_and hash hash_mask) v t
unfolding reported
reported-stored t hash v valid pow2 =
    let h48 = bit_and hash hash_mask in
    elim (Bool-cases (ltb h48 2)) [
      | inl small ↦ rw small (spill-stored t h48 v)
      | inr big ↦ rw big (
          slots-stored t h48 v valid pow2 (suc t.capacity) (ideal_slot t.capacity h48) 0
            (ideal_slot-lt t.capacity h48 pow2))
    ]
