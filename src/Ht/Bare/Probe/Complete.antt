-- ===== src/Ht/Bare/Probe/Complete.antt =====
-- An entry whose probe path is intact is found. The path is the one that
-- `ht_bare_check_invariants` walks: no empty slot, and no live one nearer to its own ideal slot.
use draugr_repo.Base.{
  ℕ, zero, suc, ◌+◌, ◌%◌, ◌^◌, ◌<◌, ◌≤◌, ◌≡◌, ◌⊎◌, refl, arith, sym, ap, ◌∙◌, true, false, some,
}
use draugr_repo.Base.{inl, inr, Bool-cases, get_or, ◌==◌, u16, ==_iff, le→ltb, bit_and, subst}
use draugr_repo.Ht.Slot.{hash_mask, hpd_hash, hpd_pd, hpd_empty, hpd_tomb}
use draugr_repo.Ht.Bare.{Bare, slot_at, ideal_slot}
use draugr_repo.Ht.Bare.Insert.Slots.{IsPow2, IsPow2-pos, slot_at-eq-mod, mod_step, zero_offset}
use draugr_repo.Ht.Bare.Valid.{IsValid}
use draugr_repo.Ht.Bare.Weigh.{copies}
use draugr_repo.Ht.Bare.Probe.Sound.{ht_bare_find-stored}
use draugr_repo.Ht.Bare.Probe.{past_limit, find_from, ht_bare_find}

abbrev pub slot_off : Bare → ℕ → ℕ → ℕ
slot_off t idx j = get_or t.hash_pd ((idx + j) % t.capacity) 0

-- A probe of distance `dist` goes past slot `w`.
abbrev pub Passes : ℕ → ℕ → Type 0
Passes w dist = (hpd_empty w ≡ false) × ((hpd_tomb w ≡ true) ⊎ (dist ≤ hpd_pd w))

-- A distance that a lookup does not give up at: there is no limit, it was violated by an insertion,
-- or the distance is not past it.
abbrev pub IsNear : Bare → ℕ → Type 0
IsNear t dist = (t.overflow_violated ≡ true) ⊎ ((t.max_probe_dist ≡ 0) ⊎ (dist ≤ t.max_probe_dist))

past_limit_near : (t : Bare) (dist : ℕ) → IsNear t dist → past_limit t dist ≡ false
unfolding past_limit
past_limit_near t dist (inl violated) = rw violated refl
past_limit_near t dist (inr (inl unlimited)) = ground (arith, unlimited)
past_limit_near t dist (inr (inr near)) = ground (arith, near)

-- From slot `idx`, at distance `dist`, the probe for `h48` gets to a live slot with that hash,
-- `n` places on.
pub record Reaches (t : Bare) (h48 idx dist n : ℕ) : Type 0 where
  pub pow2 : IsPow2 t.capacity
  pub inside : idx < t.capacity
  pub small : dist + n < 2 ^ 16
  pub near : (j : ℕ) → j ≤ n → IsNear t (dist + j)
  pub path : (j : ℕ) → j ≤ n → Passes (slot_off t idx j) (dist + j)
  pub whole : hpd_tomb (slot_off t idx n) ≡ false
  pub match : hpd_hash (slot_off t idx n) ≡ h48

step-Reaches :
    (t : Bare) (h48 idx dist n : ℕ)
    → Reaches t h48 idx dist (suc n)
    → Reaches t h48 (slot_at t.capacity idx 1) (u16 (dist + 1)) n
step-Reaches t h48 idx dist n r =
    let bound = IsPow2-pos t.capacity r.pow2 in
    let i' = slot_at t.capacity idx 1 in
    let at : i' ≡ (idx + 1) % t.capacity =
      slot_at-eq-mod t.capacity idx 1 r.pow2 (omega (arith, r.inside)) in
    let off : (j : ℕ) → slot_off t i' j ≡ slot_off t idx (suc j) = λ j.
      ap (λ (m : ℕ). get_or t.hash_pd m 0)
        (ap (λ (m : ℕ). (m + j) % t.capacity) at ∙ mod_step t.capacity idx j bound.0) in
    let d : (j : ℕ) → u16 (dist + 1) + j ≡ dist + suc j = λ j. omega (arith, r.small) in
    record {
      pow2 = r.pow2;
      inside = rw at (omega (arith, bound));
      small = omega (arith, r.small);
      near = λ j h. rw (d j) (r.near (suc j) (omega arith));
      path = λ j h.
          rw (d j) (
            subst (λ (w : ℕ). Passes w (dist + suc j)) (sym (off j))
              (r.path (suc j) (omega arith)));
      whole = rw (off n) r.whole;
      match = rw (off n) r.match;
    }

first_slot :
    (t : Bare) (h48 idx dist n : ℕ)
    → Reaches t h48 idx dist n
    → slot_off t idx 0 ≡ get_or t.hash_pd idx 0
first_slot t h48 idx dist n r =
    ap (λ (m : ℕ). get_or t.hash_pd m 0) (zero_offset t.capacity idx 0 r.inside (omega arith))

-- One round passes the slot, and finds the entry there or in a later round.
round-found :
    (t : Bare) (h48 idx dist left : ℕ)
    → Passes (get_or t.hash_pd idx 0) dist
    → past_limit t dist ≡ false
    → ((hpd_tomb (get_or t.hash_pd idx 0) ≡ false) × (hpd_hash (get_or t.hash_pd idx 0) ≡ h48))
      ⊎ ((v : ℕ) × (find_from t h48 (slot_at t.capacity idx 1) (u16 (dist + 1)) left ≡ some v))
    → (v : ℕ) × (find_from t h48 idx dist (suc left) ≡ some v)
unfolding find_from
round-found t h48 idx dist left (whole, inl tomb) near (inl (alive, hit)) = absurd (cc)
round-found t h48 idx dist left (whole, inl tomb) near (inr (v, found)) =
    (v, rw (whole, tomb) found)
round-found t h48 idx dist left (whole, inr d) near (inl (alive, hit)) =
    (get_or t.vals idx 0, rw (whole, alive, le→ltb _ _ d, near, (==_iff _ _).1 hit))
round-found t h48 idx dist left (whole, inr d) near (inr (v, found)) =
    let w = get_or t.hash_pd idx 0 in
    elim (Bool-cases (hpd_tomb w)) [
      | inl tomb ↦ (v, rw (whole, tomb) found)
      | inr alive ↦ elim (Bool-cases (hpd_hash w == h48)) [
        | inl hit ↦ (get_or t.vals idx 0, rw (whole, alive, le→ltb _ _ d, near, hit))
        | inr miss ↦ (v, rw (whole, alive, le→ltb _ _ d, near, miss) found)
      ]
    ]

find_from-Reaches :
    (n left : ℕ) (t : Bare) (h48 idx dist : ℕ)
    → n < left
    → Reaches t h48 idx dist n
    → (v : ℕ) × (find_from t h48 idx dist left ≡ some v)
find_from-Reaches n zero t h48 idx dist h r = absurd (omega arith)
find_from-Reaches zero (suc left) t h48 idx dist h r =
    let e = first_slot t h48 idx dist 0 r in
    let d : dist + 0 ≡ dist = omega arith in
    round-found t h48 idx dist left (rw (e, d) at (r.path 0 (omega arith)))
      (past_limit_near t dist (rw d at (r.near 0 (omega arith))))
      (inl (rw e at r.whole, rw e at r.match))
find_from-Reaches (suc n) (suc left) t h48 idx dist h r =
    let e = first_slot t h48 idx dist (suc n) r in
    let d : dist + 0 ≡ dist = omega arith in
    round-found t h48 idx dist left (rw (e, d) at (r.path 0 (omega arith)))
      (past_limit_near t dist (rw d at (r.near 0 (omega arith))))
      (inr (
        find_from-Reaches n left t h48 (slot_at t.capacity idx 1) (u16 (dist + 1)) (omega arith)
          (step-Reaches t h48 idx dist n r)))

reached :
    (t : Bare) (hash n : ℕ)
    → 2 ≤ bit_and hash hash_mask
    → n ≤ t.capacity
    → Reaches t (bit_and hash hash_mask) (ideal_slot t.capacity (bit_and hash hash_mask)) 0 n
    → (v : ℕ) × (ht_bare_find t hash ≡ some v)
unfolding ht_bare_find
reached t hash n live short r = rw (le→ltb (bit_and hash hash_mask) 2 live) (
    find_from-Reaches n (suc t.capacity) t (bit_and hash hash_mask)
      (ideal_slot t.capacity (bit_and hash hash_mask)) 0 (omega arith) r)

-- In a valid table, if the probe for a hash, from its ideal slot, gets within `capacity` places to a
-- live slot with that hash, past no slot that ends it and inside the probe limit, `ht_bare_find`
-- returns a value, and one that the table holds under the low 48 bits of the hash.
pub ht_bare_find-Reaches :
    (t : Bare) (hash n : ℕ)
    → IsValid t
    → 2 ≤ bit_and hash hash_mask
    → n ≤ t.capacity
    → Reaches t (bit_and hash hash_mask) (ideal_slot t.capacity (bit_and hash hash_mask)) 0 n
    → (v : ℕ) × (ht_bare_find t hash ≡ some v) × (1 ≤ copies (bit_and hash hash_mask) v t)
ht_bare_find-Reaches t hash n valid live short r =
    let (v, found) = reached t hash n live short r in
    (v, found, ht_bare_find-stored t hash v valid r.pow2 found)
