-- ===== src/Ht/Bare/Probe/Remove.antt =====
-- Removing an entry by hash and value takes exactly that entry away.
use draugr_repo.Base.{ℕ, zero, suc, ◌+◌, ◌<◌, ◌≡◌, refl, ◌∙◌, arith, true, false, ◌&&◌, bit_and}
use draugr_repo.Base.{inl, inr, Bool-cases, get_or, get_or-set_self, ltb, ◌==◌, u16}
use draugr_repo.Ht.Slot.{
  hash_mask, hash_tomb, val_none, hpd_hash, hpd_pd, hpd_empty, hpd_tomb, hpd_live,
}
use draugr_repo.Ht.Bare.{Bare, inc, dec, slot_at, ideal_slot, put_slot}
use draugr_repo.Ht.Bare.Weigh.{weigh, in_slot}
use draugr_repo.Ht.Bare.Valid.{IsValid, Removed, one_each, size-lt}
use draugr_repo.Ht.Bare.Spill.Drop.{bare_spill_remove_val-Removed, bare_spill_remove_val-capacity}
use draugr_repo.Ht.Bare.Stash.Laws.{
  overflow_stash_remove_val-Removed, overflow_stash_remove_val-capacity,
}
use draugr_repo.Ht.Bare.Shift.{bare_delete_compact}
use draugr_repo.Ht.Bare.Shift.Compact.{bare_delete_compact-Keeps}
use draugr_repo.Ht.Bare.Insert.Slots.{
  IsPow2, slot_at-lt, ideal_slot-lt, put_slot-weigh, put_slot-IsValid,
}
use draugr_repo.Ht.Bare.Probe.{entomb, remove_val_from, ht_bare_remove_val}

tomb-tomb : hpd_tomb hash_tomb ≡ true
unfolding hpd_tomb hpd_hash
tomb-tomb = refl

pub in_slot-tomb : (f : ℕ → ℕ → ℕ) (v : ℕ) → in_slot f hash_tomb v ≡ 0
unfolding hpd_live hpd_hash
in_slot-tomb f v = refl

pub in_slot-full :
    (f : ℕ → ℕ → ℕ) (x v : ℕ)
    → hpd_empty x ≡ false
    → hpd_tomb x ≡ false
    → in_slot f x v ≡ f (hpd_hash x) v
unfolding hpd_empty hpd_tomb hpd_live
in_slot-full f x v p q = ground arith

both_eq : (a b c d : ℕ) → (a == b && c == d) ≡ true → (a ≡ b) × (c ≡ d)
both_eq a b c d h = ground arith

module _ (t : Bare) (valid : IsValid t) (pow2 : IsPow2 t.capacity) where
  entomb-weigh :
      (idx : ℕ) (f : ℕ → ℕ → ℕ)
      → idx < t.capacity
      → hpd_empty (get_or t.hash_pd idx 0) ≡ false
      → hpd_tomb (get_or t.hash_pd idx 0) ≡ false
      → weigh f (put_slot t idx hash_tomb val_none)
          + f (hpd_hash (get_or t.hash_pd idx 0)) (get_or t.vals idx 0)
        ≡ weigh f t
  entomb-weigh idx f h whole alive = omega (
    arith,
    put_slot-weigh t idx hash_tomb val_none f valid h,
    in_slot-tomb f val_none,
    in_slot-full f (get_or t.hash_pd idx 0) (get_or t.vals idx 0) whole alive,
  )

  entomb-IsValid :
      (idx : ℕ)
      → idx < t.capacity
      → hpd_empty (get_or t.hash_pd idx 0) ≡ false
      → hpd_tomb (get_or t.hash_pd idx 0) ≡ false
      → IsValid (entomb t idx)
  unfolding entomb
  entomb-IsValid idx h whole alive =
      put_slot-IsValid t idx hash_tomb val_none (dec t.size) (inc t.tombstone_cnt) valid
        (omega (arith, entomb-weigh idx one_each h whole alive, valid.counted, size-lt valid))

  weigh-entomb :
      (idx : ℕ) (f : ℕ → ℕ → ℕ)
      → weigh f (entomb t idx) ≡ weigh f (put_slot t idx hash_tomb val_none)
  unfolding entomb weigh put_slot
  weigh-entomb idx f = refl

  entombed : (idx : ℕ) → idx < t.capacity → hpd_tomb (get_or (entomb t idx).hash_pd idx 0) ≡ true
  unfolding entomb put_slot
  entombed idx h =
      rw (get_or-set_self t.hash_pd idx hash_tomb 0 (omega (arith, valid.slots))) tomb-tomb

  pub found-Removed :
      (h v idx : ℕ)
      → idx < t.capacity
      → hpd_empty (get_or t.hash_pd idx 0) ≡ false
      → hpd_tomb (get_or t.hash_pd idx 0) ≡ false
      → hpd_hash (get_or t.hash_pd idx 0) ≡ h
      → get_or t.vals idx 0 ≡ v
      → Removed t h v (true, bare_delete_compact (entomb t idx) idx)
  found-Removed h v idx below whole alive eh ev =
      let kept =
        bare_delete_compact-Keeps (entomb t idx) idx (entomb-IsValid idx below whole alive)
          (unfold entomb put_slot in pow2) (unfold entomb put_slot in below) (entombed idx below) in
      (
        kept.valid,
        λ f.
            rw (← eh, ← ev)
              (omega
                (arith, kept.same f, weigh-entomb idx f, entomb-weigh idx f below whole alive)),
      )

  pub found-capacity :
      (idx : ℕ)
      → idx < t.capacity
      → hpd_empty (get_or t.hash_pd idx 0) ≡ false
      → hpd_tomb (get_or t.hash_pd idx 0) ≡ false
      → (bare_delete_compact (entomb t idx) idx).capacity ≡ t.capacity
  found-capacity idx below whole alive =
      let kept =
        bare_delete_compact-Keeps (entomb t idx) idx (entomb-IsValid idx below whole alive)
          (unfold entomb put_slot in pow2) (unfold entomb put_slot in below) (entombed idx below) in
      kept.capacity ∙ (unfold entomb put_slot in refl)

  remove_val_from-Removed :
      (h v left idx dist : ℕ)
      → idx < t.capacity
      → Removed t h v (remove_val_from t h v idx dist left)
  unfolding remove_val_from
  remove_val_from-Removed h v zero idx dist below = overflow_stash_remove_val-Removed t valid h v
  remove_val_from-Removed h v (suc left) idx dist below =
      let slot = get_or t.hash_pd idx 0 in
      let stash = overflow_stash_remove_val-Removed t valid h v in
      let rest =
        remove_val_from-Removed h v left (slot_at t.capacity idx 1) (u16 (dist + 1))
          (slot_at-lt t.capacity idx 1 pow2 (omega (arith, valid.small))) in
      elim (Bool-cases (hpd_empty slot)) [
        | inl empty ↦ rw empty stash
        | inr whole ↦ elim (Bool-cases (hpd_tomb slot)) [
          | inl tomb ↦ rw (whole, tomb) rest
          | inr alive ↦ elim (Bool-cases (ltb (hpd_pd slot) dist)) [
            | inl early ↦ rw (whole, alive, early) stash
            | inr on ↦ elim (Bool-cases (hpd_hash slot == h && get_or t.vals idx 0 == v)) [
              | inl hit ↦
                  let (eh, ev) = both_eq (hpd_hash slot) h (get_or t.vals idx 0) v hit in
                  rw (whole, alive, on, hit) (found-Removed h v idx below whole alive eh ev)
              | inr miss ↦ rw (whole, alive, on, miss) rest
            ]
          ]
        ]
      ]

  -- In a valid table whose capacity is a power of two, `ht_bare_remove_val` either reports success
  -- and the contents lose one entry with the given value under the low 48 bits of the hash, and no
  -- other, the table staying valid; or it reports failure and the table is unchanged.
  pub ht_bare_remove_val-Removed :
      (hash v : ℕ) → Removed t (bit_and hash hash_mask) v (ht_bare_remove_val t hash v)
  unfolding ht_bare_remove_val
  ht_bare_remove_val-Removed hash v =
      let h48 = bit_and hash hash_mask in
      elim (Bool-cases (ltb h48 2)) [
        | inl small ↦ rw small (bare_spill_remove_val-Removed t valid h48 v)
        | inr big ↦ rw big (
            remove_val_from-Removed h48 v (suc t.capacity) (ideal_slot t.capacity h48) 0
              (ideal_slot-lt t.capacity h48 pow2))
      ]

  remove_val_from-capacity :
      (h v left idx dist : ℕ)
      → idx < t.capacity
      → (remove_val_from t h v idx dist left).1.capacity ≡ t.capacity
  unfolding remove_val_from
  remove_val_from-capacity h v zero idx dist below = overflow_stash_remove_val-capacity t h v
  remove_val_from-capacity h v (suc left) idx dist below =
      let slot = get_or t.hash_pd idx 0 in
      let stash = overflow_stash_remove_val-capacity t h v in
      let rest =
        remove_val_from-capacity h v left (slot_at t.capacity idx 1) (u16 (dist + 1))
          (slot_at-lt t.capacity idx 1 pow2 (omega (arith, valid.small))) in
      elim (Bool-cases (hpd_empty slot)) [
        | inl empty ↦ rw empty stash
        | inr whole ↦ elim (Bool-cases (hpd_tomb slot)) [
          | inl tomb ↦ rw (whole, tomb) rest
          | inr alive ↦ elim (Bool-cases (ltb (hpd_pd slot) dist)) [
            | inl early ↦ rw (whole, alive, early) stash
            | inr on ↦ elim (Bool-cases (hpd_hash slot == h && get_or t.vals idx 0 == v)) [
              | inl hit ↦ rw (whole, alive, on, hit) (found-capacity idx below whole alive)
              | inr miss ↦ rw (whole, alive, on, miss) rest
            ]
          ]
        ]
      ]

  pub ht_bare_remove_val-capacity :
      (hash v : ℕ) → (ht_bare_remove_val t hash v).1.capacity ≡ t.capacity
  unfolding ht_bare_remove_val
  ht_bare_remove_val-capacity hash v =
      let h48 = bit_and hash hash_mask in
      elim (Bool-cases (ltb h48 2)) [
        | inl small ↦ rw small (bare_spill_remove_val-capacity t h48 v)
        | inr big ↦ rw big (
            remove_val_from-capacity h48 v (suc t.capacity) (ideal_slot t.capacity h48) 0
              (ideal_slot-lt t.capacity h48 pow2))
      ]
