-- ===== src/Ht/Bare/Probe/Loop.antt =====
-- The loop of `ht_bare_remove`: what it loses, and that it loses what a lookup finds.
use draugr_repo.Base.{ℕ, zero, suc, ◌+◌, ◌^◌, ◌<◌, ◌≡◌, refl, sym, arith, inl, inr, Bool-cases}
use draugr_repo.Base.{get_or, subst, u16, ltb, ◌==◌, ==_iff}
use draugr_repo.Base.{◌≤◌, ◌⊎◌, false, some}
use draugr_repo.Ht.Bare.Stash.{stash_find}
use draugr_repo.Ht.Slot.{hpd_hash, hpd_pd, hpd_empty, hpd_tomb}
use draugr_repo.Ht.Bare.{Bare, inc, slot_at}
use draugr_repo.Ht.Bare.Weigh.{weigh}
use draugr_repo.Ht.Bare.Valid.{IsValid, one_each, size-lt}
use draugr_repo.Ht.Bare.Purged.{Purged, none-Purged, more-Purged}
use draugr_repo.Ht.Bare.Insert.Slots.{IsPow2, slot_at-lt}
use draugr_repo.Ht.Bare.Shift.{bare_delete_compact}
use draugr_repo.Ht.Bare.Probe.{entomb, remove_from, find_from, past_limit}
use draugr_repo.Ht.Bare.Probe.Remove.{found-Removed, found-capacity}

pub remove_from-Purged :
    (h left : ℕ) (t : Bare) (idx dist acc : ℕ)
    → IsValid t
    → IsPow2 t.capacity
    → idx < t.capacity
    → acc + weigh one_each t < 2 ^ 64
    → Purged t h acc (remove_from t h idx dist acc left)
unfolding remove_from
remove_from-Purged h zero t idx dist acc valid pow2 below room = none-Purged t h acc valid
remove_from-Purged h (suc left) t idx dist acc valid pow2 below room =
    let slot = get_or t.hash_pd idx 0 in
    let stop = none-Purged t h acc valid in
    let on =
      remove_from-Purged h left t (slot_at t.capacity idx 1) (u16 (dist + 1)) acc valid pow2
        (slot_at-lt t.capacity idx 1 pow2 (omega (arith, valid.small))) room in
    elim (Bool-cases (hpd_empty slot)) [
      | inl empty ↦ rw (remove_from, empty) stop
      | inr whole ↦ elim (Bool-cases (hpd_tomb slot)) [
        | inl tomb ↦ rw (remove_from, whole, tomb) on
        | inr alive ↦ elim (Bool-cases (ltb (hpd_pd slot) dist)) [
          | inl early ↦ rw (remove_from, whole, alive, early) stop
          | inr further ↦ elim (Bool-cases (hpd_hash slot == h)) [
            | inl hit ↦
                let t' = bare_delete_compact (entomb t idx) idx in
                let v = get_or t.vals idx 0 in
                let (valid', lost) =
                  found-Removed t valid pow2 h v idx below whole alive ((==_iff _ _).0 hit) refl in
                let cap = found-capacity t valid pow2 idx below whole alive in
                let counts : inc acc ≡ acc + 1 = omega (arith, lost one_each) in
                rw (remove_from, whole, alive, further, hit, counts)
                  (more-Purged t t' h v acc _ (valid', lost) cap
                    (remove_from-Purged h left t' idx dist (acc + 1) valid'
                      (subst (λ c. IsPow2 c) (sym cap) pow2) (omega (arith, cap))
                      (omega (arith, lost one_each))))
            | inr miss ↦ rw (remove_from, whole, alive, further, miss) on
          ]
        ]
      ]
    ]

-- An entry of the hash at a slot of the path is removed.
hit-removes :
    (h left : ℕ) (t : Bare) (idx dist : ℕ)
    → IsValid t
    → IsPow2 t.capacity
    → idx < t.capacity
    → hpd_empty (get_or t.hash_pd idx 0) ≡ false
    → hpd_tomb (get_or t.hash_pd idx 0) ≡ false
    → hpd_hash (get_or t.hash_pd idx 0) ≡ h
    → 1 ≤ (remove_from (bare_delete_compact (entomb t idx) idx) h idx dist (inc 0) left).0
hit-removes h left t idx dist valid pow2 below whole alive e =
    let t' = bare_delete_compact (entomb t idx) idx in
    let (valid', lost) =
      found-Removed t valid pow2 h (get_or t.vals idx 0) idx below whole alive e refl in
    let cap = found-capacity t valid pow2 idx below whole alive in
    let one_of : inc 0 ≡ 1 = omega arith in
    let p =
      remove_from-Purged h left t' idx dist 1 valid' (subst (λ c. IsPow2 c) (sym cap) pow2)
        (omega (arith, cap)) (omega (arith, lost one_each, valid.counted, size-lt valid)) in
    rw one_of (omega (arith, p.counted, p.less one_each))

-- Where nothing is removed the table is as it was.
pub remove_from-same :
    (h left : ℕ) (t : Bare) (idx dist : ℕ)
    → IsValid t
    → IsPow2 t.capacity
    → idx < t.capacity
    → let r = remove_from t h idx dist 0 left in (1 ≤ r.0) ⊎ (r.1 ≡ t)
unfolding remove_from
remove_from-same h zero t idx dist valid pow2 below = inr refl
remove_from-same h (suc left) t idx dist valid pow2 below =
    let slot = get_or t.hash_pd idx 0 in
    let on =
      remove_from-same h left t (slot_at t.capacity idx 1) (u16 (dist + 1)) valid pow2
        (slot_at-lt t.capacity idx 1 pow2 (omega (arith, valid.small))) in
    elim (Bool-cases (hpd_empty slot)) [
      | inl empty ↦ rw (remove_from, empty) (inr refl)
      | inr whole ↦ elim (Bool-cases (hpd_tomb slot)) [
        | inl tomb ↦ rw (remove_from, whole, tomb) on
        | inr alive ↦ elim (Bool-cases (ltb (hpd_pd slot) dist)) [
          | inl early ↦ rw (remove_from, whole, alive, early) (inr refl)
          | inr further ↦ elim (Bool-cases (hpd_hash slot == h)) [
            | inl hit ↦
                rw (remove_from, whole, alive, further, hit)
                  (inl (
                    hit-removes h left t idx dist valid pow2 below whole alive
                      ((==_iff _ _).0 hit)))
            | inr miss ↦ rw (remove_from, whole, alive, further, miss) on
          ]
        ]
      ]
    ]

-- What the lookup finds in the slots is removed from there, or else it is in the stash.
pub remove_from-finds :
    (h v left : ℕ) (t : Bare) (idx dist : ℕ)
    → IsValid t
    → IsPow2 t.capacity
    → idx < t.capacity
    → find_from t h idx dist left ≡ some v
    → (1 ≤ (remove_from t h idx dist 0 left).0) ⊎ (stash_find t h ≡ some v)
unfolding remove_from find_from
remove_from-finds h v zero t idx dist valid pow2 below = λ found. inr found
remove_from-finds h v (suc left) t idx dist valid pow2 below =
    let slot = get_or t.hash_pd idx 0 in
    let on =
      remove_from-finds h v left t (slot_at t.capacity idx 1) (u16 (dist + 1)) valid pow2
        (slot_at-lt t.capacity idx 1 pow2 (omega (arith, valid.small))) in
    elim (Bool-cases (hpd_empty slot)) [
      | inl empty ↦ rw (find_from, empty) (λ found. inr found)
      | inr whole ↦ elim (Bool-cases (hpd_tomb slot)) [
        | inl tomb ↦ rw (remove_from, find_from, whole, tomb) on
        | inr alive ↦ elim (Bool-cases (ltb (hpd_pd slot) dist)) [
          | inl early ↦ rw (find_from, whole, alive, early) (λ found. inr found)
          | inr further ↦ elim (Bool-cases (hpd_hash slot == h)) [
            | inl hit ↦ λ found.
                rw (remove_from, whole, alive, further, hit)
                  (inl (
                    hit-removes h left t idx dist valid pow2 below whole alive
                      ((==_iff _ _).0 hit)))
            | inr miss ↦ elim (Bool-cases (past_limit t dist)) [
              | inl far ↦ rw (find_from, whole, alive, further, far) (λ found. inr found)
              | inr near ↦ rw (remove_from, find_from, whole, alive, further, near, miss) on
            ]
          ]
        ]
      ]
    ]
