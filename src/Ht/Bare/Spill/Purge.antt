-- ===== src/Ht/Bare/Spill/Purge.antt =====
-- Removing all entries of a hash from the spill lane.
use draugr_repo.Base.{
  ℕ, zero, suc, ◌+◌, ◌^◌, ◌<◌, ◌≡◌, refl, arith, true, inl, inr, Bool-cases, get_or,
}
use draugr_repo.Base.{
  ◌==◌, ==_iff, ◌-◌, ◌≤◌, ◌∙◌, List, some, false, set, get_or-set_ne, move_down,
  get_or-move_down_below,
}
use mathlib.Core.Option.{none-ne-some}
use draugr_repo.Ht.Slot.{hpd_hash, hash_empty, val_none}
use draugr_repo.Ht.Bare.{Bare, inc, dec}
use draugr_repo.Ht.Bare.Weigh.{weigh, sum_to, sum_to_ext, in_lane}
use draugr_repo.Ht.Bare.Valid.{IsValid, Removed, one_each, size-lt}
use draugr_repo.Ht.Bare.Purged.{Purged, of_hash, Clear, sum-Clear, none-Purged, more-Purged}
use draugr_repo.Ht.Bare.Spill.{
  bare_spill_remove, spill_remove_from, drop_spill, bare_spill_find, spill_find_from,
}
use draugr_repo.Ht.Bare.Spill.Drop.{drop_spill-weigh, drop_spill-IsValid}

drop_spill-Removed :
    (t : Bare) (h i : ℕ)
    → IsValid t
    → i < t.spill_len
    → hpd_hash (get_or t.spill_hash_pd i 0) ≡ h
    → Removed t h (get_or t.spill_vals i 0) (true, drop_spill t i)
drop_spill-Removed t h i valid below e =
    (drop_spill-IsValid t valid i below, λ f. rw (← e) (drop_spill-weigh t valid i f below))

spill_remove_from-Purged :
    (h left : ℕ) (t : Bare) (i acc : ℕ)
    → IsValid t
    → i + left ≡ t.spill_len
    → acc + weigh one_each t < 2 ^ 64
    → Purged t h acc (spill_remove_from t h i acc left)
unfolding spill_remove_from
spill_remove_from-Purged h zero t i acc valid e room = none-Purged t h acc valid
spill_remove_from-Purged h (suc left) t i acc valid e room =
    elim (Bool-cases (hpd_hash (get_or t.spill_hash_pd i 0) == h)) [
      | inl hit ↦
          let (valid', lost) = drop_spill-Removed t h i valid (omega arith) ((==_iff _ _).0 hit) in
          let counts : inc acc ≡ acc + 1 = omega (arith, lost one_each) in
          rw (spill_remove_from, hit, counts)
            (more-Purged t (drop_spill t i) h (get_or t.spill_vals i 0) acc _ (valid', lost)
              (unfold drop_spill in refl)
              (spill_remove_from-Purged h left (drop_spill t i) i (acc + 1) valid'
                (unfold drop_spill in omega (arith, size-lt valid)) (omega (arith, lost one_each))))
      | inr miss ↦
          rw (spill_remove_from, miss)
            (spill_remove_from-Purged h left t (i + 1) acc valid (omega arith) room)
    ]

-- Removing a hash from the spill lane of a valid table keeps it valid; only entries of that hash
-- are lost, and the result is their number.
pub bare_spill_remove-Purged : (t : Bare) (h : ℕ) → IsValid t → Purged t h 0 (bare_spill_remove t h)
unfolding bare_spill_remove
bare_spill_remove-Purged t h valid =
    spill_remove_from-Purged h t.spill_len t 0 0 valid (omega arith)
      (omega (arith, valid.counted, size-lt valid))

-- What comes before a removal stays where it is.
drop_spill-before :
    (t : Bare) (f : ℕ → ℕ → ℕ) (i : ℕ)
    → IsValid t
    → i < t.spill_len
    → sum_to f i (drop_spill t i).spill_hash_pd (drop_spill t i).spill_vals
      ≡ sum_to f i t.spill_hash_pd t.spill_vals
unfolding drop_spill
drop_spill-before t f i valid below =
    let last : dec t.spill_len ≡ t.spill_len - 1 = omega (arith, size-lt valid, valid.lane_small) in
    let n = t.spill_len - i - 1 in
    let same : (xs : List ℕ) (d : ℕ) (j : ℕ)
        → j < i
        → get_or (set (move_down xs i n) (dec t.spill_len) d) j 0 ≡ get_or xs j 0 =
      λ xs d j before.
        get_or-set_ne (move_down xs i n) (dec t.spill_len) j d 0 (omega (arith, last))
        ∙ get_or-move_down_below xs i n j 0 before in
    sum_to_ext f i t.spill_hash_pd t.spill_vals _ _
      (λ j before. same t.spill_hash_pd hash_empty j before)
      (λ j before. same t.spill_vals val_none j before)

abbrev counted : ℕ → ℕ → Bare → ℕ
counted h n t = sum_to (in_lane (of_hash h)) n t.spill_hash_pd t.spill_vals

one_further :
    (t : Bare) (h i : ℕ)
    → (hpd_hash (get_or t.spill_hash_pd i 0) == h) ≡ false
    → counted h (i + 1) t ≡ counted h i t
unfolding sum_to
one_further t h i miss =
    let s : i + 1 ≡ suc i = omega arith in
    let other : of_hash h (hpd_hash (get_or t.spill_hash_pd i 0)) (get_or t.spill_vals i 0) ≡ 0 =
      ground (arith, miss) in
    rw s (omega (arith, other))

spill_remove_from-cleared :
    (h left : ℕ) (t : Bare) (i acc : ℕ)
    → IsValid t
    → i + left ≡ t.spill_len
    → let r = spill_remove_from t h i acc left in counted h r.1.spill_len (r.1) ≡ counted h i t
unfolding spill_remove_from
spill_remove_from-cleared h zero t i acc valid e =
    let all : t.spill_len ≡ i = omega arith in rw all refl
spill_remove_from-cleared h (suc left) t i acc valid e =
    elim (Bool-cases (hpd_hash (get_or t.spill_hash_pd i 0) == h)) [
      | inl hit ↦
          let (valid', lost) = drop_spill-Removed t h i valid (omega arith) ((==_iff _ _).0 hit) in
          rw (spill_remove_from, hit)
            (spill_remove_from-cleared h left (drop_spill t i) i (inc acc) valid'
                (unfold drop_spill in omega (arith, size-lt valid))
              ∙ drop_spill-before t (in_lane (of_hash h)) i valid (omega arith))
      | inr miss ↦
          let next : counted h (i + 1) t ≡ counted h i t = one_further t h i miss in
          rw (spill_remove_from, miss)
            (spill_remove_from-cleared h left t (i + 1) acc valid (omega arith) ∙ next)
    ]

-- No entry of the hash is left in the lane.
pub bare_spill_remove-Clear :
    (t : Bare) (h : ℕ)
    → IsValid t
    → Clear h (bare_spill_remove t h).1.spill_len (bare_spill_remove t h).1.spill_hash_pd
unfolding bare_spill_remove sum_to
bare_spill_remove-Clear t h valid =
    sum-Clear h _ _ (spill_remove_from t h 0 0 t.spill_len).1.spill_vals
      (spill_remove_from-cleared h t.spill_len t 0 0 valid (omega arith))

spill_remove_from-finds :
    (h v left : ℕ) (t : Bare) (i : ℕ)
    → IsValid t
    → i + left ≡ t.spill_len
    → spill_find_from t h i left ≡ some v
    → 1 ≤ (spill_remove_from t h i 0 left).0
unfolding spill_remove_from spill_find_from
spill_remove_from-finds h v zero t i valid e = λ found. absurd (none-ne-some v found)
spill_remove_from-finds h v (suc left) t i valid e =
    elim (Bool-cases (hpd_hash (get_or t.spill_hash_pd i 0) == h)) [
      | inl hit ↦
          let (valid', lost) = drop_spill-Removed t h i valid (omega arith) ((==_iff _ _).0 hit) in
          let small = size-lt valid in
          let p =
            spill_remove_from-Purged h left (drop_spill t i) i 1 valid'
              (unfold drop_spill in omega (arith, small))
              (omega (arith, lost one_each, valid.counted, small)) in
          let one_of : inc 0 ≡ 1 = omega arith in
          rw (spill_remove_from, hit, one_of) (λ found. omega (arith, p.counted, p.less one_each))
      | inr miss ↦
          rw (spill_find_from, spill_remove_from, miss)
            (spill_remove_from-finds h v left t (i + 1) valid (omega arith))
    ]

-- If a lookup finds something in the lane, an entry is removed.
pub bare_spill_remove-finds :
    (t : Bare) (h v : ℕ) → IsValid t → bare_spill_find t h ≡ some v → 1 ≤ (bare_spill_remove t h).0
unfolding bare_spill_remove bare_spill_find
bare_spill_remove-finds t h v valid =
    spill_remove_from-finds h v t.spill_len t 0 valid (omega arith)
