-- ===== src/Ht/Bare/Shift/Commit.antt =====
-- The backward shift moves entries and loses none.
use native.Mathlib.Decide.{ℕ_discrete}
use native.Mathlib.Nat.{add_comm}
use draugr_repo.Base.{
  ℕ, zero, suc, ◌+◌, ◌-◌, ◌%◌, ◌^◌, ◌<◌, ◌≤◌, ◌≡◌, ◌≢◌, refl, arith, ap, ◌∙◌, true, false,
}
use draugr_repo.Base.{inl, inr, Bool-cases, get_or, u16, get_or-set_ne}
use draugr_repo.Ht.Slot.{hpd_hash, hpd_pd, hpd_pack, hpd_live, val_none}
use draugr_repo.Ht.Slot.Laws.{hpd_hash-lt}
use draugr_repo.Ht.Bare.{Bare, slot_at, put_slot}
use draugr_repo.Ht.Bare.Weigh.{weigh, in_slot}
use draugr_repo.Ht.Bare.Valid.{IsValid, one_each}
use draugr_repo.Ht.Bare.Insert.Slots.{
  IsPow2, slot_at-eq-mod, put_slot-weigh, put_slot-weigh_over, put_slot-IsValid, in_slot-pack,
}
use draugr_repo.Ht.Bare.Shift.{
  shift_entry, uncount_tomb, clear_slot, commit_from, bare_commit_backward_shift,
}
use draugr_repo.Ht.Bare.Shift.Freed.{
  FreeAt, CanShift, Keeps, zero-dead, offsets_ne, in_slot-dead, in_slot-live, live-ge-two,
  uncounted-IsValid, weigh-uncount_tomb, emptied-Keeps, FreeAt-emptied, Keeps-trans,
}

module _ (t : Bare) (idx w i left : ℕ) (can : CanShift t idx w i (suc left)) where
  abbrev read : ℕ
  read = (idx + (1 + i)) % t.capacity

  abbrev write : ℕ
  write = (idx + w) % t.capacity

  read_at : slot_at t.capacity idx (1 + i) ≡ read
  read_at = slot_at-eq-mod t.capacity idx (1 + i) can.pow2 (omega (arith, can.valid.small))

  write_at : slot_at t.capacity idx w ≡ write
  write_at = slot_at-eq-mod t.capacity idx w can.pow2 (omega (arith, can.valid.small))

  read-lt : read < t.capacity
  read-lt = omega (arith, can.inside)

  write-lt : write < t.capacity
  write-lt = omega (arith, can.inside)

  write-ne-read : write ≢ read
  write-ne-read =
      offsets_ne t.capacity idx w (1 + i) can.inside (omega (arith, can.order))
        (omega (arith, can.short))

  clear-Keeps :
      hpd_live (get_or t.hash_pd read 0) ≡ false → Keeps t (clear_slot (uncount_tomb t) idx i)
  clear-Keeps dead =
      let k : Keeps (uncount_tomb t) (put_slot (uncount_tomb t) read 0 val_none) =
        emptied-Keeps (uncount_tomb t) read val_none (uncounted-IsValid t can.valid)
          (unfold uncount_tomb in read-lt) (unfold uncount_tomb in dead) in
      let e : clear_slot (uncount_tomb t) idx i ≡ put_slot (uncount_tomb t) read 0 val_none =
        unfold clear_slot uncount_tomb in rw read_at in
      rw e (record {
        valid = k.valid;
        same = λ f. k.same f ∙ weigh-uncount_tomb f t;
        capacity = unfold uncount_tomb in k.capacity;
      })

  -- The offset behind `i` is that of the slot read.
  read-suc : (idx + (i + 1)) % t.capacity ≡ read
  read-suc = ap (λ (n : ℕ). (idx + n) % t.capacity) (add_comm i 1)

  clear_at : (u : Bare) → u.capacity ≡ t.capacity → clear_slot u idx i ≡ put_slot u read 0 val_none
  unfolding clear_slot
  clear_at u e = rw (e, read_at)

  clear-CanShift :
      hpd_live (get_or t.hash_pd read 0) ≡ false
      → CanShift (clear_slot (uncount_tomb t) idx i) idx w (i + 1) left
  clear-CanShift dead =
      let u = uncount_tomb t in
      rw (clear_at u (unfold uncount_tomb in refl)) (record {
        valid = rw (clear_at u (unfold uncount_tomb in refl)) at (clear-Keeps dead).valid;
        pow2 = unfold put_slot uncount_tomb in can.pow2;
        inside = unfold put_slot uncount_tomb in can.inside;
        order = omega (arith, can.order);
        short = unfold put_slot uncount_tomb in omega (arith, can.short);
        free = λ n p q.
            FreeAt-emptied u idx read val_none n (uncounted-IsValid t can.valid)
              (unfold uncount_tomb in read-lt)
              (unfold uncount_tomb in
                λ ne. elim (ℕ_discrete n (i + 1)) [
                  | yes e ↦ absurd (ne (ap (λ (m : ℕ). (idx + m) % t.capacity) e ∙ read-suc))
                  | no other ↦ can.free n p (omega arith)
                ]);
      })

  -- The entry that moves, and the table with it at both places.
  abbrev hpd : ℕ
  hpd = get_or t.hash_pd read 0

  abbrev word : ℕ
  word = hpd_pack (hpd_hash hpd) (u16 (hpd_pd hpd + 2 ^ 16 - u16 (i + 1 - w)))

  abbrev copied : Bare
  copied = put_slot t write word (get_or t.vals read 0)

  shift_at : shift_entry t idx w i ≡ copied
  unfolding shift_entry
  shift_at = rw (read_at, write_at)

  write-free : hpd_live (get_or t.hash_pd write 0) ≡ false
  write-free = can.free w (omega arith) can.order

  copied-weigh :
      hpd_live hpd ≡ true
      → (f : ℕ → ℕ → ℕ) → weigh f copied ≡ weigh f t + f (hpd_hash hpd) (get_or t.vals read 0)
  copied-weigh live f = omega (
    arith,
    put_slot-weigh t write word (get_or t.vals read 0) f can.valid write-lt,
    in_slot-dead f (get_or t.hash_pd write 0) (get_or t.vals write 0) write-free,
    in_slot-pack f (hpd_hash hpd) (u16 (hpd_pd hpd + 2 ^ 16 - u16 (i + 1 - w)))
        (get_or t.vals read 0) (live-ge-two hpd live) (hpd_hash-lt hpd) (omega arith),
  )

  -- `size` counts one too few in between, so validity is stated with the count that fits.
  copied-IsValid : hpd_live hpd ≡ true → IsValid (record copied { size = t.size + 1 })
  copied-IsValid live =
      unfold put_slot in
      put_slot-IsValid t write word (get_or t.vals read 0) (t.size + 1) t.tombstone_cnt can.valid
        (omega (arith, copied-weigh live one_each, can.valid.counted))

  abbrev counted : Bare
  counted = record copied { size = t.size + 1 }

  copied-read : get_or copied.hash_pd read 0 ≡ hpd
  unfolding put_slot
  copied-read = get_or-set_ne t.hash_pd write read word 0 write-ne-read

  copied-read_val : get_or copied.vals read 0 ≡ get_or t.vals read 0
  unfolding put_slot
  copied-read_val = get_or-set_ne t.vals write read (get_or t.vals read 0) 0 write-ne-read

  abbrev shifted : Bare
  shifted = put_slot copied read 0 val_none

  -- The count of entries has no weight.
  counted-weigh : (f : ℕ → ℕ → ℕ) → weigh f (put_slot counted read 0 val_none) ≡ weigh f shifted
  unfolding weigh put_slot
  counted-weigh f = refl

  shifted-weigh : hpd_live hpd ≡ true → (f : ℕ → ℕ → ℕ) → weigh f shifted ≡ weigh f t
  unfolding put_slot weigh
  shifted-weigh live f =
      let cleared : weigh f shifted + in_slot f hpd (get_or t.vals read 0)
          ≡ weigh f copied + in_slot f 0 val_none =
        rw (← counted-weigh f) (
          put_slot-weigh_over counted read 0 val_none hpd (get_or t.vals read 0) f
            (copied-IsValid live) (unfold put_slot in read-lt) copied-read copied-read_val) in
      omega (
        arith,
        cleared,
        copied-weigh live f,
        in_slot-live f hpd (get_or t.vals read 0) live,
        in_slot-dead f 0 val_none zero-dead,
      )

  shifted-Keeps : hpd_live hpd ≡ true → Keeps t shifted
  shifted-Keeps live = record {
    valid =
        unfold put_slot in
        put_slot-IsValid counted read 0 val_none t.size t.tombstone_cnt (copied-IsValid live)
          (omega (arith, counted-weigh one_each, shifted-weigh live one_each, can.valid.counted));
    same = shifted-weigh live;
    capacity = unfold put_slot in refl;
  }

  shifted_at : clear_slot (shift_entry t idx w i) idx i ≡ shifted
  shifted_at = rw shift_at (clear_at copied (unfold put_slot in refl))

  shift-Keeps : hpd_live hpd ≡ true → Keeps t (clear_slot (shift_entry t idx w i) idx i)
  shift-Keeps live = rw shifted_at (shifted-Keeps live)

  copied-FreeAt : (n : ℕ) → w + 1 ≤ n → n ≤ i → FreeAt copied idx n
  unfolding put_slot
  copied-FreeAt n p q =
      rw
        (get_or-set_ne t.hash_pd write ((idx + n) % t.capacity) word 0
          (offsets_ne t.capacity idx w n can.inside (omega arith) (omega (arith, can.short))))
        (can.free n (omega arith) q)

  shift-CanShift :
      hpd_live hpd ≡ true
      → CanShift (clear_slot (shift_entry t idx w i) idx i) idx (w + 1) (i + 1) left
  shift-CanShift live = rw shifted_at (record {
    valid = (shifted-Keeps live).valid;
    pow2 = unfold put_slot in can.pow2;
    inside = unfold put_slot in can.inside;
    order = omega (arith, can.order);
    short = unfold put_slot in omega (arith, can.short);
    free = λ n p q.
        unfold put_slot in
        FreeAt-emptied counted idx read val_none n (copied-IsValid live) read-lt (λ ne.
          elim (ℕ_discrete n (i + 1)) [
            | yes e ↦ absurd (ne (ap (λ (m : ℕ). (idx + m) % t.capacity) e ∙ read-suc))
            | no other ↦ copied-FreeAt n p (omega arith)
          ]);
  })

commit_from-Keeps :
    (left i w idx : ℕ) (t : Bare) → CanShift t idx w i left → Keeps t (commit_from t idx w i left)
unfolding commit_from
commit_from-Keeps zero i w idx t can = record {
  valid = uncounted-IsValid t can.valid;
  same = λ f. weigh-uncount_tomb f t;
  capacity = unfold uncount_tomb in refl;
}
commit_from-Keeps (suc left) i w idx t can =
    elim (Bool-cases (hpd_live (get_or t.hash_pd (slot_at t.capacity idx (1 + i)) 0))) [
      | inl live ↦
          let live' = rw (read_at t idx w i left can) at live in
          rw (live, commit_from)
            (Keeps-trans (shift-Keeps t idx w i left can live') (
              commit_from-Keeps left (i + 1) (w + 1) idx _
                (shift-CanShift t idx w i left can live')))
      | inr dead ↦
          let dead' = rw (read_at t idx w i left can) at dead in
          rw (dead, commit_from)
            (Keeps-trans (clear-Keeps t idx w i left can dead')
              (commit_from-Keeps left (i + 1) w idx _ (clear-CanShift t idx w i left can dead')))
    ]

-- A backward shift from a slot that holds no live entry, in a valid table whose capacity is a
-- power of two, over fewer places than there are slots, keeps the table valid and its capacity,
-- and changes none of its entries.
pub bare_commit_backward_shift-Keeps :
    (t : Bare) (idx len : ℕ)
    → IsValid t
    → IsPow2 t.capacity
    → idx < t.capacity
    → len < t.capacity
    → hpd_live (get_or t.hash_pd idx 0) ≡ false
    → Keeps t (bare_commit_backward_shift t idx len)
unfolding bare_commit_backward_shift
bare_commit_backward_shift-Keeps t idx len valid pow2 inside short dead =
    commit_from-Keeps len 0 0 idx t (record {
      valid = valid;
      pow2 = pow2;
      inside = inside;
      order = omega arith;
      short = omega arith;
      free = λ n p q. let e : (idx + n) % t.capacity ≡ idx = grind arith in rw e dead;
    })
