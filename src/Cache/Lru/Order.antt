-- ===== src/Cache/Lru/Order.antt =====
-- The order of the live slots, and what a write to a link changes of it.
use draugr_repo.Base.{
  ℕ, ◌≤◌, ◌<◌, ◌≡◌, ◌≢◌, refl, sym, subst, arith, Bool-cases, inl, inr, false, List, [], ◌∷◌, ◌==◌,
  length, length-set, get_or, set, get_or-set_ne, count, one_self,
}
use draugr_repo.Cache.Lru.{no_slot, Links, write_link}
use draugr_repo.Cache.Lru.Chain.{
  first_or, last_or, Chain, Distinct, Below, frame_prev, frame_next, count-last_or, retarget_last,
  retarget_first,
}

-- The links of `l`, over `n` slots, are those of the order `xs`.
pub record IsOrder (n : ℕ) (l : Links) (xs : List ℕ) : Type 0 where
  pub prevs : length l.prev ≡ n
  pub nexts : length l.next ≡ n
  pub head : l.head ≡ first_or no_slot xs
  pub tail : l.tail ≡ last_or no_slot xs
  pub chain : Chain l.prev l.next no_slot xs no_slot
  pub distinct : Distinct xs
  pub below : Below n xs

module _ (n : ℕ) (fits : n ≤ no_slot) where
  pub slot_test : (i : ℕ) → i < n → (i == no_slot) ≡ false
  slot_test i h = ground arith

  pub write_link_at : (ls : List ℕ) (i v : ℕ) → i < n → write_link ls i v ≡ set ls i v
  unfolding write_link
  write_link_at ls i v h = rw (slot_test i h) refl

  pub get-write_link_ne :
      (ls : List ℕ) (i j v : ℕ) → i ≢ j → get_or (write_link ls i v) j 0 ≡ get_or ls j 0
  unfolding write_link
  get-write_link_ne ls i j v ne = elim (Bool-cases (i == no_slot)) [
    | inl nowhere ↦ rw nowhere refl
    | inr there ↦ rw there (get_or-set_ne ls i j v 0 ne)
  ]

  pub length-write_link : (ls : List ℕ) (i v : ℕ) → length (write_link ls i v) ≡ length ls
  unfolding write_link
  length-write_link ls i v = ground (arith, length-set ls i v)

  pub write_link_prev :
      (prev next : List ℕ) (b : ℕ) (xs : List ℕ) (a i v : ℕ)
      → count i xs ≡ 0
      → Chain prev next b xs a
      → Chain (write_link prev i v) next b xs a
  unfolding write_link
  write_link_prev prev next b xs a i v out c = elim (Bool-cases (i == no_slot)) [
    | inl nowhere ↦ rw nowhere c
    | inr there ↦ rw there (frame_prev prev next b xs a i v out c)
  ]

  pub write_link_next :
      (prev next : List ℕ) (b : ℕ) (xs : List ℕ) (a i v : ℕ)
      → count i xs ≡ 0
      → Chain prev next b xs a
      → Chain prev (write_link next i v) b xs a
  unfolding write_link
  write_link_next prev next b xs a i v out c = elim (Bool-cases (i == no_slot)) [
    | inl nowhere ↦ rw nowhere c
    | inr there ↦ rw there (frame_next prev next b xs a i v out c)
  ]

  pub relink_last :
      (prev next : List ℕ) (xs : List ℕ) (a a' : ℕ)
      → length next ≡ n
      → Distinct xs
      → Below n xs
      → Chain prev next no_slot xs a
      → Chain prev (write_link next (last_or no_slot xs) a') no_slot xs a'
  relink_last prev next [] a a' len d low c = tt
  relink_last prev next (x ∷ xs) a a' len d low c =
      let linked = write_link_at next (last_or x xs) a' (low (last_or x xs) (count-last_or x xs)) in
      subst (λ ls. Chain prev ls no_slot (x ∷ xs) a') (sym linked)
        (retarget_last prev next no_slot x xs a a' d (λ i h. omega (arith, low i h)) c)

  pub relink_first :
      (prev next : List ℕ) (b b' : ℕ) (ys : List ℕ)
      → length prev ≡ n
      → Distinct ys
      → Below n ys
      → Chain prev next b ys no_slot
      → Chain (write_link prev (first_or no_slot ys) b') next b' ys no_slot
  relink_first prev next b b' [] len d low c = tt
  relink_first prev next b b' (y ∷ ys) len d low c =
      let inside : y < n = low y (omega (arith, one_self y)) in
      subst (λ ls. Chain ls next b' (y ∷ ys) no_slot) (sym (write_link_at prev y b' inside))
        (retarget_first prev next b b' y ys no_slot (omega (arith, d y, one_self y)) (omega arith)
          c)

  pub count-no_slot : (xs : List ℕ) → Below n xs → count no_slot xs ≡ 0
  count-no_slot xs low = ground (arith, low no_slot)
