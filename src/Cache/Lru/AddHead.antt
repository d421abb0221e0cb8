-- ===== src/Cache/Lru/AddHead.antt =====
-- `lru_add_head`.
use draugr_repo.Base.{
  ℕ, ◌≤◌, ◌<◌, ◌≡◌, ◌≢◌, refl, sym, ◌∙◌, subst, arith, if◌then◌else◌, List, [], ◌∷◌, ◌==◌, length,
  length-set, set, get_or-set_self, count, one_self,
}
use draugr_repo.Cache.Lru.{no_slot, Links, write_link, lru_add_head}
use draugr_repo.Cache.Lru.Chain.{
  first_or, last_or, Chain, Distinct, Below, frame_prev, frame_next, count-last_or, ne_of_count,
}
use draugr_repo.Cache.Lru.Order.{
  IsOrder, slot_test, get-write_link_ne, length-write_link, relink_first,
}

module _ (n : ℕ) (fits : n ≤ no_slot) where
  first_or-ne : (idx : ℕ) (xs : List ℕ) → idx < n → count idx xs ≡ 0 → first_or no_slot xs ≢ idx
  first_or-ne idx [] inside out e = absurd (omega arith)
  first_or-ne idx (x ∷ xs) inside out e =
      ne_of_count idx x (x ∷ xs) out (omega (arith, one_self x)) (sym e)

  last_or-test :
      (idx : ℕ) (xs : List ℕ)
      → Below n xs
      → (if last_or no_slot xs == no_slot then idx else last_or no_slot xs) ≡ last_or idx xs
  last_or-test idx [] low = refl
  last_or-test idx (x ∷ xs) low =
      rw (slot_test n fits (last_or x xs) (low (last_or x xs) (count-last_or x xs))) refl

  Distinct-cons : (idx : ℕ) (xs : List ℕ) → count idx xs ≡ 0 → Distinct xs → Distinct (idx ∷ xs)
  Distinct-cons idx xs out d i = ground (arith, d i)

  Below-cons : (idx : ℕ) (xs : List ℕ) → idx < n → Below n xs → Below n (idx ∷ xs)
  Below-cons idx xs inside low i h = ground (arith, low i)

  -- A slot that is in no place of the order becomes its first.
  pub lru_add_head-IsOrder :
      (l : Links) (idx : ℕ) (xs : List ℕ)
      → idx < n
      → count idx xs ≡ 0
      → IsOrder n l xs
      → IsOrder n (lru_add_head l idx) (idx ∷ xs)
  unfolding lru_add_head
  lru_add_head-IsOrder l idx xs inside out o =
      let prev = set l.prev idx no_slot in
      let len : length prev ≡ n = length-set l.prev idx no_slot ∙ o.prevs in
      let apart : l.head ≢ idx = λ e. first_or-ne idx xs inside out (sym o.head ∙ e) in
      let kept : Chain prev (set l.next idx l.head) no_slot xs no_slot =
        frame_next prev l.next no_slot xs no_slot idx l.head out
          (frame_prev l.prev l.next no_slot xs no_slot idx no_slot out o.chain) in
      let linked =
        relink_first n fits prev (set l.next idx l.head) no_slot idx xs len o.distinct o.below
          kept in
      record {
        prevs = length-write_link n fits prev l.head idx ∙ len;
        nexts = length-set l.next idx l.head ∙ o.nexts;
        head = refl;
        tail = rw o.tail (last_or-test idx xs o.below);
        chain = (
          get-write_link_ne n fits prev l.head idx idx apart
              ∙ get_or-set_self l.prev idx no_slot 0 (omega (arith, o.prevs)),
          get_or-set_self l.next idx l.head 0 (omega (arith, o.nexts)) ∙ o.head,
          subst (λ k. Chain (write_link prev k idx) (set l.next idx l.head) idx xs no_slot)
              (sym o.head) linked,
        );
        distinct = Distinct-cons idx xs out o.distinct;
        below = Below-cons idx xs inside o.below;
      }
