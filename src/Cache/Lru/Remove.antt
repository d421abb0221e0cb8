-- ===== src/Cache/Lru/Remove.antt =====
-- `lru_remove`.
use draugr_repo.Base.{
  ℕ, ◌+◌, ◌≤◌, ◌<◌, ◌≡◌, refl, sym, ap, ◌∙◌, subst, arith, if◌then◌else◌, List, [], ◌∷◌, ◌++◌, ◌==◌,
  length-set, get_or, set, count, count-append, one, one_self,
}
use mathlib.Core.List.{append-nil}
use draugr_repo.Cache.Lru.{no_slot, Links, write_link, lru_remove}
use draugr_repo.Cache.Lru.Chain.{
  first_or, last_or, Chain, Distinct, Below, frame_prev, frame_next, Chain-append, append-Chain,
  count-last_or,
}
use draugr_repo.Cache.Lru.Order.{
  IsOrder, slot_test, length-write_link, write_link_prev, write_link_next, relink_last,
  relink_first, count-no_slot,
}

module _ (n : ℕ) (fits : n ≤ no_slot) where
  last_or-append :
      (b : ℕ) (xs : List ℕ) (y : ℕ) (ys : List ℕ) → last_or b (xs ++ y ∷ ys) ≡ last_or y ys
  last_or-append b [] y ys = refl
  last_or-append b (x ∷ xs) y ys = last_or-append x xs y ys

  first_or-append : (a : ℕ) (xs ys : List ℕ) → first_or a (xs ++ ys) ≡ first_or (first_or a ys) xs
  first_or-append a [] ys = refl
  first_or-append a (x ∷ xs) ys = refl

  module _ (l : Links) (idx : ℕ) (xs ys : List ℕ) (o : IsOrder n l (xs ++ idx ∷ ys)) where
    both : (i : ℕ) → count i (xs ++ idx ∷ ys) ≡ count i xs + one i idx + count i ys
    both i = omega (arith, count-append i xs (idx ∷ ys))

    unique_before : Distinct xs
    unique_before i = omega (arith, o.distinct i, both i)

    unique_after : Distinct ys
    unique_after i = omega (arith, o.distinct i, both i)

    inside_before : Below n xs
    inside_before i h = o.below i (omega (arith, both i))

    inside_after : Below n ys
    inside_after i h = o.below i (omega (arith, both i))

    split-inside : idx < n
    split-inside = o.below idx (omega (arith, both idx, one_self idx))

    split-out-left : count idx xs ≡ 0
    split-out-left = omega (arith, o.distinct idx, both idx, one_self idx)

    split-out-right : count idx ys ≡ 0
    split-out-right = omega (arith, o.distinct idx, both idx, one_self idx)

    split-chains :
        Chain l.prev l.next no_slot xs idx
        × (get_or l.prev idx 0 ≡ last_or no_slot xs)
        × (get_or l.next idx 0 ≡ first_or no_slot ys)
        × Chain l.prev l.next idx ys no_slot
    split-chains =
        let (left, right) = append-Chain l.prev l.next no_slot xs (idx ∷ ys) no_slot o.chain in
        (left, right.0, right.1, right.2)

    -- The slot after the removed one is not before it, and the other way round.
    first-out : (zs : List ℕ) → ys ≡ zs → count (first_or no_slot zs) xs ≡ 0
    first-out [] e = count-no_slot n fits xs inside_before
    first-out (z ∷ zs) e =
        omega (arith, o.distinct z, both z, one_self z, ap (λ (t : List ℕ). count z t) e)

    last-out : (zs : List ℕ) → xs ≡ zs → count (last_or no_slot zs) ys ≡ 0
    last-out [] e = count-no_slot n fits ys inside_after
    last-out (z ∷ zs) e = omega (
      arith,
      o.distinct (last_or z zs),
      both (last_or z zs),
      count-last_or z zs,
      ap (λ (t : List ℕ). count (last_or z zs) t) e,
    )

    abbrev prevs : List ℕ
    prevs = write_link l.prev (first_or no_slot ys) (last_or no_slot xs)

    abbrev nexts : List ℕ
    nexts = write_link l.next (last_or no_slot xs) (first_or no_slot ys)

    joined : Chain prevs nexts no_slot (xs ++ ys) no_slot
    joined =
        let (left, p, q, right) = split-chains in
        Chain-append prevs nexts no_slot xs ys no_slot
          (write_link_prev n fits l.prev nexts no_slot xs (first_or no_slot ys)
            (first_or no_slot ys) (last_or no_slot xs) (first-out ys refl)
            (relink_last n fits l.prev l.next xs idx (first_or no_slot ys) o.nexts unique_before
              inside_before left))
          (write_link_next n fits prevs l.next (last_or no_slot xs) ys no_slot (last_or no_slot xs)
            (first_or no_slot ys) (last-out xs refl)
            (relink_first n fits l.prev l.next idx (last_or no_slot xs) ys o.prevs unique_after
              inside_after right))

    head_test :
        (zs : List ℕ)
        → xs ≡ zs
        → (if last_or no_slot zs == no_slot then first_or no_slot ys else l.head)
          ≡ first_or no_slot (zs ++ ys)
    head_test [] e = refl
    head_test (z ∷ zs) e =
        let inside =
          inside_before (last_or z zs)
            (omega (arith, count-last_or z zs, ap (λ (t : List ℕ). count (last_or z zs) t) e)) in
        rw (slot_test n fits (last_or z zs) inside)
          (o.head ∙ ap (λ (t : List ℕ). first_or no_slot (t ++ idx ∷ ys)) e)

    tail_test :
        (zs : List ℕ)
        → ys ≡ zs
        → (if first_or no_slot zs == no_slot then last_or no_slot xs else l.tail)
          ≡ last_or no_slot (xs ++ zs)
    tail_test [] e = ap (last_or no_slot) (sym (append-nil xs))
    tail_test (z ∷ zs) e =
        let inside = inside_after z (omega (arith, one_self z, ap (λ (t : List ℕ). count z t) e)) in
        rw (slot_test n fits z inside) (
          o.tail
          ∙ last_or-append no_slot xs idx ys
          ∙ ap (last_or idx) e
          ∙ sym (last_or-append no_slot xs z zs))

    removed : Links
    removed = record {
      prev = set prevs idx no_slot;
      next = set nexts idx no_slot;
      head = if last_or no_slot xs == no_slot then first_or no_slot ys else l.head;
      tail = if first_or no_slot ys == no_slot then last_or no_slot xs else l.tail;
    }

    removed_lem : lru_remove l idx ≡ removed
    unfolding lru_remove removed
    removed_lem = let (left, p, q, right) = split-chains in rw (p, q) refl

    count-joined : (i : ℕ) → count i (xs ++ ys) ≡ count i xs + count i ys
    count-joined i = count-append i xs ys

    removed-IsOrder : IsOrder n removed (xs ++ ys)
    unfolding removed
    removed-IsOrder =
        let out : count idx (xs ++ ys) ≡ 0 =
          omega (arith, count-joined idx, split-out-left, split-out-right) in
        record {
          prevs =
              length-set prevs idx no_slot
              ∙ length-write_link n fits l.prev (first_or no_slot ys) (last_or no_slot xs)
              ∙ o.prevs;
          nexts =
              length-set nexts idx no_slot
              ∙ length-write_link n fits l.next (last_or no_slot xs) (first_or no_slot ys)
              ∙ o.nexts;
          head = head_test xs refl;
          tail = tail_test ys refl;
          chain =
              frame_next (set prevs idx no_slot) nexts no_slot (xs ++ ys) no_slot idx no_slot out
                (frame_prev prevs nexts no_slot (xs ++ ys) no_slot idx no_slot out joined);
          distinct = λ i. omega (arith, count-joined i, both i, o.distinct i);
          below = λ i h. o.below i (omega (arith, count-joined i, both i));
        }

    -- A slot of the order leaves it, and the others keep their places.
    pub lru_remove-split : IsOrder n (lru_remove l idx) (xs ++ ys)
    lru_remove-split = subst (λ m. IsOrder n m (xs ++ ys)) (sym removed_lem) removed-IsOrder
