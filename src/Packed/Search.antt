-- ===== src/Packed/Search.antt =====
-- What the search of a bucket finds, and what it says of the contents.
use draugr_repo.Base.{
  ℕ, zero, suc, ◌+◌, ◌*◌, ◌/◌, ◌%◌, ◌≤◌, ◌<◌, ◌≡◌, ◌≢◌, ◌⊎◌, inl, inr, refl, sym, ap, ◌∙◌, arith,
  List, Option, some, none, ◌==◌, ==_iff, ==_false, Bool-cases, true, false, ◌||◌, ◌&&◌, not,
  if◌then◌else◌, subst,
}
use native.Mathlib.Nat.{div-add-mod', mod-lt}
use draugr_repo.Packed.{get_entry, find_from, is_some}
use draugr_repo.Packed.Tally.{tally, place-bucket, place-lt}

-- A fingerprint in one of two buckets.
abbrev pub member : ℕ → ℕ → ℕ → ℕ → ℕ → ℕ
member i1 i2 fp b x = if x == fp && (b == i1 || b == i2) then 1 else 0

module _ (eps fp_bits : ℕ) (table : List ℕ) where
  -- What a search for `want` in `left` entries from `base + i` on finds.
  abbrev pub Search : ℕ → ℕ → ℕ → ℕ → Option ℕ → Type 0
  Search base want i left (some s) =
      (i ≤ s) × (s < i + left) × (get_entry eps fp_bits table (base + s) ≡ want)
  Search base want i left none =
      (s : ℕ) → i ≤ s → s < i + left → get_entry eps fp_bits table (base + s) ≢ want

  pub find_from-Search :
      (base want i left : ℕ)
      → Search base want i left (find_from eps fp_bits table base want i left)
  unfolding find_from
  find_from-Search base want i zero = λ s from to. absurd (omega arith)
  find_from-Search base want i (suc left) =
      elim (Bool-cases (get_entry eps fp_bits table (base + i) == want)) [
        | inl here ↦ rw here (omega arith, omega arith, (==_iff _ _).0 here)
        | inr other ↦ rw other (
            later base want i left (==_false _ _ other)
              (find_from eps fp_bits table base want (i + 1) left)
              (find_from-Search base want (i + 1) left))
      ]
    where
      later :
          (base want i left : ℕ)
          → get_entry eps fp_bits table (base + i) ≢ want
          → (r : Option ℕ) → Search base want (i + 1) left r
          → Search base want i (suc left) r
      later base want i left miss (some s) (from, to, e) = (omega arith, omega arith, e)
      later base want i left miss none misses = λ s from to. elim (Bool-cases (s == i)) [
        | inl same ↦
            subst (λ k. get_entry eps fp_bits table (base + k) ≢ want) (sym ((==_iff s i).0 same))
              miss
        | inr other ↦ misses s (ground arith) (omega arith)
      ]

  -- An entry adds at most what all add.
  pub entry-tally :
      (bs : ℕ) (f : ℕ → ℕ → ℕ) (n idx : ℕ)
      → idx < n
      → f (idx / bs) (get_entry eps fp_bits table idx) ≤ tally eps fp_bits bs f table n
  entry-tally bs f zero idx h = absurd (omega arith)
  entry-tally bs f (suc n) idx h = elim (Bool-cases (idx == n)) [
    | inl last ↦
        subst
          (λ k. f (k / bs) (get_entry eps fp_bits table k) ≤ tally eps fp_bits bs f table (suc n))
          (sym ((==_iff idx n).0 last)) (omega arith)
    | inr before ↦ omega (arith, entry-tally bs f n idx (ground arith))
  ]

  -- Where the sum is positive, an entry adds to it.
  pub tally-pos :
      (bs : ℕ) (f : ℕ → ℕ → ℕ) (n : ℕ)
      → 1 ≤ tally eps fp_bits bs f table n
      → (idx : ℕ) × (idx < n) × (1 ≤ f (idx / bs) (get_entry eps fp_bits table idx))
  tally-pos bs f zero h = absurd (omega arith)
  tally-pos bs f (suc n) h = elim (Bool-cases (f (n / bs) (get_entry eps fp_bits table n) == 0)) [
    | inr here ↦ (n, omega arith, ground arith)
    | inl away ↦ let (idx, inside, pos) = tally-pos bs f n (ground arith) in (idx, omega arith, pos)
  ]

  module _ (bs nb i1 i2 fp : ℕ) (some_slot : 1 ≤ bs) (in1 : i1 < nb) (in2 : i2 < nb) where
    abbrev looked_up : ℕ → Option ℕ
    looked_up b = find_from eps fp_bits table (b * bs) fp 0 bs

    abbrev contents : ℕ
    contents = tally eps fp_bits bs (member i1 i2 fp) table (nb * bs)

    member_hit : (b x : ℕ) → x ≡ fp → (b ≡ i1) ⊎ (b ≡ i2) → member i1 i2 fp b x ≡ 1
    member_hit b x e (inl first) = ground arith
    member_hit b x e (inr second) = ground arith

    member_inv : (b x : ℕ) → 1 ≤ member i1 i2 fp b x → (x ≡ fp) × ((b ≡ i1) ⊎ (b ≡ i2))
    member_inv b x h = ground arith

    found_counts :
        (b : ℕ) (r : Option ℕ)
        → b < nb
        → (b ≡ i1) ⊎ (b ≡ i2)
        → Search (b * bs) fp 0 bs r
        → is_some r ≡ true
        → 1 ≤ contents
    found_counts b none inside which h e = absurd (ground (arith, e))
    found_counts b (some s) inside which (from, to, e) here =
        let at = place-bucket eps fp_bits 0 bs b s (omega arith) in
        let hit : member i1 i2 fp ((b * bs + s) / bs) (get_entry eps fp_bits table (b * bs + s))
            ≡ 1 =
          rw at (member_hit b (get_entry eps fp_bits table (b * bs + s)) e which) in
        omega (
          arith,
          hit,
          entry-tally bs (member i1 i2 fp) (nb * bs) (b * bs + s)
              (place-lt eps fp_bits 0 bs nb b s (omega arith) inside),
        )

    missed :
        (idx b : ℕ) (r : Option ℕ)
        → idx / bs ≡ b
        → get_entry eps fp_bits table idx ≡ fp
        → Search (b * bs) fp 0 bs r
        → is_some r ≡ true
    missed idx b (some s) at e h = refl
    missed idx b none at e h =
        let s-lt : idx % bs < bs = mod-lt idx some_slot in
        let whole : b * bs + idx % bs ≡ idx = rw (← at) (div-add-mod' idx bs) in
        absurd
          (h (idx % bs) (omega arith) (omega arith) (ap (get_entry eps fp_bits table) whole ∙ e))

    positive : 1 ≤ contents → (contents == 0) ≡ false
    positive h = ground (arith, h)

    nowhere : is_some (looked_up i1) ≡ false → is_some (looked_up i2) ≡ false → ¬ (1 ≤ contents)
    nowhere no1 no2 h =
        let (idx, inside, pos) = tally-pos bs (member i1 i2 fp) (nb * bs) h in
        let (e, which) = member_inv (idx / bs) (get_entry eps fp_bits table idx) pos in
        elim which [
          | inl at ↦
              ground
                (arith, no1, missed idx i1 (looked_up i1) at e (find_from-Search (i1 * bs) fp 0 bs))
          | inr at ↦
              ground
                (arith, no2, missed idx i2 (looked_up i2) at e (find_from-Search (i2 * bs) fp 0 bs))
        ]

    -- The two searches of a lookup find something if and only if the contents have the fingerprint
    -- in one of the two buckets.
    pub either-contents : (is_some (looked_up i1) || is_some (looked_up i2)) ≡ not (contents == 0)
    either-contents = elim (Bool-cases (is_some (looked_up i1))) [
      | inl first ↦
          rw
            (
              first,
              positive
                  (found_counts i1 _ in1 (inl refl) (find_from-Search (i1 * bs) fp 0 bs) first),
            )
            refl
      | inr not_first ↦ elim (Bool-cases (is_some (looked_up i2))) [
        | inl second ↦
            rw
              (
                not_first,
                second,
                positive
                    (found_counts i2 _ in2 (inr refl) (find_from-Search (i2 * bs) fp 0 bs) second),
              )
              refl
        | inr not_second ↦ elim (Bool-cases (contents == 0)) [
          | inl empty ↦ rw (not_first, not_second, empty) refl
          | inr there ↦ absurd (nowhere not_first not_second (ground (arith, there)))
        ]
      ]
    ]
