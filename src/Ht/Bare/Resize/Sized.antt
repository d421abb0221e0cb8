-- ===== src/Ht/Bare/Resize/Sized.antt =====
-- A resize: the capacity it takes, and how it ends.
use native.Mathlib.Nat.{pow-le-pow_right}
use draugr_repo.Base.{
  ℕ, zero, suc, ◌*◌, ◌-◌, ◌/◌, ◌^◌, ◌<◌, ◌≤◌, ◌≡◌, ◌⊎◌, refl, arith, ◌∙◌, Bool, true, false, ◌&&◌,
  not, Option, some,
}
use draugr_repo.Base.{inl, inr, Bool-cases, ltb, le→ltb, u64, if◌then◌else◌, Gives}
use draugr_repo.Ht.Bare.{Bare}
use draugr_repo.Ht.Bare.Valid.{IsValid, IsProper, one_each, flagged-IsValid, weigh_flagged}
use draugr_repo.Ht.Bare.Insert.Slots.{IsPow2}
use draugr_repo.Ht.Bare.Insert.Frame.{gaps}
use draugr_repo.Ht.Bare.Resize.{has_blocks, resized_capacity, refuse, resize_to, bare_resize_table}
use draugr_repo.Ht.Bare.Resize.Rebuilt.{Rebuilt, rebuild-Rebuilt}
use draugr_repo.Pow2.{next_pow2}
use draugr_repo.Pow2.Least.{IsLeast, CountsZeros, next_pow2-IsLeast, below_pow}

-- A power of two from 4 to 2 ^ 16 that is at least twice `size`, and less than four times `size`
-- unless it is 4.
pub record IsRoomy (size cap : ℕ) : Type 0 where
  pub pow2 : IsPow2 cap
  pub small : cap ≤ 2 ^ 16
  pub least : 4 ≤ cap
  pub half : 2 * size ≤ cap
  pub tight : (cap ≡ 4) ⊎ (cap < 4 * size)

four-IsRoomy : (size : ℕ) → size ≤ 2 → IsRoomy size 4
four-IsRoomy size h = record {
  pow2 = (2, refl, omega arith);
  small = omega arith;
  least = omega arith;
  half = omega arith;
  tight = inl refl;
}

-- The least power of two for at most 2 ^ 16 is one of at most 2 ^ 16.
pub least-below : (n p : ℕ) → n ≤ 2 ^ 16 → IsLeast n p → IsPow2 p × (p ≤ 2 ^ 16)
least-below n p h x =
    let short : x.log < 17 =
      below_pow x.log 17 p (omega (arith, x.power)) (omega (arith, x.least)) in
    let bound : 2 ^ x.log ≤ 2 ^ 16 =
      pow-le-pow_right (omega arith) {j = 16} (omega (arith, short)) in
    ((x.log, x.power, omega arith), omega (arith, x.power))

least-IsRoomy :
    (size p : ℕ) → size ≤ 2 ^ 15 → IsLeast (2 * size) p → IsRoomy size (if ltb p 4 then 4 else p)
least-IsRoomy size p h x = elim (Bool-cases (ltb p 4)) [
  | inl few ↦ rw few (four-IsRoomy size (ground (arith, few, x.enough)))
  | inr many ↦
      let (pow2, small) = least-below (2 * size) p (omega arith) x in
      rw many (record {
        pow2 = pow2;
        small = small;
        least = ground (arith, many);
        half = x.enough;
        tight = inr (omega (arith, x.least));
      })
]

resized_capacity-IsRoomy :
    (clz : Option (ℕ → ℕ)) (size : ℕ)
    → CountsZeros clz
    → size ≤ 2 ^ 15
    → IsRoomy size (resized_capacity clz size)
unfolding resized_capacity
resized_capacity-IsRoomy clz zero z h = unfold next_pow2 in four-IsRoomy zero (omega arith)
resized_capacity-IsRoomy clz (suc n) z h =
    let whole : u64 (suc n * 2) ≡ 2 * suc n = omega arith in
    rw whole (
      least-IsRoomy (suc n) (next_pow2 clz (2 * suc n)) h
        (next_pow2-IsLeast clz (2 * suc n) z (omega arith) (omega arith)))

-- A resize to `cap` slots that is done, with an empty slot left, when the Boolean is true, and else
-- changes nothing.
abbrev pub Resized : Bare → ℕ → Bool → Bool × Bare → Type 0
Resized t cap true (ok, t') = (ok ≡ true) × Rebuilt t cap t' × (t'.resizing ≡ false) × (1 ≤ gaps t')
Resized t cap false r = r ≡ (false, t)

-- The flag is no part of what a table holds.
flagged-Rebuilt :
    (t t' : Bare) (cap : ℕ) (b c : Bool)
    → Rebuilt (record t { resizing = b }) cap t'
    → Rebuilt t cap (record t' { resizing = c })
flagged-Rebuilt t t' cap b c x = record {
  valid = flagged-IsValid t' c x.valid;
  same = λ f. weigh_flagged f t' c ∙ x.same f ∙ weigh_flagged f t b;
  capacity = x.capacity;
  proper = record { stash_live = x.proper.stash_live; lane_valued = x.proper.lane_valued };
  gaps_left = rw (← weigh_flagged one_each t b) x.gaps_left;
}

module _ (calloc malloc : ℕ → Bool) (raw : Bare → ℕ) (t : Bare) (valid : IsValid t)
    (proper : IsProper t) (spacing : (u : Bare) → raw u ≤ 2 ^ 62) where
  flagged-IsProper : IsProper (record t { resizing = true })
  flagged-IsProper = record { stash_live = proper.stash_live; lane_valued = proper.lane_valued }

  room_left :
      {cap : ℕ} (u : Bare)
      → IsRoomy t.size cap
      → Rebuilt (record t { resizing = true }) cap u
      → 1 ≤ gaps u
  room_left u roomy x =
      omega
        (arith, x.gaps_left, weigh_flagged one_each t true, valid.counted, roomy.half, roomy.least)

  resize_to-Resized :
      (clz : Option (ℕ → ℕ)) (cap : ℕ)
      → IsRoomy t.size cap
      → t.resizing ≡ false
      → Gives
          (Resized t cap (has_blocks calloc malloc t cap))
          (resize_to clz calloc malloc raw t cap)
  unfolding resize_to
  resize_to-Resized clz cap roomy idle = elim (Bool-cases (has_blocks calloc malloc t cap)) [
    | inl given ↦
        let (u, ends, x) =
          rebuild-Rebuilt malloc raw refuse (record t { resizing = true }) cap
            (flagged-IsValid t true valid) flagged-IsProper roomy.pow2 roomy.small
            (omega (arith, roomy.half, valid.counted, weigh_flagged one_each t true)) spacing in
        rw (given, ends)
          (
            (true, record u { resizing = false }),
            refl,
            (refl, flagged-Rebuilt t u cap true false x, refl, room_left u roomy x),
          )
    | inr refused ↦ rw refused ((false, record t { resizing = false }), refl, (rw (← idle) refl))
  ]

  unless_busy :
      (clz : Option (ℕ → ℕ)) (cap : ℕ) (busy : Bool)
      → t.resizing ≡ busy
      → IsRoomy t.size cap
      → Gives
          (Resized t cap (not busy && has_blocks calloc malloc t cap))
          (if busy then some (false, t) else resize_to clz calloc malloc raw t cap)
  unless_busy clz cap true e roomy = ((false, t), refl, refl)
  unless_busy clz cap false e roomy = resize_to-Resized clz cap roomy e

  -- In a valid table of at most 2 ^ 15 entries, none a sentinel in the stash or `VAL_NONE` in the
  -- spill lane, a resize ends. If the table is not being resized and there is memory for the new
  -- blocks, it returns true with a valid table of the same entries with an empty slot. The number of
  -- its slots is a power of two, at least 4 and at least twice the number of entries, and less than
  -- four times that number unless it is 4. Else it returns false and changes nothing.
  pub bare_resize_table-Resized :
      (clz : Option (ℕ → ℕ))
      → CountsZeros clz
      → t.size ≤ 2 ^ 15
      → let cap = resized_capacity clz t.size in
        IsRoomy t.size cap
        × Gives
            (Resized t cap (not t.resizing && has_blocks calloc malloc t cap))
            (bare_resize_table clz calloc malloc raw t)
  unfolding bare_resize_table
  bare_resize_table-Resized clz z few =
      let roomy = resized_capacity-IsRoomy clz t.size z few in
      let below : ltb ((2 ^ 64 - 1) / 2) t.size ≡ false =
        le→ltb ((2 ^ 64 - 1) / 2) t.size (omega arith) in
      (roomy, rw below (unless_busy clz (resized_capacity clz t.size) t.resizing refl roomy))
