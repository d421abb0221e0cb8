-- ===== src/Cache/Free.antt =====
-- The stack of free slots.
use draugr_repo.Base.{
  ℕ, zero, suc, ◌+◌, ◌-◌, ◌≤◌, ◌<◌, ◌≡◌, refl, ◌∙◌, arith, List, get_or, set, u32, ltb, length,
  length-set, get_or-set_self, get_or-set_ne, one, one_ne, ==_iff, ==_false, Bool-cases, inl, inr,
  ◌==◌, if◌then◌else◌,
}
use draugr_repo.Cache.Lru.{no_slot}
use draugr_repo.Cache.{fill_free}

-- How often a slot stands among the first `n` places of the stack.
abbrev pub count_to : ℕ → ℕ → List ℕ → ℕ
count_to i zero stack = 0
count_to i (suc n) stack = count_to i n stack + one i (get_or stack n 0)

pub count_to-set_above :
    (i n k : ℕ) (stack : List ℕ) (v : ℕ) → n ≤ k → count_to i n (set stack k v) ≡ count_to i n stack
count_to-set_above i zero k stack v h = refl
count_to-set_above i (suc n) k stack v h =
    rw (count_to-set_above i n k stack v (omega arith), get_or-set_ne stack k n v 0 (omega arith))
      refl

pub count_to-push :
    (i n : ℕ) (stack : List ℕ) (v : ℕ)
    → n < length stack
    → count_to i (suc n) (set stack n v) ≡ count_to i n stack + one i v
count_to-push i n stack v h =
    rw (count_to-set_above i n n stack v (omega arith), get_or-set_self stack n v 0 h) refl

pub length-fill_free : (cap n : ℕ) (stack : List ℕ) → length (fill_free cap n stack) ≡ length stack
unfolding fill_free
length-fill_free cap zero stack = refl
length-fill_free cap (suc n) stack =
    length-set (fill_free cap n stack) n (u32 (cap - 1 - n)) ∙ length-fill_free cap n stack

-- The places filled hold the slots from the last one down, each once.
pub count_to-fill_free :
    (cap n i : ℕ) (stack : List ℕ)
    → n ≤ cap
    → cap ≤ no_slot
    → length stack ≡ cap
    → i < cap
    → count_to i n (fill_free cap n stack) + (if ltb i (cap - n) then 1 else 0) ≡ 1
unfolding fill_free
count_to-fill_free cap zero i stack h fits len inside = ground arith
count_to-fill_free cap (suc n) i stack h fits len inside =
    let push =
      count_to-push i n (fill_free cap n stack) (u32 (cap - 1 - n))
        (omega (arith, length-fill_free cap n stack)) in
    let narrow : u32 (cap - 1 - n) ≡ cap - 1 - n = omega arith in
    let before = count_to-fill_free cap n i stack (omega arith) fits len inside in
    rw push (rw narrow (ground (arith, before)))

-- Nothing but slots stands there.
pub fill_free-below :
    (cap n i : ℕ) (stack : List ℕ)
    → n ≤ cap
    → cap ≤ no_slot
    → length stack ≡ cap
    → 1 ≤ count_to i n (fill_free cap n stack)
    → i < cap
unfolding fill_free
fill_free-below cap zero i stack h fits len there = absurd (omega arith)
fill_free-below cap (suc n) i stack h fits len there =
    let v = u32 (cap - 1 - n) in
    let push =
      count_to-push i n (fill_free cap n stack) v (omega (arith, length-fill_free cap n stack)) in
    elim (Bool-cases (i == v)) [
      | inl same ↦ omega (arith, (==_iff i v).0 same)
      | inr other ↦
          fill_free-below cap n i stack (omega arith) fits len
            (omega (arith, push, one_ne i v (==_false i v other)))
    ]
