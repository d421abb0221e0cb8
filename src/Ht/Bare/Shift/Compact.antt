-- ===== src/Ht/Bare/Shift/Compact.antt =====
-- `bare_delete_compact` changes no entry: it shifts only a chain that ends at an empty slot, and
-- such a chain does not come around to where it started.
use native.Mathlib.Decide.{ℕ_discrete, dec_lt}
use native.Mathlib.Nat.{add-mod_right}
use draugr_repo.Base.{
  ℕ, zero, suc, ◌+◌, ◌-◌, ◌%◌, ◌^◌, ◌<◌, ◌≤◌, ◌≡◌, refl, arith, Bool, true, false, ◌&&◌,
}
use draugr_repo.Base.{inl, inr, Bool-cases, get_or, ltb, ◌==◌}
use draugr_repo.Ht.Slot.{hpd_empty, hpd_tomb, hpd_live, hpd_pd}
use draugr_repo.Ht.Bare.{Bare, slot_at}
use draugr_repo.Ht.Bare.Valid.{IsValid}
use draugr_repo.Ht.Bare.Insert.{bshift_cap}
use draugr_repo.Ht.Bare.Insert.Slots.{IsPow2, IsPow2-pos, slot_at-eq-mod, zero_offset}
use draugr_repo.Ht.Bare.Shift.{Chain, chain_from, bare_delete_compact, bare_verify_ideal_safe}
use draugr_repo.Ht.Bare.Shift.Freed.{Keeps}
use draugr_repo.Ht.Bare.Shift.Commit.{bare_commit_backward_shift-Keeps}

tomb-dead : (x : ℕ) → hpd_tomb x ≡ true → (hpd_live x ≡ false) × (hpd_empty x ≡ false)
unfolding hpd_tomb hpd_live hpd_empty
tomb-dead x h = ground arith

abbrev FullAt : Bare → ℕ → ℕ → Type 0
FullAt t idx n = hpd_empty (get_or t.hash_pd ((idx + n) % t.capacity) 0) ≡ false

-- A scan that ends at an empty slot has passed full ones, `idx` among them.
record Scanned (t : Bare) (idx : ℕ) (c : Chain) : Type 0 where
  full : (n : ℕ) → n ≤ c.chain_len → FullAt t idx n
  stop : hpd_empty (get_or t.hash_pd ((idx + (1 + c.chain_len)) % t.capacity) 0) ≡ true

chain_from-Scanned :
    (t : Bare) (idx left len live : ℕ)
    → IsPow2 t.capacity
    → idx < t.capacity
    → len + left < 2 ^ 32
    → ((n : ℕ) → n ≤ len → FullAt t idx n)
    → (chain_from t idx len live left).ends_at_empty ≡ true
    → Scanned t idx (chain_from t idx len live left)
unfolding chain_from
chain_from-Scanned t idx zero len live pow2 inside small full = λ e. cc
chain_from-Scanned t idx (suc left) len live pow2 inside small full =
    let bound = IsPow2-pos t.capacity pow2 in
    let at : slot_at t.capacity idx (1 + len) ≡ (idx + (1 + len)) % t.capacity =
      slot_at-eq-mod t.capacity idx (1 + len) pow2 (omega arith) in
    let hpd = get_or t.hash_pd ((idx + (1 + len)) % t.capacity) 0 in
    elim (Bool-cases (hpd_empty hpd)) [
      | inl empty ↦ rw (at, empty) (λ e. record { full = full; stop = empty })
      | inr whole ↦
          let further : (n : ℕ) → n ≤ len + 1 → FullAt t idx n = λ n h.
            elim (ℕ_discrete n (len + 1)) [
              | yes e ↦ let e' : idx + n ≡ idx + (1 + len) = omega arith in rw e' whole
              | no ne ↦ full n (omega arith)
            ] in
          let go = λ (l : ℕ).
            chain_from-Scanned t idx left (len + 1) l pow2 inside (omega arith) further in
          elim (Bool-cases (hpd_tomb hpd)) [
            | inl tomb ↦ rw (at, whole, tomb) (go live)
            | inr alive ↦ elim (Bool-cases (hpd_pd hpd == 0)) [
              | inl home ↦ rw (at, whole, alive, home) (λ e. cc)
              | inr away ↦ rw (at, whole, alive, away) (go (live + 1))
            ]
          ]
    ]

-- The chain is shorter than the table: its end would else be a slot that it has passed.
Scanned-lt :
    (t : Bare) (idx : ℕ) (c : Chain)
    → IsPow2 t.capacity
    → Scanned t idx c
    → c.chain_len < t.capacity
Scanned-lt t idx c pow2 s = elim (dec_lt c.chain_len t.capacity) [
  | yes h ↦ h
  | no h ↦
      let n = 1 + c.chain_len - t.capacity in
      let e : idx + (1 + c.chain_len) ≡ idx + n + t.capacity =
        omega (arith, IsPow2-pos t.capacity pow2) in
      let same : (idx + (1 + c.chain_len)) % t.capacity ≡ (idx + n) % t.capacity =
        rw e (add-mod_right (idx + n) t.capacity) in
      let full = s.full n (omega (arith, IsPow2-pos t.capacity pow2)) in
      let stop = rw same at s.stop in cc (full, stop)
]

and_left : (a b c : Bool) → (a && b && c) ≡ true → a ≡ true
and_left a b c h = ground arith

-- Compaction behind a tombstone of a valid table whose capacity is a power of two keeps the table
-- valid and its capacity, and changes none of its entries.
pub bare_delete_compact-Keeps :
    (t : Bare) (idx : ℕ)
    → IsValid t
    → IsPow2 t.capacity
    → idx < t.capacity
    → hpd_tomb (get_or t.hash_pd idx 0) ≡ true
    → Keeps t (bare_delete_compact t idx)
unfolding bare_delete_compact
bare_delete_compact-Keeps t idx valid pow2 inside tomb =
    let (dead, whole) = tomb-dead (get_or t.hash_pd idx 0) tomb in
    let chain = chain_from t idx 0 0 bshift_cap in
    elim (Bool-cases (
      chain.ends_at_empty
      && ltb 0 chain.live_count
      && bare_verify_ideal_safe t idx chain.chain_len)) [
        | inl safe ↦
            let ends =
              and_left chain.ends_at_empty (ltb 0 chain.live_count)
                (bare_verify_ideal_safe t idx chain.chain_len) safe in
            let scanned =
              chain_from-Scanned t idx bshift_cap 0 0 pow2 inside (omega arith)
                (λ n h. rw (zero_offset t.capacity idx n inside h) whole) ends in
            rw safe (
              bare_commit_backward_shift-Keeps t idx chain.chain_len valid pow2 inside
                (Scanned-lt t idx chain pow2 scanned) dead)
        | inr unsafe ↦ rw unsafe (record { valid = valid; same = λ f. refl; capacity = refl })
      ]
