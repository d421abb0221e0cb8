-- ===== src/Ht/Bare/Stash/Drops.antt =====
-- The loop of `overflow_stash_remove` drops the entries of the hash.
use draugr_repo.Base.{
  ℕ, zero, suc, ◌+◌, ◌^◌, ◌<◌, ◌≤◌, ◌≡◌, ◌≢◌, ap, ◌∙◌, arith, inl, inr, false, Bool-cases, get_or,
  length, length-set, get_or-set_ne, ◌==◌,
}
use draugr_repo.Ht.Slot.{hpd_hash}
use draugr_repo.Ht.Bare.{Bare, dec}
use draugr_repo.Ht.Bare.Stash.{stash_remove_from}
use draugr_repo.Ht.Bare.Stash.Compacted.{copied, keep_stash-copied, stash_remove_from-Compacted}

-- An entry of the hash among those to be read is dropped.
pub stash_remove_from-drops :
    (h left : ℕ) (t : Bare) (w i j : ℕ)
    → w ≤ i
    → i + left ≤ length t.overflow_hash_pd
    → i + left ≤ length t.overflow_vals
    → left ≤ t.size
    → t.size < 2 ^ 63
    → i ≤ j
    → j < i + left
    → hpd_hash (get_or t.overflow_hash_pd j 0) ≡ h
    → (stash_remove_from t h w i left).0 < w + left
unfolding stash_remove_from
stash_remove_from-drops h zero t w i j behind p q room small low high here = absurd (omega arith)
stash_remove_from-drops h (suc left) t w i j behind p q room small low high here =
    elim (Bool-cases (hpd_hash (get_or t.overflow_hash_pd i 0) == h)) [
      | inl hit ↦
          let c =
            stash_remove_from-Compacted h left (record t { size = dec t.size }) w (i + 1)
              (omega arith) (omega arith) (omega arith) (omega arith) (omega arith) in
          rw (stash_remove_from, hit) (omega (arith, c.bound))
      | inr miss ↦
          let further : i ≢ j = λ e. absurd (missed_there e miss) in
          let there : hpd_hash (get_or (copied t w i).overflow_hash_pd j 0) ≡ h =
            (unfold copied in
              rw
                (get_or-set_ne t.overflow_hash_pd w j (get_or t.overflow_hash_pd i 0) 0
                  (omega (arith, further)))
                here) in
          let rest =
            stash_remove_from-drops h left (copied t w i) (w + 1) (i + 1) j (omega arith)
              (unfold copied in
                omega (arith, length-set t.overflow_hash_pd w (get_or t.overflow_hash_pd i 0)))
              (unfold copied in
                omega (arith, length-set t.overflow_vals w (get_or t.overflow_vals i 0)))
              (unfold copied in omega arith) (unfold copied in small) (omega (arith, further))
              (omega arith) there in
          rw (stash_remove_from, miss, keep_stash-copied t w i) (omega (arith, rest))
    ]
  where
    missed_there : i ≡ j → (hpd_hash (get_or t.overflow_hash_pd i 0) == h) ≡ false → ⊥
    missed_there e miss =
        let same : hpd_hash (get_or t.overflow_hash_pd i 0) ≡ h =
          ap (λ (k : ℕ). hpd_hash (get_or t.overflow_hash_pd k 0)) e ∙ here in
        absurd (ground (arith, same, miss))
