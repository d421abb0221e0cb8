-- ===== src/Ht/Bare/Growth/Tests.antt =====
-- Creating a table, and resizing, compacting, inserting and iterating in a small one.
use mathlib.Core.Option.{none-ne-some}
use draugr_repo.Base.{
  ℕ, zero, suc, ◌+◌, ◌<◌, ◌≤◌, ◌≡◌, ◌≢◌, ◌⊎◌, refl, arith, Bool, true, false, not, ◌&&◌, some, none,
  ltb, Gives, bit_and, if◌then◌else◌, get_or, [], ◌∷◌,
}
use draugr_repo.Ht.Slot.{hash_mask, hpd_hash, hpd_empty, hpd_live, hpd_pack, val_none}
use draugr_repo.Base.{replicate}
use draugr_repo.Ht.Bare.{Bare}
use draugr_repo.Ht.Bare.Weigh.{weigh, sum_to, copies}
use draugr_repo.Ht.Bare.Valid.{IsValid, IsProper}
use draugr_repo.Ht.Bare.Insert.Frame.{gaps}
use draugr_repo.Ht.Bare.Resize.{has_blocks, resized_capacity, ht_bare_resize, ht_bare_compact}
use draugr_repo.Ht.Bare.Resize.Rebuilt.{Rebuilt}
use draugr_repo.Ht.Bare.Resize.Sized.{IsRoomy, Resized}
use draugr_repo.Ht.Bare.Resize.Checked.{in_main, ht_bare_resize-Resized, ht_bare_compact-Rebuilt}
use draugr_repo.Ht.Bare.Resize.{bare_alloc_main_block}
use draugr_repo.Ht.Bare.Create.{Config, ht_bare_create}
use draugr_repo.Ht.Bare.Create.Ready.{Created, ht_bare_create-Created}
use draugr_repo.Ht.Bare.Iterate.{ht_bare_iter_next, iterate, next_from}
use draugr_repo.Ht.Bare.Iterate.Visits.{valued}
use draugr_repo.Ht.Bare.Iterate.Listed.{listed, iterate-weigh}
use draugr_repo.Ht.Bare.Growth.{ht_bare_insert}
use draugr_repo.Ht.Bare.Growth.Stored.{IsReady, Inserted}
use draugr_repo.Ht.Bare.Growth.Inserts.{
  ht_bare_insert-Inserted, ht_bare_insert-served, ht_bare_find-insert,
}
use draugr_repo.Ht.Bare.Probe.{ht_bare_find}
use draugr_repo.Ht.Bare.Spill.{bare_spill_insert}
use draugr_repo.Ht.Bare.Tests.{tiny, tiny-IsValid}
use draugr_repo.Pow2.{next_pow2}
use draugr_repo.Pow2.Least.{CountsZeros}

abbrev plenty : ℕ → Bool
plenty n = true

abbrev always : ℕ → ℕ → Bool
always k n = true

abbrev every_fourth : Bare → ℕ
every_fourth t = 4

-- More than three quarters of four slots.
abbrev full_four : Bare → ℕ → Bool
full_four t main_live = ltb 3 (main_live + 1)

abbrev no_grow : Bare → Bool × Bare
no_grow t = (false, t)

-- Five slots, and the default limit.
abbrev five : Config
five = record { initial_capacity = 5; max_probe_dist = 0 }

portable : CountsZeros none
portable = record { zeros = λ count x e. absurd (none-ne-some count e) }

tiny-IsProper : IsProper tiny
unfolding hpd_hash
tiny-IsProper = record { stash_live = live; lane_valued = valued }
  where
    live : (i : ℕ) → i < 1 → 2 ≤ hpd_hash (get_or tiny.overflow_hash_pd i 0)
    live zero h = omega arith
    live (suc i) h = absurd (omega arith)

    valued : (i : ℕ) → i < 1 → get_or tiny.spill_vals i 0 ≢ val_none
    valued zero h = omega arith
    valued (suc i) h = absurd (omega arith)

tiny-IsReady : IsReady tiny tiny
unfolding sum_to hpd_empty hpd_hash
tiny-IsReady = record {
  valid = tiny-IsValid;
  proper = tiny-IsProper;
  pow2 = (2, refl, omega arith);
  small = omega arith;
  gap = (let one : gaps tiny ≡ 1 = refl in omega (arith, one));
  same = λ f. refl;
}

ht_bare_resize-Resized_example :
    IsRoomy 4 (resized_capacity none 4)
    × Gives
        (Resized tiny (resized_capacity none 4) (
          not (ltb 8 (in_main tiny))
          && not false
          && has_blocks plenty plenty tiny (resized_capacity none 4)))
        (ht_bare_resize none plenty plenty every_fourth tiny 8)
ht_bare_resize-Resized_example =
    ht_bare_resize-Resized plenty plenty every_fourth tiny tiny-IsValid tiny-IsProper
      (λ u. omega arith) none 8 portable (omega arith)

ht_bare_compact-Rebuilt_example :
    if has_blocks plenty plenty tiny 4
    then Gives (Rebuilt tiny 4) (ht_bare_compact plenty every_fourth no_grow plenty tiny)
    else (ht_bare_compact plenty every_fourth no_grow plenty tiny ≡ some tiny)
ht_bare_compact-Rebuilt_example =
    ht_bare_compact-Rebuilt plenty plenty every_fourth tiny tiny-IsValid tiny-IsProper
      (λ u. omega arith) no_grow (2, refl, omega arith) (omega arith) (omega arith)

ht_bare_insert-Inserted_example :
    Gives
      (Inserted tiny (bit_and 16 hash_mask) 160)
      (ht_bare_insert none always always every_fourth full_four no_grow tiny 16 160)
ht_bare_insert-Inserted_example =
    ht_bare_insert-Inserted none always always every_fourth full_four no_grow tiny tiny-IsReady
      (λ u. omega arith) portable (omega arith) (omega arith) 16 160

ht_bare_insert-served_example :
    (t' : Bare) × (ht_bare_insert none always always every_fourth full_four no_grow tiny 16 160
      ≡ some (true, t'))
    × IsValid t'
    × ((f : ℕ → ℕ → ℕ) → weigh f t' ≡ weigh f tiny + f (bit_and 16 hash_mask) 160)
ht_bare_insert-served_example =
    ht_bare_insert-served none always always every_fourth full_four no_grow tiny tiny-IsReady
      (λ u. omega arith) portable (omega arith) (omega arith) 16 160
      (record { zeroed = λ k n. refl; raw = λ k n. refl; idle = refl }) (omega arith)

ht_bare_create-Created_example :
    if true && bare_alloc_main_block plenty (next_pow2 none 5) && true
    then ((t : Bare) × (ht_bare_create none plenty plenty 1000 (some five) ≡ some t)
        × Created 5 (next_pow2 none 5) 0 t)
    else (ht_bare_create none plenty plenty 1000 (some five) ≡ none)
ht_bare_create-Created_example =
    ht_bare_create-Created none plenty plenty 1000 (some five) portable (omega arith)

-- The slots 0 and 1, the spill lane, the stash.
iterated : iterate 7 tiny 0 ≡ some ((4, 40) ∷ (8, 80) ∷ (1, 10) ∷ (12, 120) ∷ [])
unfolding iterate ht_bare_iter_next next_from hpd_hash hpd_live
iterated = refl

iterate-weigh_example :
    Gives (λ es. (f : ℕ → ℕ → ℕ) → listed f es ≡ weigh (valued f) tiny) (iterate 7 tiny 0)
iterate-weigh_example = iterate-weigh tiny tiny-IsValid

-- Hash 1 goes to the spill lane.
abbrev with_one : Bare
with_one = record tiny {
  spill_hash_pd = 1 ∷ 1 ∷ replicate 6 0;
  spill_vals = 10 ∷ 11 ∷ replicate 6 val_none;
  spill_len = 2;
  size = 5;
}

one_inserted :
    ht_bare_insert none always always every_fourth full_four no_grow tiny 1 11
    ≡ some (true, with_one)
unfolding ht_bare_insert bare_spill_insert hpd_pack
one_inserted = refl

ht_bare_find-insert_example :
    (w : ℕ) × (ht_bare_find with_one 1 ≡ some w)
    × ((w ≡ 11) ⊎ (1 ≤ copies (bit_and 1 hash_mask) w tiny))
ht_bare_find-insert_example =
    ht_bare_find-insert none always always every_fourth full_four no_grow tiny tiny-IsReady
      (λ u. omega arith) portable (omega arith) (omega arith) 1 11 with_one one_is_special
      one_inserted
  where
    one_is_special : bit_and 1 hash_mask < 2
    one_is_special = omega arith
