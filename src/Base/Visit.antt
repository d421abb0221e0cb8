-- ===== src/Base/Visit.antt =====
-- Scans with a callback.
use Prim.Native.Nat.{ℕ}
use mathlib.Core.Bool.{Bool}
use mathlib.Core.List.{List, [], ◌∷◌}
use draugr_repo.Base.Test.{if◌then◌else◌}

-- A callback that is given the values of a list until it answers `false`.
abbrev pub visit : {S : Type 0} → (S → ℕ → Bool × S) → S → List ℕ → S
visit cb ctx [] = ctx
visit cb ctx (val ∷ vals) =
    let (more, ctx') = cb ctx val in if more then visit cb ctx' vals else ctx'
