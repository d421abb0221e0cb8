-- ===== src/Base/Chain.antt =====
-- Chains of steps of which each may fail to end, and loops of such steps.
use Prim.Native.Nat.{ℕ, zero, suc, ◌+◌, ◌<◌}
use native.Mathlib.Omega.{arith}
use mathlib.Core.Path.{◌≡◌, refl, ap, ◌∙◌, subst}
use mathlib.Core.Option.{Option, none, some}

infixl 1 ◌>>=◌
abbrev pub ◌>>=◌ {ℓ κ} : {A : Type ℓ} {B : Type κ} → Option A → (A → Option B) → Option B
none >>= f = none
some a >>= f = f a

-- The rounds `i` to `i + left - 1` of a loop, on its state.
unfoldable pub rounds {ℓ} : {A : Type ℓ} → (ℕ → A → Option A) → ℕ → ℕ → A → Option A
rounds body i zero s = some s
rounds body i (suc left) s = body i s >>= rounds body (suc i) left

-- There is a result, and it has the property.
abbrev pub Gives {ℓ κ} : {A : Type ℓ} → (A → Type κ) → Option A → Type (ℓ ⊔ κ)
Gives {A = A} q r = (a : A) × (r ≡ some a) × q a

pub bind-Gives {ℓ κ} :
    {A B : Type ℓ} (p : A → Type κ) (q : B → Type κ) (r : Option A) (k : A → Option B)
    → Gives p r
    → ((a : A) → p a → Gives q (k a))
    → Gives q (r >>= k)
bind-Gives p q r k (a, ends, good) next =
    let (b, ends', good') = next a good in (b, ap (λ r. r >>= k) ends ∙ ends', good')

-- An invariant, at each number of rounds, that every round keeps.
pub rounds-Gives {ℓ κ} :
    {A : Type ℓ} (inv : ℕ → A → Type κ) (last : ℕ) (body : ℕ → A → Option A) (i left : ℕ) (s : A)
    → i + left ≡ last
    → inv i s
    → ((j : ℕ) (u : A) → j < last → inv j u → Gives (inv (suc j)) (body j u))
    → Gives (inv last) (rounds body i left s)
unfolding rounds
rounds-Gives inv last body i zero s e h step =
    (s, refl, subst (λ (j : ℕ). inv j s) (omega (arith, e)) h)
rounds-Gives inv last body i (suc left) s e h step =
    bind-Gives (inv (suc i)) (inv last) (body i s) (rounds body (suc i) left)
      (step i s (omega (arith, e)) h)
      (λ u g. rounds-Gives inv last body (suc i) left u (omega (arith, e)) g step)
