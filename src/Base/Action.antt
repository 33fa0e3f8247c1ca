-- ===== src/Base/Action.antt =====
-- Actions on a state that may fail. What was done before an error stays done, so the state comes back
-- with it; `none` is an error, its text left out.
use mathlib.Core.Option.{Option, none, some}

abbrev pub Action {ℓ κ} : Type ℓ → Type κ → Type (ℓ ⊔ κ)
Action S A = S → Option A × S

module _ {ℓ κ ι} {S : Type ℓ} {A : Type κ} {B : Type ι} where
  abbrev pub go_on : Option A → (A → Action S B) → Action S B
  go_on none next s = (none, s)
  go_on (some a) next s = next a s

  infixl 5 ◌>>=◌
  unfoldable pub ◌>>=◌ : Action S A → (A → Action S B) → Action S B
  ◌>>=◌ first next s = let (got, s') = first s in go_on got next s'

infixl 5 ◌>>◌
abbrev pub ◌>>◌ {ℓ κ} : {S : Type ℓ} {B : Type κ} → Action S (Unit {0}) → Action S B → Action S B
first >> next = first >>= λ _. next

module _ {ℓ κ} {S : Type ℓ} {A : Type κ} where
  unfoldable pub pure : A → Action S A
  pure a s = (some a, s)

  unfoldable pub raise : Action S A
  raise s = (none, s)

  unfoldable pub gets : (S → A) → Action S A
  gets f s = (some (f s), s)

  -- An error as a value.
  unfoldable pub attempt : Action S A → Action S (Option A)
  attempt first s = let (got, s') = first s in (some got, s')

unfoldable pub modify {ℓ} : {S : Type ℓ} → (S → S) → Action S (Unit {0})
modify f s = (some tt, f s)

-- An action on a part of the state.
unfoldable pub zoom {ℓ κ ι} :
    {S : Type ℓ} {P : Type κ} {A : Type ι} → (S → P) → (P → S → S) → Action P A → Action S A
zoom part put first s = let (got, p) = first (part s) in (got, put p s)
