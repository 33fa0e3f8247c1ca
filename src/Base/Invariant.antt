-- ===== src/Base/Invariant.antt =====
-- What holds after an action of Base/Action, whether it succeeds or fails.
use mathlib.Core.Bool.{Bool, true, false}
use mathlib.Core.Option.{Option, none, some}
use mycedrive_k8s.Base.Tests.{if◌then◌else◌}
use mycedrive_k8s.Base.Triple.{IsGood, Triple}
use mycedrive_k8s.Base.Action.{Action, go_on, ◌>>=◌, pure, raise, gets, zoom}

-- A condition that the action leaves, also by an error.
abbrev pub Invariant {ℓ κ} : {S : Type ℓ} {A : Type κ} → (S → Type 0) → Action S A → Type ℓ
Invariant P action = (s : _) → P s → P (action s).1

module _ {ℓ κ} {S : Type ℓ} {A : Type κ} (P : S → Type 0) where
  pub pure-Invariant : (a : A) → Invariant P (pure a)
  unfolding pure
  pure-Invariant a s p = p

  pub gets-Invariant : (f : S → A) → Invariant P (gets f)
  unfolding gets
  gets-Invariant f s p = p

  pub if-Invariant :
      (b : Bool) (x y : Action S A)
      → Invariant P x
      → Invariant P y
      → Invariant P (if b then x else y)
  if-Invariant true x y f g = f
  if-Invariant false x y f g = g

  pub zoom-Invariant {ι} :
      {T : Type ι} (part : S → T) (put : T → S → S) (x : S → Action T A)
      → ((t : T) (s : S) → P s → P (put t s))
      → Invariant P (λ s. zoom part put (x s) s)
  unfolding zoom
  zoom-Invariant part put x h s p = h (x s (part s)).1 s p

module _ {ℓ κ ι} {S : Type ℓ} {A : Type κ} {B : Type ι} (P : S → Type 0) where
  pub bind-Invariant :
      (x : Action S A) (next : A → Action S B)
      → Invariant P x
      → ((a : A) → Invariant P (next a))
      → Invariant P (x >>= next)
  unfolding ◌>>=◌
  bind-Invariant x next h k s p = go (x s).0 (x s).1 (h s p)
    where
      go : (o : Option A) (s : S) → P s → P (go_on o next s).1
      go none s q = q
      go (some a) s q = k a s q

pub raise-Invariant {ℓ κ} :
    {S : Type ℓ} (A : Type κ) (P : S → Type 0) → Invariant P (raise {S = S} {A = A})
unfolding raise
raise-Invariant A P s p = p

-- What an action leaves holds after it succeeds.
pub Invariant-Triple {ℓ κ} :
    {S : Type ℓ} {A : Type κ} (P : S → Type 0) (x : Action S A)
    → Invariant P x
    → Triple P x (λ a. P)
Invariant-Triple {A = A} P x h s p = go (x s).0 (h s p)
  where
    go : (o : Option A) → P (x s).1 → IsGood (λ a. P) o (x s).1
    go none q = tt
    go (some a) q = q
