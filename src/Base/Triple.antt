-- ===== src/Base/Triple.antt =====
-- What holds after an action that succeeds, for actions of Base/Action.
use mathlib.Core.Path.{◌≡◌, refl}
use mathlib.Core.Bool.{Bool, true, false}
use mathlib.Core.Option.{Option, none, some}
use mycedrive_k8s.Base.Tests.{if◌then◌else◌}
use mycedrive_k8s.Base.Action.{Action, go_on, ◌>>=◌, pure, raise, gets, modify, zoom}

abbrev pub IsGood {ℓ κ} : {S : Type ℓ} {A : Type κ} → (A → S → Type 0) → Option A → S → Type 0
IsGood Q none s = Unit
IsGood Q (some a) s = Q a s

-- From a state with `P`, the action ends with an error, or with a result and a state with `Q`.
abbrev pub Triple {ℓ κ} :
    {S : Type ℓ} {A : Type κ} → (S → Type 0) → Action S A → (A → S → Type 0) → Type ℓ
Triple P action Q = (s : _) → P s → IsGood Q (action s).0 (action s).1

module _ {ℓ κ} {S : Type ℓ} {A : Type κ} where
  pub pure-Triple : (a : A) (Q : A → S → Type 0) → Triple (Q a) (pure a) Q
  unfolding pure
  pure-Triple a Q s p = p

  pub raise-Triple : (P : S → Type 0) (Q : A → S → Type 0) → Triple P (raise {S = S} {A = A}) Q
  unfolding raise
  raise-Triple P Q s p = tt

  pub gets-Triple :
      (f : S → A) (P : S → Type 0) (Q : A → S → Type 0)
      → ((s : S) → P s → Q (f s) s)
      → Triple P (gets f) Q
  unfolding gets
  gets-Triple f P Q h s p = h s p

  pub if-Triple :
      (b : Bool) (x y : Action S A) (P : S → Type 0) (Q : A → S → Type 0)
      → (b ≡ true → Triple P x Q)
      → (b ≡ false → Triple P y Q)
      → Triple P (if b then x else y) Q
  if-Triple true x y P Q f g = f refl
  if-Triple false x y P Q f g = g refl

  pub weaken-Triple :
      (P P' : S → Type 0) (x : Action S A) (Q Q' : A → S → Type 0)
      → ((s : S) → P' s → P s)
      → ((a : A) (s : S) → Q a s → Q' a s)
      → Triple P x Q
      → Triple P' x Q'
  weaken-Triple P P' x Q Q' pre post h s p = go (x s).0 (x s).1 (h s (pre s p))
    where
      go : (o : Option A) (s : S) → IsGood Q o s → IsGood Q' o s
      go none s q = tt
      go (some a) s q = post a s q

module _ {ℓ κ ι} {S : Type ℓ} {A : Type κ} {B : Type ι} where
  pub bind-Triple :
      (P : S → Type 0) (Q : A → S → Type 0) (R : B → S → Type 0) (x : Action S A)
      (next : A → Action S B)
      → Triple P x Q
      → ((a : A) → Triple (Q a) (next a) R)
      → Triple P (x >>= next) R
  unfolding ◌>>=◌
  bind-Triple P Q R x next h k s p = go (x s).0 (x s).1 (h s p)
    where
      go : (o : Option A) (s : S) → IsGood Q o s → IsGood R (go_on o next s).0 (go_on o next s).1
      go none s q = tt
      go (some a) s q = k a s q

pub modify-Triple {ℓ} :
    {S : Type ℓ} (f : S → S) (P : S → Type 0) (Q : Unit {0} → S → Type 0)
    → ((s : S) → P s → Q tt (f s))
    → Triple P (modify f) Q
unfolding modify
modify-Triple f P Q h s p = h s p

module _ {ℓ κ ι} {S : Type ℓ} {T : Type κ} {A : Type ι} where
  -- What an action on a part leaves of the part, it leaves of the whole.
  pub zoom-Triple :
      (part : S → T) (put : T → S → S)
      → ((t : T) (s : S) → part (put t s) ≡ t)
      → (P : T → Type 0) (Q : A → T → Type 0) (x : S → Action T A) → ((s : S) → Triple P (x s) Q)
      → Triple (λ s. P (part s)) (λ s. zoom part put (x s) s) (λ a s. Q a (part s))
  unfolding zoom
  zoom-Triple part put same P Q x h s p = go (x s (part s)).0 (x s (part s)).1 (h s (part s) p)
    where
      go : (o : Option A) (t : T) → IsGood Q o t → IsGood (λ a s. Q a (part s)) o (put t s)
      go none t q = tt
      go (some a) t q = rw (same t s) q

  -- An action on a part leaves what does not depend on the part.
  pub zoom-frame :
      (part : S → T) (put : T → S → S) (P : S → Type 0) (x : S → Action T A)
      → ((t : T) (s : S) → P s → P (put t s))
      → Triple P (λ s. zoom part put (x s) s) (λ a. P)
  unfolding zoom
  zoom-frame part put P x h s p = go (x s (part s)).0
    where
      go : (o : Option A) → IsGood (λ a. P) o (put (x s (part s)).1 s)
      go none = tt
      go (some a) = h (x s (part s)).1 s p
