-- ===== src/Controller/Ends.antt =====
-- What a pass does to a property of its state: from `P`, the pass ends in `Q`, whether it returns or
-- raises. One rule for each way to build a pass.
use mycedrive_k8s.Base.{Bool, true, false, if◌then◌else◌}
use mycedrive_k8s.Controller.Cluster.{ApiError, Result, ok, err}
use mycedrive_k8s.Controller.Monad.{State, Pass, ◌>>=◌, continue, pure, raise, attempt, gets, lift}

pub record Ends {ℓ} {A : Type ℓ} (P Q : State → Type 0) (m : Pass A) : Type ℓ where
  pub at : (s : State) → P s → Q (m s).1

module _ {ℓ} {A : Type ℓ} {P : State → Type 0} where
  pub pure-Ends : (a : A) → Ends P P (pure a)
  unfolding pure
  pure-Ends a = record { at = λ s h. h }

  pub raise-Ends : (e : ApiError) → Ends P P (raise {A = A} e)
  unfolding raise
  raise-Ends e = record { at = λ s h. h }

  pub gets-Ends : (f : State → A) → Ends P P (gets f)
  unfolding gets
  gets-Ends f = record { at = λ s h. h }

  pub lift-Ends : (r : Result A) → Ends P P (lift r)
  unfolding lift
  lift-Ends r = record { at = λ s h. h }

module _ {ℓ} {A : Type ℓ} {P Q : State → Type 0} where
  pub attempt-Ends : (m : Pass A) → Ends P Q m → Ends P Q (attempt m)
  unfolding attempt
  attempt-Ends m h = record { at = h.at }

  pub if-Ends : (b : Bool) (m n : Pass A) → Ends P Q m → Ends P Q n → Ends P Q (if b then m else n)
  if-Ends true m n p q = p
  if-Ends false m n p q = q

  -- `P` is stronger than `Q`.
  pub weaken : (m : Pass A) → ((s : State) → P s → Q s) → Ends P P m → Ends P Q m
  weaken m sub h = record { at = λ s p. sub (m s).1 (h.at s p) }

module _ {ℓ} {A : Type ℓ} {P Q R : State → Type 0} where
  -- A weaker end.
  pub weaken_after : {m : Pass A} → ((s : State) → Q s → R s) → Ends P Q m → Ends P R m
  weaken_after {m} sub h = record { at = λ s p. sub (m s).1 (h.at s p) }

  -- A stronger start.
  pub strengthen : (m : Pass A) → ((s : State) → P s → Q s) → Ends Q R m → Ends P R m
  strengthen m sub h = record { at = λ s p. h.at s (sub s p) }

module _ {ℓ κ} {A : Type ℓ} {B : Type κ} {P Q : State → Type 0} where
  continue-Ends :
      (r : Result A) (f : A → Pass B)
      → Ends P Q (raise {A = B} ApiError.failure)
      → ((a : A) → Ends P Q (f a))
      → Ends P Q (continue r f)
  unfolding raise
  continue-Ends (ok a) f e h = h a
  continue-Ends (err _) f e h = record { at = e.at }

  -- The first part keeps `P`, and an error there needs that `P` gives `Q`.
  pub bind-Ends :
      (m : Pass A) (f : A → Pass B)
      → ((s : State) → P s → Q s)
      → Ends P P m
      → ((a : A) → Ends P Q (f a))
      → Ends P Q (m >>= f)
  unfolding ◌>>=◌ raise
  bind-Ends m f sub hm hf = record {
    at = λ s p. let (r, s') = m s in (continue-Ends r f (record { at = sub }) hf).at s' (hm.at s p);
  }

  -- The rest keeps what the first part reached.
  pub bind_keep :
      (m : Pass A) (f : A → Pass B) → Ends P Q m → ((a : A) → Ends Q Q (f a)) → Ends P Q (m >>= f)
  unfolding ◌>>=◌
  bind_keep m f hm hf = record { at = λ s p. let (r, s') = m s in (keep_on r).at s' (hm.at s p) }
    where
      keep_on : (r : Result A) → Ends Q Q (continue r f)
      keep_on (ok a) = hf a
      keep_on (err e) = record { at = λ s q. q }

  -- A value read from the state brings what `P` says of it.
  pub gets_knowing :
      (g : State → A) (f : A → Pass B) (K : A → Type 0)
      → ((s : State) → P s → K (g s))
      → ((a : A) → K a → Ends P Q (f a))
      → Ends P Q (gets g >>= f)
  unfolding ◌>>=◌ gets
  gets_knowing g f K know h = record { at = λ s p. (h (g s) (know s p)).at s p }
