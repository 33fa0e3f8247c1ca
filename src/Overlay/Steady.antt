-- ===== src/Overlay/Steady.antt =====
-- go-agent/overlay/volume.go: what every action of the manager leaves of its marks and of what was sent.
use mycedrive_k8s.Base.{
  ℕ, suc, ◌≤◌, Bool, true, false, Option, none, some, List, [], ◌∷◌, ◌≡◌, refl, eqb, if◌then◌else◌,
  arith, sym, ◌∙◌,
}
use mycedrive_k8s.Overlay.State.{
  Prefix, lower, Entry, Call, make_dir, list_dir, mount_overlay, bind, unbind, unmount, send, mark,
  extract, stat, Manager, Answer, works, fails, breaks, Environment, Vol, ◌>>=◌, gets, set_level,
  perform, go_on, answered, effect, add_dir,
}
use mycedrive_k8s.Overlay.{is_sent}
use mycedrive_k8s.Overlay.Marker.{StatsWork}

-- How often a number stands in a list.
unfoldable pub count : ℕ → List ℕ → ℕ
count n [] = 0
count n (m ∷ ms) = let more = count n ms in if eqb m n then suc more else more

-- Every layer that is marked as sent was taken by the destination.
abbrev pub IsBacked : Manager → Type 0
IsBacked m = (n : ℕ) → is_sent n m.entries ≡ true → 1 ≤ count n m.delivered

-- What the manager never undoes: a marked layer stays marked, no layer is marked that was not taken, and,
-- where the marks can be read, a marked layer is not sent again.
pub record Steady (env : Environment) (m m' : Manager) : Type 0 where
  pub stays : (n : ℕ) → is_sent n m.entries ≡ true → is_sent n m'.entries ≡ true
  pub once :
      StatsWork env
      → (n : ℕ) → is_sent n m.entries ≡ true
      → count n m'.delivered ≡ count n m.delivered
  pub backed : IsBacked m → IsBacked m'

pub Steady-refl : {env : Environment} (m : Manager) → Steady env m m
Steady-refl m = record { stays = λ n e. e; once = λ w n e. refl; backed = λ b. b }

pub Steady-trans :
    {env : Environment} (a b c : Manager) → Steady env a b → Steady env b c → Steady env a c
Steady-trans a b c p q = record {
  stays = λ n e. q.stays n (p.stays n e);
  once = λ w n e. q.once w n (p.stays n e) ∙ p.once w n e;
  backed = λ h. q.backed (p.backed h);
}

is_sent-add_dir :
    (n : ℕ) (prefix : Prefix) (k : ℕ) (entries : List Entry)
    → is_sent n (add_dir prefix k entries) ≡ is_sent n entries
unfolding is_sent add_dir
is_sent-add_dir n prefix k entries = ground arith

-- The calls that neither send nor mark.
abbrev is_plain : Call → Bool
is_plain (send n) = false
is_plain (mark n) = false
is_plain _ = true

-- The marks and the delivered layers are the same.
unfoldable pub SameSent : Manager → Manager → Type 0
SameSent m m' =
    ((n : ℕ) → is_sent n m'.entries ≡ is_sent n m.entries) × (m'.delivered ≡ m.delivered)

pub SameSent-Steady : {env : Environment} (m m' : Manager) → SameSent m m' → Steady env m m'
unfolding SameSent
SameSent-Steady m m' (same, delivered) = record {
  stays = λ n e. same n ∙ e;
  once = λ w n e. rw delivered refl;
  backed = λ h n e. rw delivered (h n (sym (same n) ∙ e));
}

effect-SameSent : (c : Call) (m : Manager) → is_plain c ≡ true → SameSent m (effect c m)
unfolding SameSent effect
effect-SameSent (make_dir prefix n) m h = ((λ k. is_sent-add_dir k prefix n m.entries), refl)
effect-SameSent (extract n) m h = ((λ k. is_sent-add_dir k lower n m.entries), refl)
effect-SameSent (send n) m h = cc
effect-SameSent (mark n) m h = cc
effect-SameSent list_dir m h = ((λ k. refl), refl)
effect-SameSent unbind m h = ((λ k. refl), refl)
effect-SameSent (mount_overlay n ds) m h = ((λ k. refl), refl)
effect-SameSent (bind n) m h = ((λ k. refl), refl)
effect-SameSent (unmount n) m h = ((λ k. refl), refl)
effect-SameSent (stat n) m h = ((λ k. refl), refl)

-- An action that is steady from every manager.
abbrev pub Keeps {ℓ} : {A : Type ℓ} → Environment → Vol A → Type 0
Keeps env action = (m : Manager) → Steady env m (action m).1

module _ {ℓ κ} {A : Type ℓ} {B : Type κ} {env : Environment} where
  pub go_on-Keeps :
      (o : Option A) (next : A → Vol B) → ((a : A) → Keeps env (next a)) → Keeps env (go_on o next)
  go_on-Keeps none next h m = Steady-refl m
  go_on-Keeps (some a) next h m = h a m

  pub bind-Keeps :
      (first : Vol A) (next : A → Vol B)
      → Keeps env first
      → ((a : A) → Keeps env (next a))
      → Keeps env (first >>= next)
  unfolding ◌>>=◌
  bind-Keeps first next p q m =
      Steady-trans m (first m).1 (go_on (first m).0 next (first m).1).1 (p m)
        (go_on-Keeps (first m).0 next q (first m).1)

pub gets-Keeps {ℓ} : {A : Type ℓ} {env : Environment} (f : Manager → A) → Keeps env (gets f)
unfolding gets
gets-Keeps f m = Steady-refl m

pub set_level-Keeps : {env : Environment} (level : ℕ) → Keeps env (set_level level)
unfolding set_level
set_level-Keeps level m = record { stays = λ n e. e; once = λ w n e. refl; backed = λ b. b }

called : Call → Manager → Manager
called c m = record m { calls = c ∷ m.calls }

answered-Keeps :
    {env : Environment} (a : Answer) (c : Call) (m : Manager)
    → is_plain c ≡ true
    → Steady env m (answered a c (called c m)).1
unfolding called SameSent
answered-Keeps works c m h = SameSent-Steady m _ (effect-SameSent c (called c m) h)
answered-Keeps fails c m h = SameSent-Steady m _ ((λ k. refl), refl)
answered-Keeps breaks c m h = SameSent-Steady m _ (effect-SameSent c (called c m) h)

pub perform-Keeps : (env : Environment) (c : Call) → is_plain c ≡ true → Keeps env (perform env c)
unfolding perform called
perform-Keeps env c h m = answered-Keeps (env m.calls c) c m h
