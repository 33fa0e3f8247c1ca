-- ===== src/Overlay/Marker.antt =====
-- go-agent/overlay/volume.go: what an answer about the marker of a layer says.
use mycedrive_k8s.Base.{
  ◌⊎◌, ℕ, Bool, true, false, Option, some, List, ◌∷◌, ◌≡◌, refl, sym, ◌∙◌, subst, inl, inr, arith,
}
use mycedrive_k8s.Base.Triple.{IsGood, Triple}
use mycedrive_k8s.Overlay.State.{
  Call, stat, Manager, Answer, works, fails, breaks, Environment, Vol, ◌>>=◌, pure, gets, attempt,
  go_on, effect, perform,
}
use mycedrive_k8s.Overlay.{is_sent, has_marker, or_sent}

-- The stat of a marker fails only where there is none.
abbrev pub StatsWork : Environment → Type 0
StatsWork env = (calls : List Call) (n : ℕ) → env calls (stat n) ≡ works

-- What the answer says, where `marked` tells whether the layer is marked.
pub record Says (env : Environment) (before marked answer : Bool) : Type 0 where
  pub skips : answer ≡ true → (before ≡ true) ⊎ (marked ≡ true)
  pub due : answer ≡ false → before ≡ false
  pub unmarked : StatsWork env → answer ≡ false → marked ≡ false

-- The test answers, and it adds calls and does nothing else.
pub record IsAnswered (env : Environment) (before : Bool) (n : ℕ) (m : Manager) : Type 0 where
  pub answer : Bool
  pub calls : List Call
  pub says : Says env before (is_sent n m.entries) answer
  pub is : or_sent env before n m ≡ (some answer, record m { calls = calls })

unseen-Says :
    (env : Environment) (calls : List Call) (n : ℕ) (marked : Bool) (a : Answer)
    → env calls (stat n) ≡ a
    → (a ≡ works → ⊥)
    → Says env false marked false
unseen-Says env calls n marked a is unlike = record {
  skips = λ e. ground (arith, e);
  due = λ e. refl;
  unmarked = λ work e. absurd (unlike (sym is ∙ work calls n));
}

or_sent-IsAnswered :
    (env : Environment) (before : Bool) (n : ℕ) (m : Manager) → IsAnswered env before n m
unfolding has_marker ◌>>=◌ attempt gets pure perform effect
or_sent-IsAnswered env true n m = record {
  answer = true;
  calls = m.calls;
  says = record {
    skips = λ e. inl refl;
    due = λ e. ground (arith, e);
    unmarked = λ work e. ground (arith, e);
  };
  is = refl;
}
or_sent-IsAnswered env false n m = go (env m.calls (stat n)) refl
  where
    go : (a : Answer) → env m.calls (stat n) ≡ a → IsAnswered env false n m
    go works is = record {
      answer = is_sent n m.entries;
      calls = stat n ∷ m.calls;
      says = record { skips = λ e. inr e; due = λ e. refl; unmarked = λ work e. e };
      is = rw is refl;
    }
    go fails is = record {
      answer = false;
      calls = stat n ∷ m.calls;
      says = unseen-Says env m.calls n (is_sent n m.entries) fails is (λ e. cc);
      is = rw is refl;
    }
    go breaks is = record {
      answer = false;
      calls = stat n ∷ m.calls;
      says = unseen-Says env m.calls n (is_sent n m.entries) breaks is (λ e. cc);
      is = rw is refl;
    }

module _ (env : Environment) (before : Bool) (n : ℕ) where
  -- What holds after the test, for either answer, holds.
  pub after_or_sent {ℓ} :
      {A : Type ℓ} (next : Bool → Vol A) (T : Option A × Manager → Type 0) (m : Manager)
      → ((answer : Bool) (calls : List Call)
          → Says env before (is_sent n m.entries) answer
          → T (next answer (record m { calls = calls })))
      → T ((or_sent env before n >>= next) m)
  unfolding ◌>>=◌
  after_or_sent next T m h =
      let asked = or_sent-IsAnswered env before n m in
      subst (λ result. T (go_on result.0 next result.1)) (sym asked.is)
        (h asked.answer asked.calls asked.says)

  pub or_sent-Triple :
      (P : Manager → Type 0)
      → ((m : Manager) (calls : List Call) → P m → P (record m { calls = calls }))
      → Triple P
          (or_sent env before n)
          (λ answer m. Says env before (is_sent n m.entries) answer × P m)
  or_sent-Triple P keeps m p =
      let asked = or_sent-IsAnswered env before n m in
      subst
        (λ result.
          IsGood (λ answer m. Says env before (is_sent n m.entries) answer × P m) result.0 result.1)
        (sym asked.is) (asked.says, keeps m asked.calls p)
