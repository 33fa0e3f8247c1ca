-- ===== src/Dmtcp/Waiting.antt =====
-- WaitForCheckpointFile of go-agent/dmtcp/handler.go ends, on a clock that goes on.
use mathlib.Core.List.{append_assoc}
use mycedrive_k8s.Base.{
  ℕ, suc, ◌+◌, ◌*◌, ◌/◌, ◌≤◌, Bool, true, false, Option, none, some, List, [], ◌∷◌, ◌++◌, ◌≡◌, refl,
  sym, ◌∙◌, ap, String, ltb, ◌==◌, ◌<◌, Bool-cases, inl, inr, arith,
}
use mycedrive_k8s.Base.Action.{go_on, ◌>>=◌, pure, raise, attempt}
use mycedrive_k8s.Dmtcp.States.{
  Time, Call, glob, stat, now, sleep, Shell, Process, Dmtcp, ask, Wait, found, timed_out,
  out_of_fuel, half_second,
}
use mycedrive_k8s.Dmtcp.{
  newer, latest_of, non_blank, latest_among, latest_checkpoint_file, look_again, if_early,
  wait_rounds, wait_for_checkpoint_file,
}

-- A clock never goes back, and time.Sleep lasts at least as long as it was asked to.
pub record IsTicking (shell : Shell) : Type 0 where
  pub goes_on :
      (before between : List Call) → shell.clock before ≤ shell.clock (between ++ now ∷ before)
  pub sleeps :
      (before between : List Call)
      → shell.clock before + half_second ≤ shell.clock (sleep ∷ (between ++ now ∷ before))

-- Calls are only added.
abbrev Extends : Process → Process → Type 0
Extends p p' = (between : List Call) × (p'.calls ≡ between ++ p.calls)

Extends-trans : (a b c : Process) → Extends a b → Extends b c → Extends a c
Extends-trans a b c (x, e) (y, f) =
    (y ++ x, f ∙ ap (λ z. y ++ z) e ∙ sym (append_assoc y x a.calls))

module _ (shell : Shell) where
  latest_of-Extends :
      (files : List String) (best : String × Time) (p : Process)
      → Extends p (latest_of shell files best p).1
  unfolding latest_of pure ◌>>=◌ ask
  latest_of-Extends [] best p = ([], refl)
  latest_of-Extends (file ∷ files) best p =
      let p₁ : Process = record p { calls = stat file ∷ p.calls } in
      let best₁ = newer file (shell.mod_time p.calls file) best in
      Extends-trans p p₁ (latest_of shell files best₁ p₁).1 (stat file ∷ [], refl)
        (latest_of-Extends files best₁ p₁)

  non_blank-Extends : (o : Option (String × Time)) (p : Process) → Extends p (go_on o non_blank p).1
  unfolding raise pure
  non_blank-Extends none p = ([], refl)
  non_blank-Extends (some best) p = elim (Bool-cases (best.0 == "")) [
    | inl blank ↦ rw blank ([], refl)
    | inr named ↦ rw named ([], refl)
  ]

  latest_among-Extends :
      (o : Option (List String)) (p : Process) → Extends p (latest_among shell o p).1
  unfolding raise ◌>>=◌
  latest_among-Extends none p = ([], refl)
  latest_among-Extends (some []) p = ([], refl)
  latest_among-Extends (some (file ∷ files)) p =
      let first = latest_of shell (file ∷ files) ("", 0) p in
      Extends-trans p first.1 (go_on first.0 non_blank first.1).1
        (latest_of-Extends (file ∷ files) ("", 0) p) (non_blank-Extends first.0 first.1)

  latest-Extends : (p : Process) → Extends p (latest_checkpoint_file shell p).1
  unfolding latest_checkpoint_file ◌>>=◌ ask
  latest-Extends p =
      let p₁ : Process = record p { calls = glob ∷ p.calls } in
      Extends-trans p p₁ (latest_among shell (shell.files p.calls) p₁).1 (glob ∷ [], refl)
        (latest_among-Extends (shell.files p.calls) p₁)

  -- A wait that gave up has read a time that is not before the deadline.
  abbrev pub IsEnd : Time → Option Wait → List Call → Type 0
  IsEnd deadline none calls = ⊥
  IsEnd deadline (some out_of_fuel) calls = ⊥
  IsEnd deadline (some (found file)) calls = Unit
  IsEnd deadline (some timed_out) calls =
      (before : List Call) × (calls ≡ now ∷ before) × (deadline ≤ shell.clock before)

  abbrev pub Ends : Time → Option Wait × Process → Type 0
  Ends deadline result = IsEnd deadline result.0 result.1.calls

  -- The rest of a round that began in time, once the files were looked at.
  after_look :
      (rest : Dmtcp Wait) (deadline : Time) (o : Option String) (p : Process)
      → Ends deadline (rest (record p { calls = sleep ∷ p.calls }))
      → Ends deadline (look_again rest o p)
  unfolding pure ◌>>=◌ ask
  after_look rest deadline none p h = h
  after_look rest deadline (some file) p h = tt

  -- One round, where the next ones begin half a second later.
  one_round :
      (fuel : ℕ) (deadline : Time) (p : Process)
      → IsTicking shell
      → ((p' : Process)
          → shell.clock p.calls < deadline
          → shell.clock p.calls + half_second ≤ shell.clock p'.calls
          → Ends deadline (wait_rounds shell fuel deadline p'))
      → Ends deadline (wait_rounds shell (suc fuel) deadline p)
  unfolding wait_rounds ◌>>=◌ ask attempt pure
  one_round fuel deadline p ticks rest = go (ltb (shell.clock p.calls) deadline) refl
    where
      p₁ : Process
      p₁ = record p { calls = now ∷ p.calls }

      go :
          (early : Bool)
          → ltb (shell.clock p.calls) deadline ≡ early
          → Ends deadline (
              if_early early
                (attempt (latest_checkpoint_file shell)
                  >>= look_again (wait_rounds shell fuel deadline))
                p₁)
      go false e = (p.calls, refl, ground (arith, e))
      go true e =
          let look = latest_checkpoint_file shell p₁ in
          let (between, same) = latest-Extends p₁ in
          let later = rw (← same) at (ticks.sleeps p.calls between) in
          after_look (wait_rounds shell fuel deadline) deadline look.0 look.1
            (rest (record look.1 { calls = sleep ∷ look.1.calls }) (ground (arith, e)) later)

  -- Half-second rounds up to the deadline, and one more.
  wait_rounds-Ends :
      (fuel : ℕ) (deadline : Time) (p : Process)
      → IsTicking shell
      → deadline ≤ shell.clock p.calls + fuel * half_second
      → Ends deadline (wait_rounds shell (suc fuel) deadline p)
  wait_rounds-Ends ℕ.zero deadline p ticks enough =
      one_round ℕ.zero deadline p ticks λ p' early later. absurd (omega (arith, enough, early))
  wait_rounds-Ends (suc fuel) deadline p ticks enough =
      one_round (suc fuel) deadline p ticks
        λ p' early later. wait_rounds-Ends fuel deadline p' ticks (omega (arith, enough, later))

  -- On a clock that goes on, WaitForCheckpointFile ends: it gives a file, or it has read a time that is
  -- not before its start and the timeout together.
  pub wait_for_checkpoint_file-Ends :
      (timeout : Time) (p : Process)
      → IsTicking shell
      → Ends (shell.clock p.calls + timeout) (wait_for_checkpoint_file shell timeout p)
  unfolding wait_for_checkpoint_file ◌>>=◌ ask
  wait_for_checkpoint_file-Ends timeout p ticks =
      let p₁ : Process = record p { calls = now ∷ p.calls } in
      let rounds : timeout / half_second + 2 ≡ suc (timeout / half_second + 1) = omega arith in
      rw rounds (
        wait_rounds-Ends (timeout / half_second + 1) (shell.clock p.calls + timeout) p₁ ticks
          (omega (arith, ticks.goes_on p.calls [])))
