-- ===== src/Dmtcp/Latest.antt =====
-- latestCheckpointFile of go-agent/dmtcp/handler.go gives the newest file.
use mycedrive_k8s.Base.{
  ◌≤◌, false, Option, none, some, List, [], ◌∷◌, ◌≡◌, ◌⊎◌, inl, inr, refl, sym, ◌∙◌, ap, subst,
  String, ltb, ◌==◌, Bool-cases, All, arith,
}
use mycedrive_k8s.Base.Action.{go_on, ◌>>=◌, pure, raise}
use mycedrive_k8s.Dmtcp.States.{Time, Call, glob, stat, Shell, Process, ask}
use mycedrive_k8s.Dmtcp.{newer, latest_of, non_blank, latest_checkpoint_file}

abbrev pub OneOf : String → List String → Type 0
OneOf f [] = ⊥
OneOf f (g ∷ gs) = (f ≡ g) ⊎ OneOf f gs

-- A file that cannot be read is no newer than any time.
abbrev pub IsBy : Time → Option Time → Type 0
IsBy t none = Unit
IsBy t (some at) = at ≤ t

newer-cases :
    (file : String) (at : Time) (best : String × Time)
    → (newer file (some at) best ≡ (file, at)) ⊎ (newer file (some at) best ≡ best)
newer-cases file at best = elim (Bool-cases (ltb best.1 at)) [
  | inl later ↦ inl (rw later refl)
  | inr earlier ↦ inr (rw earlier refl)
]

module _ (times : String → Option Time) where
  -- The loop without its calls.
  newest : List String → String × Time → String × Time
  newest [] best = best
  newest (file ∷ files) best = newest files (newer file (times file) best)

  newest-ge : (files : List String) (best : String × Time) → best.1 ≤ (newest files best).1
  unfolding newest
  newest-ge [] best = omega arith
  newest-ge (file ∷ files) best = ground (arith, newest-ge files (newer file (times file) best))

  newest-All :
      (files : List String) (best : String × Time)
      → All (λ f. IsBy (newest files best).1 (times f)) files
  unfolding newest
  newest-All [] best = tt
  newest-All (file ∷ files) best =
      (here (times file), newest-All files (newer file (times file) best))
    where
      here : (at : Option Time) → IsBy (newest files (newer file at best)).1 at
      here none = tt
      here (some at) = ground (arith, newest-ge files (newer file (some at) best))

  -- The best file of the loop is one of the list, with its time, unless none was newer than the start.
  abbrev IsFrom : List String → String × Time → String × Time → Type 0
  IsFrom files start best = (best ≡ start) ⊎ (OneOf best.0 files × (times best.0 ≡ some best.1))

  newest-IsFrom :
      (files : List String) (best : String × Time) → IsFrom files best (newest files best)
  unfolding newest
  newest-IsFrom [] best = inl refl
  newest-IsFrom (file ∷ files) best =
      step (times file) refl (newest-IsFrom files (newer file (times file) best))
    where
      step :
          (at : Option Time)
          → times file ≡ at
          → IsFrom files (newer file at best) (newest files (newer file at best))
          → IsFrom (file ∷ files) best (newest files (newer file at best))
      step at e (inr (there, time)) = inr (inr there, time)
      step none e (inl same) = inl same
      step (some at) e (inl same) = elim (newer-cases file at best) [
        | inl later ↦
            let q = same ∙ later in
            inr (inl (ap (λ x. x.0) q), subst (λ x. times x.0 ≡ some x.1) (sym q) e)
        | inr earlier ↦ inl (same ∙ earlier)
      ]

-- A file name of Glob's is not empty.
abbrev pub IsNamed : String → Type 0
IsNamed file = (file == "") ≡ false

-- The newest of some files, by their times; or no file has a time after Go's zero time.
abbrev pub IsNewest : (String → Option Time) → List String → Option String → Type 0
IsNewest times files none = All (λ f. IsBy 0 (times f)) files
IsNewest times files (some file) =
    OneOf file files × ((at : Time) × (times file ≡ some at) × All (λ f. IsBy at (times f)) files)

IsNamed-of : (files : List String) (f : String) → All IsNamed files → OneOf f files → IsNamed f
IsNamed-of [] f h there = absurd there
IsNamed-of (g ∷ gs) f (h, hs) (inl same) = subst IsNamed (sym same) h
IsNamed-of (g ∷ gs) f (h, hs) (inr there) = IsNamed-of gs f hs there

module _ (shell : Shell) (times : String → Option Time) where
  -- The files do not change while they are looked at.
  abbrev pub IsStill : Type 0
  IsStill = (calls : List Call) (file : String) → shell.mod_time calls file ≡ times file

  latest_of-newest :
      (files : List String) (best : String × Time) (p : Process)
      → IsStill
      → (latest_of shell files best p).0 ≡ some (newest times files best)
  unfolding latest_of newest ◌>>=◌ ask pure
  latest_of-newest [] best p still = refl
  latest_of-newest (file ∷ files) best p still = rw (still p.calls file) (
      latest_of-newest files (newer file (times file) best)
        (record p { calls = stat file ∷ p.calls }) still)

  chosen :
      (files : List String) (best : String × Time) (p : Process)
      → All IsNamed files
      → All (λ f. IsBy best.1 (times f)) files
      → IsFrom times files ("", 0) best
      → IsNewest times files (non_blank best p).0
  unfolding raise pure
  chosen files best p named below (inl start) =
      subst (λ b. IsNewest times files (non_blank b p).0) (sym start)
        (subst (λ b. All (λ f. IsBy b.1 (times f)) files) start below)
  chosen files best p named below (inr (there, time)) =
      rw (IsNamed-of files best.0 named there) (there, (best.1, time, below))

  looked :
      (files : List String) (best : String × Time) (o : Option (String × Time)) (p : Process)
      → o ≡ some best
      → IsNewest times files (non_blank best p).0
      → IsNewest times files (go_on o non_blank p).0
  looked files best o p e h = subst (λ x. IsNewest times files (go_on x non_blank p).0) (sym e) h

  -- Of files that do not change while they are looked at, latestCheckpointFile gives the newest; and it
  -- gives none only where no file can be read, or all are as old as Go's zero time.
  pub latest-IsNewest :
      (files : List String) (p : Process)
      → IsStill
      → shell.files p.calls ≡ some files
      → All IsNamed files
      → IsNewest times files (latest_checkpoint_file shell p).0
  unfolding latest_checkpoint_file ◌>>=◌ ask raise
  latest-IsNewest [] p still there named = rw (there, latest_checkpoint_file) tt
  latest-IsNewest (file ∷ files) p still there named =
      let p₁ : Process = record p { calls = glob ∷ p.calls } in
      let all = file ∷ files in
      let best = newest times all ("", 0) in
      let looks = latest_of shell all ("", 0) p₁ in
      rw (there, latest_checkpoint_file)
        (looked all best looks.0 looks.1 (latest_of-newest all ("", 0) p₁ still) (
          chosen all best looks.1 named (newest-All times all ("", 0))
            (newest-IsFrom times all ("", 0))))
