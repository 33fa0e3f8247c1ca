-- ===== src/History/Timeline.antt =====
-- The steps of a record of operator/pkg/history/history.go: at most the last one is open, as long as
-- the migration is in its phase.
use mycedrive_k8s.Base.{
  ==→eq, subst, ap, ◌||◌, ◌⊎◌, Bool, true, false, Option, none, some, List, [], ◌∷◌, ◌++◌, ◌≡◌,
  refl, sym, ◌∙◌, inl, inr, String, All, All-append, ◌==◌, Bool-cases, Option-cases,
}
use mycedrive_k8s.History.Types.{
  phase_failed, phase_completed, Time, Step, Record, Transition, terminal,
}
use mycedrive_k8s.History.Advance.{
  refresh, split_last, open_last, close_step, new_step, settle, close_and_settle, advance,
}

-- A step that has ended, or that is the open one of a phase that does not end a migration.
abbrev pub IsEnded : Option Time → Type 0
IsEnded none = ⊥
IsEnded (some at) = Unit

abbrev pub IsClosed : Step → Type 0
IsClosed st = IsEnded st.ended_at

abbrev pub IsEndedOr : Type 0 → Option Time → Type 0
IsEndedOr P none = P
IsEndedOr P (some at) = Unit

abbrev pub is_end : String → Bool
is_end phase = (phase == phase_completed) || (phase == phase_failed)

abbrev pub IsLast : String → Step → Type 0
IsLast phase st = IsEndedOr ((st.phase ≡ phase) × (is_end phase ≡ false)) st.ended_at

abbrev IsStep : String → Step → List Step → Type 0
IsStep phase st [] = IsLast phase st
IsStep phase st (next ∷ rest) = IsClosed st

-- Every step has ended, but that the last one may be open, and is then the step of the phase `phase`,
-- which is not the end of a migration.
abbrev pub IsTimeline : String → List Step → Type 0
IsTimeline phase [] = Unit
IsTimeline phase (st ∷ rest) = IsStep phase st rest × IsTimeline phase rest

IsEnded-or : (P : Type 0) (o : Option Time) → IsEnded o → IsEndedOr P o
IsEnded-or P none h = absurd h
IsEnded-or P (some at) h = tt

IsTimeline-of_closed :
    (phase : String) (steps : List Step) → All IsClosed steps → IsTimeline phase steps
IsTimeline-of_closed phase [] h = tt
IsTimeline-of_closed phase (st ∷ []) (h, hs) = (IsEnded-or _ st.ended_at h, tt)
IsTimeline-of_closed phase (st ∷ next ∷ rest) (h, hs) =
    (h, IsTimeline-of_closed phase (next ∷ rest) hs)

IsTimeline-join :
    (phase : String) (front : List Step) (last : Step)
    → All IsClosed front
    → IsLast phase last
    → IsTimeline phase (front ++ last ∷ [])
IsTimeline-join phase [] last h l = (l, tt)
IsTimeline-join phase (st ∷ []) last (h, hs) l = (h, (l, tt))
IsTimeline-join phase (st ∷ next ∷ rest) last (h, hs) l =
    (h, IsTimeline-join phase (next ∷ rest) last hs l)

IsTimeline-split :
    (phase : String) (front : List Step) (last : Step)
    → IsTimeline phase (front ++ last ∷ [])
    → All IsClosed front × IsLast phase last
IsTimeline-split phase [] last (l, _) = (tt, l)
IsTimeline-split phase (st ∷ []) last (h, (l, _)) = ((h, tt), l)
IsTimeline-split phase (st ∷ next ∷ rest) last (h, hs) =
    let (cs, l) = IsTimeline-split phase (next ∷ rest) last hs in ((h, cs), l)

-- The steps are none, or some before a last one, and `split_last` finds it.
pub last-cases :
    (steps : List Step)
    → ((steps ≡ []) × (split_last steps ≡ none))
      ⊎ ((front : List Step) × (last : Step) × (steps ≡ front ++ last ∷ [])
          × (split_last steps ≡ some (front, last)))
unfolding split_last
last-cases [] = inl (refl, refl)
last-cases (st ∷ rest) = elim (last-cases rest) [
  | inl (none_left, found) ↦ inr ([], st, ap (λ xs. st ∷ xs) none_left, rw found refl)
  | inr (front, last, same, found) ↦ inr (st ∷ front, last, ap (λ xs. st ∷ xs) same, rw found refl)
]

new_step-IsLast : (tr : Transition) → is_end tr.phase ≡ false → IsLast tr.phase (new_step tr)
unfolding new_step
new_step-IsLast tr live = (refl, live)

-- With every step closed, what a transition adds is a timeline of its phase.
settle-IsTimeline :
    (tr : Transition) (now : Time) (rec : Record)
    → All IsClosed rec.steps
    → rec.phase ≡ tr.phase
    → IsTimeline tr.phase (settle tr now rec).steps
unfolding settle terminal
settle-IsTimeline tr now rec closed same = elim (Bool-cases (is_end rec.phase)) [
  | inl ends ↦ rw (ends, settle) (IsTimeline-of_closed tr.phase rec.steps closed)
  | inr goes_on ↦
      rw (goes_on, settle)
        (IsTimeline-join tr.phase rec.steps (new_step tr) closed
          (new_step-IsLast tr (subst (λ p. is_end p ≡ false) same goes_on)))
]

-- The record with its last step closed, if that step is open.
entered-IsTimeline :
    (tr : Transition) (now : Time) (rec : Record) (phase : String) (front : List Step) (last : Step)
    → rec.phase ≡ tr.phase
    → All IsClosed front
    → last.phase ≡ phase
    → is_end phase ≡ false
    → last.ended_at ≡ none
    → IsTimeline tr.phase (close_and_settle tr now rec (some (front, last))).steps
unfolding close_and_settle close_step
entered-IsTimeline tr now rec phase front last same closed own live unended =
    let same_phase : (last.phase == tr.phase) ≡ true → last.phase ≡ tr.phase =
      ==→eq last.phase tr.phase in
    elim (Bool-cases (last.phase == tr.phase)) [
      | inl stays ↦
          rw (stays, close_and_settle)
            (IsTimeline-join tr.phase front _ closed (
              rw unended (
                same_phase stays,
                subst (λ p. is_end p ≡ false) (sym own ∙ same_phase stays) live,
              )))
      | inr moves ↦
          rw (moves, close_and_settle)
            (settle-IsTimeline tr now _ (All-append IsClosed front _ closed (tt, tt)) same)
    ]

-- A transition leaves the record in its phase, with a timeline of that phase, if it had one before.
pub advance-IsTimeline :
    (tr : Transition) (now : Time) (rec : Record)
    → IsTimeline rec.phase rec.steps
    → IsTimeline tr.phase (advance tr now rec).steps
unfolding advance open_last refresh
advance-IsTimeline tr now rec h = elim (last-cases rec.steps) [
  | inl (none_left, found) ↦
      rw (found, advance, open_last, close_and_settle)
        (settle-IsTimeline tr now (refresh tr rec) (rw none_left tt) refl)
  | inr (front, last, same, found) ↦
      let (closed, ends) =
        IsTimeline-split rec.phase front last (subst (IsTimeline rec.phase) same h) in
      elim (Option-cases last.ended_at) [
        | inl unended ↦
            let (own, live) : (last.phase ≡ rec.phase) × (is_end rec.phase ≡ false) =
              rw unended at ends in
            rw (found, advance, open_last, unended)
              (entered-IsTimeline tr now (refresh tr rec) rec.phase front last refl closed own live
                unended)
        | inr (at, ended) ↦
            rw (found, advance, open_last, ended, close_and_settle)
              (settle-IsTimeline tr now (refresh tr rec)
                (subst (All IsClosed) (sym same)
                  (All-append IsClosed front (last ∷ []) closed (rw ended tt, tt)))
                refl)
      ]
]
