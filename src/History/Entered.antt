-- ===== src/History/Entered.antt =====
-- operator/pkg/history/history.go: what RecordTransition leaves in the record of its migration.
use mycedrive_k8s.Base.{
  ◌⊎◌, Bool, true, false, Option, none, some, List, [], ◌∷◌, ◌++◌, ◌≡◌, refl, String, lookup, eqb,
  ◌==◌, if◌then◌else◌, arith, Bool-cases, Option-cases, inl, inr, ==→eq, sym, subst, text-cases,
  lookup-insert_self,
}
use mycedrive_k8s.History.Types.{Time, Step, Record, Transition, terminal}
use mycedrive_k8s.History.Advance.{
  fresh_record, refresh, open_last, close_step, new_step, settle, close_and_settle, advance,
}
use mycedrive_k8s.History.{Store, record_transition, with_clock, write_back}
use mycedrive_k8s.History.Live.{HasRecord, begun, begun-HasRecord, key_of}
use mycedrive_k8s.History.Timeline.{is_end, last-cases}

-- A migration starts with its first transition, at the time of it or, without one, when it is entered; a
-- later transition leaves that start.
abbrev pub IsStart : Time → Transition → Option Record → Time → Type 0
IsStart now tr none start =
    ((tr.time ≡ 0) × (start ≡ now)) ⊎ ((eqb tr.time 0 ≡ false) × (start ≡ tr.time))
IsStart now tr (some old) start = start ≡ old.started_at

-- The step is the open one of a transition.
abbrev pub IsOpenStep : Transition → Step → Type 0
IsOpenStep tr st = (st.phase ≡ tr.phase) × ((st.message ≡ tr.message) × (st.ended_at ≡ none))

-- The record shows the transition, and where that does not end the migration, its last step does so too.
pub record Shows (now : Time) (tr : Transition) (old : Option Record) (rec : Record) : Type 0 where
  pub started_at : IsStart now tr old rec.started_at
  pub phase : rec.phase ≡ tr.phase
  pub message : rec.message ≡ tr.message
  pub workload : rec.workload ≡ tr.workload
  pub source_node : rec.source_node ≡ tr.source_node
  pub target_node : rec.target_node ≡ tr.target_node
  pub process_migration : rec.process_migration ≡ tr.process_migration
  pub volume_migration : rec.volume_migration ≡ tr.volume_migration
  pub last_step :
      (tr.phase ≡ "Completed")
      ⊎ ((tr.phase ≡ "Failed")
          ⊎ ((front : List Step) × (last : Step) × (rec.steps ≡ front ++ last ∷ [])
              × IsOpenStep tr last))

-- What the end of a transition does to a record: only its steps and its end change.
pub record Settled (tr : Transition) (rec : Record) (after : Record) : Type 0 where
  pub started_at : after.started_at ≡ rec.started_at
  pub phase : after.phase ≡ rec.phase
  pub message : after.message ≡ rec.message
  pub workload : after.workload ≡ rec.workload
  pub source_node : after.source_node ≡ rec.source_node
  pub target_node : after.target_node ≡ rec.target_node
  pub process_migration : after.process_migration ≡ rec.process_migration
  pub volume_migration : after.volume_migration ≡ rec.volume_migration
  pub last_step :
      (rec.phase ≡ "Completed")
      ⊎ ((rec.phase ≡ "Failed")
          ⊎ ((front : List Step) × (last : Step) × (after.steps ≡ front ++ last ∷ [])
              × IsOpenStep tr last))

end-cases : (phase : String) → is_end phase ≡ true → (phase ≡ "Completed") ⊎ (phase ≡ "Failed")
end-cases phase ends = elim (text-cases phase "Completed") [
  | inl completed ↦ inl completed
  | inr other ↦ elim (text-cases phase "Failed") [
    | inl failed ↦ inr failed
    | inr neither ↦ absurd (ground (arith, ends, other, neither))
  ]
]

settle-Settled : (tr : Transition) (now : Time) (rec : Record) → Settled tr rec (settle tr now rec)
unfolding settle terminal new_step
settle-Settled tr now rec = elim (Bool-cases (is_end rec.phase)) [
  | inl ends ↦
      rw (ends, settle)
        (record {
          started_at = refl;
          phase = refl;
          message = refl;
          workload = refl;
          source_node = refl;
          target_node = refl;
          process_migration = refl;
          volume_migration = refl;
          last_step = elim (end-cases rec.phase ends) [
            | inl completed ↦ inl completed
            | inr failed ↦ inr (inl failed)
          ];
        })
  | inr goes_on ↦
      rw (goes_on, settle)
        (record {
          started_at = refl;
          phase = refl;
          message = refl;
          workload = refl;
          source_node = refl;
          target_node = refl;
          process_migration = refl;
          volume_migration = refl;
          last_step = inr (inr (rec.steps, new_step tr, refl, (refl, (refl, refl))));
        })
]

refreshed-Settled :
    (tr : Transition) (rec : Record) (front : List Step) (last : Step)
    → last.phase ≡ tr.phase
    → last.ended_at ≡ none
    → Settled tr rec (record rec { steps = front ++ (record last { message = tr.message }) ∷ [] })
refreshed-Settled tr rec front last same unended = record {
  started_at = refl;
  phase = refl;
  message = refl;
  workload = refl;
  source_node = refl;
  target_node = refl;
  process_migration = refl;
  volume_migration = refl;
  last_step =
      inr (inr (front, record last { message = tr.message }, refl, (same, (refl, unended))));
}

-- The record with its steps replaced.
Settled-of_steps :
    (tr : Transition) (rec after : Record) (steps : List Step)
    → Settled tr (record rec { steps = steps }) after
    → Settled tr rec after
Settled-of_steps tr rec after steps h = record {
  started_at = h.started_at;
  phase = h.phase;
  message = h.message;
  workload = h.workload;
  source_node = h.source_node;
  target_node = h.target_node;
  process_migration = h.process_migration;
  volume_migration = h.volume_migration;
  last_step = h.last_step;
}

close_and_settle-Settled :
    (tr : Transition) (now : Time) (rec : Record) (front : List Step) (last : Step)
    → last.ended_at ≡ none
    → Settled tr rec (close_and_settle tr now rec (some (front, last)))
unfolding close_and_settle
close_and_settle-Settled tr now rec front last unended =
    elim (Bool-cases (last.phase == tr.phase)) [
      | inl stays ↦
          rw (stays, close_and_settle)
            (refreshed-Settled tr rec front last (==→eq last.phase tr.phase stays) unended)
      | inr moves ↦
          rw (moves, close_and_settle)
            (Settled-of_steps tr rec _ _ (
              settle-Settled tr now (record rec { steps = front ++ close_step tr.time last ∷ [] })))
    ]

advance-Settled :
    (tr : Transition) (now : Time) (rec : Record) → Settled tr (refresh tr rec) (advance tr now rec)
unfolding advance open_last refresh
advance-Settled tr now rec = elim (last-cases rec.steps) [
  | inl (none_left, found) ↦
      rw (found, advance, open_last, close_and_settle) (settle-Settled tr now (refresh tr rec))
  | inr (front, last, same, found) ↦ elim (Option-cases last.ended_at) [
    | inl unended ↦
        rw (found, advance, open_last, unended)
          (close_and_settle-Settled tr now (refresh tr rec) front last unended)
    | inr (at, ended) ↦
        rw (found, advance, open_last, ended, close_and_settle)
          (settle-Settled tr now (refresh tr rec))
  ]
]

advance-Shows :
    (tr : Transition) (now later : Time) (old : Option Record) (rec : Record)
    → IsStart now tr old rec.started_at
    → Shows now tr old (advance (with_clock now tr) later rec)
unfolding refresh
advance-Shows tr now later old rec start =
    let h = advance-Settled (with_clock now tr) later rec in
    record {
      started_at = subst (IsStart now tr old) (sym h.started_at) start;
      phase = h.phase;
      message = h.message;
      workload = h.workload;
      source_node = h.source_node;
      target_node = h.target_node;
      process_migration = h.process_migration;
      volume_migration = h.volume_migration;
      last_step = h.last_step;
    }

fresh_record-IsStart :
    (tr : Transition) (now : Time)
    → IsStart now tr none (fresh_record (with_clock now tr)).started_at
unfolding fresh_record
fresh_record-IsStart tr now = go tr.time (eqb tr.time 0) refl
  where
    go :
        (time : Time) (unset : Bool)
        → eqb time 0 ≡ unset
        → ((time ≡ 0) × ((if unset then now else time) ≡ now))
          ⊎ ((eqb time 0 ≡ false) × ((if unset then now else time) ≡ time))
    go time true zero = inl (ground (arith, zero), refl)
    go time false set = inr (set, refl)

write_back_self :
    (key : String) (rec old : Record) (s : Store)
    → HasRecord key old s
    → HasRecord key rec (write_back key rec s)
unfolding write_back
write_back_self key rec old s known = rw (known, write_back) (lookup-insert_self key rec s.records)

-- While the history is on, and whatever the store and its limit are, a transition leaves its migration
-- with a record, which no eviction takes, and which has the transition's phase, message, workload, nodes
-- and mechanisms. It has the start of the record before it, or for a new migration the transition's time,
-- or the clock's where that is not set. Outside the phases Completed and Failed, its last step is open
-- and has the transition's phase and message.
pub record_transition-Shows :
    (tr : Transition) (now later : Time) (s : Store)
    → s.enabled ≡ true
    → (rec : Record) × HasRecord (key_of tr) rec (record_transition tr now later s)
      × Shows now tr (lookup (key_of tr) s.records) rec
unfolding record_transition
record_transition-Shows tr now later s on =
    let key = key_of tr in
    elim (Option-cases (lookup key s.records)) [
      | inl unknown ↦ (
        advance (with_clock now tr) later (fresh_record (with_clock now tr)),
        rw (on, unknown, record_transition)
            (write_back_self key _ _ (begun key (with_clock now tr) s)
              (begun-HasRecord key (with_clock now tr) s)),
        rw unknown (
            advance-Shows tr now later none (fresh_record (with_clock now tr))
              (fresh_record-IsStart tr now)),
      )
      | inr (old, known) ↦ (
        advance (with_clock now tr) later old,
        rw (on, known, record_transition) (write_back_self key _ old s known),
        rw known (advance-Shows tr now later (some old) old refl),
      )
    ]
