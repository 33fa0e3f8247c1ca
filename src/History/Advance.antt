-- ===== src/History/Advance.antt =====
-- What `Store.RecordTransition` of operator/pkg/history/history.go does to the record of one migration.
use mycedrive_k8s.Base.{
  false, Option, none, some, List, [], ◌∷◌, ◌++◌, ℤ, pos, ◌+ℤ◌, ◌==◌, if◌then◌else◌,
}
use mycedrive_k8s.History.Types.{
  Time, Step, Record, Transition, millis_between, accessible, terminal,
}

-- downtime; an open step counts up to the reading of the clock.
unfoldable pub downtime : Time → List Step → ℤ
downtime now [] = pos 0
downtime now (st ∷ rest) =
    let ms : ℤ = elim st.ended_at [
      | some _ ↦ st.duration_ms
      | none ↦ millis_between now st.started_at
    ] in
    if st.is_accessible then downtime now rest else ms +ℤ downtime now rest

-- &Record{Name, Namespace, StartedAt}
unfoldable pub fresh_record : Transition → Record
fresh_record tr = record {
  name = tr.name;
  namespace = tr.namespace;
  workload = "";
  source_pod = "";
  destination_pod = "";
  source_node = "";
  target_node = "";
  process_migration = false;
  volume_migration = false;
  phase = "";
  message = "";
  is_accessible = false;
  started_at = tr.time;
  completed_at = none;
  total_ms = pos 0;
  downtime_ms = pos 0;
  steps = [];
  seeded = false;
}

-- The identifying fields, refreshed.
unfoldable pub refresh : Transition → Record → Record
unfolding accessible
refresh tr rec = record rec {
  workload = tr.workload;
  source_node = tr.source_node;
  target_node = tr.target_node;
  process_migration = tr.process_migration;
  volume_migration = tr.volume_migration;
  source_pod = if tr.source_pod == "" then rec.source_pod else tr.source_pod;
  destination_pod = if tr.destination_pod == "" then rec.destination_pod else tr.destination_pod;
  phase = tr.phase;
  message = tr.message;
  is_accessible = accessible tr.phase;
}

abbrev pub split_at_last : Step → Option (List Step × Step) → List Step × Step
split_at_last st none = ([], st)
split_at_last st (some (front, last)) = (st ∷ front, last)

-- The steps before the last one, and the last one.
unfoldable pub split_last : List Step → Option (List Step × Step)
split_last [] = none
split_last (st ∷ rest) = some (split_at_last st (split_last rest))

abbrev only_open : Option (List Step × Step) → Option (List Step × Step)
only_open none = none
only_open (some (front, last)) = elim last.ended_at [ none ↦ some (front, last) | some _ ↦ none ]

-- The last step with those before it, if it is open.
unfoldable pub open_last : List Step → Option (List Step × Step)
unfolding split_last
open_last steps = only_open (split_last steps)

unfoldable pub close_step : Time → Step → Step
unfolding millis_between
close_step time last = record last {
  ended_at = some time;
  duration_ms = millis_between time last.started_at;
}

unfoldable pub new_step : Transition → Step
unfolding accessible
new_step tr = record {
  phase = tr.phase;
  message = tr.message;
  started_at = tr.time;
  ended_at = none;
  duration_ms = pos 0;
  is_accessible = accessible tr.phase;
}

-- With every step closed: the end of the migration, or its next step. `now` is the clock that
-- `downtime` reads.
unfoldable pub settle : Transition → Time → Record → Record
unfolding terminal millis_between downtime new_step
settle tr now rec =
    if terminal rec
    then (record rec {
      completed_at = some tr.time;
      total_ms = millis_between tr.time rec.started_at;
      downtime_ms = downtime now rec.steps;
    })
    else record rec { steps = rec.steps ++ new_step tr ∷ [] }

unfoldable pub close_and_settle : Transition → Time → Record → Option (List Step × Step) → Record
unfolding close_step settle
close_and_settle tr now rec none = settle tr now rec
close_and_settle tr now rec (some (front, last)) =
    if last.phase == tr.phase
    then (record rec { steps = front ++ (record last { message = tr.message }) ∷ [] })
    else settle tr now (record rec { steps = front ++ close_step tr.time last ∷ [] })

-- The record after a transition.
unfoldable pub advance : Transition → Time → Record → Record
unfolding refresh open_last close_and_settle
advance tr now rec = close_and_settle tr now (refresh tr rec) (open_last rec.steps)
