-- ===== src/History/Report.antt =====
-- The reads of operator/pkg/history/history.go: Snapshot and Summarize. A nil pointer is `none`.
use mycedrive_k8s.Base.{
  ℕ, suc, not, ◌&&◌, Option, none, some, List, [], ◌∷◌, ◌++◌, String, Map, lookup, insert, ℤ, pos,
  ◌+ℤ◌, quotℤ, eqb, ltb, ◌==◌, if◌then◌else◌, ◌+◌,
}
use mycedrive_k8s.History.Types.{
  Time, Step, Record, millis_between, terminal, phase_completed, phase_failed,
}
use mycedrive_k8s.History.Advance.{downtime, open_last}
use mycedrive_k8s.History.{Store}

abbrev with_live_step : Time → List Step → Option (List Step × Step) → List Step
with_live_step now steps none = steps
with_live_step now steps (some (front, last)) =
    front ++ (record last { duration_ms = millis_between now last.started_at }) ∷ []

-- The copy of a record, with live durations while it is in flight; `later` is the clock of `downtime`.
unfoldable pub live_copy : Time → Time → Record → Record
unfolding terminal open_last downtime millis_between
live_copy now later rec =
    let steps = with_live_step now rec.steps (open_last rec.steps) in
    if not (terminal rec) && not (eqb rec.started_at 0)
    then (record rec {
      steps = steps;
      total_ms = millis_between now rec.started_at;
      downtime_ms = downtime later steps;
    })
    else rec

abbrev copied : Time → Time → Option Record → Option (List Record) → Option (List Record)
copied now later none rest = none
copied now later (some rec) none = none
copied now later (some rec) (some rest) = some (live_copy now later rec ∷ rest)

unfoldable pub copies : Time → Time → List String → Map Record → Option (List Record)
unfolding live_copy
copies now later [] records = some []
copies now later (key ∷ keys) records =
    copied now later (lookup key records) (copies now later keys records)

-- Snapshot
unfoldable pub snapshot : Time → Time → Store → Option (List Record)
unfolding copies
snapshot now later s = copies now later s.order s.records

-- What Summarize counts on its way. A total of a phase goes with the number of its steps.
pub record Totals : Type 0 where
  pub total : ℕ
  pub active : ℕ
  pub completed : ℕ
  pub failed : ℕ
  pub finished : ℕ
  pub total_ms : ℤ
  pub downtime_ms : ℤ
  pub phases : Map (ℤ × ℕ)

-- `success_rate` is the ratio that the program rounds to a float; 0 over 0 where it leaves it 0.
pub record Summary : Type 0 where
  pub total : ℕ
  pub active : ℕ
  pub completed : ℕ
  pub failed : ℕ
  pub success_rate : ℕ × ℕ
  pub avg_total_ms : ℤ
  pub avg_downtime_ms : ℤ
  pub phase_avg_ms : Map ℤ

abbrev or_zero : Option (ℤ × ℕ) → ℤ × ℕ
or_zero none = (pos 0, 0)
or_zero (some agg) = agg

abbrev counted_in : Option Time → Step → Map (ℤ × ℕ) → Map (ℤ × ℕ)
counted_in none st phases = phases
counted_in (some at) st phases =
    let agg = or_zero (lookup st.phase phases) in
    insert st.phase (agg.0 +ℤ st.duration_ms, suc agg.1) phases

-- The steps that have ended, by phase.
unfoldable pub count_steps : List Step → Map (ℤ × ℕ) → Map (ℤ × ℕ)
count_steps [] phases = phases
count_steps (st ∷ rest) phases = count_steps rest (counted_in st.ended_at st phases)

unfoldable pub count_record : Record → Totals → Totals
unfolding terminal count_steps
count_record rec t = record {
  total = suc t.total;
  completed = if rec.phase == phase_completed then suc t.completed else t.completed;
  failed =
      if rec.phase == phase_completed
      then t.failed
      else if rec.phase == phase_failed
      then suc t.failed
      else t.failed;
  active =
      if rec.phase == phase_completed
      then t.active
      else if rec.phase == phase_failed
      then t.active
      else suc t.active;
  finished = if terminal rec then suc t.finished else t.finished;
  total_ms = if terminal rec then t.total_ms +ℤ rec.total_ms else t.total_ms;
  downtime_ms = if terminal rec then t.downtime_ms +ℤ rec.downtime_ms else t.downtime_ms;
  phases = count_steps rec.steps t.phases;
}

unfoldable pub count_records : List Record → Totals → Totals
unfolding count_record
count_records [] t = t
count_records (rec ∷ rest) t = count_records rest (count_record rec t)

abbrev pub nothing_counted : Totals
nothing_counted = record {
  total = 0;
  active = 0;
  completed = 0;
  failed = 0;
  finished = 0;
  total_ms = pos 0;
  downtime_ms = pos 0;
  phases = [];
}

unfoldable pub averages : Map (ℤ × ℕ) → Map ℤ
averages [] = []
averages ((phase, (ms, n)) ∷ rest) = (phase, quotℤ ms n) ∷ averages rest

abbrev summary_of : Totals → Summary
unfolding averages
summary_of t = record {
  total = t.total;
  active = t.active;
  completed = t.completed;
  failed = t.failed;
  success_rate = (t.completed, t.completed + t.failed);
  avg_total_ms = if ltb 0 t.finished then quotℤ t.total_ms t.finished else pos 0;
  avg_downtime_ms = if ltb 0 t.finished then quotℤ t.downtime_ms t.finished else pos 0;
  phase_avg_ms = averages t.phases;
}

-- Summarize
unfoldable pub summarize : List Record → Summary
unfolding count_records summary_of
summarize records = summary_of (count_records records nothing_counted)
