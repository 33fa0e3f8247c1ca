-- ===== src/Controller/Phases.antt =====
-- operator/internal/controller/migration_controller.go: what every phase of a Migration shares.
pub mod Audit
use Prim.Native.String.{◌++◌ as ◌<>◌}
use mycedrive_k8s.Base.{
  ℕ, ◌-◌, ◌*◌, Bool, true, false, not, ◌&&◌, Option, none, some, List, [], ◌∷◌, String, ltb, ◌==◌,
  quoted, if◌then◌else◌,
}
use mycedrive_k8s.Api.{
  Time, Phase, unset, failed, phase_text, Migration, MigrationStatus, is_terminal,
}
use mycedrive_k8s.Registry.{Registry, disarm}
use mycedrive_k8s.History.{Store, record_transition}
use mycedrive_k8s.History.Types.{Transition}
use mycedrive_k8s.Controller.Cluster.{
  ApiError, conflict, not_found, Result, ok, err, Call, update_status, Cluster,
}
use mycedrive_k8s.Controller.Monad.{
  State, Pass, ◌>>=◌, ◌>>◌, pure, raise, attempt, gets, modify, set_status, set_registry, get_mig,
  read_clock, send,
}

-- ctrl.Result: nothing more to do, at once again, or again after so many nanoseconds.
pub data Outcome : Type 0 where
  done requeue : Outcome
  requeue_after : ℕ → Outcome

abbrev pub second : ℕ
second = 1000000000

abbrev pub requeue_interval : ℕ
requeue_interval = 3 * second

abbrev pub phase_timeout : ℕ
phase_timeout = 600 * second

-- The transition that recordHistory reports.
unfoldable pub transition_of : Migration → Time → Transition
unfolding phase_text
transition_of mig at = record {
  namespace = mig.namespace;
  name = mig.name;
  workload = mig.spec.workload_name;
  source_pod = mig.status.source_pod;
  destination_pod = mig.status.destination_pod;
  source_node = mig.spec.source_node;
  target_node = mig.spec.target_node;
  process_migration = mig.status.process_migration;
  volume_migration = mig.status.volume_migration;
  phase = phase_text mig.status.phase;
  message = mig.status.message;
  time = at;
}

abbrev recorded : Transition → Time → Option Store → Option Store
recorded tr later none = none
recorded tr later (some store) = some (record_transition tr later later store)

-- clearRegistryFlags
unfoldable pub clear_registry_flags : MigrationStatus → Registry → Registry
clear_registry_flags status r =
    let r₁ = if status.source_pod == "" then r else disarm status.source_pod r in
    if status.destination_pod == ""
    then r₁
    else if status.destination_pod == status.source_pod
    then r₁
    else disarm status.destination_pod r₁

abbrev is_unset : Phase → Bool
is_unset unset = true
is_unset _ = false

-- Look again after the polling interval.
abbrev pub again : Pass Outcome
again = pure (requeue_after requeue_interval)

module _ (cluster : Cluster) where
  -- recordHistory; `later` is the reading of the clock that RecordTransition may make.
  unfoldable pub record_history : Time → Pass (Unit {0})
  unfolding transition_of
  record_history at = do
    later ← read_clock cluster
    modify (λ s. record s { history = recorded (transition_of s.mig at) later s.history })

  -- setPhase
  unfoldable pub set_phase : Phase → String → Pass Outcome
  unfolding record_history
  set_phase phase message = do
    at ← read_clock cluster
    set_status
        (λ st. record st { phase = phase; message = message; last_transition_time = some at })
    mig ← get_mig
    send cluster (update_status mig)
    record_history at
    pure (if is_terminal mig.status then done else requeue_after requeue_interval)

  -- fail
  unfoldable pub fail : String → Pass Outcome
  fail message = do
    mig ← get_mig
    set_registry (clear_registry_flags mig.status)
    at ← read_clock cluster
    set_status (λ st. record st { completion_time = some at })
    set_phase failed message

  -- The rest, unless the status update failed by more than a conflict.
  unless_failed : Pass Outcome → Result (Unit {0}) → Pass Outcome
  unless_failed rest (ok _) = rest
  unless_failed rest (err conflict) = rest
  unless_failed rest (err e) = raise e

  -- A status update whose conflict is passed over.
  unfoldable pub update_best_effort : Pass Outcome → Pass Outcome
  unfolding unless_failed
  update_best_effort rest = do
    mig ← get_mig
    r ← attempt (send cluster (update_status mig))
    unless_failed rest r

  -- requeueWithMessage
  unfoldable pub requeue_with_message : String → Pass Outcome
  unfolding update_best_effort
  requeue_with_message message = do
    mig ← get_mig
    if mig.status.message == message
        then again
        else do set_status (λ st. record st { message = message }); update_best_effort again

  expired_since : Option Time → Pass Bool
  expired_since none = pure false
  expired_since (some last) = do at ← read_clock cluster; pure (ltb phase_timeout (at - last))

  -- phaseExpired, without its message.
  unfoldable pub phase_expired : Pass Bool
  unfolding expired_since
  phase_expired = do
    mig ← get_mig
    if is_unset mig.status.phase
        then pure false
        else if is_terminal mig.status
        then pure false
        else expired_since mig.status.last_transition_time

-- The message of phaseExpired.
unfoldable pub timeout_text : Phase → String
unfolding phase_text
timeout_text phase = "phase " <> phase_text phase <> " timed out after 10m0s"
