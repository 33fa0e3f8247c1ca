-- ===== src/Controller/Migration/Audit.antt =====
-- A whole pass keeps to what it may ask.
use mycedrive_k8s.Base.{◌≡◌, refl, String, false, Option, none, some, ltℤ, to_int32, ◌==◌, inr}
use mycedrive_k8s.Api.{
  Phase, unset, pending, syncing, checkpointing, transferring, restoring, completed, failed, other,
  Migration, MigratableWorkload, is_terminal_phase, is_stateful_set,
}
use mycedrive_k8s.Registry.{PodRecord}
use mycedrive_k8s.Controller.Cluster.{Cluster, Result, ok, err, conflict, not_found, Pod}
use mycedrive_k8s.Controller.Monad.{Pass}
use mycedrive_k8s.Controller.Workload.{is_pod_ready}
use mycedrive_k8s.Controller.Workload.Audit.{scale_deployment-Held}
use mycedrive_k8s.Controller.Ends.{
  Ends, pure-Ends, raise-Ends, gets-Ends, attempt-Ends, if-Ends, weaken, bind-Ends, bind_keep,
  gets_knowing,
}
use mycedrive_k8s.Controller.Audit.{
  transfer, restore, finish, stop_synced, reschedule_synced, Held, Moved, Held→Moved, call-Held,
  registry-Held, status-Held,
}
use mycedrive_k8s.Controller.Phases.{Outcome}
use mycedrive_k8s.Controller.Phases.Audit.{
  set_phase-Moved, fail-Moved, again-Moved, update_best_effort-Moved, phase_expired-Held,
}
use mycedrive_k8s.Controller.Pending.Audit.{
  initialize-Moved, reconcile_pending-Moved, delete_source-Moved,
}
use mycedrive_k8s.Controller.Migration.{
  record_of, advance_if_synced, sync_status, same_round, reconcile_syncing, is_ready,
  reconcile_checkpointing, destination_up, reconcile_transferring, complete, scale_down,
  if_pod_ready, is_restored, reconcile_restoring, dispatch, settle_conflict, advance_phase,
  with_workload,
}

module _ (cluster : Cluster) (mig : Migration)
    (live : is_terminal_phase mig.status.phase ≡ false) where
  record_of-Held : (pod : String) → Ends (Held mig) (Held mig) (record_of cluster pod)
  unfolding record_of
  record_of-Held pod = gets-Ends _

  advance_if_synced-Moved :
      mig.status.phase ≡ syncing
      → (rec : PodRecord) → Ends (Held mig) (Moved mig) (advance_if_synced cluster rec)
  unfolding advance_if_synced
  advance_if_synced-Moved at rec =
      if-Ends (ltℤ rec.sync_round rec.sync_rounds) _ _ (again-Moved cluster mig) (
        delete_source-Moved cluster mig live (inr at) (rw at stop_synced) (rw at reschedule_synced))

  sync_status-Moved :
      mig.status.phase ≡ syncing
      → (m : Migration) (o : Option PodRecord)
      → Ends (Held mig) (Moved mig) (sync_status cluster m o)
  unfolding sync_status
  sync_status-Moved at m none = again-Moved cluster mig
  sync_status-Moved at m (some rec) =
      if-Ends (same_round (to_int32 rec.sync_round) m.status.sync_round) _ _
        (advance_if_synced-Moved at rec)
        (bind-Ends _ _ (Held→Moved mig) (status-Held mig _ (λ st. (refl, refl)))
          λ _. update_best_effort-Moved cluster mig _ (advance_if_synced-Moved at rec))

  reconcile_syncing-Moved :
      mig.status.phase ≡ syncing → Ends (Held mig) (Moved mig) (reconcile_syncing cluster)
  unfolding reconcile_syncing
  reconcile_syncing-Moved at =
      gets_knowing _ _ (λ m. Unit) (λ s h. tt)
        λ m _. bind-Ends _ _ (Held→Moved mig) (gets-Ends _) (λ rec. sync_status-Moved at m rec)

  reconcile_checkpointing-Moved :
      mig.status.phase ≡ checkpointing
      → Ends (Held mig) (Moved mig) (reconcile_checkpointing cluster)
  unfolding reconcile_checkpointing
  reconcile_checkpointing-Moved at =
      gets_knowing _ _ (λ m. Unit) (λ s h. tt)
        λ m _. bind-Ends _ _ (Held→Moved mig) (gets-Ends _) λ rec.
          if-Ends (is_ready rec) _ _ (set_phase-Moved cluster mig transferring _ (rw at transfer))
            (again-Moved cluster mig)

  destination_up-Held :
      (m : Migration) (mw : MigratableWorkload)
      → Ends (Held mig) (Held mig) (destination_up cluster m mw)
  unfolding destination_up
  destination_up-Held m mw =
      if-Ends (is_stateful_set mw.spec.workload_ref.kind) _ _
        (bind-Ends _ _ (λ s h. h) (gets-Ends _) (λ rec. pure-Ends _))
        (bind-Ends _ _ (λ s h. h) (gets-Ends _) (λ rec. pure-Ends _))

  reconcile_transferring-Moved :
      mig.status.phase ≡ transferring
      → (mw : MigratableWorkload) → Ends (Held mig) (Moved mig) (reconcile_transferring cluster mw)
  unfolding reconcile_transferring
  reconcile_transferring-Moved at mw =
      gets_knowing _ _ (λ m. Unit) (λ s h. tt)
        λ m _. bind-Ends _ _ (Held→Moved mig) (destination_up-Held m mw) λ up.
          if-Ends up _ _
            (bind-Ends _ _ (Held→Moved mig) (registry-Held mig _)
              λ _. set_phase-Moved cluster mig restoring _ (rw at restore))
            (again-Moved cluster mig)

  module _ (at : mig.status.phase ≡ restoring) where
    complete-Moved : Ends (Held mig) (Moved mig) (complete cluster)
    unfolding complete
    complete-Moved =
        gets_knowing _ _ (λ m. Unit) (λ s h. tt)
          λ m _. bind-Ends _ _ (Held→Moved mig) (registry-Held mig _) λ _.
            bind-Ends _ _ (Held→Moved mig) (call-Held mig _ _ tt) λ t.
              bind-Ends _ _ (Held→Moved mig) (status-Held mig _ (λ st. (refl, refl)))
                λ _. set_phase-Moved cluster mig completed _ (rw at finish)

    scale_down-Moved :
        (mw : MigratableWorkload) → Ends (Held mig) (Moved mig) (scale_down cluster mw)
    unfolding scale_down
    scale_down-Moved mw =
        gets_knowing _ _ (λ m. Unit) (λ s h. tt)
          λ m _.
            if-Ends m.status.scaled_up _ _
              (bind-Ends _ _ (Held→Moved mig) (scale_deployment-Held cluster mig _ _ _ (inr at))
                λ _.
                  bind-Ends _ _ (Held→Moved mig) (status-Held mig _ (λ st. (refl, refl)))
                    λ _. complete-Moved)
              complete-Moved

    if_pod_ready-Moved :
        (m : Migration) (rest : Pass Outcome) (r : Result Pod)
        → Ends (Held mig) (Moved mig) rest
        → Ends (Held mig) (Moved mig) (if_pod_ready cluster m rest r)
    unfolding if_pod_ready
    if_pod_ready-Moved m rest (ok pod) h =
        if-Ends (pod.node_name == m.spec.target_node) _ _
          (if-Ends (is_pod_ready pod) _ _ h (again-Moved cluster mig)) (again-Moved cluster mig)
    if_pod_ready-Moved m rest (err not_found) h = again-Moved cluster mig
    if_pod_ready-Moved m rest (err e) h = weaken _ (Held→Moved mig) (raise-Ends e)

    reconcile_restoring-Moved :
        (mw : MigratableWorkload) → Ends (Held mig) (Moved mig) (reconcile_restoring cluster mw)
    unfolding reconcile_restoring
    reconcile_restoring-Moved mw =
        gets_knowing _ _ (λ m. Unit) (λ s h. tt)
          λ m _. bind-Ends _ _ (Held→Moved mig) (gets-Ends _) λ rec.
            if-Ends (is_restored rec) _ _ (scale_down-Moved mw) (
              bind-Ends _ _ (Held→Moved mig) (attempt-Ends _ (call-Held mig _ _ tt))
                λ pod. if_pod_ready-Moved m _ pod (scale_down-Moved mw))

  dispatch-Moved :
      (p : Phase) (mw : MigratableWorkload)
      → mig.status.phase ≡ p
      → Ends (Held mig) (Moved mig) (dispatch cluster p mw)
  unfolding dispatch
  dispatch-Moved unset mw at = initialize-Moved cluster mig live at
  dispatch-Moved pending mw at = reconcile_pending-Moved cluster mig at live mw
  dispatch-Moved syncing mw at = reconcile_syncing-Moved at
  dispatch-Moved checkpointing mw at = reconcile_checkpointing-Moved at
  dispatch-Moved transferring mw at = reconcile_transferring-Moved at mw
  dispatch-Moved restoring mw at = reconcile_restoring-Moved at mw
  dispatch-Moved completed mw at = weaken _ (Held→Moved mig) (pure-Ends _)
  dispatch-Moved failed mw at = weaken _ (Held→Moved mig) (pure-Ends _)
  dispatch-Moved (other text) mw at = weaken _ (Held→Moved mig) (pure-Ends _)

  settle_conflict-Moved :
      (r : Result Outcome) → Ends (Moved mig) (Moved mig) (settle_conflict cluster r)
  unfolding settle_conflict
  settle_conflict-Moved (ok outcome) = pure-Ends _
  settle_conflict-Moved (err conflict) = pure-Ends _
  settle_conflict-Moved (err e) = raise-Ends e

  advance_phase-Moved :
      (mw : MigratableWorkload) → Ends (Held mig) (Moved mig) (advance_phase cluster mig mw)
  unfolding advance_phase
  advance_phase-Moved mw =
      bind-Ends _ _ (Held→Moved mig) (phase_expired-Held cluster mig) λ expired.
        if-Ends expired _ _ (fail-Moved cluster mig _ live) (
          bind_keep _ _ (attempt-Ends _ (dispatch-Moved mig.status.phase mw refl))
            settle_conflict-Moved)

  pub with_workload-Moved :
      (r : Result MigratableWorkload) → Ends (Held mig) (Moved mig) (with_workload cluster mig r)
  unfolding with_workload
  with_workload-Moved (ok mw) = advance_phase-Moved mw
  with_workload-Moved (err not_found) = fail-Moved cluster mig _ live
  with_workload-Moved (err e) = weaken _ (Held→Moved mig) (raise-Ends e)
