-- ===== src/Controller/Pending.antt =====
-- The first phases of operator/internal/controller/migration_controller.go: initialize,
-- reconcilePending and deleteSourceAndAdvance.
pub mod Audit
use Prim.Native.String.{◌++◌ as ◌<>◌}
use mycedrive_k8s.Base.{
  ℕ, Bool, true, false, not, ◌&&◌, Option, none, some, List, [], ◌∷◌, String, ltℤ, ℤ, pos, negsuc,
  leℤ, to_int32, itoa, ◌==◌, quoted, if◌then◌else◌,
}
use mycedrive_k8s.Api.{
  Phase, unset, pending, syncing, checkpointing, transferring, restoring, completed, failed, other,
  Migration, MigrationStatus, MigratableWorkload, is_stateful_set, is_deployment, is_terminal,
  effective_placement_label, effective_checkpoint_dir, process_migration_enabled,
  volume_migration_enabled, effective_pre_sync_rounds,
}
use mycedrive_k8s.Registry.{PodRecord, get, arm, set_node}
use mycedrive_k8s.Controller.Cluster.{
  ApiError, conflict, not_found, Result, ok, err, Pod, Node, update_migration, update_status,
  delete_pod, Cluster,
}
use mycedrive_k8s.Controller.Monad.{
  State, Pass, ◌>>=◌, ◌>>◌, pure, raise, attempt, gets, set_mig, set_status, set_registry, get_mig,
  read_clock, fetch_migration, fetch_workload, fetch_node, fetch_pod, send,
}
use mycedrive_k8s.Controller.Workload.{
  find_pod_on_node, find_pod_named, is_pod_ready, list_workload_pods, set_node_label,
  remove_node_label, scale_deployment,
}
use mycedrive_k8s.Controller.Phases.{
  Outcome, done, requeue, requeue_after, second, set_phase, fail, again, update_best_effort,
  requeue_with_message, clear_registry_flags, phase_expired, timeout_text,
}

module _ (cluster : Cluster) where
  -- A status update that must succeed.
  unfoldable pub save_status : Pass (Unit {0})
  save_status = do mig ← get_mig; send cluster (update_status mig)

  -- initialize: the nodes exist,
  with_node : String → Pass Outcome → Result Node → Pass Outcome
  with_node name rest (ok _) = rest
  with_node name rest (err not_found) = fail cluster ("node " <> quoted name <> " not found")
  with_node name rest (err e) = raise e

  check_node : String → Pass Outcome → Pass Outcome
  unfolding with_node
  check_node name rest = do found ← attempt (fetch_node cluster name); with_node name rest found

  -- and differ.
  start_if_distinct : Pass Outcome
  start_if_distinct = do
    mig ← get_mig
    if mig.spec.source_node == mig.spec.target_node
        then fail cluster "sourceNode and targetNode must differ"
        else do
          at ← read_clock cluster
          set_status (λ st. record st { start_time = some at })
          set_phase cluster pending "preparing destination placement"

  unfoldable pub initialize : Pass Outcome
  unfolding check_node start_if_distinct
  initialize = do
    mig ← get_mig
    check_node mig.spec.source_node (check_node mig.spec.target_node start_if_distinct)

  -- deleteSourceAndAdvance: the phase after the downtime began,
  enter_downtime : Pass Outcome
  enter_downtime = do
    mig ← get_mig
    if mig.status.process_migration
        then set_phase cluster checkpointing
            "waiting for source Execution Agent to produce its final checkpoint"
        else if mig.status.volume_migration
        then set_phase cluster checkpointing
            "waiting for source Execution Agent to produce its final checkpoint"
        else set_phase cluster restoring
            "no state mechanisms enabled; waiting for destination pod readiness"

  unless_gone : Pass Outcome → Result (Unit {0}) → Pass Outcome
  unless_gone rest (ok _) = rest
  unless_gone rest (err not_found) = rest
  unless_gone rest (err e) = raise e

  -- with the source pod deleted, if it is there and not on its way out.
  delete_found : Migration → Pass Outcome → Result Pod → Pass Outcome
  unfolding unless_gone
  delete_found mig rest (ok pod) = if pod.deleted then rest else do
    r ← attempt (send cluster (delete_pod mig.namespace mig.status.source_pod))
    unless_gone rest r
  delete_found mig rest (err not_found) = rest
  delete_found mig rest (err e) = raise e

  unfoldable pub delete_source_and_advance : Pass Outcome
  unfolding enter_downtime delete_found
  delete_source_and_advance = do
    mig ← get_mig
    r ← attempt (fetch_pod cluster mig.namespace mig.status.source_pod)
    delete_found mig enter_downtime r

  -- reconcilePending, step 1: the source pod is found, and the workload's settings are copied.
  adopt_source : MigratableWorkload → Pod → Pass Outcome
  adopt_source mw source = do
    set_status (λ st. record st {
      source_pod = source.name;
      checkpoint_dir = effective_checkpoint_dir mw;
      process_migration = process_migration_enabled mw;
      volume_migration = volume_migration_enabled mw;
      sync_rounds = effective_pre_sync_rounds mw;
      destination_pod =
          if is_stateful_set mw.spec.workload_ref.kind then source.name else st.destination_pod;
    })
    save_status
    pure requeue

  choose_named : Migration → MigratableWorkload → Option Pod → Pass Outcome
  unfolding adopt_source
  choose_named mig mw none =
      fail cluster
        ("pod " <> quoted mig.spec.pod_name <> " not found for workload " <> quoted mw.name)
  choose_named mig mw (some source) =
      if source.node_name == mig.spec.source_node
      then adopt_source mw source
      else fail cluster (
          "pod "
          <> quoted source.name
          <> " runs on node "
          <> quoted source.node_name
          <> ", not sourceNode "
          <> quoted mig.spec.source_node)

  choose_newest : Migration → MigratableWorkload → Option Pod → Pass Outcome
  unfolding adopt_source
  choose_newest mig mw none = requeue_with_message cluster (
      "waiting for a pod of workload "
      <> quoted mw.name
      <> " on node "
      <> quoted mig.spec.source_node)
  choose_newest mig mw (some source) = adopt_source mw source

  unfoldable pub resolve_source : MigratableWorkload → Pass Outcome
  unfolding choose_named choose_newest
  resolve_source mw = do
    mig ← get_mig
    pods ← list_workload_pods cluster mw
    if mig.spec.pod_name == ""
        then choose_newest mig mw (find_pod_on_node pods mig.spec.source_node "")
        else choose_named mig mw (find_pod_named mig.spec.pod_name pods)

  -- Steps 5 and 6: pre-downtime rounds, or the downtime at once.
  sync_or_delete : Pass Outcome
  sync_or_delete = do
    mig ← get_mig
    if ltℤ (pos 0) mig.status.sync_rounds
        then set_phase cluster syncing (
            "pre-downtime overlay sync: waiting for "
            <> itoa mig.status.sync_rounds
            <> " round(s) from source Execution Agent")
        else delete_source_and_advance

  -- Step 4, for a Deployment that was scaled up: the destination pod.
  adopt_destination : Migration → Option Pod → Pass Outcome
  unfolding sync_or_delete
  adopt_destination mig none =
      requeue_with_message cluster
        ("waiting for destination pod on node " <> quoted mig.spec.target_node)
  adopt_destination mig (some dest) = do
    set_status (λ st. record st { destination_pod = dest.name })
    save_status
    sync_or_delete

  find_destination : MigratableWorkload → Pass Outcome
  unfolding adopt_destination
  find_destination mw = do
    mig ← get_mig
    if mig.status.destination_pod == ""
        then (do
          pods ← list_workload_pods cluster mw
          adopt_destination mig (find_pod_on_node pods mig.spec.target_node mig.status.source_pod))
        else sync_or_delete

  -- Step 4, for a Deployment.
  prepare_deployment : MigratableWorkload → Pass Outcome
  unfolding find_destination
  prepare_deployment mw = do
    mig ← get_mig
    if mig.status.scaled_up then find_destination mw else do
      scale_deployment cluster mw.namespace mw.spec.workload_ref.name (pos 1)
      set_status (λ st. record st { scaled_up = true })
      save_status
      again

  -- Steps 2 and 3: the placement labels and the registry.
  steer_and_arm : MigratableWorkload → Pass (Unit {0})
  steer_and_arm mw = do
    mig ← get_mig
    let label = effective_placement_label mw
    set_node_label cluster mig.spec.target_node label.key label.value
    remove_node_label cluster mig.spec.source_node label.key
    at ← read_clock cluster
    set_registry (λ r. set_node mig.status.source_pod mig.spec.source_node (
        arm mig.status.source_pod
          (record {
            checkpoint_dir = mig.status.checkpoint_dir;
            process_migration = mig.status.process_migration;
            volume_migration = mig.status.volume_migration;
            sync_rounds = mig.status.sync_rounds;
          })
          at r))

  unfoldable pub reconcile_pending : MigratableWorkload → Pass Outcome
  unfolding resolve_source steer_and_arm prepare_deployment sync_or_delete
  reconcile_pending mw = do
    mig ← get_mig
    if mig.status.source_pod == "" then resolve_source mw else do
      steer_and_arm mw
      if is_deployment mw.spec.workload_ref.kind then prepare_deployment mw else sync_or_delete
