-- ===== src/Controller/Migration.antt =====
-- MigrationReconciler of operator/internal/controller/migration_controller.go: the later phases, and
-- one pass over one Migration. The registry is called at the moments of the pass, with no agent's call
-- in between.
pub mod Audit
pub mod Orderly
use Prim.Native.String.{◌++◌ as ◌<>◌}
use mycedrive_k8s.Base.{
  Bool, true, false, Option, none, some, String, ltℤ, ℤ, pos, negsuc, leℤ, to_int32, ◌==◌, quoted,
  if◌then◌else◌,
}
use mycedrive_k8s.Api.{
  Phase, unset, pending, syncing, checkpointing, transferring, restoring, completed, failed, other,
  Migration, MigratableWorkload, is_stateful_set, is_terminal,
}
use mycedrive_k8s.Registry.{PodRecord, get, set_node}
use mycedrive_k8s.Controller.Cluster.{
  ApiError, conflict, not_found, Result, ok, err, Pod, update_migration, Cluster,
}
use mycedrive_k8s.Controller.Monad.{
  State, Pass, ◌>>=◌, ◌>>◌, pure, raise, attempt, gets, set_mig, set_status, set_registry, get_mig,
  read_clock, fetch_migration, fetch_workload, fetch_pod, send,
}
use mycedrive_k8s.Controller.Workload.{is_pod_ready, scale_deployment}
use mycedrive_k8s.Controller.Phases.{
  Outcome, done, requeue, requeue_after, second, set_phase, fail, again, update_best_effort,
  clear_registry_flags, phase_expired, timeout_text,
}
use mycedrive_k8s.Controller.Pending.{initialize, reconcile_pending, delete_source_and_advance}

abbrev is_none : Option PodRecord → Bool
is_none none = true
is_none (some rec) = false

abbrev is_ready : Option PodRecord → Bool
is_ready none = false
is_ready (some rec) = rec.checkpoint_ready

abbrev is_dest_registered : Option PodRecord → Bool
is_dest_registered none = false
is_dest_registered (some rec) = rec.dest_registered

abbrev is_restored : Option PodRecord → Bool
is_restored none = false
is_restored (some rec) = rec.restored

-- Two int32 values are equal.
abbrev same_round : ℤ → ℤ → Bool
same_round a b = if leℤ a b then leℤ b a else false

module _ (cluster : Cluster) where
  record_of : String → Pass (Option PodRecord)
  record_of pod = gets (λ s. get pod s.registry)

  -- reconcileSyncing
  advance_if_synced : PodRecord → Pass Outcome
  advance_if_synced rec =
      if ltℤ rec.sync_round rec.sync_rounds then again else delete_source_and_advance cluster

  sync_status : Migration → Option PodRecord → Pass Outcome
  unfolding advance_if_synced
  sync_status mig none = again
  sync_status mig (some rec) =
      if same_round (to_int32 rec.sync_round) mig.status.sync_round
      then advance_if_synced rec
      else do
        set_status (λ st. record st { sync_round = to_int32 rec.sync_round })
        update_best_effort cluster (advance_if_synced rec)

  unfoldable pub reconcile_syncing : Pass Outcome
  unfolding record_of sync_status
  reconcile_syncing = do mig ← get_mig; rec ← record_of mig.status.source_pod; sync_status mig rec

  -- reconcileCheckpointing
  unfoldable pub reconcile_checkpointing : Pass Outcome
  unfolding record_of
  reconcile_checkpointing = do
    mig ← get_mig
    rec ← record_of mig.status.source_pod
    if is_ready rec
        then set_phase cluster transferring
            "checkpoint written; transferring checkpoint and overlay layers to destination"
        else again

  -- Whether the destination's agent is up.
  destination_up : Migration → MigratableWorkload → Pass Bool
  unfolding record_of
  destination_up mig mw =
      if is_stateful_set mw.spec.workload_ref.kind
      then (do rec ← record_of mig.status.source_pod; pure (is_dest_registered rec))
      else (do
        rec ← record_of mig.status.destination_pod
        pure (if is_none rec then false else true))

  -- reconcileTransferring
  unfoldable pub reconcile_transferring : MigratableWorkload → Pass Outcome
  unfolding destination_up
  reconcile_transferring mw = do
    mig ← get_mig
    up ← destination_up mig mw
    if up
        then (do
          set_registry (set_node mig.status.destination_pod mig.spec.target_node)
          set_phase cluster restoring
              "destination Execution Agent registered; restoring from checkpoint")
        else again

  -- reconcileRestoring: the end of the migration,
  complete : Pass Outcome
  complete = do
    mig ← get_mig
    set_registry (clear_registry_flags mig.status)
    at ← read_clock cluster
    set_status (λ st. record st { completion_time = some at })
    set_phase cluster completed
        ("pod " <> mig.status.destination_pod <> " restored on node " <> mig.spec.target_node)

  -- with the compensating scale-down of a Deployment,
  scale_down : MigratableWorkload → Pass Outcome
  unfolding complete
  scale_down mw = do
    mig ← get_mig
    if mig.status.scaled_up
        then (do
          scale_deployment cluster mw.namespace mw.spec.workload_ref.name (negsuc 0)
          set_status (λ st. record st { scaled_up = false })
          complete)
        else complete

  -- once the destination's agent says so, or its pod is ready on the target node.
  if_pod_ready : Migration → Pass Outcome → Result Pod → Pass Outcome
  if_pod_ready mig rest (ok pod) =
      if pod.node_name == mig.spec.target_node
      then (if is_pod_ready pod then rest else again)
      else again
  if_pod_ready mig rest (err not_found) = again
  if_pod_ready mig rest (err e) = raise e

  unfoldable pub reconcile_restoring : MigratableWorkload → Pass Outcome
  unfolding record_of scale_down if_pod_ready
  reconcile_restoring mw = do
    mig ← get_mig
    rec ← record_of mig.status.destination_pod
    if is_restored rec then scale_down mw else do
      pod ← attempt (fetch_pod cluster mig.namespace mig.status.destination_pod)
      if_pod_ready mig (scale_down mw) pod

  -- The object is changed and updated.
  put_back : Migration → Outcome → Pass Outcome
  put_back mig outcome = do
    set_mig mig
    updated ← get_mig
    send cluster (update_migration updated)
    pure outcome

  -- finalize
  unfoldable pub finalize : Pass Outcome
  unfolding put_back
  finalize = do
    mig ← get_mig
    if mig.finalizer
        then (do
          set_registry
              (λ r. if is_terminal mig.status then r else clear_registry_flags mig.status r)
          put_back (record mig { finalizer = false }) done)
        else pure done

  -- The switch on the phase.
  unfoldable pub dispatch : Phase → MigratableWorkload → Pass Outcome
  dispatch unset mw = initialize cluster
  dispatch pending mw = reconcile_pending cluster mw
  dispatch syncing mw = reconcile_syncing
  dispatch checkpointing mw = reconcile_checkpointing
  dispatch transferring mw = reconcile_transferring mw
  dispatch restoring mw = reconcile_restoring mw
  dispatch _ mw = pure done

  -- A conflict ends the pass with another try.
  settle_conflict : Result Outcome → Pass Outcome
  settle_conflict (ok outcome) = pure outcome
  settle_conflict (err conflict) = pure (requeue_after second)
  settle_conflict (err e) = raise e

  -- `mig` is the Migration as it was fetched: nothing has changed it since.
  advance_phase : Migration → MigratableWorkload → Pass Outcome
  unfolding settle_conflict
  advance_phase mig mw = do
    expired ← phase_expired cluster
    if expired
        then fail cluster (timeout_text mig.status.phase)
        else do r ← attempt (dispatch mig.status.phase mw); settle_conflict r

  pub with_workload : Migration → Result MigratableWorkload → Pass Outcome
  unfolding advance_phase
  with_workload mig (ok mw) = advance_phase mig mw
  with_workload mig (err not_found) = fail cluster (
      "MigratableWorkload "
      <> quoted mig.spec.workload_name
      <> " not found in namespace "
      <> quoted mig.namespace)
  with_workload mig (err e) = raise e

  -- The pass over a Migration, just fetched, that is not deleted and not at its end.
  drive : Migration → Pass Outcome
  unfolding with_workload put_back
  drive mig =
      if mig.finalizer
      then (do
        mw ← attempt (fetch_workload cluster mig.namespace mig.spec.workload_name)
        with_workload mig mw)
      else put_back (record mig { finalizer = true }) requeue

  after_fetch : Result Migration → Pass Outcome
  unfolding drive
  after_fetch (ok mig) = do
    set_mig mig
    if mig.deleted then finalize else if is_terminal mig.status then pure done else drive mig
  after_fetch (err not_found) = pure done
  after_fetch (err e) = raise e

  -- Reconcile
  unfoldable pub reconcile : String → String → Pass Outcome
  unfolding after_fetch
  reconcile namespace name = do
    mig ← attempt (fetch_migration cluster namespace name)
    after_fetch mig
