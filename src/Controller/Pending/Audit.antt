-- ===== src/Controller/Pending/Audit.antt =====
-- The first phases keep to what a pass may ask.
use mycedrive_k8s.Base.{ap, ◌≡◌, inl, inr, refl, String, false, Option, none, some, pos, ltℤ, ◌==◌}
use mycedrive_k8s.Api.{
  MigrationSpec, unset, pending, syncing, checkpointing, restoring, Migration, MigratableWorkload,
  is_deployment, is_terminal_phase,
}
use mycedrive_k8s.Controller.Cluster.{Cluster, Result, ok, err, not_found, Pod, Node}
use mycedrive_k8s.Controller.Monad.{Pass, ◌>>=◌}
use mycedrive_k8s.Controller.Ends.{
  Ends, pure-Ends, raise-Ends, attempt-Ends, if-Ends, weaken, bind-Ends, bind_keep, gets_knowing,
}
use mycedrive_k8s.Controller.Audit.{
  ◌⟶◌, admit, pre_copy, stop_pending, reschedule_pending, Deletes, IsHeld, IsMoved, Held, Moved,
  Held→Moved, call-Held, call-Moved, registry-Held, status-Held, status-Moved,
}
use mycedrive_k8s.Controller.Workload.Audit.{
  list_workload_pods-Held, set_node_label-Held, remove_node_label-Held, scale_deployment-Held,
}
use mycedrive_k8s.Controller.Phases.{Outcome}
use mycedrive_k8s.Controller.Phases.Audit.{
  set_phase-Moved, fail-Moved, again-Moved, requeue_with_message-Moved, send_status-Held,
}
use mycedrive_k8s.Controller.Pending.{
  save_status, with_node, check_node, initialize, enter_downtime, unless_gone, delete_found,
  delete_source_and_advance, adopt_source, choose_named, choose_newest, resolve_source,
  sync_or_delete, adopt_destination, find_destination, prepare_deployment, steer_and_arm,
  reconcile_pending,
}

module _ (cluster : Cluster) (mig : Migration)
    (live : is_terminal_phase mig.status.phase ≡ false) where
  with_node-Moved :
      (name : String) (rest : Pass Outcome) (r : Result Node)
      → Ends (Held mig) (Moved mig) rest
      → Ends (Held mig) (Moved mig) (with_node cluster name rest r)
  unfolding with_node
  with_node-Moved name rest (ok _) h = h
  with_node-Moved name rest (err not_found) h = fail-Moved cluster mig _ live
  with_node-Moved name rest (err e) h = weaken _ (Held→Moved mig) (raise-Ends e)

  check_node-Moved :
      (name : String) (rest : Pass Outcome)
      → Ends (Held mig) (Moved mig) rest
      → Ends (Held mig) (Moved mig) (check_node cluster name rest)
  unfolding check_node
  check_node-Moved name rest h =
      bind-Ends _ _ (Held→Moved mig) (attempt-Ends _ (call-Held mig _ _ tt))
        λ r. with_node-Moved name rest r h

  pub initialize-Moved : mig.status.phase ≡ unset → Ends (Held mig) (Moved mig) (initialize cluster)
  unfolding initialize
  initialize-Moved at =
      gets_knowing _ _ (λ m. Unit) (λ s h. tt)
        λ m _. check_node-Moved _ _ (
          check_node-Moved _ _ (
            gets_knowing _ _ (λ m. Unit) (λ s h. tt)
              λ m' _.
                if-Ends (m'.spec.source_node == m'.spec.target_node) _ _
                  (fail-Moved cluster mig _ live)
                  (bind-Ends _ _ (Held→Moved mig) (call-Held mig _ _ tt) λ t.
                    bind-Ends _ _ (Held→Moved mig) (status-Held mig _ (λ st. (refl, refl)))
                      λ _. set_phase-Moved cluster mig pending _ (rw at admit))))

  module _ (may : Deletes mig.status.phase) (stop : mig.status.phase ⟶ checkpointing)
      (plain : mig.status.phase ⟶ restoring) where
    enter_downtime-Moved : Ends (Held mig) (Moved mig) (enter_downtime cluster)
    unfolding enter_downtime
    enter_downtime-Moved =
        gets_knowing _ _ (λ m. Unit) (λ s h. tt)
          λ m _.
            if-Ends m.status.process_migration _ _
              (set_phase-Moved cluster mig checkpointing _ stop)
              (if-Ends m.status.volume_migration _ _
                (set_phase-Moved cluster mig checkpointing _ stop)
                (set_phase-Moved cluster mig restoring _ plain))

    unless_gone-Moved :
        (rest : Pass Outcome) (r : Result (Unit {0}))
        → Ends (Held mig) (Moved mig) rest
        → Ends (Held mig) (Moved mig) (unless_gone cluster rest r)
    unfolding unless_gone
    unless_gone-Moved rest (ok _) h = h
    unless_gone-Moved rest (err not_found) h = h
    unless_gone-Moved rest (err e) h = weaken _ (Held→Moved mig) (raise-Ends e)

    delete_found-Moved :
        (m : Migration) (rest : Pass Outcome) (r : Result Pod)
        → IsHeld mig m
        → Ends (Held mig) (Moved mig) rest
        → Ends (Held mig) (Moved mig) (delete_found cluster m rest r)
    unfolding delete_found
    delete_found-Moved m rest (ok pod) k h = if-Ends pod.deleted _ _ h (
        bind-Ends _ _ (Held→Moved mig)
          (attempt-Ends _ (call-Held mig _ _ (may, k.held_namespace, k.same_source)))
          λ r. unless_gone-Moved rest r h)
    delete_found-Moved m rest (err not_found) k h = h
    delete_found-Moved m rest (err e) k h = weaken _ (Held→Moved mig) (raise-Ends e)

    pub delete_source-Moved : Ends (Held mig) (Moved mig) (delete_source_and_advance cluster)
    unfolding delete_source_and_advance
    delete_source-Moved =
        gets_knowing _ _ (IsHeld mig) (λ s h. h.held)
          λ m k.
            bind-Ends _ _ (Held→Moved mig) (attempt-Ends _ (call-Held mig _ _ tt))
              λ r. delete_found-Moved m _ r k enter_downtime-Moved

module _ (cluster : Cluster) (mig : Migration) (at : mig.status.phase ≡ pending)
    (live : is_terminal_phase mig.status.phase ≡ false) where
  -- A status update after a change that keeps the phase.
  saved-Moved :
      (rest : Pass Outcome)
      → Ends (Moved mig) (Moved mig) rest
      → Ends (Moved mig) (Moved mig) (save_status cluster >>= λ _. rest)
  unfolding save_status
  saved-Moved rest h =
      bind-Ends _ _ (λ s h. h)
        (gets_knowing _ _ (IsMoved mig) (λ s h. h.at_phase)
          λ m k. call-Moved mig _ _ (k.moved, k.moved_spec, k.moved_name, k.moved_namespace))
        λ _. h

  adopt_source-Moved :
      (mw : MigratableWorkload) (source : Pod)
      → Ends (Held mig) (Moved mig) (adopt_source cluster mw source)
  unfolding adopt_source
  adopt_source-Moved mw source =
      bind_keep _ _ (status-Moved mig _ (λ st. refl)) (λ _. saved-Moved _ (pure-Ends _))

  choose_named-Moved :
      (m : Migration) (mw : MigratableWorkload) (o : Option Pod)
      → Ends (Held mig) (Moved mig) (choose_named cluster m mw o)
  unfolding choose_named
  choose_named-Moved m mw none = fail-Moved cluster mig _ live
  choose_named-Moved m mw (some source) =
      if-Ends (source.node_name == m.spec.source_node) _ _ (adopt_source-Moved mw source)
        (fail-Moved cluster mig _ live)

  choose_newest-Moved :
      (m : Migration) (mw : MigratableWorkload) (o : Option Pod)
      → Ends (Held mig) (Moved mig) (choose_newest cluster m mw o)
  unfolding choose_newest
  choose_newest-Moved m mw none = requeue_with_message-Moved cluster mig _
  choose_newest-Moved m mw (some source) = adopt_source-Moved mw source

  resolve_source-Moved :
      (mw : MigratableWorkload) → Ends (Held mig) (Moved mig) (resolve_source cluster mw)
  unfolding resolve_source
  resolve_source-Moved mw =
      gets_knowing _ _ (λ m. Unit) (λ s h. tt)
        λ m _. bind-Ends _ _ (Held→Moved mig) (list_workload_pods-Held cluster mig mw) λ pods.
          if-Ends (m.spec.pod_name == "") _ _ (choose_newest-Moved m mw _)
            (choose_named-Moved m mw _)

  sync_or_delete-Moved : Ends (Held mig) (Moved mig) (sync_or_delete cluster)
  unfolding sync_or_delete
  sync_or_delete-Moved =
      gets_knowing _ _ (λ m. Unit) (λ s h. tt)
        λ m _.
          if-Ends (ltℤ (pos 0) m.status.sync_rounds) _ _
            (set_phase-Moved cluster mig syncing _ (rw at pre_copy))
            (delete_source-Moved cluster mig live (inl at) (rw at stop_pending)
              (rw at reschedule_pending))

  -- As `saved-Moved`, where the phase and the source pod are still held.
  saved-Held :
      (rest : Pass Outcome)
      → Ends (Held mig) (Moved mig) rest
      → Ends (Held mig) (Moved mig) (save_status cluster >>= λ _. rest)
  unfolding save_status
  saved-Held rest h =
      bind-Ends _ _ (Held→Moved mig)
        (gets_knowing _ _ (IsHeld mig) (λ s h. h.held) (λ m k. send_status-Held cluster mig m k))
        λ _. h

  adopt_destination-Moved :
      (m : Migration) (o : Option Pod) → Ends (Held mig) (Moved mig) (adopt_destination cluster m o)
  unfolding adopt_destination
  adopt_destination-Moved m none = requeue_with_message-Moved cluster mig _
  adopt_destination-Moved m (some dest) =
      bind-Ends _ _ (Held→Moved mig) (status-Held mig _ (λ st. (refl, refl)))
        λ _. saved-Held _ sync_or_delete-Moved

  find_destination-Moved :
      (mw : MigratableWorkload) → Ends (Held mig) (Moved mig) (find_destination cluster mw)
  unfolding find_destination
  find_destination-Moved mw =
      gets_knowing _ _ (λ m. Unit) (λ s h. tt)
        λ m _.
          if-Ends (m.status.destination_pod == "") _ _
            (bind-Ends _ _ (Held→Moved mig) (list_workload_pods-Held cluster mig mw)
              λ pods. adopt_destination-Moved m _)
            sync_or_delete-Moved

  prepare_deployment-Moved :
      (mw : MigratableWorkload) → Ends (Held mig) (Moved mig) (prepare_deployment cluster mw)
  unfolding prepare_deployment
  prepare_deployment-Moved mw =
      gets_knowing _ _ (λ m. Unit) (λ s h. tt)
        λ m _. if-Ends m.status.scaled_up _ _ (find_destination-Moved mw) (
          bind-Ends _ _ (Held→Moved mig) (scale_deployment-Held cluster mig _ _ _ (inl at)) λ _.
            bind-Ends _ _ (Held→Moved mig) (status-Held mig _ (λ st. (refl, refl)))
              λ _. saved-Held _ (again-Moved cluster mig))

  steer_and_arm-Held :
      (mw : MigratableWorkload) → Ends (Held mig) (Held mig) (steer_and_arm cluster mw)
  unfolding steer_and_arm
  steer_and_arm-Held mw =
      gets_knowing _ _ (IsHeld mig) (λ s h. h.held)
        λ m k.
          bind-Ends _ _ (λ s h. h)
            (set_node_label-Held cluster mig _ _ _ at
              (inr (ap (λ (sp : MigrationSpec). sp.target_node) k.held_spec)))
            λ _.
              bind-Ends _ _ (λ s h. h)
                (remove_node_label-Held cluster mig _ _ at
                  (inl (ap (λ (sp : MigrationSpec). sp.source_node) k.held_spec)))
                λ _. bind-Ends _ _ (λ s h. h) (call-Held mig _ _ tt) (λ t. registry-Held mig _)

  pub reconcile_pending-Moved :
      (mw : MigratableWorkload) → Ends (Held mig) (Moved mig) (reconcile_pending cluster mw)
  unfolding reconcile_pending
  reconcile_pending-Moved mw =
      gets_knowing _ _ (λ m. Unit) (λ s h. tt)
        λ m _. if-Ends (m.status.source_pod == "") _ _ (resolve_source-Moved mw) (
          bind-Ends _ _ (Held→Moved mig) (steer_and_arm-Held mw) λ _.
            if-Ends (is_deployment mw.spec.workload_ref.kind) _ _ (prepare_deployment-Moved mw)
              sync_or_delete-Moved)
