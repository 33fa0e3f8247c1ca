-- ===== src/Controller/Phases/Audit.antt =====
-- The shared steps of the phases keep to what a pass may ask.
use mycedrive_k8s.Base.{some, none, Option, ◌≡◌, refl, false, String}
use mycedrive_k8s.Api.{Time, Phase, failed, Migration, is_terminal_phase, is_terminal}
use mycedrive_k8s.Controller.Cluster.{update_status, Cluster, Result, ok, err, conflict}
use mycedrive_k8s.Controller.Monad.{Pass, send}
use mycedrive_k8s.Controller.Ends.{
  Ends, pure-Ends, raise-Ends, attempt-Ends, if-Ends, weaken, bind-Ends, bind_keep, gets_knowing,
}
use mycedrive_k8s.Controller.Audit.{
  stay_at, ◌⟶◌, give_up, IsHeld, IsMoved, Held, Moved, Held→Moved, call-Held, call-Moved,
  registry-Held, status-Held, phase-Moved, modify-Moved,
}
use mycedrive_k8s.Controller.Phases.{
  Outcome, again, record_history, set_phase, fail, unless_failed, update_best_effort,
  requeue_with_message, expired_since, phase_expired, is_unset,
}

module _ (cluster : Cluster) (mig : Migration) where
  record_history-Moved : (at : Time) → Ends (Moved mig) (Moved mig) (record_history cluster at)
  unfolding record_history
  record_history-Moved at =
      bind-Ends _ _ (λ s h. h) (call-Moved mig _ _ tt)
        (λ later. modify-Moved mig _ (λ s. (refl, refl)))

  pub set_phase-Moved :
      (q : Phase) (message : String)
      → mig.status.phase ⟶ q
      → Ends (Held mig) (Moved mig) (set_phase cluster q message)
  unfolding set_phase
  set_phase-Moved q message step = bind-Ends _ _ (Held→Moved mig) (call-Held mig _ _ tt) λ at.
      bind_keep _ _ (phase-Moved mig _ q (λ st. refl) step) λ _.
        gets_knowing _ _ (IsMoved mig) (λ s h. h.at_phase)
          λ m k.
            bind-Ends _ _ (λ s h. h)
              (call-Moved mig _ _ (k.moved, k.moved_spec, k.moved_name, k.moved_namespace))
              λ _. bind-Ends _ _ (λ s h. h) (record_history-Moved at) (λ _. pure-Ends _)

  pub fail-Moved :
      (message : String)
      → is_terminal_phase mig.status.phase ≡ false
      → Ends (Held mig) (Moved mig) (fail cluster message)
  unfolding fail
  fail-Moved message live =
      gets_knowing _ _ (λ m. Unit) (λ s h. tt)
        λ m _. bind-Ends _ _ (Held→Moved mig) (registry-Held mig _) λ _.
          bind-Ends _ _ (Held→Moved mig) (call-Held mig _ _ tt) λ at.
            bind-Ends _ _ (Held→Moved mig) (status-Held mig _ (λ st. (refl, refl)))
              λ _. set_phase-Moved failed message (give_up live)

  pub again-Moved : Ends (Held mig) (Moved mig) again
  again-Moved = weaken _ (Held→Moved mig) (pure-Ends _)

  unless_failed-Moved :
      (rest : Pass Outcome) (r : Result (Unit {0}))
      → Ends (Held mig) (Moved mig) rest
      → Ends (Held mig) (Moved mig) (unless_failed cluster rest r)
  unfolding unless_failed
  unless_failed-Moved rest (ok _) h = h
  unless_failed-Moved rest (err conflict) h = h
  unless_failed-Moved rest (err e) h = weaken _ (Held→Moved mig) (raise-Ends e)

  -- A status update that sends the Migration as it is held.
  pub send_status-Held :
      (m : Migration) → IsHeld mig m → Ends (Held mig) (Held mig) (send cluster (update_status m))
  send_status-Held m k =
      call-Held mig _ _ (stay_at k.same_phase, k.held_spec, k.held_name, k.held_namespace)

  pub update_best_effort-Moved :
      (rest : Pass Outcome)
      → Ends (Held mig) (Moved mig) rest
      → Ends (Held mig) (Moved mig) (update_best_effort cluster rest)
  unfolding update_best_effort
  update_best_effort-Moved rest h =
      gets_knowing _ _ (IsHeld mig) (λ s h. h.held)
        λ m k.
          bind-Ends _ _ (Held→Moved mig) (attempt-Ends _ (send_status-Held m k))
            λ r. unless_failed-Moved rest r h

  pub requeue_with_message-Moved :
      (message : String) → Ends (Held mig) (Moved mig) (requeue_with_message cluster message)
  unfolding requeue_with_message
  requeue_with_message-Moved message =
      gets_knowing _ _ (λ m. Unit) (λ s h. tt)
        λ m _. if-Ends _ _ _ again-Moved (
          bind-Ends _ _ (Held→Moved mig) (status-Held mig _ (λ st. (refl, refl)))
            λ _. update_best_effort-Moved again again-Moved)

  expired_since-Held : (t : Option Time) → Ends (Held mig) (Held mig) (expired_since cluster t)
  unfolding expired_since
  expired_since-Held none = pure-Ends _
  expired_since-Held (some last) =
      bind-Ends _ _ (λ s h. h) (call-Held mig _ _ tt) (λ at. pure-Ends _)

  pub phase_expired-Held : Ends (Held mig) (Held mig) (phase_expired cluster)
  unfolding phase_expired
  phase_expired-Held =
      gets_knowing _ _ (λ m. Unit) (λ s h. tt)
        λ m _. if-Ends (is_unset m.status.phase) _ _ (pure-Ends _) (
          if-Ends (is_terminal m.status) _ _ (pure-Ends _)
            (expired_since-Held m.status.last_transition_time))
