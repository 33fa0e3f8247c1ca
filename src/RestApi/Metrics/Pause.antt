-- ===== src/RestApi/Metrics/Pause.antt =====
-- operator/pkg/restapi/handlers_history.go: the history while it is switched off.
use mycedrive_k8s.Base.{
  Bool, true, false, Option, none, some, List, [], ◌∷◌, ◌≡◌, refl, sym, ◌∙◌, ap,
}
use mycedrive_k8s.History.Types.{Time, Transition}
use mycedrive_k8s.History.{Store, set_enabled, record_transition}
use mycedrive_k8s.RestApi.Metrics.{
  disabled, is_enabled, handle_history, handle_history_config_get, handle_history_config_set,
}

-- Transitions that the reconciler reports, each with its two clock readings.
unfoldable pub report_all : List (Transition × (Time × Time)) → Option Store → Option Store
report_all changes none = none
report_all [] (some s) = some s
report_all ((tr, (now, later)) ∷ rest) (some s) =
    report_all rest (some (record_transition tr now later s))

-- The server after POST /api/v1/history/config.
abbrev pub switched : Bool → Option Store → Option Store
switched b server = (handle_history_config_set (some (some b)) server).1

off_ignores :
    (changes : List (Transition × (Time × Time))) (s : Store)
    → s.enabled ≡ false
    → report_all changes (some s) ≡ some s
unfolding report_all
off_ignores [] s off = refl
off_ignores ((tr, (now, later)) ∷ rest) s off =
    let ignored : record_transition tr now later s ≡ s = unfold record_transition in rw off refl in
    ap (λ s'. report_all rest (some s')) ignored ∙ off_ignores rest s off

-- From a history that is on: after the switch is set to off, whatever the reconciler reports, the dashboard
-- gets no history and the switch reads as off; and after it is set to on again, the server is as it was
-- before, so that nothing recorded is lost and nothing reported in between is recorded.
pub history-pause :
    (changes : List (Transition × (Time × Time))) (s : Store)
    → s.enabled ≡ true
    → ((now later : Time)
        → handle_history now later (report_all changes (switched false (some s))) ≡ disabled)
      × ((handle_history_config_get (report_all changes (switched false (some s)))
            ≡ is_enabled false)
          × (switched true (report_all changes (switched false (some s))) ≡ some s))
unfolding handle_history handle_history_config_get handle_history_config_set set_enabled
history-pause changes s on =
    let off : report_all changes (some (set_enabled false s)) ≡ some (set_enabled false s) =
      off_ignores changes (set_enabled false s) refl in
    (
      (λ now later. ap (handle_history now later) off),
      (
        ap handle_history_config_get off,
        ap (switched true) off ∙ ap (λ b. some (record s { enabled = b })) (sym on),
      ),
    )
