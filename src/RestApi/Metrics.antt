-- ===== src/RestApi/Metrics.antt =====
-- operator/pkg/restapi/handlers_history.go: the history for the dashboard, and its switch. The server has
-- no store where the metrics module is not wired.
pub mod Pause
mod Tests
use mycedrive_k8s.Base.{ℕ, Bool, true, false, Option, none, some, List, if◌then◌else◌}
use mycedrive_k8s.History.Types.{Time, Record}
use mycedrive_k8s.History.{Store, set_enabled}
use mycedrive_k8s.History.Report.{Summary, snapshot, summarize}

-- The answer of GET /api/v1/history; `crashed` is a nil pointer in Snapshot.
pub data HistoryAnswer : Type 0 where
  disabled crashed : HistoryAnswer
  report : Summary → List Record → HistoryAnswer

pub data ConfigAnswer : Type 0 where
  not_configured invalid_body enabled_required : ConfigAnswer
  is_enabled : Bool → ConfigAnswer

abbrev reported_as : Option (List Record) → HistoryAnswer
reported_as none = crashed
reported_as (some records) = report (summarize records) records

-- handleHistory, at the clock readings of Snapshot
unfoldable pub handle_history : Time → Time → Option Store → HistoryAnswer
handle_history now later none = disabled
handle_history now later (some s) =
    if s.enabled then reported_as (snapshot now later s) else disabled

-- handleHistoryConfigGet
unfoldable pub handle_history_config_get : Option Store → ConfigAnswer
handle_history_config_get none = not_configured
handle_history_config_get (some s) = is_enabled s.enabled

-- handleHistoryConfigSet: of a body that does not decode, or its field `enabled`, which may be missing.
unfoldable pub handle_history_config_set :
    Option (Option Bool) → Option Store → ConfigAnswer × Option Store
handle_history_config_set body none = (not_configured, none)
handle_history_config_set none (some s) = (invalid_body, some s)
handle_history_config_set (some none) (some s) = (enabled_required, some s)
handle_history_config_set (some (some b)) (some s) = (is_enabled b, some (set_enabled b s))
