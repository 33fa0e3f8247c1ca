-- ===== src/RestApi/Metrics/Tests.antt =====
-- The history's switch on a concrete store, and the theorem at it.
use mycedrive_k8s.Base.{true, false, some, [], ◌∷◌, ◌≡◌, refl}
use mycedrive_k8s.History.Types.{Time, Transition}
use mycedrive_k8s.History.{Store}
use mycedrive_k8s.RestApi.Metrics.{disabled, is_enabled, handle_history, handle_history_config_get}
use mycedrive_k8s.RestApi.Metrics.Pause.{report_all, switched, history-pause}

abbrev failed_move : Transition
failed_move = record {
  namespace = "apps";
  name = "web-m1";
  workload = "web";
  source_pod = "web-0";
  destination_pod = "web-0";
  source_node = "node-a";
  target_node = "node-b";
  process_migration = true;
  volume_migration = true;
  phase = "Failed";
  message = "";
  time = 7;
}

abbrev store : Store
store = record { enabled = true; limit = 5; order = []; records = [] }

history-pause_example :
    ((now later : Time)
      → handle_history now later
          (report_all ((failed_move, (8, 9)) ∷ []) (switched false (some store)))
        ≡ disabled)
    × ((handle_history_config_get
            (report_all ((failed_move, (8, 9)) ∷ []) (switched false (some store)))
          ≡ is_enabled false)
        × (switched true (report_all ((failed_move, (8, 9)) ∷ []) (switched false (some store)))
            ≡ some store))
history-pause_example = history-pause ((failed_move, (8, 9)) ∷ []) store refl
