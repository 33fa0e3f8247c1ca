-- ===== src/Controller/Tests.antt =====
-- The reconciler against a concrete cluster.
use mycedrive_k8s.Base.{◌≡◌, refl, true, false, none, some, [], ◌∷◌, All, pos, lookup}
use mycedrive_k8s.Api.{
  pending, checkpointing, Migration, MigrationStatus, MigratableWorkload, stateful_set, is_terminal,
  effective_placement_label,
}
use mycedrive_k8s.Controller.Cluster.{Cluster, ok, err, not_found, Pod}
use mycedrive_k8s.Controller.Monad.{
  State, ◌>>=◌, pure, attempt, gets, call, modify, set_mig, set_status, set_registry,
}
use mycedrive_k8s.Controller.Audit.{IsInOrder}
use mycedrive_k8s.Controller.Migration.{reconcile, dispatch}
use mycedrive_k8s.Controller.Pending.{reconcile_pending, delete_source_and_advance}
use mycedrive_k8s.Controller.Phases.{phase_expired, set_phase}
use mycedrive_k8s.Controller.Workload.{set_node_label, remove_node_label, label_value}
use mycedrive_k8s.Controller.Migration.Orderly.{reconcile_orderly}

abbrev status : MigrationStatus
status = record {
  phase = pending;
  message = "";
  source_pod = "web-0";
  destination_pod = "web-0";
  checkpoint_dir = "/dmtcp/checkpoints";
  process_migration = true;
  volume_migration = true;
  sync_rounds = pos 0;
  sync_round = pos 0;
  scaled_up = false;
  start_time = some 5;
  completion_time = none;
  last_transition_time = some 5;
}

abbrev moving : Migration
moving = record {
  name = "web-m1";
  namespace = "apps";
  deleted = false;
  finalizer = true;
  creation_time = 1;
  spec = record {
    workload_name = "web";
    pod_name = "";
    source_node = "node-a";
    target_node = "node-b";
  };
  status = status;
}

abbrev web : MigratableWorkload
web = record {
  name = "web";
  namespace = "apps";
  spec = record {
    workload_ref = record { kind = stateful_set; name = "web" };
    placement_label = none;
    checkpoint_dir = "";
    process_migration = none;
    volume_migration = none;
    pre_sync_rounds = none;
  };
}

abbrev source_pod : Pod
source_pod = record {
  name = "web-0";
  node_name = "node-a";
  deleted = false;
  creation_time = 2;
  conditions = [];
}

-- Everything is there, and every write succeeds.
abbrev calm : Cluster
calm = record {
  clock = λ calls. 7;
  migration = λ calls namespace name. ok moving;
  workload = λ calls namespace name. ok web;
  node = λ calls name. ok (record { name = name; labels = [] });
  parse_selector = ok;
  pods = λ calls namespace selector. ok (source_pod ∷ []);
  pod = λ calls namespace name. ok source_pod;
  stateful_set = λ calls namespace name. ok (record { selector = some "app=web" });
  deployment = λ calls namespace name. err not_found;
  write = λ calls c. ok tt;
}

abbrev idle : State
idle = record { calls = []; registry = []; history = none; mig = moving }

-- The pass deletes the source pod and goes to Checkpointing.
advances : (reconcile calm "apps" "web-m1" idle).1.mig.status.phase ≡ checkpointing
unfolding reconcile dispatch reconcile_pending phase_expired set_node_label remove_node_label
    label_value delete_source_and_advance set_phase is_terminal effective_placement_label lookup
    ◌>>=◌ attempt call pure gets modify set_status set_mig set_registry
advances = refl

reconcile_orderly_example : All (IsInOrder moving) (reconcile calm "apps" "web-m1" idle).1.calls
reconcile_orderly_example = reconcile_orderly calm "apps" "web-m1" idle moving refl refl
