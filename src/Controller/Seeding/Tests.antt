-- ===== src/Controller/Seeding/Tests.antt =====
-- The history of a new operator on concrete Migrations, and the theorem at them.
use mycedrive_k8s.Base.{true, false, none, some, [], ◌∷◌, ◌≡◌, refl, pos, lookup, arith}
use mycedrive_k8s.Api.{unset, Migration}
use mycedrive_k8s.History.{new_store}
use mycedrive_k8s.Controller.Seeding.{
  history_record, seed_history, IsTold, first_of, seed_history-lookup,
}

abbrev fresh : Migration
fresh = record {
  name = "web-m1";
  namespace = "apps";
  deleted = false;
  finalizer = false;
  creation_time = 3;
  spec = record {
    workload_name = "web";
    pod_name = "";
    source_node = "node-a";
    target_node = "node-b";
  };
  status = record {
    phase = unset;
    message = "";
    source_pod = "";
    destination_pod = "";
    checkpoint_dir = "";
    process_migration = true;
    volume_migration = true;
    sync_rounds = pos 0;
    sync_round = pos 0;
    scaled_up = false;
    start_time = none;
    completion_time = none;
    last_transition_time = none;
  };
}

seed_history-lookup_example :
    IsTold
      (first_of "apps/web-m1" (fresh ∷ []))
      (lookup "apps/web-m1" (seed_history (some (fresh ∷ [])) (new_store true 200)).records)
seed_history-lookup_example =
    seed_history-lookup (fresh ∷ []) true 200 "apps/web-m1" (omega arith) (omega arith)

pending : (history_record fresh).phase ≡ "Pending"
unfolding history_record
pending = refl
