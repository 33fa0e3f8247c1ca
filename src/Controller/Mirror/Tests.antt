-- ===== src/Controller/Mirror/Tests.antt =====
-- The mirror on a concrete registry, and the theorems at it.
use mycedrive_k8s.Base.{true, false, none, some, List, [], ◌∷◌, ◌≡◌, refl, pos, lookup}
use mycedrive_k8s.Api.{stateful_set}
use mycedrive_k8s.Registry.{PodRecord, new, zero_record, register, arm}
use mycedrive_k8s.Registry.Ops.{Op, registers, arms, run}
use mycedrive_k8s.RestApi.{removal, write_json, status_ok}
use mycedrive_k8s.RestApi.Agents.{handle_remove}
use mycedrive_k8s.Controller.Cluster.{ok}
use mycedrive_k8s.Controller.Mirror.{WorkloadObject, Server, is_mirrored, again, reconcile_workload}
use mycedrive_k8s.Controller.Mirror.Restart.{
  restarted, as_read, survivor, restart-lookup, restart-remove,
}

abbrev web : WorkloadObject
web = record {
  resource = record {
    name = "web-mw";
    namespace = "apps";
    spec = record {
      workload_ref = record { kind = stateful_set; name = "web" };
      placement_label = none;
      checkpoint_dir = "";
      process_migration = none;
      volume_migration = none;
      pre_sync_rounds = none;
    };
  };
  deleted = false;
  generation = pos 1;
  status = record { phase = ""; message = ""; registered_pods = []; observed_generation = pos 0 };
}

abbrev server : Server
server = record {
  object = ok web;
  workload = λ kind namespace name. ok tt;
  update = λ object. ok tt;
  error_text = λ e. "failed";
}

-- The source registers, the migration is armed, and the destination registers.
abbrev story : List Op
story =
    registers "web-0" "10.0.0.1" (pos 2486) 5
    ∷ arms "web-0"
        (record {
          checkpoint_dir = "/c";
          process_migration = true;
          volume_migration = true;
          sync_rounds = pos 0;
        })
        6
    ∷ registers "web-0" "10.0.0.2" (pos 2486) 7
    ∷ []

abbrev armed : PodRecord
armed = record zero_record {
  name = "web-0";
  address = "10.0.0.2";
  last_address = "10.0.0.1";
  container_port = pos 2486;
  migrating = true;
  checkpoint_dir = "/c";
  dest_registered = true;
  process_migration = true;
  volume_migration = true;
  dest_address = "10.0.0.2:2486";
  registrations = 2;
  registered_at = 5;
  last_seen = 7;
}

known : lookup "web-0" (run story new) ≡ some armed
unfolding run mycedrive_k8s.Registry.Ops.apply register arm lookup mycedrive_k8s.Base.insert
    mycedrive_k8s.Registry.Address.join_host_port
known = refl

finishes : (reconcile_workload server (run story new)).0.0 ≡ again
unfolding run mycedrive_k8s.Registry.Ops.apply register arm lookup mycedrive_k8s.Base.insert
    mycedrive_k8s.Registry.Address.join_host_port reconcile_workload
    mycedrive_k8s.Controller.Mirror.mirrored_status
finishes = refl

restart-lookup_example :
    lookup "web-0" (restarted 9 (λ t. t) server web [] (run story new))
    ≡ some (
        survivor 9
          (as_read (λ t. t) (reconcile_workload server (run story new)).0.1)
          web.resource
          armed)
restart-lookup_example =
    restart-lookup story "web-0" armed server web [] 9 (λ t. t) known
      (unfold is_mirrored mycedrive_k8s.Base.code_points in refl) refl refl finishes

restart-remove_example :
    (handle_remove (some "web-0") (restarted 9 (λ t. t) server web [] (run story new))).0
    ≡ write_json status_ok (
        removal (record {
          needs_checkpoint = true;
          process_migration = false;
          volume_migration = false;
          dest_address = "";
        }))
restart-remove_example =
    restart-remove story "web-0" armed server web [] 9 (λ t. t) known
      (unfold is_mirrored mycedrive_k8s.Base.code_points in refl) refl refl refl finishes
