-- ===== src/RestApi/Migrate/Tests.antt =====
-- POST /migrate on a concrete API server, and the theorem at it.
use mycedrive_k8s.Base.{true, false, some, [], ◌≡◌, refl}
use mycedrive_k8s.Api.{MigrationSpec}
use mycedrive_k8s.Controller.Cluster.{ok, err, not_found}
use mycedrive_k8s.RestApi.Migrate.{MigrateRequest, Kube, started, handle_migrate, split_label}

-- A request in the legacy shape.
abbrev legacy : MigrateRequest
legacy = record {
  deployment = "web";
  label = "mig-ready:yes:no";
  origin_node = "node-a";
  dest_node = "node-b";
  workload = "";
  pod_name = "";
  source_node = "";
  target_node = "";
  namespace = "";
}

abbrev kube : Kube
kube = record {
  workload = λ calls namespace name. err not_found;
  stateful_set = λ calls namespace name. true;
  deployment = λ calls namespace name. false;
  create = λ calls call. ok tt;
}

abbrev moved : MigrationSpec
moved = record {
  workload_name = "web";
  pod_name = "";
  source_node = "node-a";
  target_node = "node-b";
}

label_in_two : split_label "mig-ready:yes:no" ≡ some ("mig-ready", "yes:no")
unfolding split_label
label_in_two = refl

starts : (handle_migrate kube "apps" (some legacy) []).0 ≡ started moved "apps"
unfolding handle_migrate
starts = refl
