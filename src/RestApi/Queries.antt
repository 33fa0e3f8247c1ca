-- ===== src/RestApi/Queries.antt =====
-- operator/pkg/restapi/handlers_query.go: what the dashboard reads of the registry and of the cluster.
pub mod Faithful
pub mod Usable
mod Tests
use mycedrive_k8s.Base.{
  ℕ, Bool, true, false, not, ◌||◌, ◌&&◌, Option, none, some, List, [], ◌∷◌, String, ℤ, eqb, ◌==◌,
  if◌then◌else◌, map,
}
use mycedrive_k8s.Api.{Time, Phase, unset, phase_text, Migration}
use mycedrive_k8s.Registry.{PodRecord, Registry}
use mycedrive_k8s.Registry.Listing.{list}
use mycedrive_k8s.Controller.Cluster.{Condition}

-- legacyPod
pub record LegacyPod : Type 0 where
  pub pod_name : String
  pub pod_address : String
  pub migrating : Bool

-- apiPod
pub record ApiPod : Type 0 where
  pub name : String
  pub address : String
  pub container_port : ℤ
  pub node : String
  pub workload : String
  pub namespace : String
  pub migrating : Bool
  pub checkpoint_ready : Bool
  pub restored : Bool
  pub process_migration : Bool
  pub volume_migration : Bool
  pub sync_round : ℤ
  pub sync_rounds : ℤ
  pub registered_at : Option Time
  pub last_seen : Option Time

-- apiMigration
pub record ApiMigration : Type 0 where
  pub name : String
  pub namespace : String
  pub workload : String
  pub pod_name : String
  pub source_node : String
  pub target_node : String
  pub phase : String
  pub message : String
  pub source_pod : String
  pub destination_pod : String
  pub process_migration : Bool
  pub volume_migration : Bool
  pub sync_round : ℤ
  pub sync_rounds : ℤ
  pub start_time : Option Time
  pub completion_time : Option Time

-- A node of the cluster, as handleAPINodes looks at it.
pub record NodeInfo : Type 0 where
  pub name : String
  pub unschedulable : Bool
  pub conditions : List Condition

-- Where a pod runs, by its namespace and name; `none` where it cannot be read.
abbrev pub PodNodes : Type 0
PodNodes = String → String → Option String

unfoldable pub legacy_pod : PodRecord → LegacyPod
legacy_pod rec = record {
  pod_name = rec.name;
  pod_address = rec.address;
  migrating = rec.migrating;
}

-- handleLegacyPods
unfoldable pub legacy_pods : Registry → List LegacyPod
unfolding legacy_pod list
legacy_pods r = map legacy_pod (list r)

abbrev pub node_or : String → Option String → String
node_or node none = node
node_or node (some found) = found

-- The node of a record: that of its pod, where the pod can be read.
unfoldable pub node_of : Option PodNodes → String → PodRecord → String
node_of none default rec = rec.node
node_of (some nodes) default rec =
    let namespace = if rec.workload_namespace == "" then default else rec.workload_namespace in
    if namespace == "" then rec.node else node_or rec.node (nodes namespace rec.name)

abbrev pub time_if_set : Time → Option Time
time_if_set time = if eqb time 0 then none else some time

unfoldable pub api_pod : Option PodNodes → String → PodRecord → ApiPod
unfolding node_of
api_pod nodes default rec = record {
  name = rec.name;
  address = rec.address;
  container_port = rec.container_port;
  node = node_of nodes default rec;
  workload = rec.workload_name;
  namespace = rec.workload_namespace;
  migrating = rec.migrating;
  checkpoint_ready = rec.checkpoint_ready;
  restored = rec.restored;
  process_migration = rec.process_migration;
  volume_migration = rec.volume_migration;
  sync_round = rec.sync_round;
  sync_rounds = rec.sync_rounds;
  registered_at = time_if_set rec.registered_at;
  last_seen = time_if_set rec.last_seen;
}

-- handleAPIPods, with the client if there is one, and the default namespace
unfoldable pub api_pods : Option PodNodes → String → Registry → List ApiPod
unfolding api_pod list
api_pods nodes default r = map (api_pod nodes default) (list r)

-- nodeReady
unfoldable pub node_ready : List Condition → Bool
node_ready [] = false
node_ready (c ∷ rest) = if c.type == "Ready" then c.is_true else node_ready rest

-- handleAPINodes, of the nodes that the API server lists: their names, or an error
unfoldable pub nodes_of : List NodeInfo → List String
unfolding node_ready
nodes_of [] = []
nodes_of (node ∷ rest) =
    let names = nodes_of rest in
    if node.unschedulable || not (node_ready node.conditions) then names else node.name ∷ names

unfoldable pub api_nodes : Option (List NodeInfo) → Option (List String)
unfolding nodes_of
api_nodes none = none
api_nodes (some nodes) = some (nodes_of nodes)

unfoldable pub api_migration : Migration → ApiMigration
unfolding phase_text
api_migration mig = record {
  name = mig.name;
  namespace = mig.namespace;
  workload = mig.spec.workload_name;
  pod_name = mig.spec.pod_name;
  source_node = mig.spec.source_node;
  target_node = mig.spec.target_node;
  phase = if phase_text mig.status.phase == "" then "Pending" else phase_text mig.status.phase;
  message = mig.status.message;
  source_pod = mig.status.source_pod;
  destination_pod = mig.status.destination_pod;
  process_migration = mig.status.process_migration;
  volume_migration = mig.status.volume_migration;
  sync_round = mig.status.sync_round;
  sync_rounds = mig.status.sync_rounds;
  start_time = mig.status.start_time;
  completion_time = mig.status.completion_time;
}

-- handleAPIMigrations, of the Migrations that the API server lists, or an error
unfoldable pub api_migrations : Option (List Migration) → Option (List ApiMigration)
unfolding api_migration
api_migrations none = none
api_migrations (some migs) = some (map api_migration migs)
