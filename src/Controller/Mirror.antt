-- ===== src/Controller/Mirror.antt =====
-- operator/internal/controller/migratableworkload_controller.go: the mirror of the registry in the
-- status of the MigratableWorkloads, and the registry that a new operator makes of it. Each call of
-- the API server happens once in a pass, so its answer is a value.
mod Pass
pub mod Restart
mod Tests
use mycedrive_k8s.Base.{
  ℕ, suc, Bool, true, false, not, ◌&&◌, ◌||◌, Option, none, some, List, [], ◌∷◌, ◌++◌, String, ℤ,
  pos, eqb, to_int32, ◌==◌, if◌then◌else◌, code_points, quoted, joined,
}
use mycedrive_k8s.Api.{Time, Kind, stateful_set, deployment, other_kind, MigratableWorkload}
use mycedrive_k8s.Registry.{PodRecord, zero_record, Registry, seed, set_workload}
use mycedrive_k8s.Registry.Listing.{list}
use mycedrive_k8s.Controller.Cluster.{
  ApiError, not_found, conflict, already_exists, failure, Result, ok, err,
}

pub record RegisteredPod : Type 0 where
  pub name : String
  pub address : String
  pub container_port : ℤ
  pub node : String
  pub migrating : Bool
  pub checkpoint_ready : Bool
  pub checkpoint_dir : String
  pub restored : Bool
  pub registered_at : Option Time

-- MigratableWorkloadStatus
pub record WorkloadStatus : Type 0 where
  pub phase : String
  pub message : String
  pub registered_pods : List RegisteredPod
  pub observed_generation : ℤ

-- A MigratableWorkload with what the API server keeps of it; `deleted` is a deletion timestamp.
pub record WorkloadObject : Type 0 where
  pub resource : MigratableWorkload
  pub deleted : Bool
  pub generation : ℤ
  pub status : WorkloadStatus

abbrev is_prefix : List ℕ → List ℕ → Bool
is_prefix [] text = true
is_prefix (c ∷ cs) [] = false
is_prefix (c ∷ cs) (d ∷ ds) = eqb c d && is_prefix cs ds

-- podBelongsToWorkload
unfoldable pub pod_belongs_to_workload : String → String → Bool
pod_belongs_to_workload pod workload =
    is_prefix (code_points workload ++ b'-' ∷ []) (code_points pod)

-- Whether the loop takes the record for its workload.
unfoldable pub is_mirrored : MigratableWorkload → PodRecord → Bool
unfolding pod_belongs_to_workload
is_mirrored mw rec =
    pod_belongs_to_workload rec.name mw.spec.workload_ref.name
    && ((rec.workload_namespace == "") || (rec.workload_namespace == mw.namespace))

unfoldable pub registered_pod : PodRecord → RegisteredPod
registered_pod rec = record {
  name = rec.name;
  address = rec.address;
  container_port = to_int32 rec.container_port;
  node = rec.node;
  migrating = rec.migrating;
  checkpoint_ready = rec.checkpoint_ready;
  checkpoint_dir = rec.checkpoint_dir;
  restored = rec.restored;
  registered_at = some rec.registered_at;
}

-- The loop over the snapshot: the mirrored pods, and the registry with their workload set.
unfoldable pub mirror :
    MigratableWorkload → List PodRecord → Registry → List RegisteredPod × Registry
unfolding is_mirrored registered_pod
mirror mw [] r = ([], r)
mirror mw (rec ∷ rest) r =
    let (pods, r') =
      mirror mw rest
        (if is_mirrored mw rec then set_workload rec.name mw.namespace mw.name r else r) in
    (if is_mirrored mw rec then registered_pod rec ∷ pods else pods, r')

abbrev pub same_bool : Bool → Bool → Bool
same_bool true b = b
same_bool false b = not b

-- The 64-bit and 32-bit numbers of a status.
abbrev pub same_number : ℤ → ℤ → Bool
same_number (pos a) (pos b) = eqb a b
same_number (ℤ.negsuc a) (ℤ.negsuc b) = eqb a b
same_number _ _ = false

abbrev pub same_time : Option Time → Option Time → Bool
same_time none none = true
same_time (some a) (some b) = eqb a b
same_time _ _ = false

abbrev pub same_pod : RegisteredPod → RegisteredPod → Bool
same_pod p q =
    (p.name == q.name)
    && (p.address == q.address)
    && same_number p.container_port q.container_port
    && (p.node == q.node)
    && same_bool p.migrating q.migrating
    && same_bool p.checkpoint_ready q.checkpoint_ready
    && (p.checkpoint_dir == q.checkpoint_dir)
    && same_bool p.restored q.restored
    && same_time p.registered_at q.registered_at

abbrev pub same_pods : List RegisteredPod → List RegisteredPod → Bool
same_pods [] [] = true
same_pods (p ∷ ps) (q ∷ qs) = same_pod p q && same_pods ps qs
same_pods _ _ = false

-- equality.Semantic.DeepEqual on statuses, where no list and an empty one are the same
abbrev pub same_status : WorkloadStatus → WorkloadStatus → Bool
same_status s t =
    (s.phase == t.phase)
    && (s.message == t.message)
    && same_pods s.registered_pods t.registered_pods
    && same_number s.observed_generation t.observed_generation

-- What the API server answers in one pass, and the text of an error.
pub record Server : Type 0 where
  pub object : Result WorkloadObject
  pub workload : Kind → String → String → Result (Unit {0})
  pub update : WorkloadObject → Result (Unit {0})
  pub error_text : ApiError → String

abbrev pub kind_text : Kind → String
kind_text stateful_set = "StatefulSet"
kind_text deployment = "Deployment"
kind_text (other_kind text) = text

-- The phase and the message for an answer of workloadExists.
abbrev phase_by : Server → MigratableWorkload → Result (Unit {0}) → String × String
phase_by server mw (ok there) = ("Ready", "")
phase_by server mw (err not_found) = (
  "Pending",
  joined
      (kind_text mw.spec.workload_ref.kind ∷ " " ∷ mw.spec.workload_ref.name ∷ " not found" ∷ []),
)
phase_by server mw (err e) = ("Pending", server.error_text e)

-- workloadExists, with the phase and the message that the reconciler makes of it
unfoldable pub workload_phase : Server → MigratableWorkload → String × String
workload_phase server mw = elim mw.spec.workload_ref.kind [
  | stateful_set ↦
      phase_by server mw (server.workload stateful_set mw.namespace mw.spec.workload_ref.name)
  | deployment ↦
      phase_by server mw (server.workload deployment mw.namespace mw.spec.workload_ref.name)
  | other_kind text ↦ ("Pending", joined ("unsupported workload kind " ∷ quoted text ∷ []))
]

-- What a pass comes to: it ends with nothing more to do, it ends with an error, or it comes again after
-- the mirror's interval.
pub data Outcome : Type 0 where
  finished failed again : Outcome

-- The status that a pass makes, and the registry after it.
unfoldable pub mirrored_status : Server → WorkloadObject → Registry → WorkloadStatus × Registry
unfolding mirror list workload_phase
mirrored_status server object r =
    let (pods, r') = mirror object.resource (list r) r in
    let (phase, message) = workload_phase server object.resource in
    (
      record {
        phase = phase;
        message = message;
        registered_pods = pods;
        observed_generation = object.generation;
      },
      r',
    )

abbrev pub written : Server → WorkloadObject → Outcome × Option WorkloadStatus
written server object = elim (server.update object) [
  | ok done ↦ (again, some object.status)
  | err e ↦ (failed, none)
]

-- Reconcile: what it comes to, the status that the API server took, and the registry after it.
unfoldable pub reconcile_workload : Server → Registry → (Outcome × Option WorkloadStatus) × Registry
unfolding mirrored_status
reconcile_workload server r = elim server.object [
  | err not_found ↦ ((finished, none), r)
  | err e ↦ ((failed, none), r)
  | ok object ↦
      if object.deleted
      then ((finished, none), r)
      else let (status, r') = mirrored_status server object r in
        (
          if same_status object.status status
              then (again, none)
              else written server (record object { status = status }),
          r',
        )
]

-- The record that SeedRegistry makes of a mirrored pod.
unfoldable pub seeded_record : Time → MigratableWorkload → RegisteredPod → PodRecord
seeded_record now mw p = record zero_record {
  name = p.name;
  address = p.address;
  container_port = p.container_port;
  node = p.node;
  workload_namespace = mw.namespace;
  workload_name = mw.name;
  migrating = p.migrating;
  checkpoint_ready = p.checkpoint_ready;
  checkpoint_dir = p.checkpoint_dir;
  restored = p.restored;
  registrations = 1;
  last_seen = now;
  registered_at = elim p.registered_at [ none ↦ now | some time ↦ time ];
}

abbrev seeded_of : Time → MigratableWorkload → List RegisteredPod → List PodRecord
seeded_of now mw [] = []
seeded_of now mw (p ∷ ps) = seeded_record now mw p ∷ seeded_of now mw ps

unfoldable pub seeded_records : Time → List WorkloadObject → List PodRecord
unfolding seeded_record
seeded_records now [] = []
seeded_records now (object ∷ rest) =
    seeded_of now object.resource object.status.registered_pods ++ seeded_records now rest

-- SeedRegistry, of the workloads that the API server lists, or of none where that fails
unfoldable pub seed_registry : Time → Option (List WorkloadObject) → Registry → Registry
unfolding seeded_records
seed_registry now none r = r
seed_registry now (some objects) r = seed (seeded_records now objects) r
