-- ===== src/RestApi/Queries/Faithful.antt =====
-- operator/pkg/restapi/handlers_query.go: the dashboard shows the pods that are there.
use mycedrive_k8s.Base.{
  ◌⊎◌, Bool, true, false, Option, none, some, List, [], ◌∷◌, ◌≡◌, refl, ap, subst, eqb, arith,
  String, lookup, ◌==◌, if◌then◌else◌, map, Bool-cases, text-cases, inl, inr,
}
use mycedrive_k8s.Api.{Time}
use mycedrive_k8s.Registry.{PodRecord, new}
use mycedrive_k8s.Registry.Ops.{Op, run}
use mycedrive_k8s.Registry.Listing.{list, first_named, first_named-list, run-IsKeyed}
use mycedrive_k8s.RestApi.Queries.{
  LegacyPod, ApiPod, PodNodes, legacy_pod, legacy_pods, api_pod, api_pods, node_of, node_or,
  time_if_set,
}

-- The first item that the dashboard shows under a name.
abbrev pub shown {ℓ} : {A : Type ℓ} → (A → String) → String → List A → Option A
shown key name [] = none
shown key name (item ∷ rest) = if key item == name then some item else shown key name rest

-- Something is shown exactly if there is a record, and it fits the record.
abbrev pub Fits {ℓ} : {A : Type ℓ} → (PodRecord → A → Type 0) → Option PodRecord → Option A → Type 0
Fits R none none = Unit
Fits R (some rec) (some item) = R rec item
Fits R _ _ = ⊥

pub record FitsLegacy (rec : PodRecord) (pod : LegacyPod) : Type 0 where
  pub pod_name : pod.pod_name ≡ rec.name
  pub pod_address : pod.pod_address ≡ rec.address
  pub migrating : pod.migrating ≡ rec.migrating

-- A time that is not set, Go's zero time, is left out.
abbrev pub IsTimeOf : Time → Option Time → Type 0
IsTimeOf time none = time ≡ 0
IsTimeOf time (some t) = (t ≡ time) × (eqb time 0 ≡ false)

-- The namespace in which the pod of a record is looked for: its workload's, or the server's default one.
abbrev pub IsPlace : String → PodRecord → String → Type 0
IsPlace default rec namespace =
    (((rec.workload_namespace == "") ≡ false) × (namespace ≡ rec.workload_namespace))
    ⊎ ((rec.workload_namespace ≡ "") × (namespace ≡ default))

-- The node is the one that the cluster says, of a pod that can be read in a namespace that is known; and
-- the record's own one without a client, without a namespace and for other pods.
abbrev pub IsNodeOf : Option PodNodes → String → PodRecord → String → Type 0
IsNodeOf none default rec node = node ≡ rec.node
IsNodeOf (some nodes) default rec node =
    (namespace : String) × (IsPlace default rec namespace
      × (((namespace ≡ "") × (node ≡ rec.node))
          ⊎ (((namespace == "") ≡ false)
              × ((nodes namespace rec.name ≡ some node)
                  ⊎ ((nodes namespace rec.name ≡ none) × (node ≡ rec.node))))))

pub record FitsApi (nodes : Option PodNodes) (default : String) (rec : PodRecord) (pod : ApiPod)
    : Type 0 where
  pub name : pod.name ≡ rec.name
  pub address : pod.address ≡ rec.address
  pub container_port : pod.container_port ≡ rec.container_port
  pub node : IsNodeOf nodes default rec pod.node
  pub workload : pod.workload ≡ rec.workload_name
  pub namespace : pod.namespace ≡ rec.workload_namespace
  pub migrating : pod.migrating ≡ rec.migrating
  pub checkpoint_ready : pod.checkpoint_ready ≡ rec.checkpoint_ready
  pub restored : pod.restored ≡ rec.restored
  pub process_migration : pod.process_migration ≡ rec.process_migration
  pub volume_migration : pod.volume_migration ≡ rec.volume_migration
  pub sync_round : pod.sync_round ≡ rec.sync_round
  pub sync_rounds : pod.sync_rounds ≡ rec.sync_rounds
  pub registered_at : IsTimeOf rec.registered_at pod.registered_at
  pub last_seen : IsTimeOf rec.last_seen pod.last_seen

set_or_not :
    (time : Time) (unset : Bool)
    → eqb time 0 ≡ unset
    → IsTimeOf time (if unset then none else some time)
set_or_not time true zero = ground (arith, zero)
set_or_not time false later = (refl, later)

time_if_set-IsTimeOf : (time : Time) → IsTimeOf time (time_if_set time)
time_if_set-IsTimeOf time = set_or_not time (eqb time 0) refl

node_or-cases :
    (node : String) (found : Option String)
    → (found ≡ some (node_or node found)) ⊎ ((found ≡ none) × (node_or node found ≡ node))
node_or-cases node none = inr (refl, refl)
node_or-cases node (some there) = inl refl

node_of-IsNodeOf :
    (nodes : Option PodNodes) (default : String) (rec : PodRecord)
    → IsNodeOf nodes default rec (node_of nodes default rec)
unfolding node_of
node_of-IsNodeOf none default rec = refl
node_of-IsNodeOf (some nodes) default rec = (place, (is_place, known (text-cases place "")))
  where
    place : String
    place = if rec.workload_namespace == "" then default else rec.workload_namespace

    is_place : IsPlace default rec place
    is_place = elim (text-cases rec.workload_namespace "") [
      | inl empty ↦ inr (empty, rw empty refl)
      | inr given ↦ inl (given, rw given refl)
    ]

    known :
        (place ≡ "") ⊎ ((place == "") ≡ false)
        → ((place ≡ "") × (node_of (some nodes) default rec ≡ rec.node))
          ⊎ (((place == "") ≡ false)
              × ((nodes place rec.name ≡ some (node_of (some nodes) default rec))
                  ⊎ ((nodes place rec.name ≡ none)
                      × (node_of (some nodes) default rec ≡ rec.node))))
    known (inl empty) =
        inl
          (empty, ap (λ p. if p == "" then rec.node else node_or rec.node (nodes p rec.name)) empty)
    known (inr given) = inr (given, rw given (node_or-cases rec.node (nodes place rec.name)))

legacy_pod-FitsLegacy : (rec : PodRecord) → FitsLegacy rec (legacy_pod rec)
unfolding legacy_pod
legacy_pod-FitsLegacy rec = record { pod_name = refl; pod_address = refl; migrating = refl }

api_pod-FitsApi :
    (nodes : Option PodNodes) (default : String) (rec : PodRecord)
    → FitsApi nodes default rec (api_pod nodes default rec)
unfolding api_pod
api_pod-FitsApi nodes default rec = record {
  name = refl;
  address = refl;
  container_port = refl;
  node = node_of-IsNodeOf nodes default rec;
  workload = refl;
  namespace = refl;
  migrating = refl;
  checkpoint_ready = refl;
  restored = refl;
  process_migration = refl;
  volume_migration = refl;
  sync_round = refl;
  sync_rounds = refl;
  registered_at = time_if_set-IsTimeOf rec.registered_at;
  last_seen = time_if_set-IsTimeOf rec.last_seen;
}

shown-Fits {ℓ} :
    {A : Type ℓ} (key : A → String) (f : PodRecord → A) (R : PodRecord → A → Type 0) (name : String)
    (recs : List PodRecord)
    → ((rec : PodRecord) → key (f rec) ≡ rec.name)
    → ((rec : PodRecord) → R rec (f rec))
    → Fits R (first_named name recs) (shown key name (map f recs))
unfolding first_named
shown-Fits key f R name [] same fits = tt
shown-Fits key f R name (rec ∷ rest) same fits = elim (Bool-cases (rec.name == name)) [
  | inl here ↦ rw (same rec, here) (fits rec)
  | inr other ↦ rw (same rec, other) (shown-Fits key f R name rest same fits)
]

-- After any calls on the registry, GET /pods and GET /api/v1/pods show a pod exactly if the registry knows
-- it, and they show its name, its address and whether it migrates as the registry has them; the second
-- also its port, workload, namespace, flags, toggles and rounds, its times where they are set, and the node
-- that the cluster says, or the registry's own where the cluster cannot say.
pub pods-shown :
    (ops : List Op) (nodes : Option PodNodes) (default name : String)
    → Fits FitsLegacy
        (lookup name (run ops new))
        (shown (λ p. p.pod_name) name (legacy_pods (run ops new)))
      × Fits
          (FitsApi nodes default)
          (lookup name (run ops new))
          (shown (λ p. p.name) name (api_pods nodes default (run ops new)))
unfolding legacy_pods api_pods legacy_pod api_pod
pods-shown ops nodes default name =
    let known = first_named-list name (run ops new) (run-IsKeyed ops new tt) in
    (
      subst (λ o. Fits FitsLegacy o (shown (λ p. p.pod_name) name (legacy_pods (run ops new))))
          known
          (shown-Fits (λ p. p.pod_name) legacy_pod FitsLegacy name (list (run ops new))
            (λ rec. refl) legacy_pod-FitsLegacy),
      subst
          (λ o.
            Fits (FitsApi nodes default) o
              (shown (λ p. p.name) name (api_pods nodes default (run ops new))))
          known
          (shown-Fits (λ p. p.name) (api_pod nodes default) (FitsApi nodes default) name
            (list (run ops new)) (λ rec. refl) (api_pod-FitsApi nodes default)),
    )
