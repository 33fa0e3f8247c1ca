-- ===== src/RestApi/Migrate/Started.antt =====
-- operator/pkg/restapi/handlers.go: what POST /migrate has done when it answers.
use mycedrive_k8s.Base.{
  ◌==◌, arith, ℕ, suc, false, Option, none, List, [], ◌∷◌, ◌≡◌, ◌⊎◌, String, arith,
}
use mycedrive_k8s.Api.{Kind, MigrationSpec}
use mycedrive_k8s.Controller.Cluster.{ApiError, Result, ok, err}
use mycedrive_k8s.RestApi.Migrate.{
  MigrateRequest, Call, get_workload, create_workload, create_migration, Kube, EnsureError, Answer,
  started, bad_request, not_started, new_workload, created_as,
}

-- How often a Migration was sent to the API server.
abbrev pub migrations : List Call → ℕ
migrations [] = 0
migrations (create_migration namespace spec ∷ calls) = suc (migrations calls)
migrations (_ ∷ calls) = migrations calls

-- The first of two names, or the second where the first is empty.
abbrev pub IsChosen : String → String → String → Type 0
IsChosen first second chosen =
    (((first == "") ≡ false) × (chosen ≡ first)) ⊎ ((first ≡ "") × (chosen ≡ second))

-- The Migration that a request asks for, in its new names or else in the legacy ones, and the namespace.
pub record Asks (default : String) (req : MigrateRequest) (spec : MigrationSpec)
    (namespace : String) : Type 0 where
  pub workload : IsChosen req.workload req.deployment spec.workload_name
  pub source : IsChosen req.source_node req.origin_node spec.source_node
  pub target : IsChosen req.target_node req.dest_node spec.target_node
  pub pod : spec.pod_name ≡ req.pod_name
  pub place : IsChosen req.namespace default namespace

pub record IsWhole (spec : MigrationSpec) : Type 0 where
  pub workload : (spec.workload_name == "") ≡ false
  pub source : (spec.source_node == "") ≡ false
  pub target : (spec.target_node == "") ≡ false

abbrev pub IsLacking : MigrationSpec → Type 0
IsLacking spec = (spec.workload_name ≡ "") ⊎ ((spec.source_node ≡ "") ⊎ (spec.target_node ≡ ""))

module _ (kube : Kube) where
  -- The last call found the MigratableWorkload, or made one that refers to the workload of its name.
  pub data IsPrepared (namespace name : String) : List Call → Type 0 where
    found :
        (calls : List Call)
        → kube.workload calls namespace name ≡ ok tt
        → IsPrepared namespace name (get_workload namespace name ∷ calls)
    made :
        (calls : List Call) (label : String) (kind : Kind)
        → created_as kube
            (kube.create calls (create_workload (new_workload namespace name label kind)))
          ≡ none
        → IsPrepared namespace name
            (create_workload (new_workload namespace name label kind) ∷ calls)

  abbrev Prepares : String → String → Option EnsureError × List Call → List Call → Type 0
  Prepares namespace name got calls =
      (got.0 ≡ none → IsPrepared namespace name got.1) × (migrations got.1 ≡ migrations calls)

  -- The last call sent the Migration, with this answer.
  abbrev pub IsSent : String → MigrationSpec → Result (Unit {0}) → List Call → List Call → Type 0
  IsSent namespace spec answer before calls =
      (calls ≡ create_migration namespace spec ∷ before)
      × (kube.create before (create_migration namespace spec) ≡ answer)

  -- What the handler has done, by its answer, from the calls before it.
  abbrev pub Migrated : MigrationSpec → String → List Call → Answer × List Call → Type 0
  Migrated spec namespace calls (started spec' namespace', calls') =
      (spec' ≡ spec)
      × ((namespace' ≡ namespace)
          × (IsWhole spec
              × ((before : List Call) × (IsSent namespace spec (ok tt) before calls'
                    × (IsPrepared namespace spec.workload_name before
                        × (migrations before ≡ migrations calls))))))
  Migrated spec namespace calls (bad_request, calls') = IsLacking spec × (calls' ≡ calls)
  Migrated spec namespace calls (not_started code, calls') =
      IsWhole spec
      × ((migrations calls' ≡ migrations calls)
          ⊎ ((before : List Call) × ((e : ApiError) × (IsSent namespace spec (err e) before calls'
                  × (migrations before ≡ migrations calls)))))
