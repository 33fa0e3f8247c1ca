-- ===== src/RestApi/Migrate.antt =====
-- operator/pkg/restapi/handlers.go: POST /migrate, which makes a Migration, and a MigratableWorkload where
-- there is none. The API server is a parameter, which answers each call by the calls before it. No error
-- of its own has the text that ensureMigratableWorkload makes for a workload that is not there.
pub mod Started
mod Tests
use Prim.Native.Char.{code}
use mycedrive_k8s.Base.{
  ℕ, suc, Bool, true, false, ◌||◌, Option, none, some, List, [], ◌∷◌, String, eqb, ◌==◌,
  if◌then◌else◌,
}
use mycedrive_k8s.Api.{
  Kind, stateful_set, deployment, WorkloadReference, PlacementLabel, WorkloadSpec,
  MigratableWorkload, MigrationSpec,
}
use mycedrive_k8s.Controller.Cluster.{
  ApiError, not_found, conflict, already_exists, failure, Result, ok, err,
}

pub record MigrateRequest : Type 0 where
  pub deployment : String
  pub label : String
  pub origin_node : String
  pub dest_node : String
  pub workload : String
  pub pod_name : String
  pub source_node : String
  pub target_node : String
  pub namespace : String

pub data Call : Type 0 where
  get_workload get_stateful_set get_deployment : String → String → Call
  create_workload : MigratableWorkload → Call
  -- In a namespace; the name is made by the server from the workload's.
  create_migration : String → MigrationSpec → Call

-- The answers; the list has the calls before, the last one first.
pub record Kube : Type 0 where
  pub workload : List Call → String → String → Result (Unit {0})
  -- Whether there is such an object and no error.
  pub stateful_set : List Call → String → String → Bool
  pub deployment : List Call → String → String → Bool
  pub create : List Call → Call → Result (Unit {0})

pub data EnsureError : Type 0 where
  no_workload : EnsureError
  api : ApiError → EnsureError

-- What the handler writes: the Migration was created, or an error with its status code.
pub data Answer : Type 0 where
  started : MigrationSpec → String → Answer
  bad_request : Answer
  not_started : ℕ → Answer

abbrev pub or_text : String → String → String
or_text text default = if text == "" then default else text

-- strings.SplitN by ":" into two parts, if there are two.
unfoldable pub split_label : String → Option (String × String)
split_label String.[] = none
split_label (String.◌∷◌ c s) =
    let rest = split_label s in
    if eqb (code c) b':'
    then some ("", s)
    else elim rest [ none ↦ none | some (key, value) ↦ some (String.◌∷◌ c key, value) ]

-- The placement label of a legacy "key:value".
unfoldable pub label_of : String → Option PlacementLabel
unfolding split_label
label_of label = elim (split_label label) [
  | none ↦ none
  | some (key, value) ↦ some (record { key = key; value = value })
]

unfoldable pub new_workload : String → String → String → Kind → MigratableWorkload
unfolding label_of
new_workload namespace name label kind = record {
  name = name;
  namespace = namespace;
  spec = record {
    workload_ref = record { kind = kind; name = name };
    placement_label = label_of label;
    checkpoint_dir = "";
    process_migration = none;
    volume_migration = none;
    pre_sync_rounds = none;
  };
}

module _ (kube : Kube) where
  abbrev pub created_as : Result (Unit {0}) → Option EnsureError
  created_as (ok done) = none
  created_as (err already_exists) = none
  created_as (err e) = some (api e)

  unfoldable pub create_for :
      String → String → String → Kind → List Call → Option EnsureError × List Call
  unfolding new_workload
  create_for namespace name label kind calls =
      let w = new_workload namespace name label kind in
      (created_as (kube.create calls (create_workload w)), create_workload w ∷ calls)

  -- The kind of the workload, a StatefulSet if there is one.
  unfoldable pub detect : String → String → String → List Call → Option EnsureError × List Call
  unfolding create_for
  detect namespace name label calls =
      let calls₁ = get_stateful_set namespace name ∷ calls in
      let calls₂ = get_deployment namespace name ∷ calls₁ in
      if kube.stateful_set calls namespace name
      then create_for namespace name label Kind.stateful_set calls₁
      else if kube.deployment calls₁ namespace name
      then create_for namespace name label Kind.deployment calls₂
      else (some no_workload, calls₂)

  abbrev pub after_get :
      String → String → String → Result (Unit {0}) → List Call → Option EnsureError × List Call
  after_get namespace name label (ok found) calls = (none, calls)
  after_get namespace name label (err not_found) calls = detect namespace name label calls
  after_get namespace name label (err e) calls = (some (api e), calls)

  -- ensureMigratableWorkload
  unfoldable pub ensure_migratable_workload :
      String → String → String → List Call → Option EnsureError × List Call
  unfolding detect
  ensure_migratable_workload namespace name label calls =
      after_get namespace name label (kube.workload calls namespace name)
        (get_workload namespace name ∷ calls)

  abbrev pub code_of : EnsureError → ℕ
  code_of no_workload = 404
  code_of (api not_found) = 404
  code_of (api e) = 500

  abbrev pub migration_as : String → MigrationSpec → Result (Unit {0}) → Answer
  migration_as namespace spec (ok done) = started spec namespace
  migration_as namespace spec (err e) = not_started 500

  abbrev pub after_ensure :
      String → MigrationSpec → Option EnsureError × List Call → Answer × List Call
  after_ensure namespace spec (some e, calls) = (not_started (code_of e), calls)
  after_ensure namespace spec (none, calls) = (
    migration_as namespace spec (kube.create calls (create_migration namespace spec)),
    create_migration namespace spec ∷ calls,
  )

  abbrev pub spec_of : MigrateRequest → MigrationSpec
  spec_of req = record {
    workload_name = or_text req.workload req.deployment;
    pod_name = req.pod_name;
    source_node = or_text req.source_node req.origin_node;
    target_node = or_text req.target_node req.dest_node;
  }

  abbrev pub is_incomplete : MigrationSpec → Bool
  is_incomplete spec =
      (spec.workload_name == "") || ((spec.source_node == "") || (spec.target_node == ""))

  -- handleMigrate, with the default namespace of the server
  unfoldable pub handle_migrate : String → Option MigrateRequest → List Call → Answer × List Call
  unfolding ensure_migratable_workload
  handle_migrate default none calls = (bad_request, calls)
  handle_migrate default (some req) calls =
      let spec = spec_of req in
      let namespace = or_text req.namespace default in
      if is_incomplete spec
      then (bad_request, calls)
      else after_ensure namespace spec
          (ensure_migratable_workload namespace spec.workload_name req.label calls)
