-- ===== src/Controller/Monad.antt =====
-- One pass of a reconciler: what it has called so far, the shared registry and history, and the
-- Migration in its hands. What was done before an error stays done, so the state comes back with it.
use mycedrive_k8s.Base.{Option, List, ◌∷◌, String}
use mycedrive_k8s.Api.{Time, Migration, MigrationStatus, MigratableWorkload}
use mycedrive_k8s.Registry.{Registry}
use mycedrive_k8s.History.{Store}
use mycedrive_k8s.Controller.Cluster.{
  ApiError, Result, ok, err, Pod, Node, Deployment, StatefulSet, get_stateful_set, Call, now,
  get_migration, get_workload, get_node, list_pods, get_pod, get_deployment, Cluster,
}

pub record State : Type 0 where
  pub calls : List Call
  pub registry : Registry
  -- `none` where the metrics module is not wired.
  pub history : Option Store
  pub mig : Migration

abbrev pub Pass {ℓ} : Type ℓ → Type ℓ
Pass A = State → Result A × State

module _ {ℓ κ} {A : Type ℓ} {B : Type κ} where
  abbrev pub continue : Result A → (A → Pass B) → Pass B
  continue (ok a) f s = f a s
  continue (err e) f s = (err e, s)

  infixl 5 ◌>>=◌
  unfoldable pub ◌>>=◌ : Pass A → (A → Pass B) → Pass B
  ◌>>=◌ m f s = let (r, s') = m s in continue r f s'

infixl 5 ◌>>◌
abbrev pub ◌>>◌ {ℓ} : {B : Type ℓ} → Pass (Unit {0}) → Pass B → Pass B
m >> k = m >>= λ _. k

module _ {ℓ} {A : Type ℓ} where
  unfoldable pub pure : A → Pass A
  pure a s = (ok a, s)

  unfoldable pub raise : ApiError → Pass A
  raise e s = (err e, s)

  -- An error as a value.
  unfoldable pub attempt : Pass A → Pass (Result A)
  attempt m s = let (r, s') = m s in (ok r, s')

  unfoldable pub gets : (State → A) → Pass A
  gets f s = (ok (f s), s)

  -- One call of the cluster.
  unfoldable pub call : Call → (List Call → Result A) → Pass A
  call c answer s = (answer s.calls, record s { calls = c ∷ s.calls })

unfoldable pub modify : (State → State) → Pass (Unit {0})
modify f s = (ok tt, f s)

unfoldable pub set_mig : Migration → Pass (Unit {0})
set_mig mig s = (ok tt, record s { mig = mig })

unfoldable pub set_status : (MigrationStatus → MigrationStatus) → Pass (Unit {0})
set_status f s = (ok tt, record s { mig = record s.mig { status = f s.mig.status } })

unfoldable pub set_registry : (Registry → Registry) → Pass (Unit {0})
set_registry f s = (ok tt, record s { registry = f s.registry })

-- A result that is there already.
unfoldable pub lift {ℓ} : {A : Type ℓ} → Result A → Pass A
lift r s = (r, s)

abbrev pub get_mig : Pass Migration
get_mig = gets (λ s. s.mig)

module _ (cluster : Cluster) where
  -- time.Now
  abbrev pub read_clock : Pass Time
  read_clock = call now (λ calls. ok (cluster.clock calls))

  abbrev pub fetch_migration : String → String → Pass Migration
  fetch_migration namespace name =
      call (get_migration namespace name) (λ calls. cluster.migration calls namespace name)

  abbrev pub fetch_workload : String → String → Pass MigratableWorkload
  fetch_workload namespace name =
      call (get_workload namespace name) (λ calls. cluster.workload calls namespace name)

  abbrev pub fetch_node : String → Pass Node
  fetch_node name = call (get_node name) (λ calls. cluster.node calls name)

  abbrev pub fetch_pods : String → String → Pass (List Pod)
  fetch_pods namespace selector =
      call (list_pods namespace selector) (λ calls. cluster.pods calls namespace selector)

  abbrev pub fetch_stateful_set : String → String → Pass StatefulSet
  fetch_stateful_set namespace name =
      call (get_stateful_set namespace name) (λ calls. cluster.stateful_set calls namespace name)

  abbrev pub fetch_pod : String → String → Pass Pod
  fetch_pod namespace name =
      call (get_pod namespace name) (λ calls. cluster.pod calls namespace name)

  abbrev pub fetch_deployment : String → String → Pass Deployment
  fetch_deployment namespace name =
      call (get_deployment namespace name) (λ calls. cluster.deployment calls namespace name)

  -- A call that writes.
  abbrev pub send : Call → Pass (Unit {0})
  send c = call c (λ calls. cluster.write calls c)
