-- ===== src/Controller/Cluster.antt =====
-- The Kubernetes API server, as the operator's client calls it. It is not part of the program: it is a
-- parameter that answers each call, from the call and from all calls before it. Nothing is assumed of
-- the answers. A reading of the clock is a call too.
use mycedrive_k8s.Base.{Bool, Option, List, String, Map, ℤ}
use mycedrive_k8s.Api.{Time, Migration, MigratableWorkload}

-- An error of the API server, wrapped or not, by what the program asks of it.
pub data ApiError : Type 0 where
  not_found conflict already_exists failure : ApiError

pub data Result {ℓ} (A : Type ℓ) : Type ℓ where
  ok : A → Result A
  err : ApiError → Result A

-- A condition of a pod: its type, and whether its status is "True".
pub record Condition : Type 0 where
  pub type : String
  pub is_true : Bool

pub record Pod : Type 0 where
  pub name : String
  pub node_name : String
  pub deleted : Bool
  pub creation_time : Time
  pub conditions : List Condition

-- The labels of a node. A nil map reads as an empty one.
pub record Node : Type 0 where
  pub name : String
  pub labels : Map String

-- A Deployment: its replica count, an int32, and the text of its pod selector.
pub record Deployment : Type 0 where
  pub replicas : Option ℤ
  pub selector : Option String

pub record StatefulSet : Type 0 where
  pub selector : Option String

-- Every call of the client, with what it sends.
pub data Call : Type 0 where
  now : Call
  get_migration : String → String → Call
  update_migration update_status : Migration → Call
  get_workload : String → String → Call
  get_node : String → Call
  patch_node_labels : String → Map String → Call
  list_pods : String → String → Call
  get_pod delete_pod : String → String → Call
  get_stateful_set get_deployment : String → String → Call
  patch_replicas : String → String → ℤ → Call

-- The answers; the list has the calls before, the last one first.
pub record Cluster : Type 0 where
  pub clock : List Call → Time
  pub migration : List Call → String → String → Result Migration
  pub workload : List Call → String → String → Result MigratableWorkload
  pub node : List Call → String → Result Node
  -- `LabelSelectorAsSelector`, of the text of a selector.
  pub parse_selector : String → Result String
  -- The pods of a namespace that a selector matches.
  pub pods : List Call → String → String → Result (List Pod)
  pub pod : List Call → String → String → Result Pod
  pub stateful_set : List Call → String → String → Result StatefulSet
  pub deployment : List Call → String → String → Result Deployment
  -- Whether a call that writes succeeds.
  pub write : List Call → Call → Result (Unit {0})
