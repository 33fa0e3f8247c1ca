-- ===== src/Controller/Workload.antt =====
-- operator/internal/controller/workload.go: pods and nodes of a workload, and the calls that steer them.
pub mod Audit
use mycedrive_k8s.Base.{
  ℕ, Bool, true, false, not, ◌||◌, Option, none, some, List, [], ◌∷◌, String, Map, lookup, insert,
  remove, ltb, leℤ, ltℤ, ℤ, pos, ◌+ℤ◌, to_int32, ◌==◌, if◌then◌else◌,
}
use mycedrive_k8s.Api.{Kind, stateful_set, deployment, other_kind, MigratableWorkload}
use mycedrive_k8s.Controller.Cluster.{
  Result, ok, err, failure, Condition, Pod, Node, Deployment, StatefulSet, patch_node_labels,
  patch_replicas, Cluster,
}
use mycedrive_k8s.Controller.Monad.{
  Pass, ◌>>=◌, ◌>>◌, pure, raise, lift, fetch_node, fetch_deployment, fetch_stateful_set,
  fetch_pods, send,
}

-- A pod that findPodOnNode may return.
unfoldable pub is_candidate : String → String → Pod → Bool
is_candidate node exclude p =
    if p.node_name == node then (if p.name == exclude then false else not p.deleted) else false

-- The loop of findPodOnNode, with the best pod so far.
unfoldable pub find_from : String → String → Option Pod → List Pod → Option Pod
unfolding is_candidate
find_from node exclude best [] = best
find_from node exclude none (p ∷ rest) =
    find_from node exclude (if is_candidate node exclude p then some p else none) rest
find_from node exclude (some b) (p ∷ rest) =
    find_from node exclude
      (if is_candidate node exclude p
        then (if ltb b.creation_time p.creation_time then some p else some b)
        else some b)
      rest

-- findPodOnNode
unfoldable pub find_pod_on_node : List Pod → String → String → Option Pod
unfolding find_from
find_pod_on_node pods node exclude = find_from node exclude none pods

-- The first pod of a name, as reconcilePending looks for spec.podName.
unfoldable pub find_pod_named : String → List Pod → Option Pod
find_pod_named name [] = none
find_pod_named name (p ∷ rest) = if p.name == name then some p else find_pod_named name rest

-- Whether the first "Ready" condition is true.
unfoldable pub ready_by : List Condition → Bool
ready_by [] = false
ready_by (c ∷ rest) = if c.type == "Ready" then c.is_true else ready_by rest

-- isPodReady
unfoldable pub is_pod_ready : Pod → Bool
unfolding ready_by
is_pod_ready pod = ready_by pod.conditions

-- A label's value; a missing label reads as the empty text.
unfoldable pub label_value : String → Map String → String
label_value key labels = elim (lookup key labels) [ none ↦ "" | some value ↦ value ]

-- The count after a change, an int32 that is never negative.
unfoldable pub scaled : Option ℤ → ℤ → ℤ
scaled replicas delta =
    let start : ℤ = elim replicas [ none ↦ pos 1 | some n ↦ n ] in
    let sum = to_int32 (start +ℤ delta) in if ltℤ sum (pos 0) then pos 0 else sum

module _ (cluster : Cluster) where
  -- workloadPodSelector, up to its parsing.
  raw_selector : MigratableWorkload → Kind → Pass (Option String)
  raw_selector mw stateful_set = do
    sts ← fetch_stateful_set cluster mw.namespace mw.spec.workload_ref.name
    pure sts.selector
  raw_selector mw deployment = do
    dep ← fetch_deployment cluster mw.namespace mw.spec.workload_ref.name
    pure dep.selector
  raw_selector mw (other_kind text) = raise failure

  parsed : Option String → Pass String
  parsed none = raise failure
  parsed (some raw) = lift (cluster.parse_selector raw)

  -- workloadPodSelector
  unfoldable pub workload_pod_selector : MigratableWorkload → Pass String
  unfolding raw_selector parsed
  workload_pod_selector mw = do raw ← raw_selector mw mw.spec.workload_ref.kind; parsed raw

  -- listWorkloadPods
  unfoldable pub list_workload_pods : MigratableWorkload → Pass (List Pod)
  unfolding workload_pod_selector
  list_workload_pods mw = do
    selector ← workload_pod_selector mw
    fetch_pods cluster mw.namespace selector

  -- setNodeLabel
  unfoldable pub set_node_label : String → String → String → Pass (Unit {0})
  set_node_label node_name key value = do
    node ← fetch_node cluster node_name
    if label_value key node.labels == value
        then pure tt
        else send cluster (patch_node_labels node_name (insert key value node.labels))

  drop_label : String → String → Node → Option String → Pass (Unit {0})
  drop_label node_name key node none = pure tt
  drop_label node_name key node (some _) =
      send cluster (patch_node_labels node_name (remove key node.labels))

  -- removeNodeLabel
  unfoldable pub remove_node_label : String → String → Pass (Unit {0})
  unfolding drop_label
  remove_node_label node_name key = do
    node ← fetch_node cluster node_name
    drop_label node_name key node (lookup key node.labels)

  -- scaleDeployment
  unfoldable pub scale_deployment : String → String → ℤ → Pass (Unit {0})
  scale_deployment namespace name delta = do
    dep ← fetch_deployment cluster namespace name
    send cluster (patch_replicas namespace name (scaled dep.replicas delta))
