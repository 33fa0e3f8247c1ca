-- ===== src/Controller/Workload/Audit.antt =====
-- The calls about pods, nodes and replica counts keep to what a pass may ask.
use mycedrive_k8s.Base.{◌≡◌, ◌⊎◌, String, Option, none, some, ℤ, lookup, ◌==◌}
use mycedrive_k8s.Api.{
  pending, Migration, MigratableWorkload, Kind, stateful_set, deployment, other_kind,
}
use mycedrive_k8s.Controller.Cluster.{Cluster, Node}
use mycedrive_k8s.Controller.Workload.{
  raw_selector, parsed, list_workload_pods, set_node_label, remove_node_label, scale_deployment,
  label_value, drop_label,
}
use mycedrive_k8s.Controller.Ends.{Ends, pure-Ends, raise-Ends, lift-Ends, if-Ends, bind-Ends}
use mycedrive_k8s.Controller.Audit.{Scales, Held, call-Held}

module _ (cluster : Cluster) (mig : Migration) where
  raw_selector-Held :
      (mw : MigratableWorkload) (kind : Kind)
      → Ends (Held mig) (Held mig) (raw_selector cluster mw kind)
  unfolding raw_selector
  raw_selector-Held mw stateful_set =
      bind-Ends _ _ (λ s h. h) (call-Held mig _ _ tt) (λ sts. pure-Ends _)
  raw_selector-Held mw deployment =
      bind-Ends _ _ (λ s h. h) (call-Held mig _ _ tt) (λ dep. pure-Ends _)
  raw_selector-Held mw (other_kind text) = raise-Ends _

  parsed-Held : (raw : Option String) → Ends (Held mig) (Held mig) (parsed cluster raw)
  unfolding parsed
  parsed-Held none = raise-Ends _
  parsed-Held (some raw) = lift-Ends _

  pub list_workload_pods-Held :
      (mw : MigratableWorkload) → Ends (Held mig) (Held mig) (list_workload_pods cluster mw)
  unfolding list_workload_pods
  list_workload_pods-Held mw =
      bind-Ends _ _ (λ s h. h)
        (bind-Ends _ _ (λ s h. h) (raw_selector-Held mw mw.spec.workload_ref.kind) parsed-Held)
        λ selector. call-Held mig _ _ tt

  drop_label-Held :
      (name key : String) (node : Node) (old : Option String)
      → mig.status.phase ≡ pending
      → (name ≡ mig.spec.source_node) ⊎ (name ≡ mig.spec.target_node)
      → Ends (Held mig) (Held mig) (drop_label cluster name key node old)
  unfolding drop_label
  drop_label-Held name key node none at which = pure-Ends _
  drop_label-Held name key node (some _) at which = call-Held mig _ _ (at, which)

  pub set_node_label-Held :
      (name key value : String)
      → mig.status.phase ≡ pending
      → (name ≡ mig.spec.source_node) ⊎ (name ≡ mig.spec.target_node)
      → Ends (Held mig) (Held mig) (set_node_label cluster name key value)
  unfolding set_node_label
  set_node_label-Held name key value at which =
      bind-Ends _ _ (λ s h. h) (call-Held mig _ _ tt)
        λ node.
          if-Ends (label_value key node.labels == value) _ _ (pure-Ends _)
            (call-Held mig _ _ (at, which))

  pub remove_node_label-Held :
      (name key : String)
      → mig.status.phase ≡ pending
      → (name ≡ mig.spec.source_node) ⊎ (name ≡ mig.spec.target_node)
      → Ends (Held mig) (Held mig) (remove_node_label cluster name key)
  unfolding remove_node_label
  remove_node_label-Held name key at which =
      bind-Ends _ _ (λ s h. h) (call-Held mig _ _ tt)
        λ node. drop_label-Held name key node (lookup key node.labels) at which

  pub scale_deployment-Held :
      (namespace name : String) (delta : ℤ)
      → Scales mig.status.phase
      → Ends (Held mig) (Held mig) (scale_deployment cluster namespace name delta)
  unfolding scale_deployment
  scale_deployment-Held namespace name delta may =
      bind-Ends _ _ (λ s h. h) (call-Held mig _ _ tt) (λ dep. call-Held mig _ _ may)
