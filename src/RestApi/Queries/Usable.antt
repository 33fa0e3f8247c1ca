-- ===== src/RestApi/Queries/Usable.antt =====
-- operator/pkg/restapi/handlers_query.go: the nodes that the dashboard offers.
use mycedrive_k8s.Base.{
  ◌⊎◌, Bool, true, false, arith, ◌||◌, not, List, [], ◌∷◌, ◌≡◌, refl, String, ◌==◌, if◌then◌else◌,
  text-cases, eq_iff, subst, sym, inl, inr,
}
use mycedrive_k8s.Controller.Cluster.{Condition}
use mycedrive_k8s.RestApi.Queries.{NodeInfo, node_ready, nodes_of}

-- Whether the first condition of the type Ready is true; without one, it is not.
pub data HasReady : List Condition → Bool → Type 0 where
  missing : HasReady [] false
  here : (c : Condition) (rest : List Condition) → c.type ≡ "Ready" → HasReady (c ∷ rest) c.is_true
  later :
      (c : Condition) (rest : List Condition) (b : Bool)
      → (c.type == "Ready") ≡ false
      → HasReady rest b
      → HasReady (c ∷ rest) b

-- The names that are offered of the nodes, in their order: a node is offered if it is schedulable and
-- ready, and left out if it is unschedulable or not ready.
pub data Offers : List NodeInfo → List String → Type 0 where
  nothing : Offers [] []
  offered :
      (node : NodeInfo) (rest : List NodeInfo) (names : List String)
      → node.unschedulable ≡ false
      → HasReady node.conditions true
      → Offers rest names
      → Offers (node ∷ rest) (node.name ∷ names)
  left_out :
      (node : NodeInfo) (rest : List NodeInfo) (names : List String)
      → (node.unschedulable ≡ true) ⊎ HasReady node.conditions false
      → Offers rest names
      → Offers (node ∷ rest) names

node_ready-HasReady : (conditions : List Condition) → HasReady conditions (node_ready conditions)
unfolding node_ready
node_ready-HasReady [] = missing
node_ready-HasReady (c ∷ rest) = elim (text-cases c.type "Ready") [
  | inl same ↦
      let is : (c.type == "Ready") ≡ true = ground (arith, same, eq_iff c.type "Ready") in
      subst (λ b. HasReady (c ∷ rest) (if b then c.is_true else node_ready rest)) (sym is)
        (here c rest same)
  | inr other ↦ rw other (later c rest (node_ready rest) other (node_ready-HasReady rest))
]

offer :
    (node : NodeInfo) (rest : List NodeInfo) (names : List String) (unschedulable ready : Bool)
    → node.unschedulable ≡ unschedulable
    → HasReady node.conditions ready
    → Offers rest names
    → Offers (node ∷ rest) (if unschedulable || not ready then names else node.name ∷ names)
offer node rest names true true e h below = left_out node rest names (inl e) below
offer node rest names true false e h below = left_out node rest names (inl e) below
offer node rest names false true e h below = offered node rest names e h below
offer node rest names false false e h below = left_out node rest names (inr h) below

-- GET /api/v1/nodes offers, in the order of the API server, the nodes that are schedulable and whose first
-- Ready condition is true, and no other: a node without a Ready condition is not offered.
pub nodes_of-Offers : (nodes : List NodeInfo) → Offers nodes (nodes_of nodes)
unfolding nodes_of
nodes_of-Offers [] = nothing
nodes_of-Offers (node ∷ rest) =
    offer node rest (nodes_of rest) node.unschedulable (node_ready node.conditions) refl
      (node_ready-HasReady node.conditions) (nodes_of-Offers rest)
