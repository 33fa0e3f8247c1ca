-- ===== src/RestApi/Queries/Tests.antt =====
-- The dashboard's reads on a concrete registry and cluster, and the theorems at them.
use mycedrive_k8s.Base.{true, false, some, List, [], ◌∷◌, ◌≡◌, refl, lookup, pos}
use mycedrive_k8s.Registry.{new}
use mycedrive_k8s.Registry.Ops.{Op, registers, places, run}
use mycedrive_k8s.RestApi.Queries.{NodeInfo, PodNodes, legacy_pods, api_pods, nodes_of}
use mycedrive_k8s.RestApi.Queries.Faithful.{shown, Fits, FitsLegacy, FitsApi, pods-shown}
use mycedrive_k8s.RestApi.Queries.Usable.{Offers, nodes_of-Offers}

abbrev story : List Op
story =
    registers "web-1" "10.0.0.3:2486" (pos 2486) 5
    ∷ registers "web-0" "10.0.0.1:2486" (pos 2486) 6
    ∷ places "web-0" "node-a"
    ∷ []

abbrev nodes : PodNodes
nodes namespace name = some "node-b"

pods-shown_example :
    Fits FitsLegacy
      (lookup "web-0" (run story new))
      (shown (λ p. p.pod_name) "web-0" (legacy_pods (run story new)))
    × Fits
        (FitsApi (some nodes) "apps")
        (lookup "web-0" (run story new))
        (shown (λ p. p.name) "web-0" (api_pods (some nodes) "apps" (run story new)))
pods-shown_example = pods-shown story (some nodes) "apps" "web-0"

abbrev listed : List NodeInfo
listed =
    record {
      name = "node-a";
      unschedulable = true;
      conditions = record { type = "Ready"; is_true = true } ∷ [];
    }
    ∷ record {
      name = "node-b";
      unschedulable = false;
      conditions = record { type = "Ready"; is_true = true } ∷ [];
    }
    ∷ record { name = "node-c"; unschedulable = false; conditions = [] }
    ∷ []

only_the_second : nodes_of listed ≡ "node-b" ∷ []
unfolding nodes_of
only_the_second = refl

nodes_of-Offers_example : Offers listed (nodes_of listed)
nodes_of-Offers_example = nodes_of-Offers listed
