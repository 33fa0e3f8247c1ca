-- ===== src/Controller/Mirror/Pass.antt =====
-- operator/internal/controller/migratableworkload_controller.go: the pods that a pass leaves in the status.
use mycedrive_k8s.Base.{
  Bool, true, false, Option, none, some, List, [], ◌∷◌, ◌≡◌, refl, ℤ, pos, if◌then◌else◌, arith, ap,
  subst, sym, ==→eq, Bool-cases, inl, inr,
}
use mycedrive_k8s.Api.{Time}
use mycedrive_k8s.Registry.{Registry}
use mycedrive_k8s.Registry.Listing.{list}
use mycedrive_k8s.Controller.Cluster.{Result, ok, err}
use mycedrive_k8s.Controller.Mirror.{
  RegisteredPod, WorkloadStatus, WorkloadObject, Server, Outcome, failed, again, mirror,
  mirrored_status, same_bool, same_number, same_time, same_pod, same_pods, same_status, written,
  reconcile_workload,
}

same_bool_eq : (a b : Bool) → same_bool a b ≡ true → a ≡ b
same_bool_eq true true h = refl
same_bool_eq true false h = absurd (ground (arith, h))
same_bool_eq false true h = absurd (ground (arith, h))
same_bool_eq false false h = refl

same_number_eq : (a b : ℤ) → same_number a b ≡ true → a ≡ b
same_number_eq (pos a) (pos b) h = ap pos (ground (arith, h))
same_number_eq (pos a) (ℤ.negsuc b) h = absurd (ground (arith, h))
same_number_eq (ℤ.negsuc a) (pos b) h = absurd (ground (arith, h))
same_number_eq (ℤ.negsuc a) (ℤ.negsuc b) h = ap ℤ.negsuc (ground (arith, h))

same_time_eq : (a b : Option Time) → same_time a b ≡ true → a ≡ b
same_time_eq none none h = refl
same_time_eq none (some b) h = absurd (ground (arith, h))
same_time_eq (some a) none h = absurd (ground (arith, h))
same_time_eq (some a) (some b) h = ap some (ground (arith, h))

same_pod_eq : (p q : RegisteredPod) → same_pod p q ≡ true → p ≡ q
same_pod_eq p q h = λ i. record {
  name = ==→eq p.name q.name (ground (arith, h)) i;
  address = ==→eq p.address q.address (ground (arith, h)) i;
  container_port = same_number_eq p.container_port q.container_port (ground (arith, h)) i;
  node = ==→eq p.node q.node (ground (arith, h)) i;
  migrating = same_bool_eq p.migrating q.migrating (ground (arith, h)) i;
  checkpoint_ready = same_bool_eq p.checkpoint_ready q.checkpoint_ready (ground (arith, h)) i;
  checkpoint_dir = ==→eq p.checkpoint_dir q.checkpoint_dir (ground (arith, h)) i;
  restored = same_bool_eq p.restored q.restored (ground (arith, h)) i;
  registered_at = same_time_eq p.registered_at q.registered_at (ground (arith, h)) i;
}

same_pods_eq : (ps qs : List RegisteredPod) → same_pods ps qs ≡ true → ps ≡ qs
same_pods_eq [] [] h = refl
same_pods_eq [] (q ∷ qs) h = absurd (ground (arith, h))
same_pods_eq (p ∷ ps) [] h = absurd (ground (arith, h))
same_pods_eq (p ∷ ps) (q ∷ qs) h =
    let here : p ≡ q = same_pod_eq p q (ground (arith, h)) in
    let there : ps ≡ qs = same_pods_eq ps qs (ground (arith, h)) in λ i. here i ∷ there i

same_status-registered_pods :
    (s t : WorkloadStatus) → same_status s t ≡ true → s.registered_pods ≡ t.registered_pods
same_status-registered_pods s t h =
    same_pods_eq s.registered_pods t.registered_pods (ground (arith, h))

-- The status that the API server has after a pass: the one it took, or the one it had.
abbrev pub left_by : WorkloadObject → Option WorkloadStatus → WorkloadStatus
left_by object none = object.status
left_by object (some status) = status

-- What a pass does with the status that it makes.
abbrev attempt : Server → WorkloadObject → WorkloadStatus → Outcome × Option WorkloadStatus
attempt server object status =
    if same_status object.status status
    then (again, none)
    else written server (record object { status = status })

written-left_by :
    (object : WorkloadObject) (status : WorkloadStatus) (answer : Result (Unit {0}))
    → (let done : Outcome × Option WorkloadStatus = elim answer [
      | ok there ↦ (again, some status)
      | err e ↦ (failed, none)
    ] in
        done.0 ≡ again → left_by object done.1 ≡ status)
written-left_by object status (ok done) good = refl
written-left_by object status (err e) good = absurd (ground (arith, good))

attempt-left_by :
    (server : Server) (object : WorkloadObject) (status : WorkloadStatus)
    → (attempt server object status).0 ≡ again
    → (left_by object (attempt server object status).1).registered_pods ≡ status.registered_pods
attempt-left_by server object status = elim (Bool-cases (same_status object.status status)) [
  | inl same ↦ rw same (λ good. same_status-registered_pods object.status status same)
  | inr new ↦ rw new (λ good.
      ap (λ s. s.registered_pods)
        (written-left_by object status (server.update (record object { status = status })) good))
]

reconcile_workload-attempt :
    (server : Server) (object : WorkloadObject) (r : Registry)
    → server.object ≡ ok object
    → object.deleted ≡ false
    → (reconcile_workload server r).0 ≡ attempt server object (mirrored_status server object r).0
unfolding reconcile_workload
reconcile_workload-attempt server object r there live = rw (there, live) refl

-- A pass over an object that is there and not deleted, and that ends without an error, leaves the pods of
-- the mirror in its status.
pub pass-pods :
    (server : Server) (object : WorkloadObject) (r : Registry)
    → server.object ≡ ok object
    → object.deleted ≡ false
    → (reconcile_workload server r).0.0 ≡ again
    → (left_by object (reconcile_workload server r).0.1).registered_pods
      ≡ (mirror object.resource (list r) r).0
unfolding mirrored_status
pass-pods server object r there live =
    subst
      (λ x.
        x.0 ≡ again → (left_by object x.1).registered_pods ≡ (mirror object.resource (list r) r).0)
      (sym (reconcile_workload-attempt server object r there live))
      (attempt-left_by server object (mirrored_status server object r).0)
