-- ===== src/Registry/Endpoint.antt =====
-- The record of a pod from its arming to the registration of its destination, under what agents call.
use mycedrive_k8s.Base.{
  Bool, true, false, Option, none, some, List, [], ◌∷◌, ◌≡◌, inl, inr, String, ℤ, All, Bool-cases,
  arith, eq_refl, ◌==◌,
}
use mycedrive_k8s.Registry.{Time, PodRecord, ArmInfo}
use mycedrive_k8s.Registry.Address.{join_host_port}
use mycedrive_k8s.Registry.Ops.{
  Op, registers, deletes, arms, disarms, reports_sync, reports_copy, reports_restored, links,
  places, seeds, is_agent_op, FromAgents,
}
use mycedrive_k8s.Registry.Pod.{pod_step, pod_run}
use mycedrive_k8s.Registry.Flow.{Leads, agents_lead, Carried-refl}

abbrev pub registers_pod : String → Op → Bool
registers_pod k (registers name _ _ _) = name == k
registers_pod k _ = false

-- No call registers the pod.
abbrev pub NoRegister : String → List Op → Type 0
NoRegister k = All (λ op. registers_pod k op ≡ false)

-- Armed as asked.
pub record IsArmed (info : ArmInfo) (rec : PodRecord) : Type 0 where
  pub is_migrating : rec.migrating ≡ true
  pub process : rec.process_migration ≡ info.process_migration
  pub volume : rec.volume_migration ≡ info.volume_migration

abbrev pub On : (PodRecord → Type 0) → Option PodRecord → Type 0
On P none = ⊥
On P (some rec) = P rec

pub arm-IsArmed :
    (k : String) (info : ArmInfo) (now : Time) (o : Option PodRecord)
    → On (IsArmed info) (pod_step k (arms k info now) o)
unfolding pod_step
arm-IsArmed k info now none = rw eq_refl (ground arith)
arm-IsArmed k info now (some rec) = rw eq_refl (ground arith)

IsArmed-Leads :
    (info : ArmInfo) (old : PodRecord) (o : Option PodRecord)
    → IsArmed info old
    → Leads old o
    → On (IsArmed info) o
IsArmed-Leads info old none a l = l
IsArmed-Leads info old (some rec) a l = ground arith

pub run-IsArmed :
    (k : String) (info : ArmInfo) (ops : List Op) (o : Option PodRecord)
    → FromAgents ops
    → On (IsArmed info) o
    → On (IsArmed info) (pod_run k ops o)
run-IsArmed k info ops none h a = absurd a
run-IsArmed k info ops (some rec) h a =
    IsArmed-Leads info rec (pod_run k ops (some rec)) a
      (agents_lead k ops rec (some rec) h (Carried-refl rec))

-- Armed, and with the endpoint of the destination.
pub record HasEndpoint (info : ArmInfo) (endpoint : String) (rec : PodRecord) : Type 0 where
  pub is_armed : IsArmed info rec
  pub reached_at : rec.dest_address ≡ endpoint

pub register-HasEndpoint :
    (k address : String) (port : ℤ) (now : Time) (info : ArmInfo) (o : Option PodRecord)
    → On (IsArmed info) o
    → On
        (HasEndpoint info (join_host_port address port))
        (pod_step k (registers k address port now) o)
unfolding pod_step
register-HasEndpoint k address port now info none a = absurd a
register-HasEndpoint k address port now info (some rec) a =
    rw eq_refl (record { is_armed = ground arith; reached_at = ground arith })

step-HasEndpoint :
    (k endpoint : String) (info : ArmInfo) (op : Op) (rec : PodRecord)
    → is_agent_op op ≡ true
    → registers_pod k op ≡ false
    → HasEndpoint info endpoint rec
    → On (HasEndpoint info endpoint) (pod_step k op (some rec))
unfolding pod_step
step-HasEndpoint k endpoint info (registers name address port now) rec h n e = rw n e
step-HasEndpoint k endpoint info (reports_sync name round) rec h n e =
    elim (Bool-cases (name == k)) [
      | inl same ↦ rw same (record { is_armed = ground arith; reached_at = e.reached_at })
      | inr other ↦ rw other e
    ]
step-HasEndpoint k endpoint info (reports_copy name dir) rec h n e = elim (Bool-cases (name == k)) [
  | inl same ↦ rw same (record { is_armed = ground arith; reached_at = e.reached_at })
  | inr other ↦ rw other e
]
step-HasEndpoint k endpoint info (reports_restored name) rec h n e = elim (Bool-cases (name == k)) [
  | inl same ↦ rw same (record { is_armed = ground arith; reached_at = e.reached_at })
  | inr other ↦ rw other e
]
step-HasEndpoint k endpoint info (deletes name) rec h n e = cc
step-HasEndpoint k endpoint info (arms name _ now) rec h n e = cc
step-HasEndpoint k endpoint info (disarms name) rec h n e = cc
step-HasEndpoint k endpoint info (links pod namespace workload) rec h n e = cc
step-HasEndpoint k endpoint info (places pod node) rec h n e = cc
step-HasEndpoint k endpoint info (seeds records) rec h n e = cc

pub run-HasEndpoint :
    (k endpoint : String) (info : ArmInfo) (ops : List Op) (o : Option PodRecord)
    → FromAgents ops
    → NoRegister k ops
    → On (HasEndpoint info endpoint) o
    → On (HasEndpoint info endpoint) (pod_run k ops o)
unfolding pod_run
run-HasEndpoint k endpoint info [] o h n e = e
run-HasEndpoint k endpoint info (op ∷ ops) none h n e = absurd e
run-HasEndpoint k endpoint info (op ∷ ops) (some rec) (h, hs) (n, ns) e =
    run-HasEndpoint k endpoint info ops (pod_step k op (some rec)) hs ns
      (step-HasEndpoint k endpoint info op rec h n e)

-- With no migration and no destination.
pub record IsIdle (rec : PodRecord) : Type 0 where
  pub not_migrating : rec.migrating ≡ false
  pub no_dest : rec.dest_registered ≡ false
  pub no_endpoint : rec.dest_address ≡ ""

pub disarm-IsIdle : (k : String) (rec : PodRecord) → On IsIdle (pod_step k (disarms k) (some rec))
unfolding pod_step
disarm-IsIdle k rec = rw eq_refl (ground arith)

IsIdle-Leads : (old : PodRecord) (o : Option PodRecord) → IsIdle old → Leads old o → On IsIdle o
IsIdle-Leads old none a l = l
IsIdle-Leads old (some rec) a l = ground arith

pub run-IsIdle :
    (k : String) (ops : List Op) (o : Option PodRecord)
    → FromAgents ops
    → On IsIdle o
    → On IsIdle (pod_run k ops o)
run-IsIdle k ops none h a = absurd a
run-IsIdle k ops (some rec) h a =
    IsIdle-Leads rec (pod_run k ops (some rec)) a
      (agents_lead k ops rec (some rec) h (Carried-refl rec))
