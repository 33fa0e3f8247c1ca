-- ===== src/Registry/Flow.antt =====
-- The migration flags of a record: who moves them, and in which direction.
use mycedrive_k8s.Base.{
  ◌≤◌, true, false, Option, none, some, List, [], ◌∷◌, ◌≡◌, inl, inr, String, lookup, ◌≤ℤ◌, arith,
  Bool-cases, ◌==◌,
}
use mycedrive_k8s.Registry.{PodRecord, Registry}
use mycedrive_k8s.Registry.Ops.{
  Op, registers, deletes, arms, disarms, reports_sync, reports_copy, reports_restored, links,
  places, seeds, run, is_agent_op, FromAgents,
}
use mycedrive_k8s.Registry.Pod.{pod_step, pod_run, lookup-run}

-- What agents leave of a record: its place and its toggles as they are, its progress never less.
pub record Carried (old rec : PodRecord) : Type 0 where
  pub same_name : rec.name ≡ old.name
  pub same_node : rec.node ≡ old.node
  pub same_workload : rec.workload_name ≡ old.workload_name
  pub same_migrating : rec.migrating ≡ old.migrating
  pub same_process : rec.process_migration ≡ old.process_migration
  pub same_volume : rec.volume_migration ≡ old.volume_migration
  pub same_rounds : rec.sync_rounds ≡ old.sync_rounds
  pub ready_stays : old.checkpoint_ready ≡ true → rec.checkpoint_ready ≡ true
  pub restored_stays : old.restored ≡ true → rec.restored ≡ true
  pub dest_stays : old.dest_registered ≡ true → rec.dest_registered ≡ true
  pub unarmed_dest : old.migrating ≡ false → rec.dest_registered ≡ old.dest_registered
  pub unarmed_endpoint : old.migrating ≡ false → rec.dest_address ≡ old.dest_address
  pub round_grows : old.sync_round ≤ℤ rec.sync_round
  pub registrations_grow : old.registrations ≤ rec.registrations

pub Carried-refl : (rec : PodRecord) → Carried rec rec
Carried-refl rec = ground arith

Carried-trans : (a b c : PodRecord) → Carried a b → Carried b c → Carried a c
Carried-trans a b c p q = ground arith

-- The pod is still known, and its record is carried from `old`.
abbrev pub Leads : PodRecord → Option PodRecord → Type 0
Leads old none = ⊥
Leads old (some rec) = Carried old rec

agent_step :
    (k : String) (op : Op) (rec : PodRecord)
    → is_agent_op op ≡ true
    → Leads rec (pod_step k op (some rec))
unfolding pod_step
agent_step k (registers name address port now) rec h = elim (Bool-cases (name == k)) [
  | inl same ↦ rw same (ground arith)
  | inr other ↦ rw other (Carried-refl rec)
]
agent_step k (reports_sync name round) rec h = elim (Bool-cases (name == k)) [
  | inl same ↦ rw same (ground arith)
  | inr other ↦ rw other (Carried-refl rec)
]
agent_step k (reports_copy name dir) rec h = elim (Bool-cases (name == k)) [
  | inl same ↦ rw same (ground arith)
  | inr other ↦ rw other (Carried-refl rec)
]
agent_step k (reports_restored name) rec h = elim (Bool-cases (name == k)) [
  | inl same ↦ rw same (ground arith)
  | inr other ↦ rw other (Carried-refl rec)
]
agent_step k (deletes name) rec h = cc
agent_step k (arms name info now) rec h = cc
agent_step k (disarms name) rec h = cc
agent_step k (links pod namespace workload) rec h = cc
agent_step k (places pod node) rec h = cc
agent_step k (seeds records) rec h = cc

Leads-trans : (a b : PodRecord) (o : Option PodRecord) → Carried a b → Leads b o → Leads a o
Leads-trans a b none p q = q
Leads-trans a b (some c) p q = Carried-trans a b c p q

pub agents_lead :
    (k : String) (ops : List Op) (old : PodRecord) (o : Option PodRecord)
    → FromAgents ops
    → Leads old o
    → Leads old (pod_run k ops o)
unfolding pod_run
agents_lead k [] old o h l = l
agents_lead k (op ∷ ops) old none h l = absurd l
agents_lead k (op ∷ ops) old (some rec) (h, hs) l =
    agents_lead k ops old (pod_step k op (some rec)) hs
      (Leads-trans old rec (pod_step k op (some rec)) l (agent_step k op rec h))

-- Whatever agents report, in any order and number, a known pod stays known with the same name, node,
-- workload, toggles, requested rounds and armed flag; its progress flags and counts never fall; and
-- while no migration is armed its destination flag and endpoint do not change.
pub agents_keep :
    (k : String) (ops : List Op) (r : Registry) (rec : PodRecord)
    → FromAgents ops
    → lookup k r ≡ some rec
    → Leads rec (lookup k (run ops r))
agents_keep k ops r rec h known =
    rw (lookup-run k ops r, known) (agents_lead k ops rec (some rec) h (Carried-refl rec))
