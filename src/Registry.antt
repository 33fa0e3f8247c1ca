-- ===== src/Registry.antt =====
-- operator/pkg/registry/registry.go: the operator's view of every Execution Agent registration.
-- A `Registry` is the map from pod names to records. Each method takes the lock for its whole body,
-- so a method is one step: a function from the registry before it to the registry after it. A
-- method that reads the clock takes the time as an argument. A method that writes through a record's
-- pointer puts the changed record back under its key.
pub mod Address
pub mod Ops
pub mod Invariant
pub mod Pod
pub mod Flow
pub mod Rounds
pub mod Endpoint
pub mod Listing
mod Tests
use Address.{join_host_port}
use mycedrive_k8s.Base.{
  ℕ, suc, Bool, true, false, not, Option, none, some, List, [], ◌∷◌, String, Map, lookup, insert,
  remove, ℤ, pos, ltℤ, ◌==◌, if◌then◌else◌,
}

-- Nanoseconds since Go's zero time, which is 0.
abbrev pub Time : Type 0
Time = ℕ

pub record PodRecord : Type 0 where
  pub name : String
  pub address : String
  pub last_address : String
  pub container_port : ℤ
  pub node : String
  pub workload_namespace : String
  pub workload_name : String
  pub migrating : Bool
  pub checkpoint_dir : String
  pub checkpoint_ready : Bool
  pub dest_registered : Bool
  pub restored : Bool
  pub process_migration : Bool
  pub volume_migration : Bool
  pub sync_rounds : ℤ
  pub sync_round : ℤ
  pub dest_address : String
  pub registrations : ℕ
  pub registered_at : Time
  pub last_seen : Time

-- PodRecord{}
abbrev pub zero_record : PodRecord
zero_record = record {
  name = "";
  address = "";
  last_address = "";
  container_port = pos 0;
  node = "";
  workload_namespace = "";
  workload_name = "";
  migrating = false;
  checkpoint_dir = "";
  checkpoint_ready = false;
  dest_registered = false;
  restored = false;
  process_migration = false;
  volume_migration = false;
  sync_rounds = pos 0;
  sync_round = pos 0;
  dest_address = "";
  registrations = 0;
  registered_at = 0;
  last_seen = 0;
}

abbrev pub Registry : Type 0
Registry = Map PodRecord

abbrev pub new : Registry
new = []

-- The record of a first registration.
fresh_record : String → String → ℤ → Time → PodRecord
fresh_record name address port now = record zero_record {
  name = name;
  address = address;
  container_port = port;
  registrations = 1;
  registered_at = now;
  last_seen = now;
}

is_zero_port : ℤ → Bool
is_zero_port (pos n) = elim n [ ℕ.zero ↦ true | suc m ↦ false ]
is_zero_port _ = false

-- The record of a pod that registers again.
reregistered : String → ℤ → Time → PodRecord → PodRecord
unfolding is_zero_port
reregistered address port now rec = record rec {
  last_address = rec.address;
  address = address;
  container_port = if is_zero_port port then rec.container_port else port;
  registrations = suc rec.registrations;
  last_seen = now;
  dest_registered = if rec.migrating then true else rec.dest_registered;
  dest_address = if rec.migrating then join_host_port address port else rec.dest_address;
}

-- Register: the record before the call, whether the pod was unknown, and the registry after.
unfoldable pub register : String → String → ℤ → Time → Registry → (PodRecord × Bool) × Registry
unfolding fresh_record reregistered
register name address port now r = elim (lookup name r) [
  | none ↦ ((zero_record, true), insert name (fresh_record name address port now) r)
  | some rec ↦ ((rec, false), insert name (reregistered address port now rec) r)
]

-- Get
unfoldable pub get : String → Registry → Option PodRecord
get name r = lookup name r

-- Delete
unfoldable pub delete : String → Registry → Registry
delete name r = remove name r

pub record ArmInfo : Type 0 where
  pub checkpoint_dir : String
  pub process_migration : Bool
  pub volume_migration : Bool
  pub sync_rounds : ℤ

armed : ArmInfo → PodRecord → PodRecord
armed info rec = record rec {
  migrating = true;
  checkpoint_dir = if info.checkpoint_dir == "" then rec.checkpoint_dir else info.checkpoint_dir;
  process_migration = info.process_migration;
  volume_migration = info.volume_migration;
  sync_rounds = info.sync_rounds;
}

-- Arm
unfoldable pub arm : String → ArmInfo → Time → Registry → Registry
unfolding armed
arm name info now r = elim (lookup name r) [
  | none ↦ insert name (armed info (record zero_record { name = name; registered_at = now })) r
  | some rec ↦ insert name (armed info rec) r
]

disarmed : PodRecord → PodRecord
disarmed rec = record rec {
  migrating = false;
  checkpoint_ready = false;
  dest_registered = false;
  restored = false;
  sync_rounds = pos 0;
  sync_round = pos 0;
  dest_address = "";
}

-- Applies a change to the record of a known pod, and says whether the pod is known.
abbrev change : String → (PodRecord → PodRecord) → Registry → Bool × Registry
change name f r = elim (lookup name r) [
  | none ↦ (false, r)
  | some rec ↦ (true, insert name (f rec) r)
]

-- Disarm
unfoldable pub disarm : String → Registry → Registry
unfolding disarmed
disarm name r = (change name disarmed r).1

-- RecordSyncRound
unfoldable pub record_sync_round : String → ℤ → Registry → Bool × Registry
record_sync_round name round =
    change name
      λ rec. record rec { sync_round = if ltℤ rec.sync_round round then round else rec.sync_round }

-- NeedsCheckpoint
unfoldable pub needs_checkpoint : String → Registry → Bool × Bool
needs_checkpoint name r = elim (lookup name r) [
  | none ↦ (false, false)
  | some rec ↦ (rec.migrating, true)
]

-- MarkCheckpointReady
unfoldable pub mark_checkpoint_ready : String → String → Registry → Bool × Registry
mark_checkpoint_ready name dir = change name λ rec. record rec {
  checkpoint_ready = true;
  checkpoint_dir = if dir == "" then rec.checkpoint_dir else dir;
}

-- MarkRestored
unfoldable pub mark_restored : String → Registry → Bool × Registry
mark_restored name = change name λ rec. record rec { restored = true }

-- SetWorkload
unfoldable pub set_workload : String → String → String → Registry → Registry
set_workload pod namespace workload r =
    (change pod (λ rec. record rec { workload_namespace = namespace; workload_name = workload })
      r).1

-- SetNode
unfoldable pub set_node : String → String → Registry → Registry
set_node pod node r = (change pod (λ rec. record rec { node = node }) r).1

seed_one : PodRecord → Registry → Registry
seed_one rec r = elim (lookup rec.name r) [ none ↦ insert rec.name rec r | some _ ↦ r ]

-- Seed
unfoldable pub seed : List PodRecord → Registry → Registry
unfolding seed_one
seed [] r = r
seed (rec ∷ rest) r = seed rest (seed_one rec r)
