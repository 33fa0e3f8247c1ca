-- ===== src/Api.antt =====
-- operator/api/v1alpha1: the custom resources, with the fields that the operator reads or writes. Times
-- are nanoseconds since Go's zero time.
use mycedrive_k8s.Base.{
  ℕ, Bool, true, false, Option, none, some, String, ℤ, pos, ◌==◌, if◌then◌else◌,
}

abbrev pub Time : Type 0
Time = ℕ

-- The kind of the referenced workload; any other text is kept.
pub data Kind : Type 0 where
  stateful_set deployment : Kind
  other_kind : String → Kind

abbrev pub is_stateful_set : Kind → Bool
is_stateful_set stateful_set = true
is_stateful_set _ = false

abbrev pub is_deployment : Kind → Bool
is_deployment deployment = true
is_deployment _ = false

-- MigrationPhase; `unset` is the empty text and `other` any text with no name in the program.
pub data Phase : Type 0 where
  unset pending syncing checkpointing transferring restoring completed failed : Phase
  other : String → Phase

unfoldable pub phase_text : Phase → String
phase_text unset = ""
phase_text pending = "Pending"
phase_text syncing = "Syncing"
phase_text checkpointing = "Checkpointing"
phase_text transferring = "Transferring"
phase_text restoring = "Restoring"
phase_text completed = "Completed"
phase_text failed = "Failed"
phase_text (other text) = text

pub record WorkloadReference : Type 0 where
  pub kind : Kind
  pub name : String

pub record PlacementLabel : Type 0 where
  pub key : String
  pub value : String

pub record WorkloadSpec : Type 0 where
  pub workload_ref : WorkloadReference
  pub placement_label : Option PlacementLabel
  pub checkpoint_dir : String
  pub process_migration : Option Bool
  pub volume_migration : Option Bool
  pub pre_sync_rounds : Option ℤ

-- MigratableWorkload, as far as the Migration controller reads it.
pub record MigratableWorkload : Type 0 where
  pub name : String
  pub namespace : String
  pub spec : WorkloadSpec

pub record MigrationSpec : Type 0 where
  pub workload_name : String
  pub pod_name : String
  pub source_node : String
  pub target_node : String

pub record MigrationStatus : Type 0 where
  pub phase : Phase
  pub message : String
  pub source_pod : String
  pub destination_pod : String
  pub checkpoint_dir : String
  pub process_migration : Bool
  pub volume_migration : Bool
  pub sync_rounds : ℤ
  pub sync_round : ℤ
  pub scaled_up : Bool
  pub start_time : Option Time
  pub completion_time : Option Time
  pub last_transition_time : Option Time

-- Migration; `deleted` is a deletion timestamp that is set, and `finalizer` the operator's own.
pub record Migration : Type 0 where
  pub name : String
  pub namespace : String
  pub deleted : Bool
  pub finalizer : Bool
  pub creation_time : Time
  pub spec : MigrationSpec
  pub status : MigrationStatus

abbrev pub default_placement_label : PlacementLabel
default_placement_label = record { key = "mig-ready"; value = "true" }

abbrev pub default_checkpoint_dir : String
default_checkpoint_dir = "/dmtcp/checkpoints"

abbrev or_text : String → String → String
or_text text default = if text == "" then default else text

abbrev pub enabled_by : Option Bool → Bool
enabled_by none = true
enabled_by (some b) = b

-- EffectivePlacementLabel
unfoldable pub effective_placement_label : MigratableWorkload → PlacementLabel
effective_placement_label mw = elim mw.spec.placement_label [
  | none ↦ default_placement_label
  | some label ↦ record {
    key = or_text label.key default_placement_label.key;
    value = or_text label.value default_placement_label.value;
  }
]

-- EffectiveCheckpointDir
unfoldable pub effective_checkpoint_dir : MigratableWorkload → String
effective_checkpoint_dir mw = or_text mw.spec.checkpoint_dir default_checkpoint_dir

-- ProcessMigrationEnabled
unfoldable pub process_migration_enabled : MigratableWorkload → Bool
process_migration_enabled mw = enabled_by mw.spec.process_migration

-- VolumeMigrationEnabled
unfoldable pub volume_migration_enabled : MigratableWorkload → Bool
volume_migration_enabled mw = enabled_by mw.spec.volume_migration

-- EffectivePreSyncRounds
unfoldable pub effective_pre_sync_rounds : MigratableWorkload → ℤ
effective_pre_sync_rounds mw = pos 0

abbrev pub is_terminal_phase : Phase → Bool
is_terminal_phase completed = true
is_terminal_phase failed = true
is_terminal_phase _ = false

-- IsTerminal
unfoldable pub is_terminal : MigrationStatus → Bool
is_terminal status = is_terminal_phase status.phase
