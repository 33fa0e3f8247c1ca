-- ===== src/History/Types.antt =====
-- The data of operator/pkg/history/history.go. Times are nanoseconds since Go's zero time, which is 0.
use mycedrive_k8s.Base.{
  ℕ, ◌-◌, ◌/◌, Bool, true, ◌||◌, Option, List, String, leb, ℤ, pos, sub_ℕ, ◌==◌, if◌then◌else◌,
}

abbrev pub Time : Type 0
Time = ℕ

abbrev pub default_limit : ℕ
default_limit = 100

abbrev pub phase_completed : String
phase_completed = "Completed"

abbrev pub phase_failed : String
phase_failed = "Failed"

-- a.Sub(b).Milliseconds(), which rounds towards zero.
unfoldable pub millis_between : Time → Time → ℤ
millis_between a b = if leb b a then pos ((a - b) / 1000000) else sub_ℕ 0 ((b - a) / 1000000)

-- Accessible
unfoldable pub accessible : String → Bool
accessible phase =
    if phase == ""
    then true
    else if phase == "Pending"
    then true
    else if phase == "Syncing"
    then true
    else phase == "Completed"

pub record Step : Type 0 where
  pub phase : String
  pub message : String
  pub started_at : Time
  pub ended_at : Option Time
  pub duration_ms : ℤ
  pub is_accessible : Bool

pub record Record : Type 0 where
  pub name : String
  pub namespace : String
  pub workload : String
  pub source_pod : String
  pub destination_pod : String
  pub source_node : String
  pub target_node : String
  pub process_migration : Bool
  pub volume_migration : Bool
  pub phase : String
  pub message : String
  pub is_accessible : Bool
  pub started_at : Time
  pub completed_at : Option Time
  pub total_ms : ℤ
  pub downtime_ms : ℤ
  pub steps : List Step
  pub seeded : Bool

-- terminal
unfoldable pub terminal : Record → Bool
terminal rec = (rec.phase == phase_completed) || (rec.phase == phase_failed)

pub record Transition : Type 0 where
  pub namespace : String
  pub name : String
  pub workload : String
  pub source_pod : String
  pub destination_pod : String
  pub source_node : String
  pub target_node : String
  pub process_migration : Bool
  pub volume_migration : Bool
  pub phase : String
  pub message : String
  pub time : Time
