-- ===== src/RestApi.antt =====
-- operator/pkg/restapi: the Migration Coordinator's REST API. This file has what every handler
-- shares: the answer that it writes, as the status code and the JSON document by its fields. A
-- request body is the value that `decodeJSON` makes of it, or `none` where decoding fails.
pub mod Agents
pub mod Migrate
pub mod Queries
pub mod Metrics
mod Tests
use mycedrive_k8s.Base.{ℕ, Bool, String, ℤ}

-- The `/register` document.
pub record Message : Type 0 where
  pub pod_name : String
  pub pod_address : String
  pub container_port : ℤ
  pub is_new : Bool
  pub is_mig : Bool
  pub process_migration : Bool
  pub volume_migration : Bool
  pub checkpoint_dir : String
  pub sync_rounds : ℤ

pub record RemoveResponse : Type 0 where
  pub needs_checkpoint : Bool
  pub process_migration : Bool
  pub volume_migration : Bool
  pub dest_address : String

pub record PollStatus : Type 0 where
  pub pod_name : String
  pub migrating : Bool
  pub process_migration : Bool
  pub volume_migration : Bool
  pub checkpoint_dir : String
  pub sync_rounds : ℤ
  pub sync_round : ℤ

-- The texts of the error answers.
pub data ErrorText : Type 0 where
  invalid_body pod_name_required pod_name_query_required migrate_fields_required : ErrorText
  not_registered : String → ErrorText

pub data Body : Type 0 where
  error : ErrorText → Body
  registered : Message → Body
  removal : RemoveResponse → Body
  copy_initiated restored : String → Body
  sync_recorded : String → ℤ → ℤ → Body
  polled : PollStatus → Body

pub record Response : Type 0 where
  pub status : ℕ
  pub body : Body

-- writeJSON
abbrev pub write_json : ℕ → Body → Response
write_json code body = record { status = code; body = body }

abbrev pub status_ok : ℕ
status_ok = 200

abbrev pub status_created : ℕ
status_created = 201

abbrev pub status_bad_request : ℕ
status_bad_request = 400

abbrev pub status_not_found : ℕ
status_not_found = 404

-- The answer where `decodeJSON` fails.
abbrev pub bad_body : Response
bad_body = write_json status_bad_request (error invalid_body)

abbrev pub unknown_pod : String → Response
unknown_pod name = write_json status_not_found (error (not_registered name))
