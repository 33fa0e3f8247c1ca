-- ===== src/RestApi/Agents.antt =====
-- The endpoints that Execution Agents call, in operator/pkg/restapi/handlers.go. A handler that calls
-- the registry twice lets go of its lock in between: `others` is what other callers do to the registry
-- there.
pub mod Handoff
pub mod Requests
use mycedrive_k8s.Base.{
  Bool, true, false, Option, none, some, List, String, lookup, ℤ, pos, ◌-ℤ◌, ltℤ, ◌==◌,
  if◌then◌else◌,
}
use mycedrive_k8s.Registry.{
  Time, PodRecord, zero_record, Registry, register, get, record_sync_round, mark_checkpoint_ready,
  mark_restored,
}
use mycedrive_k8s.Registry.Ops.{Op, run}
use mycedrive_k8s.RestApi.{
  Message, RemoveResponse, PollStatus, pod_name_required, pod_name_query_required, Response, error,
  registered, removal, copy_initiated, restored, sync_recorded, polled, write_json, status_ok,
  status_created, status_bad_request, bad_body, unknown_pod,
}

-- `rec, _ := Get(name)`
abbrev or_zero : Option PodRecord → PodRecord
or_zero none = zero_record
or_zero (some rec) = rec

register_reply : Message → PodRecord × Bool → PodRecord → Response
register_reply msg (prev, true) rec = write_json status_created (
    registered (record {
      pod_name = msg.pod_name;
      pod_address = msg.pod_address;
      container_port = pos 0;
      is_new = true;
      is_mig = false;
      process_migration = rec.process_migration;
      volume_migration = rec.volume_migration;
      checkpoint_dir = "";
      sync_rounds = pos 0;
    }))
register_reply msg (prev, false) rec = write_json status_ok (
    registered (record {
      pod_name = msg.pod_name;
      pod_address = prev.address;
      container_port = msg.container_port;
      is_new = false;
      is_mig = rec.migrating;
      process_migration = rec.process_migration;
      volume_migration = rec.volume_migration;
      checkpoint_dir = rec.checkpoint_dir;
      sync_rounds = rec.sync_rounds;
    }))

-- handleRegister
unfoldable pub handle_register : Option Message → Time → List Op → Registry → Response × Registry
unfolding register_reply
handle_register none now others r = (bad_body, r)
handle_register (some msg) now others r =
    if msg.pod_name == ""
    then (write_json status_bad_request (error pod_name_required), r)
    else let (prev, r₁) = register msg.pod_name msg.pod_address msg.container_port now r in
      let r₂ = run others r₁ in (register_reply msg prev (or_zero (get msg.pod_name r₂)), r₂)

-- handleRemove
unfoldable pub handle_remove : Option String → Registry → Response × Registry
handle_remove none r = (bad_body, r)
handle_remove (some name) r = elim (get name r) [
  | none ↦ (unknown_pod name, r)
  | some rec ↦ (
    write_json status_ok (
        removal (record {
          needs_checkpoint = rec.migrating;
          process_migration = rec.process_migration;
          volume_migration = rec.volume_migration;
          dest_address = if rec.migrating then rec.dest_address else "";
        })),
    r,
  )
]

-- handleCopy
unfoldable pub handle_copy : Option (String × String) → Registry → Response × Registry
handle_copy none r = (bad_body, r)
handle_copy (some (name, dir)) r =
    let (known, r₁) = mark_checkpoint_ready name dir r in
    (if known then write_json status_ok (copy_initiated name) else unknown_pod name, r₁)

-- The rounds that are left, never below zero.
remaining : PodRecord → ℤ
unfolding ◌-ℤ◌
remaining rec =
    let left = rec.sync_rounds -ℤ rec.sync_round in if ltℤ left (pos 0) then pos 0 else left

-- handleSync
unfoldable pub handle_sync : Option (String × ℤ) → List Op → Registry → Response × Registry
unfolding remaining
handle_sync none others r = (bad_body, r)
handle_sync (some (name, round)) others r =
    let (known, r₁) = record_sync_round name round r in
    if known
    then (let r₂ = run others r₁ in
        let rec = or_zero (get name r₂) in
        (write_json status_ok (sync_recorded name rec.sync_round (remaining rec)), r₂))
    else (unknown_pod name, r₁)

-- handleRestored
unfoldable pub handle_restored : Option String → Registry → Response × Registry
handle_restored none r = (bad_body, r)
handle_restored (some name) r =
    let (known, r₁) = mark_restored name r in
    (if known then write_json status_ok (restored name) else unknown_pod name, r₁)

-- handlePoll
unfoldable pub handle_poll : String → Registry → Response × Registry
handle_poll name r =
    if name == ""
    then (write_json status_bad_request (error pod_name_query_required), r)
    else elim (get name r) [
      | none ↦ (unknown_pod name, r)
      | some rec ↦ (
        write_json status_ok (
            polled (record {
              pod_name = rec.name;
              migrating = rec.migrating;
              process_migration = rec.process_migration;
              volume_migration = rec.volume_migration;
              checkpoint_dir = rec.checkpoint_dir;
              sync_rounds = rec.sync_rounds;
              sync_round = rec.sync_round;
            })),
        r,
      )
    ]
