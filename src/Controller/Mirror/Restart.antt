-- ===== src/Controller/Mirror/Restart.antt =====
-- operator/internal/controller/migratableworkload_controller.go: what of a registration survives a
-- restart of the operator, by way of the mirror.
use mycedrive_k8s.Base.{
  true, false, Option, none, some, List, [], ◌∷◌, ◌++◌, ◌≡◌, refl, sym, ◌∙◌, subst, String, pos,
  to_int32, ◌==◌, if◌then◌else◌, lookup, arith, map, Bool-cases, inl, inr,
}
use mycedrive_k8s.Api.{Time, MigratableWorkload}
use mycedrive_k8s.Registry.{PodRecord, Registry, new, get}
use mycedrive_k8s.Registry.Ops.{Op, run}
use mycedrive_k8s.Registry.Listing.{list, first_named, first_named-list, run-IsKeyed, lookup-seed}
use mycedrive_k8s.RestApi.{removal, write_json, status_ok}
use mycedrive_k8s.RestApi.Agents.{handle_remove}
use mycedrive_k8s.Controller.Cluster.{ok}
use mycedrive_k8s.Controller.Mirror.{
  RegisteredPod, WorkloadStatus, WorkloadObject, Server, is_mirrored, registered_pod, mirror,
  seeded_record, seeded_of, seeded_records, seed_registry, again, reconcile_workload,
}
use mycedrive_k8s.Controller.Mirror.Pass.{left_by, pass-pods}

abbrev stored : (Time → Time) → RegisteredPod → RegisteredPod
stored kept p = record p {
  registered_at = elim p.registered_at [ none ↦ none | some time ↦ some (kept time) ];
}

-- The status as the API server gives it back: `kept` is what it keeps of a time.
abbrev pub read_back : (Time → Time) → WorkloadObject → WorkloadStatus → WorkloadObject
read_back kept object status = record object {
  status = record status { registered_pods = map (stored kept) status.registered_pods };
}

-- What is kept of a time where the pass wrote a status; a status that was there already is read as it is.
abbrev pub as_read : (Time → Time) → Option WorkloadStatus → Time → Time
as_read kept none time = time
as_read kept (some status) time = kept time

-- The registry of a new operator, from the status that a pass leaves with the API server, written or not,
-- and the other workloads after it.
abbrev pub restarted :
    Time → (Time → Time) → Server → WorkloadObject → List WorkloadObject → Registry → Registry
restarted now kept server object others r =
    let wrote = (reconcile_workload server r).0.1 in
    seed_registry now (some (read_back (as_read kept wrote) object (left_by object wrote) ∷ others))
      new

-- What is left of a record.
abbrev pub survivor : Time → (Time → Time) → MigratableWorkload → PodRecord → PodRecord
survivor now kept mw rec = record {
  name = rec.name;
  address = rec.address;
  last_address = "";
  container_port = to_int32 rec.container_port;
  node = rec.node;
  workload_namespace = mw.namespace;
  workload_name = mw.name;
  migrating = rec.migrating;
  checkpoint_dir = rec.checkpoint_dir;
  checkpoint_ready = rec.checkpoint_ready;
  dest_registered = false;
  restored = rec.restored;
  process_migration = false;
  volume_migration = false;
  sync_rounds = pos 0;
  sync_round = pos 0;
  dest_address = "";
  registrations = 1;
  registered_at = kept rec.registered_at;
  last_seen = now;
}

first_named-append :
    (name : String) (rec : PodRecord) (xs ys : List PodRecord)
    → first_named name xs ≡ some rec
    → first_named name (xs ++ ys) ≡ some rec
unfolding first_named
first_named-append name rec [] ys h = absurd (ground (arith, h))
first_named-append name rec (x ∷ xs) ys h = ground (arith, h, first_named-append name rec xs ys)

module _ (now : Time) (kept : Time → Time) (mw : MigratableWorkload) where
  -- The records that a new operator makes of the mirror of `recs`.
  abbrev seeds_of : List PodRecord → Registry → List PodRecord
  seeds_of recs r = seeded_of now mw (map (stored kept) (mirror mw recs r).0)

  first_named-mirror :
      (name : String) (rec : PodRecord) (recs : List PodRecord) (r : Registry)
      → first_named name recs ≡ some rec
      → is_mirrored mw rec ≡ true
      → first_named name (seeds_of recs r) ≡ some (survivor now kept mw rec)
  unfolding first_named mirror seeded_record registered_pod
  first_named-mirror name rec [] r found mine = absurd (ground (arith, found))
  first_named-mirror name rec (here ∷ rest) r found mine = elim (Bool-cases (here.name == name)) [
    | inl same ↦
        let is : here ≡ rec = ground (arith, found, same) in
        let mine' : is_mirrored mw here ≡ true =
          subst (λ x. is_mirrored mw x ≡ true) (sym is) mine in
        subst (λ x. first_named name (seeds_of (here ∷ rest) r) ≡ some (survivor now kept mw x)) is
          (rw (mine', same) refl)
    | inr other ↦ elim (Bool-cases (is_mirrored mw here)) [
      | inl taken ↦
          rw (taken, other) (first_named-mirror name rec rest _ (ground (arith, found, other)) mine)
      | inr skipped ↦
          rw skipped (first_named-mirror name rec rest _ (ground (arith, found, other)) mine)
    ]
  ]

-- After any calls on the registry, a pass over a workload that is there and not deleted which ends
-- without an error, whether it wrote the status or found it unchanged, and a restart of the operator: a pod
-- of the workload has its registration again, with its address, its port as an int32, its node, its
-- workload, whether it is migrating, its checkpoint directory and its ready and restored flags. The rest
-- of its record is that of a pod that registered once: the toggles, the sync progress and the destination
-- are gone. The workload is the first of those that the new operator lists.
pub restart-lookup :
    (ops : List Op) (name : String) (rec : PodRecord) (server : Server) (object : WorkloadObject)
    (others : List WorkloadObject) (now : Time) (kept : Time → Time)
    → lookup name (run ops new) ≡ some rec
    → is_mirrored object.resource rec ≡ true
    → server.object ≡ ok object
    → object.deleted ≡ false
    → (reconcile_workload server (run ops new)).0.0 ≡ again
    → lookup name (restarted now kept server object others (run ops new))
      ≡ some (
          survivor now
            (as_read kept (reconcile_workload server (run ops new)).0.1)
            object.resource
            rec)
unfolding seed_registry seeded_records
restart-lookup ops name rec server object others now kept known mine there live good =
    let r = run ops new in
    let k = as_read kept (reconcile_workload server r).0.1 in
    lookup-seed name _
    ∙ subst
        (λ pods.
          first_named name
            (seeded_of now object.resource (map (stored k) pods) ++ seeded_records now others)
          ≡ some (survivor now k object.resource rec))
        (sym (pass-pods server object r there live good))
        (first_named-append name (survivor now k object.resource rec) _ (seeded_records now others)
          (first_named-mirror now k object.resource name rec (list r) r
            (first_named-list name r (run-IsKeyed ops new tt) ∙ known) mine))

removal_of :
    (name : String) (rec : PodRecord) (r : Registry)
    → lookup name r ≡ some rec
    → (handle_remove (some name) r).0
      ≡ write_json status_ok (
          removal (record {
            needs_checkpoint = rec.migrating;
            process_migration = rec.process_migration;
            volume_migration = rec.volume_migration;
            dest_address = if rec.migrating then rec.dest_address else "";
          }))
unfolding handle_remove get
removal_of name rec r known = rw (known, handle_remove) refl

-- A restart of the operator while a migration is armed, after a pass over the pod's workload, there and
-- not deleted, which ended without an error, with that workload listed first: then POST /remove still
-- tells the source to checkpoint, but with both mechanisms off and no destination.
pub restart-remove :
    (ops : List Op) (name : String) (rec : PodRecord) (server : Server) (object : WorkloadObject)
    (others : List WorkloadObject) (now : Time) (kept : Time → Time)
    → lookup name (run ops new) ≡ some rec
    → is_mirrored object.resource rec ≡ true
    → rec.migrating ≡ true
    → server.object ≡ ok object
    → object.deleted ≡ false
    → (reconcile_workload server (run ops new)).0.0 ≡ again
    → (handle_remove (some name) (restarted now kept server object others (run ops new))).0
      ≡ write_json status_ok (
          removal (record {
            needs_checkpoint = true;
            process_migration = false;
            volume_migration = false;
            dest_address = "";
          }))
restart-remove ops name rec server object others now kept known mine armed there live good =
    let after : PodRecord =
      survivor now (as_read kept (reconcile_workload server (run ops new)).0.1) object.resource
        rec in
    removal_of name after _
      (restart-lookup ops name rec server object others now kept known mine there live good)
    ∙ subst
        (λ b.
          write_json status_ok (
            removal (record {
              needs_checkpoint = b;
              process_migration = false;
              volume_migration = false;
              dest_address = if b then "" else "";
            }))
          ≡ write_json status_ok (
              removal (record {
                needs_checkpoint = true;
                process_migration = false;
                volume_migration = false;
                dest_address = "";
              })))
        (sym armed) refl
