-- ===== src/RestApi/Agents/Handoff.antt =====
-- How the source agent learns where to stream its checkpoint: the controller arms the pod, the
-- destination registers under the same name, and the source asks with POST /remove.
use mycedrive_k8s.Base.{
  true, false, some, List, ◌∷◌, ◌++◌, ◌≡◌, inl, inr, String, lookup, ℤ, Option-cases, arith,
}
use mycedrive_k8s.Registry.{Time, PodRecord, Registry, ArmInfo, get}
use mycedrive_k8s.Registry.Address.{join_host_port}
use mycedrive_k8s.Registry.Ops.{registers, arms, disarms, Op, run, FromAgents}
use mycedrive_k8s.Registry.Pod.{pod_run, lookup-run, pod_run-append}
use mycedrive_k8s.Registry.Endpoint.{
  NoRegister, HasEndpoint, On, arm-IsArmed, run-IsArmed, register-HasEndpoint, run-HasEndpoint,
  IsIdle, disarm-IsIdle, run-IsIdle,
}
use mycedrive_k8s.RestApi.{Body, Response, removal, write_json, status_ok}
use mycedrive_k8s.RestApi.Agents.{handle_remove}

-- The answer of POST /remove about an armed pod whose destination is known.
abbrev pub stream_to : ArmInfo → String → Response
stream_to info endpoint = write_json status_ok (
    removal (record {
      needs_checkpoint = true;
      process_migration = info.process_migration;
      volume_migration = info.volume_migration;
      dest_address = endpoint;
    }))

remove-HasEndpoint :
    (k endpoint : String) (info : ArmInfo) (r : Registry)
    → On (HasEndpoint info endpoint) (lookup k r)
    → (handle_remove (some k) r).0 ≡ stream_to info endpoint
unfolding handle_remove get
remove-HasEndpoint k endpoint info r h = elim (Option-cases (lookup k r)) [
  | inl unknown ↦ absurd (rw unknown at h)
  | inr (rec, known) ↦
      let e : HasEndpoint info endpoint rec = rw known at h in
      rw (known, handle_remove) (ground (arith, e.is_armed))
]

-- After the controller arms a pod and, later, a destination registers under its name, POST /remove
-- tells the source to checkpoint by the toggles of the arming and to stream to the endpoint that
-- `joinHostPort` makes of that registration. Agents may call anything in between, and afterwards
-- anything but another registration of the pod.
pub remove_after_handoff :
    (k address : String) (port : ℤ) (info : ArmInfo) (t t' : Time) (between after : List Op)
    (r : Registry)
    → FromAgents between
    → FromAgents after
    → NoRegister k after
    → (handle_remove
        (some k)
        (run (arms k info t ∷ between ++ registers k address port t' ∷ after) r)).0
      ≡ stream_to info (join_host_port address port)
remove_after_handoff k address port info t t' between after r hb ha na =
    remove-HasEndpoint k (join_host_port address port) info _ (
      rw lookup-run (
        unfold pod_run in
        rw pod_run-append (
          run-HasEndpoint k (join_host_port address port) info after _ ha na (
            register-HasEndpoint k address port t' info _
              (run-IsArmed k info between _ hb (arm-IsArmed k info t (lookup k r)))))))

-- The answer of POST /remove about a pod that no migration targets.
abbrev pub IsPlainRemoval : Body → Type 0
IsPlainRemoval (removal resp) = (resp.needs_checkpoint ≡ false) × (resp.dest_address ≡ "")
IsPlainRemoval _ = ⊥

remove-IsIdle :
    (k : String) (r : Registry)
    → On IsIdle (lookup k r)
    → IsPlainRemoval (handle_remove (some k) r).0.body
unfolding handle_remove get
remove-IsIdle k r h = elim (Option-cases (lookup k r)) [
  | inl unknown ↦ absurd (rw unknown at h)
  | inr (rec, known) ↦
      let e : IsIdle rec = rw known at h in rw (known, handle_remove, IsPlainRemoval) (ground arith)
]

-- After the controller disarms a known pod, POST /remove asks for no checkpoint and gives no
-- endpoint, whatever agents call in the meantime: nobody but the controller starts a migration.
pub remove_after_disarm :
    (k : String) (ops : List Op) (r : Registry) (rec : PodRecord)
    → lookup k r ≡ some rec
    → FromAgents ops
    → IsPlainRemoval (handle_remove (some k) (run (disarms k ∷ ops) r)).0.body
remove_after_disarm k ops r rec known h =
    remove-IsIdle k _
      (rw lookup-run (unfold pod_run in rw known (run-IsIdle k ops _ h (disarm-IsIdle k rec))))
