-- ===== src/RestApi/Tests.antt =====
-- The REST theorems at concrete inputs.
use mycedrive_k8s.Base.{◌≡◌, refl, true, false, none, some, List, [], ◌∷◌, ◌++◌, pos, lookup}
use mycedrive_k8s.Registry.{PodRecord, zero_record, Registry, ArmInfo}
use mycedrive_k8s.Registry.Address.{join_host_port}
use mycedrive_k8s.Registry.Ops.{
  registers, arms, reports_sync, reports_copy, reports_restored, disarms, run,
}
use mycedrive_k8s.Registry.Flow.{Leads}
use mycedrive_k8s.RestApi.{Message}
use mycedrive_k8s.RestApi.Agents.{handle_remove}
use mycedrive_k8s.RestApi.Agents.Handoff.{
  stream_to, IsPlainRemoval, remove_after_handoff, remove_after_disarm,
}
use mycedrive_k8s.RestApi.Agents.Requests.{
  Request, post_register, post_copy, post_sync, post_restored, get_poll, serve_all, requests_keep,
}

abbrev web : PodRecord
web = record zero_record { name = "web-0"; address = "10.0.0.1:2486"; registrations = 1 }

abbrev one_pod : Registry
one_pod = ("web-0", web) ∷ []

abbrev arm_info : ArmInfo
arm_info = record {
  checkpoint_dir = "/ckpt";
  process_migration = true;
  volume_migration = false;
  sync_rounds = pos 0;
}

remove_after_handoff_example :
    (handle_remove (some "web-0") (
      run
        (arms "web-0" arm_info 3 ∷ (reports_sync "web-0" (pos 1) ∷ [])
          ++ registers "web-0" "10.0.0.2" (pos 0) 4 ∷ reports_copy "web-0" "" ∷ [])
        one_pod)).0
    ≡ stream_to arm_info (join_host_port "10.0.0.2" (pos 0))
remove_after_handoff_example =
    remove_after_handoff "web-0" "10.0.0.2" (pos 0) arm_info 3 4 (reports_sync "web-0" (pos 1) ∷ [])
      (reports_copy "web-0" "" ∷ []) one_pod (refl, tt) (refl, tt) (refl, tt)

remove_after_disarm_example :
    IsPlainRemoval
      (handle_remove
        (some "web-0")
        (run (disarms "web-0" ∷ reports_restored "web-0" ∷ []) one_pod)).0.body
remove_after_disarm_example =
    remove_after_disarm "web-0" (reports_restored "web-0" ∷ []) one_pod web (unfold lookup in refl)
      (refl, tt)

abbrev hello : Message
hello = record {
  pod_name = "web-0";
  pod_address = "10.0.0.3:2486";
  container_port = pos 2486;
  is_new = true;
  is_mig = false;
  process_migration = true;
  volume_migration = true;
  checkpoint_dir = "";
  sync_rounds = pos 0;
}

abbrev requests : List Request
requests =
    post_register (some hello) 8 (reports_restored "db-0" ∷ [])
    ∷ post_copy none
    ∷ post_sync (some ("web-0", pos 3)) []
    ∷ post_restored (some "web-0")
    ∷ get_poll "web-0"
    ∷ []

requests_keep_example : Leads web (lookup "web-0" (serve_all requests one_pod))
requests_keep_example =
    requests_keep "web-0" requests one_pod web ((refl, tt), (tt, (tt, (tt, (tt, tt)))))
      (unfold lookup in refl)
