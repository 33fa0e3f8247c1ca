-- ===== src/Registry/Tests.antt =====
-- Runs of the registry on concrete inputs, and the theorems at such inputs.
use mycedrive_k8s.Base.{◌≡◌, refl, true, List, [], ◌∷◌, pos, negsuc, lookup}
use mycedrive_k8s.Registry.{PodRecord, zero_record, Registry, ArmInfo, new}
use mycedrive_k8s.Registry.Address.{join_host_port}
use mycedrive_k8s.Registry.Ops.{
  Op, registers, arms, reports_sync, reports_copy, disarms, seeds, run,
}
use mycedrive_k8s.Registry.Invariant.{IsConsistent, run-IsConsistent, new-IsConsistent}
use mycedrive_k8s.Registry.Pod.{lookup-run, pod_run}
use mycedrive_k8s.Registry.Rounds.{RoundIs, IsGreatest, reported, sync_round-run}

bare_host : join_host_port "10.0.0.7" (pos 0) ≡ "10.0.0.7:2486"
unfolding join_host_port
bare_host = refl

has_port : join_host_port "10.0.0.7:9000" (pos 80) ≡ "10.0.0.7:9000"
unfolding join_host_port
has_port = refl

ipv6_literal : join_host_port "fd00::1" (pos 8080) ≡ "[fd00::1]:8080"
unfolding join_host_port
ipv6_literal = refl

ipv6_with_port : join_host_port "[fd00::1]:80" (pos 8080) ≡ "[fd00::1]:80"
unfolding join_host_port
ipv6_with_port = refl

abbrev arm_info : ArmInfo
arm_info = record {
  checkpoint_dir = "/ckpt";
  process_migration = true;
  volume_migration = true;
  sync_rounds = pos 2;
}

abbrev seed_record : PodRecord
seed_record = record zero_record { name = "db-0"; address = "10.0.0.9:2486"; registrations = 1 }

abbrev story : List Op
story =
    registers "web-0" "10.0.0.1" (pos 2486) 5
    ∷ seeds (seed_record ∷ [])
    ∷ arms "web-0" arm_info 6
    ∷ reports_sync "web-0" (pos 1)
    ∷ registers "web-0" "10.0.0.2" (pos 0) 7
    ∷ reports_copy "web-0" "/ckpt"
    ∷ disarms "web-0"
    ∷ []

run-IsConsistent_example : IsConsistent (run story new)
run-IsConsistent_example =
    run-IsConsistent story new
      (
        tt,
        (
          (record { keyed = refl; armed_first = λ e. cc; endpoint_of_dest = λ e. refl }, tt),
          (tt, (tt, (tt, (tt, (tt, tt))))),
        ),
      )
      new-IsConsistent

lookup-run_example : lookup "web-0" (run story new) ≡ pod_run "web-0" story (lookup "web-0" new)
lookup-run_example = lookup-run "web-0" story new

abbrev one_pod : Registry
one_pod = ("db-0", seed_record) ∷ []

abbrev reports : List Op
reports =
    reports_sync "db-0" (pos 2)
    ∷ reports_sync "web-0" (pos 9)
    ∷ reports_sync "db-0" (negsuc 4)
    ∷ reports_sync "db-0" (pos 1)
    ∷ []

reports_are : reported "db-0" reports ≡ pos 2 ∷ negsuc 4 ∷ pos 1 ∷ []
unfolding reported
reports_are = refl

sync_round-run_example :
    RoundIs
      (λ x. IsGreatest x (pos 0 ∷ reported "db-0" reports))
      (lookup "db-0" (run reports one_pod))
sync_round-run_example =
    sync_round-run "db-0" reports one_pod seed_record (refl, (refl, (refl, (refl, tt))))
      (unfold lookup in refl)
