-- ===== src/Agent/Target/Tests.antt =====
-- The start of an agent on concrete sites, and the theorems at them.
use mycedrive_k8s.Base.{
  ◌+◌, ◌*◌, ◌≤◌, ◌≡◌, refl, Bool, true, false, Option, none, some, List, [], ◌∷◌, ◌++◌, map, String,
  length, arith, pos, ◌==◌, if◌then◌else◌, All,
}
use mycedrive_k8s.Base.Triple.{IsGood}
use mycedrive_k8s.Transfer.{FrameHeader}
use mycedrive_k8s.Transfer.Exchange.Session.{Item, IsSendable, connection_of, done_connection}
use mycedrive_k8s.Overlay.State.{works}
use mycedrive_k8s.Dmtcp.States.{half_second}
use mycedrive_k8s.Dmtcp.{new_handler}
use mycedrive_k8s.Agent.Target.{Message, Target, Site, run_migration_target, run_agent}
use mycedrive_k8s.Agent.Target.Held.{HoldsAll}
use mycedrive_k8s.Agent.Target.Layers.{run_migration_target-HoldsAll}
use mycedrive_k8s.Agent.Target.Marker.{IsHonest, run_agent-marker, run_agent-IsHonest}

-- The layer u3 and the file a.
abbrev items : List Item
items =
    record {
      header = record { kind = 0; ordinal = pos 3; name = 117 ∷ 51 ∷ [] };
      payload = 31 ∷ 139 ∷ [];
    }
    ∷ record { header = record { kind = 1; ordinal = pos 0; name = 97 ∷ [] }; payload = 31 ∷ [] }
    ∷ []

items-IsSendable : All IsSendable items
items-IsSendable = (
  record { kind_fits = omega arith; not_done = refl; name_fits = omega arith },
  (record { kind_fits = omega arith; not_done = refl; name_fits = omega arith }, tt),
)

abbrev fresh_answer : Message
fresh_answer = record {
  pod_name = "web-0";
  pod_address = "10.0.0.2:2486";
  container_port = pos 2486;
  is_new = true;
  is_mig = false;
  process_migration = true;
  volume_migration = true;
}

abbrev site : Message → Site
site answer = record {
  env = λ name. if name == "POD_NAME" then "web-0" else "";
  volume = λ calls c. works;
  layer = λ payload calls c. works;
  extracts = λ files payload. true;
  shell = record {
    runs = λ calls c. true;
    files = λ calls. some ("/c/a.dmtcp" ∷ []);
    mod_time = λ calls file. some 1;
    clock = λ calls. half_second * length calls;
  };
  write_marker = works;
  remove_marker = true;
  listens = true;
  register = λ message. some answer;
  connections = map connection_of items ++ done_connection ∷ [];
}

abbrev start : Bool → Target
start marker = record {
  manager = record { level = 0; entries = []; delivered = []; calls = [] };
  process = record { handler = new_handler "/c"; calls = [] };
  files = [];
  marker = marker;
  layers = 0;
  file_count = 0;
}

run_migration_target-HoldsAll_example :
    let ended = run_migration_target (site fresh_answer) "/c" true true (start false) in
    IsGood (λ end. HoldsAll items) ended.0 ended.1
run_migration_target-HoldsAll_example =
    run_migration_target-HoldsAll (site fresh_answer) items [] "/c" true true (start false) refl
      items-IsSendable

-- The marker of a restore before is still there.
run_agent-marker_example : (run_agent (site fresh_answer) [] (start true)).1.marker ≡ true
run_agent-marker_example = run_agent-marker (site fresh_answer) [] (start true) refl

run_agent-IsHonest_example :
    let ended = run_agent (site (record fresh_answer { is_mig = true })) [] (start false) in
    IsHonest ended.0 ended.1
run_agent-IsHonest_example =
    run_agent-IsHonest (site (record fresh_answer { is_mig = true })) refl refl [] (start false)
      refl

abbrev is_some {ℓ} : {A : Type ℓ} → Option A → Bool
is_some none = false
is_some (some a) = true

restores : is_some (run_migration_target (site fresh_answer) "/c" true true (start false)).0 ≡ true
unfolding run_migration_target mycedrive_k8s.Overlay.State.◌>>=◌
    mycedrive_k8s.Transfer.Exchange.receive_all mycedrive_k8s.Transfer.read_frame_header
    mycedrive_k8s.Transfer.write_frame_header mycedrive_k8s.Transfer.decode
    mycedrive_k8s.Base.Action.zoom mycedrive_k8s.Overlay.receive_checkpoint
    mycedrive_k8s.Overlay.State.perform mycedrive_k8s.Overlay.State.gets
    mycedrive_k8s.Overlay.State.effect mycedrive_k8s.Overlay.State.pure
    mycedrive_k8s.Transfer.Exchange.send_done_frame mycedrive_k8s.Overlay.State.set_level
    mycedrive_k8s.Base.Action.modify mycedrive_k8s.Base.Action.attempt
    mycedrive_k8s.Dmtcp.list_checkpoints mycedrive_k8s.Dmtcp.States.ask
    mycedrive_k8s.Dmtcp.States.set_state mycedrive_k8s.Dmtcp.exec_restart
    mycedrive_k8s.Dmtcp.restart_command mycedrive_k8s.Overlay.init_volume
restores = refl
