-- ===== src/Agent/Tests.antt =====
-- The preStop hook on a concrete system, and the theorems at it.
use mycedrive_k8s.Base.{
  ◌+◌, ◌*◌, ◌≤◌, ◌≡◌, refl, Bool, true, false, Option, none, some, List, [], ◌∷◌, String, length,
  arith, ◌==◌, if◌then◌else◌, eqb,
}
use mycedrive_k8s.Env.{Env}
use mycedrive_k8s.RestApi.{RemoveResponse}
use mycedrive_k8s.Overlay.State.{dir, upper, marker, works, Environment, Manager, has_dir}
use mycedrive_k8s.Overlay.{is_sent}
use mycedrive_k8s.Overlay.Steady.{count, IsBacked}
use mycedrive_k8s.Dmtcp.States.{Shell, Process, half_second}
use mycedrive_k8s.Dmtcp.{new_handler}
use mycedrive_k8s.Agent.Surroundings.{Event, sent_done, posted_copy, Host, World}
use mycedrive_k8s.Agent.{volume_wanted, end_container}
use mycedrive_k8s.Agent.Quiet.{has_news}
use mycedrive_k8s.Agent.Handover.{IsDelivered, end_container-IsDelivered}

abbrev settings : Env
settings name = if name == "VOLUME_ROOT_DIR" then "/www" else ""

abbrev shell : Shell
shell = record {
  runs = λ calls c. true;
  files = λ calls. some ("/c/a.dmtcp" ∷ []);
  mod_time = λ calls file. some (half_second * length calls);
  clock = λ calls. half_second * length calls;
}

abbrev remove_answer : RemoveResponse
remove_answer = record {
  needs_checkpoint = true;
  process_migration = true;
  volume_migration = true;
  dest_address = "b:2486";
}

-- The destination takes all, but the notification of the coordinator fails.
abbrev accepts : List Event → Event → Bool
accepts events (posted_copy copy) = false
accepts events _ = true

abbrev host : Host
host = record {
  env = settings;
  volume = λ events calls c. works;
  shell = λ events. shell;
  remove = λ events pod. some remove_answer;
  accepts = accepts;
}

-- The layer 1 was sent before, and 2 is the writable one.
abbrev start : World
start = record {
  manager = record {
    level = 0;
    entries = dir upper 1 ∷ marker 1 ∷ dir upper 2 ∷ [];
    delivered = 1 ∷ [];
    calls = [];
  };
  process = record { handler = new_handler "/c"; calls = [] };
  events = [];
}

start-IsBacked : IsBacked start.manager
unfolding is_sent count
start-IsBacked n e = ground (arith, e)

announces : has_news (end_container host "web-0" "/c" start).1.events ≡ true
unfolding mycedrive_k8s.Env.env_or mycedrive_k8s.Overlay.State.◌>>=◌
    mycedrive_k8s.Agent.Surroundings.ask mycedrive_k8s.Base.Action.zoom
    mycedrive_k8s.Overlay.discover mycedrive_k8s.Overlay.State.perform
    mycedrive_k8s.Overlay.State.gets mycedrive_k8s.Overlay.State.set_level
    mycedrive_k8s.Overlay.State.effect mycedrive_k8s.Env.env_int
    mycedrive_k8s.Overlay.create_checkpoint mycedrive_k8s.Overlay.State.pure
    mycedrive_k8s.Overlay.copy_checkpoint mycedrive_k8s.Overlay.end_volume
    mycedrive_k8s.Agent.Surroundings.set_handler mycedrive_k8s.Dmtcp.attach_running
    mycedrive_k8s.Dmtcp.States.set_state mycedrive_k8s.Dmtcp.take_checkpoint
    mycedrive_k8s.Dmtcp.States.ask mycedrive_k8s.Dmtcp.wait_for_checkpoint_file
    mycedrive_k8s.Dmtcp.list_checkpoints mycedrive_k8s.Dmtcp.new_handler_from_env new_handler
    end_container mycedrive_k8s.Agent.Surroundings.tell mycedrive_k8s.Base.Action.attempt
    mycedrive_k8s.Dmtcp.latest_of
announces = refl

end_container-IsDelivered_example : IsDelivered (end_container host "web-0" "/c" start).1.manager
end_container-IsDelivered_example =
    end_container-IsDelivered host "web-0" "/c" remove_answer 2 start refl refl
      (unfold volume_wanted mycedrive_k8s.Env.env_or in refl) (omega arith) (unfold has_dir in refl)
      start-IsBacked refl announces
