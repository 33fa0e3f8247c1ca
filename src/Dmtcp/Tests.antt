-- ===== src/Dmtcp/Tests.antt =====
-- The handler on concrete systems, and the theorems at them.
use mycedrive_k8s.Base.{
  ◌+◌, ◌*◌, ◌≤◌, ◌≡◌, refl, Bool, true, false, Option, none, some, List, [], ◌∷◌, ◌++◌, String,
  length, length-append, All, arith, ◌==◌, if◌then◌else◌,
}
use mycedrive_k8s.Dmtcp.States.{
  Time, Call, now, sleep, Shell, Process, half_second, found, running, idle,
}
use mycedrive_k8s.Dmtcp.{new_handler, wait_for_checkpoint_file, latest_checkpoint_file}
use mycedrive_k8s.Dmtcp.Machine.{Method, checkpoints, restarts, launches, invoke, Did}
use mycedrive_k8s.Dmtcp.Steps.{invoke-Did, run, HasCheckpoints, run-HasCheckpoints}
use mycedrive_k8s.Dmtcp.Waiting.{IsTicking, Ends, wait_for_checkpoint_file-Ends}
use mycedrive_k8s.Dmtcp.Latest.{IsNewest, latest-IsNewest}

-- The clock goes on by half a second with every call, and the second listing finds two files.
abbrev times : String → Option Time
times file = if file == "/c/a.dmtcp" then some 7 else if file == "/c/b.dmtcp" then some 9 else none

abbrev listed : List Call → Option (List String)
listed [] = some []
listed (c ∷ calls) = some ("/c/a.dmtcp" ∷ "/c/b.dmtcp" ∷ "/c/gone.dmtcp" ∷ [])

abbrev system : Shell
system = record {
  runs = λ calls c. true;
  files = listed;
  mod_time = λ calls. times;
  clock = λ calls. half_second * length calls;
}

abbrev start : Process
start = record { handler = new_handler "/c"; calls = now ∷ [] }

ticks : IsTicking system
ticks = record {
  goes_on = λ before between. omega (arith, length-append between (now ∷ before));
  sleeps = λ before between. omega (arith, length-append between (now ∷ before));
}

wait_for_checkpoint_file-Ends_example :
    Ends system
      (system.clock start.calls + 60000000000)
      (wait_for_checkpoint_file system 60000000000 start)
wait_for_checkpoint_file-Ends_example = wait_for_checkpoint_file-Ends system 60000000000 start ticks

latest-IsNewest_example :
    IsNewest times
      ("/c/a.dmtcp" ∷ "/c/b.dmtcp" ∷ "/c/gone.dmtcp" ∷ [])
      (latest_checkpoint_file system start).0
latest-IsNewest_example =
    latest-IsNewest system times ("/c/a.dmtcp" ∷ "/c/b.dmtcp" ∷ "/c/gone.dmtcp" ∷ []) start
      (λ calls file. refl) refl (refl, (refl, (refl, tt)))

abbrev story : List Method
story = launches ("app" ∷ []) ∷ restarts ∷ checkpoints ∷ restarts ∷ []

only_the_second_restart : (run system story start).0 ≡ true ∷ false ∷ true ∷ true ∷ []
unfolding run invoke mycedrive_k8s.Dmtcp.launch mycedrive_k8s.Dmtcp.restart
    mycedrive_k8s.Dmtcp.take_checkpoint mycedrive_k8s.Base.Action.◌>>=◌
    mycedrive_k8s.Base.Action.gets new_handler mycedrive_k8s.Dmtcp.States.ask
    mycedrive_k8s.Dmtcp.States.set_state mycedrive_k8s.Base.Action.raise
    mycedrive_k8s.Base.Action.attempt mycedrive_k8s.Dmtcp.latest_of mycedrive_k8s.Base.Action.pure
only_the_second_restart = refl

invoke-Did_example : Did checkpoints start (invoke system checkpoints start)
invoke-Did_example = invoke-Did system checkpoints start

run-HasCheckpoints_example :
    HasCheckpoints
      (mycedrive_k8s.Dmtcp.is_checkpointed start.handler.state)
      story
      (run system story start).0
run-HasCheckpoints_example = run-HasCheckpoints system story start
