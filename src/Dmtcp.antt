-- ===== src/Dmtcp.antt =====
-- go-agent/dmtcp/handler.go: the handler of a DMTCP coordinator. The commands that it runs, the files of
-- the checkpoint directory and the clock are a parameter, `Shell`. The handler's field coordinatorCmd is
-- never used and left out, and so are the texts of errors and of the log.
pub mod States
mod Reads
mod Machine
pub mod Steps
pub mod Waiting
pub mod Latest
mod Tests
use mycedrive_k8s.Base.{
  ℕ, suc, ◌+◌, ◌/◌, Bool, true, false, ◌&&◌, Option, none, some, List, [], ◌∷◌, ◌++◌, String, ltb,
  ℤ, pos, leℤ, itoa, atoi, ◌==◌, if◌then◌else◌,
}
use mycedrive_k8s.Base.Action.{Action, go_on, ◌>>=◌, ◌>>◌, pure, raise, gets, attempt}
use mycedrive_k8s.Env.{Env}
use States.{
  Time, CheckpointState, idle, running, checkpoint, checkpointed, restoring, error, Handler, Call,
  run_checkpoint, start_restart, start_launch, look_path, exec, glob, stat, now, sleep, Shell,
  Process, Dmtcp, set_state, ask, coord_args, Wait, found, timed_out, out_of_fuel, half_second,
}

-- NewHandler
unfoldable pub new_handler : String → Handler
new_handler dir = record {
  coord_host = "127.0.0.1";
  coord_port = pos 7779;
  checkpoint_dir = dir;
  state = idle;
}

abbrev port_or : ℤ → Option ℤ → ℤ
port_or def none = def
port_or def (some p) = if leℤ p (pos 0) then def else if leℤ p (pos 65535) then p else def

-- NewHandlerFromEnv
unfoldable pub new_handler_from_env : Env → String → Handler
unfolding new_handler
new_handler_from_env env dir =
    let h = new_handler (if dir == "" then env "DMTCP_CHECKPOINT_DIR" else dir) in
    record h {
      coord_host = if env "DMTCP_COORD_HOST" == "" then h.coord_host else env "DMTCP_COORD_HOST";
      coord_port =
          if env "DMTCP_COORD_PORT" == ""
          then h.coord_port
          else port_or h.coord_port (atoi (env "DMTCP_COORD_PORT"));
    }

-- AttachRunning
unfoldable pub attach_running : Dmtcp (Unit {0})
attach_running = set_state running

abbrev is_running : CheckpointState → Bool
is_running running = true
is_running _ = false

abbrev is_checkpointed : CheckpointState → Bool
is_checkpointed checkpointed = true
is_checkpointed _ = false

abbrev is_idle : CheckpointState → Bool
is_idle idle = true
is_idle _ = false

abbrev get_state : Dmtcp CheckpointState
get_state = gets (λ p. p.handler.state)

-- Sets the state to `error` and fails.
abbrev give_up {ℓ} : {A : Type ℓ} → Dmtcp A
give_up = set_state error >> raise

-- The latest of some files, with the best so far and its time: Go's `After` against the zero time
-- first. A file whose status cannot be read is passed over.
abbrev pub newer : String → Option Time → String × Time → String × Time
newer file none best = best
newer file (some at) best = if ltb best.1 at then (file, at) else best

abbrev pub non_blank : String × Time → Dmtcp String
non_blank best = if best.0 == "" then raise else pure best.0

-- A round begins only before the deadline.
abbrev pub if_early : Bool → Dmtcp Wait → Dmtcp Wait
if_early true round = round
if_early false round = pure timed_out

-- What a round of the wait does with what it found.
abbrev pub look_again : Dmtcp Wait → Option String → Dmtcp Wait
look_again rest (some file) = pure (found file)
look_again rest none = do ask sleep (λ calls. tt); rest

module _ (shell : Shell) where
  -- Checkpoint
  unfoldable pub take_checkpoint : Dmtcp (Unit {0})
  take_checkpoint = do
    state ← get_state
    if is_running state
        then (do
          set_state checkpoint
          worked ← ask run_checkpoint (λ calls. shell.runs calls (run_checkpoint))
          if worked then set_state checkpointed else give_up)
        else raise

  -- The loop of latestCheckpointFile.
  unfoldable pub latest_of : List String → String × Time → Dmtcp (String × Time)
  latest_of [] best = pure best
  latest_of (file ∷ files) best = do
    at ← ask (stat file) (λ calls. shell.mod_time calls file)
    latest_of files (newer file at best)

  abbrev pub latest_among : Option (List String) → Dmtcp String
  latest_among none = raise
  latest_among (some []) = raise
  latest_among (some (file ∷ files)) = latest_of (file ∷ files) ("", 0) >>= non_blank

  -- latestCheckpointFile
  unfoldable pub latest_checkpoint_file : Dmtcp String
  latest_checkpoint_file = do matches ← ask glob (λ calls. shell.files calls); latest_among matches

  -- ListCheckpoints
  unfoldable pub list_checkpoints : Dmtcp (List String)
  list_checkpoints = do
    matches ← ask glob (λ calls. shell.files calls)
    elim matches [ none ↦ raise | some files ↦ pure files ]

  abbrev restart_from : Option String → Dmtcp (Unit {0})
  restart_from none = give_up
  restart_from (some file) = do
    set_state restoring
    worked ← ask (start_restart file) (λ calls. shell.runs calls (start_restart file))
    if worked then set_state running else give_up

  -- Restart
  unfoldable pub restart : Dmtcp (Unit {0})
  unfolding latest_checkpoint_file
  restart = do
    state ← get_state
    if is_checkpointed state
        then (do latest ← attempt latest_checkpoint_file; restart_from latest)
        else raise

  abbrev pub restart_argv : Handler → List String → Dmtcp (List String)
  restart_argv h [] = raise
  restart_argv h (file ∷ files) = pure ("dmtcp_restart" ∷ (coord_args h ++ (file ∷ files)))

  -- RestartCommand
  unfoldable pub restart_command : Dmtcp (List String)
  unfolding list_checkpoints
  restart_command = do files ← list_checkpoints; h ← gets (λ p. p.handler); restart_argv h files

  abbrev exec_argv : Option (List String) → Dmtcp (List String)
  exec_argv none = give_up
  exec_argv (some argv) = do
    exists ← ask look_path (λ calls. shell.runs calls look_path)
    if exists
        then (do
          set_state restoring
          replaced ← ask (exec argv) (λ calls. shell.runs calls (exec argv))
          if replaced then pure argv else give_up)
        else give_up

  -- ExecRestart: where it gives an argument vector, the process has become that command, and the
  -- caller's code does not go on.
  unfoldable pub exec_restart : Dmtcp (List String)
  unfolding restart_command
  exec_restart = do argv ← attempt restart_command; exec_argv argv

  abbrev launch_fields : List String → Dmtcp (Unit {0})
  launch_fields [] = raise
  launch_fields (part ∷ parts) = do
    worked ←
        ask (start_launch (part ∷ parts)) (λ calls. shell.runs calls (start_launch (part ∷ parts)))
    if worked then set_state running else give_up

  -- Launch, of a command that `strings.Fields` has split.
  unfoldable pub launch : List String → Dmtcp (Unit {0})
  launch parts = do state ← get_state; if is_idle state then launch_fields parts else raise

  -- The rounds of WaitForCheckpointFile, as many as the fuel.
  unfoldable pub wait_rounds : ℕ → Time → Dmtcp Wait
  unfolding latest_checkpoint_file
  wait_rounds ℕ.zero deadline = pure out_of_fuel
  wait_rounds (suc fuel) deadline = do
    at ← ask now (λ calls. shell.clock calls)
    if_early (ltb at deadline)
        (do path ← attempt latest_checkpoint_file; look_again (wait_rounds fuel deadline) path)

  -- WaitForCheckpointFile. A round takes half a second at least, so this is fuel enough.
  unfoldable pub wait_for_checkpoint_file : Time → Dmtcp Wait
  unfolding wait_rounds
  wait_for_checkpoint_file timeout = do
    at ← ask now (λ calls. shell.clock calls)
    wait_rounds (timeout / half_second + 2) (at + timeout)
