-- ===== src/Agent/Target.antt =====
-- go-agent/main.go: the start of an Execution Agent, and the destination of a migration. A call of the
-- log's Fatalf is an error here.
pub mod Marker
pub mod Held
pub mod Layers
mod Tests
use mycedrive_k8s.Base.{
  ℕ, suc, ◌+◌, Bool, true, false, not, ◌&&◌, Option, none, some, List, [], ◌∷◌, String, eqb, ℤ, pos,
  pos_part, atoi, ◌==◌, if◌then◌else◌, itoa, joined,
}
use mycedrive_k8s.Base.Action.{Action, go_on, ◌>>=◌, ◌>>◌, pure, raise, gets, attempt, modify, zoom}
use mycedrive_k8s.Env.{
  Env, env_or, process_migration_enabled, volume_migration_enabled, transfer_port,
}
use mycedrive_k8s.Transfer.{Bytes, FrameHeader, kind_layer, kind_checkpoint_file}
use mycedrive_k8s.Transfer.Exchange.{
  Connection, FrameHandler, Outcome, complete, failed, receive_all,
}
use mycedrive_k8s.Overlay.State.{Manager, Environment, Vol, Answer, works, fails, breaks}
use mycedrive_k8s.Overlay.{receive_checkpoint, init_volume}
use mycedrive_k8s.Dmtcp.{new_handler_from_env, list_checkpoints, exec_restart}
use mycedrive_k8s.Dmtcp.States.{Handler, Shell, Process, Dmtcp}
use mycedrive_k8s.Registry.Address.{codes, contains}

-- The Message of the agent, in both directions.
pub record Message : Type 0 where
  pub pod_name : String
  pub pod_address : String
  pub container_port : ℤ
  pub is_new : Bool
  pub is_mig : Bool
  pub process_migration : Bool
  pub volume_migration : Bool

-- net.JoinHostPort
unfoldable pub net_address : String → ℤ → String
net_address host port =
    if contains b':' (codes host)
    then joined ("[" ∷ host ∷ "]:" ∷ itoa port ∷ [])
    else joined (host ∷ ":" ∷ itoa port ∷ [])

-- The agent's process: the volume manager, the DMTCP handler, the checkpoint files that were extracted,
-- the marker file, and the counters of runMigrationTarget.
pub record Target : Type 0 where
  pub manager : Manager
  pub process : Process
  pub files : List Bytes
  pub marker : Bool
  pub layers : ℕ
  pub file_count : ℕ

-- What the agent meets. A payload is extracted by the volume manager's environment, or by `extracts`
-- after the files before it.
pub record Site : Type 0 where
  pub env : Env
  pub volume : Environment
  -- The environment while a layer is received, by its payload.
  pub layer : Bytes → Environment
  pub extracts : List Bytes → Bytes → Bool
  pub shell : Shell
  pub write_marker : Answer
  pub remove_marker : Bool
  -- net.Listen
  pub listens : Bool
  -- The decoded answer of POST /register; `none` is an error.
  pub register : Message → Option Message
  -- The connections that the listener accepts before its deadline.
  pub connections : List Connection

-- How the agent ends: its process has become a command, or it returns and the entrypoint goes on.
pub data End : Type 0 where
  replaced : List String → End
  returned : End

abbrev pub put_manager : Manager → Target → Target
put_manager m t = record t { manager = m }

abbrev pub put_process : Process → Target → Target
put_process p t = record t { process = p }

abbrev pub in_volume {ℓ} : {A : Type ℓ} → Vol A → Action Target A
in_volume action t = zoom (λ t. t.manager) put_manager action t

abbrev pub in_dmtcp {ℓ} : {A : Type ℓ} → Dmtcp A → Action Target A
in_dmtcp action t = zoom (λ t. t.process) put_process action t

abbrev pub reported {ℓ} : {A : Type ℓ} → Option A × Target → Bool × Target
reported (none, t) = (false, t)
reported (some a, t) = (true, t)

abbrev accept_number : Option ℤ → Action Target (Unit {0})
accept_number none = raise
accept_number (some n) = pure tt

module _ (site : Site) where
  -- The frame handler that runMigrationTarget passes to ReceiveAll.
  unfoldable pub on_frame : FrameHandler Target
  on_frame h payload t =
      if eqb h.kind kind_layer
      then reported (
          in_volume (receive_checkpoint (site.layer payload) (pos_part h.ordinal))
            (record t { layers = suc t.layers }))
      else if eqb h.kind kind_checkpoint_file
      then (if site.extracts t.files payload
          then (true, record t { file_count = suc t.file_count; files = payload ∷ t.files })
          else (false, record t { file_count = suc t.file_count }))
      else (false, t)

  abbrev pub accept_outcome : Outcome × Target → Option (Unit {0}) × Target
  accept_outcome (complete headers, t) = (some tt, t)
  accept_outcome (failed headers, t) = (none, t)

  unfoldable pub receive_frames : Action Target (Unit {0})
  unfolding on_frame
  receive_frames t = accept_outcome (receive_all on_frame site.connections t)

  -- os.WriteFile of the marker, which may fail after it has made the file.
  abbrev pub marked : Answer → Action Target (Unit {0})
  marked works t = (some tt, record t { marker = true })
  marked fails t = (none, t)
  marked breaks t = (none, record t { marker = true })

  -- os.Remove of the marker, whose error is not looked at.
  abbrev pub unmark : Action Target (Unit {0})
  unmark t = (some tt, if site.remove_marker then record t { marker = false } else t)

  abbrev pub after_exec : Option (List String) → Action Target End
  after_exec (some argv) = pure (replaced argv)
  after_exec none = do unmark; raise

  abbrev pub restore_with : Option (List String) → Action Target End
  restore_with none = pure returned
  restore_with (some []) = pure returned
  restore_with (some (file ∷ files)) = do
    marked site.write_marker
    argv ← attempt (in_dmtcp (exec_restart site.shell))
    after_exec argv

  -- The restore of the process, where it is to be restored.
  unfoldable pub restore_process : Bool → String → Action Target End
  restore_process wanted dir =
      if wanted
      then (do
        modify (λ t. record t {
          process = record t.process { handler = new_handler_from_env site.env dir };
        })
        found ← attempt (in_dmtcp (list_checkpoints site.shell))
        restore_with found)
      else pure returned

  -- runMigrationTarget
  unfoldable pub run_migration_target : String → Bool → Bool → Action Target End
  unfolding receive_frames restore_process
  run_migration_target dir process volume = do
    receive_frames
    if volume then in_volume (init_volume site.volume) else pure tt
    restore_process process dir

  -- The volume root: the first argument, or the setting.
  abbrev pub root_dir : List String → String
  root_dir [] = env_or site.env "VOLUME_ROOT_DIR" ""
  root_dir (arg ∷ args) = if arg == "" then env_or site.env "VOLUME_ROOT_DIR" "" else arg

  -- The second argument, of the old interface, must be a number.
  abbrev check_layers : List String → Action Target (Unit {0})
  check_layers (root ∷ layers ∷ args) = accept_number (atoi layers)
  check_layers _ = pure tt

  abbrev pub volume_on : List String → Bool
  volume_on args = volume_migration_enabled site.env && not (root_dir args == "")

  abbrev pub register_message : List String → Message
  register_message args = record {
    pod_name = site.env "POD_NAME";
    pod_address = net_address (site.env "POD_IP") (transfer_port site.env);
    container_port = transfer_port site.env;
    is_new = true;
    is_mig = false;
    process_migration = process_migration_enabled site.env;
    volume_migration = volume_on args;
  }

  abbrev after_register : List String → Option Message → Action Target End
  after_register args none = raise
  after_register args (some response) =
      if response.is_mig
      then run_migration_target (env_or site.env "DMTCP_CHECKPOINT_DIR" "/dmtcp/checkpoints")
          response.process_migration response.volume_migration
      else (do
        if volume_on args then in_volume (init_volume site.volume) else pure tt
        pure returned)

  -- runAgent, with the arguments after the command's name
  unfoldable pub run_agent : List String → Action Target End
  unfolding run_migration_target
  run_agent args = do
    check_layers args
    if site.listens then after_register args (site.register (register_message args)) else raise
