-- ===== src/Dmtcp/Machine.antt =====
-- go-agent/dmtcp/handler.go as a state machine: what each method does to the state of the handler, by
-- whether it reports an error.
use mycedrive_k8s.Base.{
  Bool, true, false, Option, none, some, List, [], ◌∷◌, ◌≡◌, refl, String, Bool-cases, inl, inr,
}
use mycedrive_k8s.Base.Action.{◌>>=◌, pure, raise, gets, attempt}
use mycedrive_k8s.Dmtcp.States.{
  CheckpointState, idle, running, checkpoint, checkpointed, restoring, error, Call, Shell, Process,
  set_state, ask, Time, Wait, found,
}
use mycedrive_k8s.Dmtcp.{
  exec_argv, restart_from, attach_running, take_checkpoint, restart, exec_restart, launch,
  latest_checkpoint_file, is_running, is_checkpointed, is_idle, restart_command, list_checkpoints,
  wait_for_checkpoint_file,
}

-- The methods: AttachRunning, Checkpoint, Restart, ExecRestart, Launch, ListCheckpoints, RestartCommand
-- and WaitForCheckpointFile.
pub data Method : Type 0 where
  attaches checkpoints restarts execs lists commands : Method
  launches : List String → Method
  waits : Time → Method

abbrev pub succeeds {ℓ} : {A : Type ℓ} → Option A → Bool
succeeds none = false
succeeds (some a) = true

-- A wait without a file reports an error.
abbrev gives_file : Option Wait → Bool
gives_file (some (found file)) = true
gives_file _ = false

-- The method, whether it reports no error, and the process after it.
unfoldable pub invoke : Shell → Method → Process → Bool × Process
invoke shell attaches p = let (got, p') = attach_running p in (succeeds got, p')
invoke shell checkpoints p = let (got, p') = take_checkpoint shell p in (succeeds got, p')
invoke shell restarts p = let (got, p') = restart shell p in (succeeds got, p')
invoke shell execs p = let (got, p') = exec_restart shell p in (succeeds got, p')
invoke shell lists p = let (got, p') = list_checkpoints shell p in (succeeds got, p')
invoke shell commands p = let (got, p') = restart_command shell p in (succeeds got, p')
invoke shell (waits timeout) p =
    let (got, p') = wait_for_checkpoint_file shell timeout p in (gives_file got, p')
invoke shell (launches parts) p = let (got, p') = launch shell parts p in (succeeds got, p')

-- The documented machine. A method that is refused in its state leaves the state, and so does a Launch
-- without a command and a method that only reads, whether it fails or not. A Checkpoint, Restart, Launch
-- or exec that was not refused and fails leaves `error`. An exec that succeeds is in `restoring` for good.
pub data Does : Method → CheckpointState → Bool → CheckpointState → Type 0 where
  attach : (s : CheckpointState) → Does attaches s true running
  checkpoint_refused : (s : CheckpointState) → is_running s ≡ false → Does checkpoints s false s
  checkpoint_done : Does checkpoints running true checkpointed
  checkpoint_failed : Does checkpoints running false error
  restart_refused : (s : CheckpointState) → is_checkpointed s ≡ false → Does restarts s false s
  restart_done : Does restarts checkpointed true running
  restart_failed : Does restarts checkpointed false error
  exec_done : (s : CheckpointState) → Does execs s true restoring
  exec_failed : (s : CheckpointState) → Does execs s false error
  launch_refused :
      (parts : List String) (s : CheckpointState)
      → is_idle s ≡ false
      → Does (launches parts) s false s
  launch_empty : Does (launches []) idle false idle
  launch_done :
      (part : String) (parts : List String) → Does (launches (part ∷ parts)) idle true running
  launch_failed :
      (part : String) (parts : List String) → Does (launches (part ∷ parts)) idle false error
  listed : (s : CheckpointState) (worked : Bool) → Does lists s worked s
  commanded : (s : CheckpointState) (worked : Bool) → Does commands s worked s
  waited : (timeout : Time) (s : CheckpointState) (worked : Bool) → Does (waits timeout) s worked s

-- What a method did.
abbrev pub Did : Method → Process → Bool × Process → Type 0
Did method p result = Does method p.handler.state result.0 result.1.handler.state

pub attach-Did : (shell : Shell) (p : Process) → Did attaches p (invoke shell attaches p)
unfolding invoke attach_running set_state
attach-Did shell p = attach p.handler.state

abbrev process_in : CheckpointState → Process → Process
process_in s p = record p { handler = record p.handler { state = s } }

pub checkpoint-at :
    (shell : Shell) (s : CheckpointState) (p : Process)
    → Did checkpoints (process_in s p) (invoke shell checkpoints (process_in s p))
unfolding invoke take_checkpoint set_state ◌>>=◌ gets ask raise
checkpoint-at shell running p = elim (Bool-cases (shell.runs p.calls Call.run_checkpoint)) [
  | inl works ↦ rw works checkpoint_done
  | inr fails ↦ rw fails checkpoint_failed
]
checkpoint-at shell idle p = checkpoint_refused idle refl
checkpoint-at shell checkpoint p = checkpoint_refused checkpoint refl
checkpoint-at shell checkpointed p = checkpoint_refused checkpointed refl
checkpoint-at shell restoring p = checkpoint_refused restoring refl
checkpoint-at shell error p = checkpoint_refused error refl

pub launch-at :
    (shell : Shell) (parts : List String) (s : CheckpointState) (p : Process)
    → Did (launches parts) (process_in s p) (invoke shell (launches parts) (process_in s p))
unfolding invoke launch set_state ◌>>=◌ gets ask raise
launch-at shell [] idle p = launch_empty
launch-at shell (part ∷ parts) idle p =
    elim (Bool-cases (shell.runs p.calls (Call.start_launch (part ∷ parts)))) [
      | inl works ↦ rw works (launch_done part parts)
      | inr fails ↦ rw fails (launch_failed part parts)
    ]
launch-at shell parts running p = launch_refused parts running refl
launch-at shell parts checkpoint p = launch_refused parts checkpoint refl
launch-at shell parts checkpointed p = launch_refused parts checkpointed refl
launch-at shell parts restoring p = launch_refused parts restoring refl
launch-at shell parts error p = launch_refused parts error refl

restart_from-Did :
    (shell : Shell) (latest : Option String) (p : Process)
    → let result = restart_from shell latest p in
      Does restarts checkpointed (succeeds result.0) result.1.handler.state
unfolding set_state ◌>>=◌ ask raise
restart_from-Did shell none p = restart_failed
restart_from-Did shell (some file) p =
    elim (Bool-cases (shell.runs p.calls (Call.start_restart file))) [
      | inl works ↦ rw works restart_done
      | inr fails ↦ rw fails restart_failed
    ]

pub restart-at :
    (shell : Shell) (s : CheckpointState) (p : Process)
    → Did restarts (process_in s p) (invoke shell restarts (process_in s p))
unfolding invoke restart ◌>>=◌ gets attempt raise
restart-at shell checkpointed p =
    let before = latest_checkpoint_file shell (process_in checkpointed p) in
    restart_from-Did shell before.0 before.1
restart-at shell idle p = restart_refused idle refl
restart-at shell running p = restart_refused running refl
restart-at shell checkpoint p = restart_refused checkpoint refl
restart-at shell restoring p = restart_refused restoring refl
restart-at shell error p = restart_refused error refl

pub exec_argv-Did :
    (shell : Shell) (s : CheckpointState) (argv : Option (List String)) (p : Process)
    → let result = exec_argv shell argv p in Does execs s (succeeds result.0) result.1.handler.state
unfolding set_state ◌>>=◌ ask raise pure
exec_argv-Did shell s none p = exec_failed s
exec_argv-Did shell s (some argv) p = elim (Bool-cases (shell.runs p.calls Call.look_path)) [
  | inl there ↦ elim (Bool-cases (shell.runs (Call.look_path ∷ p.calls) (Call.exec argv))) [
    | inl works ↦ rw (there, works) (exec_done s)
    | inr fails ↦ rw (there, fails) (exec_failed s)
  ]
  | inr missing ↦ rw missing (exec_failed s)
]
