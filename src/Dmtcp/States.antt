-- ===== src/Dmtcp/States.antt =====
-- The state of go-agent/dmtcp/handler.go, and what it asks of the operating system.
use mycedrive_k8s.Base.{ℕ, Bool, Option, some, List, [], ◌∷◌, String, ℤ, itoa}
use mycedrive_k8s.Base.Action.{Action}

-- Nanoseconds since Go's zero time.
abbrev pub Time : Type 0
Time = ℕ

pub data CheckpointState : Type 0 where
  idle running checkpoint checkpointed restoring error : CheckpointState

pub record Handler : Type 0 where
  pub coord_host : String
  pub coord_port : ℤ
  pub checkpoint_dir : String
  pub state : CheckpointState

-- dmtcp_command -bc, dmtcp_restart of a file, dmtcp_launch of a command, exec.LookPath, syscall.Exec,
-- filepath.Glob of the checkpoint files, os.Stat, time.Now and time.Sleep.
pub data Call : Type 0 where
  run_checkpoint look_path glob now sleep : Call
  start_restart stat : String → Call
  start_launch exec : List String → Call

-- The answers may depend on every call before, the last one first.
pub record Shell : Type 0 where
  -- Whether a command works. An `exec` that works replaces the process.
  pub runs : List Call → Call → Bool
  -- The files of the checkpoint directory that match *.dmtcp; `none` is an error.
  pub files : List Call → Option (List String)
  pub mod_time : List Call → String → Option Time
  pub clock : List Call → Time

pub record Process : Type 0 where
  pub handler : Handler
  pub calls : List Call

abbrev pub Dmtcp {ℓ} : Type ℓ → Type ℓ
Dmtcp A = Action Process A

unfoldable pub set_state : CheckpointState → Dmtcp (Unit {0})
set_state state p = (some tt, record p { handler = record p.handler { state = state } })

-- A call with its answer.
unfoldable pub ask {ℓ} : {A : Type ℓ} → Call → (List Call → A) → Dmtcp A
ask c answer p = (some (answer p.calls), record p { calls = c ∷ p.calls })

-- --coord-host and --coord-port
abbrev pub coord_args : Handler → List String
coord_args h = "--coord-host" ∷ h.coord_host ∷ "--coord-port" ∷ itoa h.coord_port ∷ []

-- How a wait ends; a wait with enough rounds never runs out of them.
pub data Wait : Type 0 where
  found : String → Wait
  timed_out out_of_fuel : Wait

abbrev pub half_second : ℕ
half_second = 500000000
