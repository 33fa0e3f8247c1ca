-- ===== src/Agent/Surroundings.antt =====
-- What an Execution Agent of go-agent works on, and what it asks of the world.
use mycedrive_k8s.Base.{ℕ, Bool, true, false, Option, none, some, List, ◌∷◌, String}
use mycedrive_k8s.Base.Action.{Action, zoom}
use mycedrive_k8s.Env.{Env}
use mycedrive_k8s.RestApi.{RemoveResponse}
use mycedrive_k8s.Overlay.State.{Manager, Environment, Vol}
use mycedrive_k8s.Dmtcp.States.{Handler, Shell, Process, Dmtcp}

-- CopyNotification of go-agent/utils/system.go
pub record Copy : Type 0 where
  pub pod_name : String
  pub checkpoint_dir : String
  pub layer_count : ℕ

-- The requests to the coordinator and the frames that the agent itself sends: a checkpoint file, the
-- volume's root directory and DONE.
pub data Event : Type 0 where
  posted_remove sent_file : String → Event
  posted_copy : Copy → Event
  sent_root sent_done : Event

-- Every answer may depend on the agent's events before, the last one first.
pub record Host : Type 0 where
  pub env : Env
  pub volume : List Event → Environment
  pub shell : List Event → Shell
  -- The decoded answer of POST /remove; `none` is an error.
  pub remove : List Event → String → Option RemoveResponse
  -- Whether a frame is acknowledged, or a notification accepted.
  pub accepts : List Event → Event → Bool

pub record World : Type 0 where
  pub manager : Manager
  pub process : Process
  pub events : List Event

abbrev pub Agent {ℓ} : Type ℓ → Type ℓ
Agent A = Action World A

abbrev pub put_manager : Manager → World → World
put_manager m w = record w { manager = m }

abbrev pub put_process : Process → World → World
put_process p w = record w { process = p }

abbrev pub in_volume {ℓ} : {A : Type ℓ} → Host → (Environment → Vol A) → Agent A
in_volume host action w = zoom (λ w. w.manager) put_manager (action (host.volume w.events)) w

abbrev pub in_dmtcp {ℓ} : {A : Type ℓ} → Host → (Shell → Dmtcp A) → Agent A
in_dmtcp host action w = zoom (λ w. w.process) put_process (action (host.shell w.events)) w

-- A request with its answer.
unfoldable pub ask {ℓ} : {A : Type ℓ} → Event → (List Event → Option A) → Agent A
ask event answer w = (answer w.events, record w { events = event ∷ w.events })

abbrev pub accepted : Bool → Option (Unit {0})
accepted true = some tt
accepted false = none

-- An event that the other side accepts, or an error.
unfoldable pub tell : Host → Event → Agent (Unit {0})
unfolding ask
tell host event = ask event (λ events. accepted (host.accepts events event))

unfoldable pub set_handler : Handler → Agent (Unit {0})
set_handler h w = (some tt, record w { process = record w.process { handler = h } })
