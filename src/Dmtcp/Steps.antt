-- ===== src/Dmtcp/Steps.antt =====
-- go-agent/dmtcp/handler.go: the methods in the state machine of Dmtcp/Machine, and one after another.
use mycedrive_k8s.Base.{Bool, true, false, Option, List, [], ◌∷◌, ◌≡◌, refl, subst, sym}
use mycedrive_k8s.Base.Action.{◌>>=◌, attempt}
use mycedrive_k8s.Dmtcp.States.{CheckpointState, checkpointed, Shell, Process, set_state}
use mycedrive_k8s.Dmtcp.{
  attach_running, exec_restart, is_checkpointed, restart_command, list_checkpoints,
  wait_for_checkpoint_file,
}
use mycedrive_k8s.Dmtcp.Reads.{
  IsRead, list_checkpoints-IsRead, restart_command-IsRead, wait_for_checkpoint_file-IsRead,
}
use mycedrive_k8s.Dmtcp.Machine.{
  attaches, checkpoints, restarts, execs, lists, commands, launches, waits, attach,
  checkpoint_refused, checkpoint_done, checkpoint_failed, restart_refused, restart_done,
  restart_failed, exec_done, exec_failed, launch_refused, launch_empty, launch_done, launch_failed,
  listed, commanded, waited, Method, invoke, Does, Did, checkpoint-at, launch-at, restart-at,
  exec_argv-Did,
}

after_read {ℓ} :
    {A : Type ℓ} (method : Method) (p : Process) (result : Option A × Process) (worked : Bool)
    → IsRead p result
    → Does method p.handler.state worked p.handler.state
    → Does method p.handler.state worked result.1.handler.state
after_read method p result worked same does =
    subst (λ h. Does method p.handler.state worked h.state) (sym same) does

-- Every method of the handler, in every state and with any answers of the system, does what the
-- documented machine says. A method that is refused in its state leaves the state, and so does a Launch
-- without a command and a method that only reads (ListCheckpoints, RestartCommand, WaitForCheckpointFile),
-- whether it fails or not. A Checkpoint, Restart, ExecRestart or Launch that fails otherwise leaves the
-- error state.
pub invoke-Did :
    (shell : Shell) (method : Method) (p : Process) → Did method p (invoke shell method p)
unfolding invoke attach_running set_state exec_restart ◌>>=◌ attempt
invoke-Did shell attaches p = attach p.handler.state
invoke-Did shell checkpoints p = checkpoint-at shell p.handler.state p
invoke-Did shell restarts p = restart-at shell p.handler.state p
invoke-Did shell execs p =
    let before = restart_command shell p in exec_argv-Did shell p.handler.state before.0 before.1
invoke-Did shell (launches parts) p = launch-at shell parts p.handler.state p
invoke-Did shell lists p =
    after_read lists p (list_checkpoints shell p) _ (list_checkpoints-IsRead shell p) (listed _ _)
invoke-Did shell commands p =
    after_read commands p (restart_command shell p) _ (restart_command-IsRead shell p)
      (commanded _ _)
invoke-Did shell (waits timeout) p =
    after_read (waits timeout) p (wait_for_checkpoint_file shell timeout p) _
      (wait_for_checkpoint_file-IsRead shell timeout p) (waited timeout _ _)

-- Methods one after another, each with what it reported, the first one first.
unfoldable pub run : Shell → List Method → Process → List Bool × Process
run shell [] p = ([], p)
run shell (method ∷ methods) p =
    let (worked, p₁) = invoke shell method p in
    let (rest, p₂) = run shell methods p₁ in (worked ∷ rest, p₂)

-- Each Restart that reports no error has had a Checkpoint that reported none, since the last such
-- Restart; `fresh` says whether there was one before the first of the methods.
abbrev pub HasCheckpoints : Bool → List Method → List Bool → Type 0
HasCheckpoints fresh [] results = Unit
HasCheckpoints fresh (method ∷ methods) [] = ⊥
HasCheckpoints fresh (restarts ∷ methods) (true ∷ results) =
    (fresh ≡ true) × HasCheckpoints false methods results
HasCheckpoints fresh (checkpoints ∷ methods) (true ∷ results) = HasCheckpoints true methods results
HasCheckpoints fresh (method ∷ methods) (worked ∷ results) = HasCheckpoints fresh methods results

-- A handler in `checkpointed` has had a fresh checkpoint.
abbrev IsFresh : Bool → CheckpointState → Type 0
IsFresh fresh s = s ≡ checkpointed → fresh ≡ true

Does-HasCheckpoints :
    (fresh worked : Bool) (method : Method) (s t : CheckpointState) (methods : List Method)
    (results : List Bool)
    → Does method s worked t
    → IsFresh fresh s
    → ((next : Bool) → IsFresh next t → HasCheckpoints next methods results)
    → HasCheckpoints fresh (method ∷ methods) (worked ∷ results)
Does-HasCheckpoints fresh worked method s t methods results (attach _) f rest = rest fresh (λ e. cc)
Does-HasCheckpoints fresh worked method s t methods results (checkpoint_refused _ n) f rest =
    rest fresh f
Does-HasCheckpoints fresh worked method s t methods results checkpoint_done f rest =
    rest true (λ e. refl)
Does-HasCheckpoints fresh worked method s t methods results checkpoint_failed f rest =
    rest fresh (λ e. cc)
Does-HasCheckpoints fresh worked method s t methods results (restart_refused _ n) f rest =
    rest fresh f
Does-HasCheckpoints fresh worked method s t methods results restart_done f rest =
    (f refl, rest false (λ e. cc))
Does-HasCheckpoints fresh worked method s t methods results restart_failed f rest =
    rest fresh (λ e. cc)
Does-HasCheckpoints fresh worked method s t methods results (exec_done _) f rest =
    rest fresh (λ e. cc)
Does-HasCheckpoints fresh worked method s t methods results (exec_failed _) f rest =
    rest fresh (λ e. cc)
Does-HasCheckpoints fresh worked method s t methods results (launch_refused parts _ n) f rest =
    rest fresh f
Does-HasCheckpoints fresh worked method s t methods results launch_empty f rest = rest fresh f
Does-HasCheckpoints fresh worked method s t methods results (launch_done part parts) f rest =
    rest fresh (λ e. cc)
Does-HasCheckpoints fresh worked method s t methods results (launch_failed part parts) f rest =
    rest fresh (λ e. cc)
Does-HasCheckpoints fresh worked method s t methods results (listed _ _) f rest = rest fresh f
Does-HasCheckpoints fresh worked method s t methods results (commanded _ _) f rest = rest fresh f
Does-HasCheckpoints fresh worked method s t methods results (waited _ _ _) f rest = rest fresh f

-- Through any methods, with any answers of the system: a Restart that reports no error has had a
-- Checkpoint that reported none, since the start or since the last such Restart, where the start counts
-- as one if the handler is in `checkpointed` there.
pub run-HasCheckpoints :
    (shell : Shell) (methods : List Method) (p : Process)
    → HasCheckpoints (is_checkpointed p.handler.state) methods (run shell methods p).0
unfolding run
run-HasCheckpoints shell methods p =
    go methods p (is_checkpointed p.handler.state) (is_checkpointed_of p.handler.state)
  where
    is_checkpointed_of : (s : CheckpointState) → s ≡ checkpointed → is_checkpointed s ≡ true
    is_checkpointed_of s e = rw e refl

    go :
        (methods : List Method) (p : Process) (fresh : Bool)
        → (p.handler.state ≡ checkpointed → fresh ≡ true)
        → HasCheckpoints fresh methods (run shell methods p).0
    go [] p fresh f = tt
    go (method ∷ methods) p fresh f =
        let step = invoke shell method p in
        Does-HasCheckpoints fresh step.0 method p.handler.state step.1.handler.state methods
          (run shell methods step.1).0 (invoke-Did shell method p) f (go methods step.1)
