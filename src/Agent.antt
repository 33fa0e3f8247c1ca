-- ===== src/Agent.antt =====
-- go-agent/endcontainer.go: the preStop hook of the source's Execution Agent, over the volume manager
-- and the DMTCP handler. What it meets outside of itself is a parameter, `Host`.
pub mod Surroundings
pub mod Rounds
pub mod Quiet
pub mod Handover
pub mod Target
mod Tests
use mycedrive_k8s.Base.{
  ℕ, suc, ◌+◌, ◌*◌, Bool, true, false, not, ◌&&◌, Option, none, some, List, [], ◌∷◌, String, ltb,
  eqb, ℤ, pos, pos_part, ◌==◌, if◌then◌else◌,
}
use mycedrive_k8s.Base.Action.{Action, ◌>>=◌, ◌>>◌, pure, raise, gets, modify}
use mycedrive_k8s.Env.{env_or, env_int}
use mycedrive_k8s.RestApi.{RemoveResponse}
use mycedrive_k8s.Overlay.{discover, create_checkpoint, copy_checkpoint, end_volume}
use mycedrive_k8s.Dmtcp.{
  new_handler_from_env, attach_running, take_checkpoint, wait_for_checkpoint_file, list_checkpoints,
}
use mycedrive_k8s.Dmtcp.States.{Wait, found, timed_out, out_of_fuel, half_second}
use Surroundings.{
  Copy, Event, posted_remove, posted_copy, sent_file, sent_root, sent_done, Host, World, Agent,
  in_volume, in_dmtcp, ask, tell, set_handler,
}

abbrev pub minute : ℕ
minute = 120 * half_second

abbrev accept_wait : Wait → Agent (Unit {0})
accept_wait (found file) = pure tt
accept_wait timed_out = raise
accept_wait out_of_fuel = raise

module _ (host : Host) where
  -- One round: CreateCheckpoint and CopyCheckpoint.
  unfoldable pub transfer_rounds : ℕ → String → Agent (Unit {0})
  transfer_rounds ℕ.zero dest = pure tt
  transfer_rounds (suc n) dest = do
    frozen ← in_volume host create_checkpoint
    in_volume host (λ env. copy_checkpoint env dest)
    transfer_rounds n dest

  -- 1. The rounds while the application runs: the layers sent.
  unfoldable pub pre_transfer : Bool → String → Agent ℕ
  unfolding transfer_rounds
  pre_transfer volume dest =
      if volume
      then (do
        in_volume host discover
        level ← gets (λ w. w.manager.level)
        let rounds = pos_part (env_int host.env "CHECKPOINT_ROUNDS" (pos 1))
        if ltb 0 level && not (dest == "")
            then (do transfer_rounds rounds dest; pure rounds)
            else pure 0)
      else pure 0

  unfoldable pub send_files : List String → Agent (Unit {0})
  send_files [] = pure tt
  send_files (file ∷ files) = do tell host (sent_file file); send_files files

  -- 2. The DMTCP checkpoint, and its files.
  unfoldable pub transfer_process : Bool → String → String → Agent (Unit {0})
  unfolding send_files
  transfer_process process dest dir =
      if process
      then (do
        set_handler (new_handler_from_env host.env dir)
        in_dmtcp host (λ shell. attach_running)
        in_dmtcp host take_checkpoint
        wait ← in_dmtcp host (λ shell. wait_for_checkpoint_file shell minute)
        accept_wait wait
        files ← in_dmtcp host list_checkpoints
        if dest == "" then pure tt else send_files files)
      else pure tt

  -- 3. The end of the volume: the layers sent in all.
  unfoldable pub transfer_rest : Bool → String → ℕ → Agent ℕ
  transfer_rest volume dest sent =
      if volume
      then (do
        level ← gets (λ w. w.manager.level)
        if ltb 0 level
            then (do
              in_volume host (λ env. end_volume env dest)
              pure (if dest == "" then sent else suc sent))
            else if dest == ""
            then pure sent
            else (do tell host sent_root; pure (suc sent)))
      else pure sent

  -- The volume toggle, which also needs a volume.
  unfoldable pub volume_wanted : RemoveResponse → Bool
  volume_wanted resp = resp.volume_migration && not (env_or host.env "VOLUME_ROOT_DIR" "" == "")

  -- Steps 1 to 3.
  unfoldable pub transfer : String → RemoveResponse → Agent ℕ
  unfolding pre_transfer transfer_process transfer_rest volume_wanted
  transfer dir resp = do
    sent ← pre_transfer (volume_wanted resp) resp.dest_address
    transfer_process resp.process_migration resp.dest_address dir
    transfer_rest (volume_wanted resp) resp.dest_address sent

  -- 4. DONE to the destination, and the news to the coordinator.
  unfoldable pub announce : String → String → String → ℕ → Agent (Unit {0})
  announce pod dir dest layers = do
    if dest == "" then pure tt else tell host sent_done
    tell host (posted_copy (record { pod_name = pod; checkpoint_dir = dir; layer_count = layers }))

  -- endContainer
  unfoldable pub end_container : String → String → Agent (Unit {0})
  unfolding transfer announce
  end_container pod dir = do
    resp ← ask (posted_remove pod) (λ events. host.remove events pod)
    if resp.needs_checkpoint
        then (do layers ← transfer dir resp; announce pod dir resp.dest_address layers)
        else pure tt
