-- ===== src/Agent/Quiet.antt =====
-- go-agent/endcontainer.go: the steps before the last one announce nothing.
use mycedrive_k8s.Base.{
  ℕ, suc, Bool, true, false, not, ◌&&◌, ◌||◌, List, [], ◌∷◌, ◌≡◌, refl, String, ltb, ◌==◌,
}
use mycedrive_k8s.Base.Invariant.{
  Invariant, pure-Invariant, raise-Invariant, gets-Invariant, if-Invariant, zoom-Invariant,
  bind-Invariant,
}
use mycedrive_k8s.RestApi.{RemoveResponse}
use mycedrive_k8s.Overlay.State.{Environment, Vol}
use mycedrive_k8s.Overlay.{discover, create_checkpoint, copy_checkpoint, end_volume}
use mycedrive_k8s.Dmtcp.{
  attach_running, take_checkpoint, wait_for_checkpoint_file, list_checkpoints,
}
use mycedrive_k8s.Dmtcp.States.{Shell, Dmtcp, Wait, found, timed_out, out_of_fuel}
use mycedrive_k8s.Agent.Surroundings.{
  Event, posted_copy, sent_file, sent_root, sent_done, Host, World, put_manager, put_process,
  in_volume, in_dmtcp, ask, tell, set_handler,
}
use mycedrive_k8s.Agent.{
  minute, accept_wait, transfer_rounds, pre_transfer, send_files, transfer_process, transfer_rest,
  transfer, volume_wanted,
}

-- DONE and the notification of the coordinator.
abbrev pub is_news : Event → Bool
is_news (posted_copy copy) = true
is_news sent_done = true
is_news _ = false

abbrev pub has_news : List Event → Bool
has_news [] = false
has_news (event ∷ events) = is_news event || has_news events

abbrev pub IsUnannounced : World → Type 0
IsUnannounced w = has_news w.events ≡ false

module _ (host : Host) where
  volume_quiet {ℓ} :
      {A : Type ℓ} (v : Environment → Vol A) → Invariant IsUnannounced (in_volume host v)
  volume_quiet v =
      zoom-Invariant IsUnannounced (λ w. w.manager) put_manager (λ w. v (host.volume w.events))
        (λ t w h. h)

  dmtcp_quiet {ℓ} : {A : Type ℓ} (v : Shell → Dmtcp A) → Invariant IsUnannounced (in_dmtcp host v)
  dmtcp_quiet v =
      zoom-Invariant IsUnannounced (λ w. w.process) put_process (λ w. v (host.shell w.events))
        (λ t w h. h)

  tell_quiet : (event : Event) → is_news event ≡ false → Invariant IsUnannounced (tell host event)
  unfolding tell ask
  tell_quiet event plain w h = rw plain h

  rounds_quiet : (n : ℕ) (dest : String) → Invariant IsUnannounced (transfer_rounds host n dest)
  unfolding transfer_rounds
  rounds_quiet ℕ.zero dest = pure-Invariant IsUnannounced tt
  rounds_quiet (suc n) dest =
      bind-Invariant IsUnannounced _ _ (volume_quiet create_checkpoint) λ frozen.
        bind-Invariant IsUnannounced _ _ (volume_quiet (λ env. copy_checkpoint env dest))
          λ a. rounds_quiet n dest

  pre_transfer_quiet :
      (volume : Bool) (dest : String) → Invariant IsUnannounced (pre_transfer host volume dest)
  unfolding pre_transfer
  pre_transfer_quiet volume dest =
      if-Invariant IsUnannounced volume _ _
        (bind-Invariant IsUnannounced _ _ (volume_quiet discover) λ a.
          bind-Invariant IsUnannounced _ _ (gets-Invariant IsUnannounced _) λ level.
            if-Invariant IsUnannounced (ltb 0 level && not (dest == "")) _ _
              (bind-Invariant IsUnannounced _ _ (rounds_quiet _ dest)
                λ b. pure-Invariant IsUnannounced _)
              (pure-Invariant IsUnannounced 0))
        (pure-Invariant IsUnannounced 0)

  send_files_quiet : (files : List String) → Invariant IsUnannounced (send_files host files)
  unfolding send_files
  send_files_quiet [] = pure-Invariant IsUnannounced tt
  send_files_quiet (file ∷ files) =
      bind-Invariant IsUnannounced _ _ (tell_quiet (sent_file file) refl)
        λ a. send_files_quiet files

  accept_wait_quiet : (wait : Wait) → Invariant IsUnannounced (accept_wait wait)
  accept_wait_quiet (found file) = pure-Invariant IsUnannounced tt
  accept_wait_quiet timed_out = raise-Invariant (Unit {0}) IsUnannounced
  accept_wait_quiet out_of_fuel = raise-Invariant (Unit {0}) IsUnannounced

  transfer_process_quiet :
      (process : Bool) (dest dir : String)
      → Invariant IsUnannounced (transfer_process host process dest dir)
  unfolding transfer_process set_handler
  transfer_process_quiet process dest dir =
      if-Invariant IsUnannounced process _ _
        (bind-Invariant IsUnannounced _ _ (λ w h. h)
          λ a. bind-Invariant IsUnannounced _ _ (dmtcp_quiet (λ shell. attach_running)) λ b.
            bind-Invariant IsUnannounced _ _ (dmtcp_quiet take_checkpoint) λ c.
              bind-Invariant IsUnannounced _ _
                (dmtcp_quiet (λ shell. wait_for_checkpoint_file shell minute))
                λ wait. bind-Invariant IsUnannounced _ _ (accept_wait_quiet wait) λ d.
                  bind-Invariant IsUnannounced _ _ (dmtcp_quiet list_checkpoints) λ files.
                    if-Invariant IsUnannounced (dest == "") _ _ (pure-Invariant IsUnannounced tt)
                      (send_files_quiet files))
        (pure-Invariant IsUnannounced tt)

  transfer_rest_quiet :
      (volume : Bool) (dest : String) (sent : ℕ)
      → Invariant IsUnannounced (transfer_rest host volume dest sent)
  unfolding transfer_rest
  transfer_rest_quiet volume dest sent =
      if-Invariant IsUnannounced volume _ _
        (bind-Invariant IsUnannounced _ _ (gets-Invariant IsUnannounced _) λ level.
          if-Invariant IsUnannounced (ltb 0 level) _ _
            (bind-Invariant IsUnannounced _ _ (volume_quiet (λ env. end_volume env dest))
              λ a. pure-Invariant IsUnannounced _)
            (if-Invariant IsUnannounced (dest == "") _ _ (pure-Invariant IsUnannounced sent) (
              bind-Invariant IsUnannounced _ _ (tell_quiet sent_root refl)
                λ a. pure-Invariant IsUnannounced _)))
        (pure-Invariant IsUnannounced sent)

  -- Whatever the transfer comes to, neither DONE nor the notification is among its events.
  pub transfer_quiet :
      (dir : String) (resp : RemoveResponse) → Invariant IsUnannounced (transfer host dir resp)
  unfolding transfer
  transfer_quiet dir resp =
      bind-Invariant IsUnannounced _ _
        (pre_transfer_quiet (volume_wanted host resp) resp.dest_address)
        λ sent.
          bind-Invariant IsUnannounced _ _
            (transfer_process_quiet resp.process_migration resp.dest_address dir)
            λ a. transfer_rest_quiet (volume_wanted host resp) resp.dest_address sent
