-- ===== src/Agent/Handover.antt =====
-- go-agent/endcontainer.go: what the source has handed over when it says so.
use mycedrive_k8s.Base.{
  ℕ, ◌≤◌, Bool, true, false, Option, none, some, List, [], ◌∷◌, ◌≡◌, refl, sym, subst, String, ltb,
  ◌==◌, if◌then◌else◌, arith,
}
use mycedrive_k8s.Base.Action.{go_on, ◌>>=◌, ◌>>◌, pure}
use mycedrive_k8s.Base.Triple.{
  IsGood, Triple, pure-Triple, raise-Triple, gets-Triple, if-Triple, weaken-Triple, bind-Triple,
  zoom-frame,
}
use mycedrive_k8s.RestApi.{RemoveResponse}
use mycedrive_k8s.Overlay.State.{upper, Manager, has_dir}
use mycedrive_k8s.Overlay.{end_volume}
use mycedrive_k8s.Overlay.Steady.{count, IsBacked}
use mycedrive_k8s.Overlay.Sent.{end_volume-Keeps}
use mycedrive_k8s.Overlay.Frozen.{IsReady}
use mycedrive_k8s.Overlay.Ending.{IsAllSent, end_volume-Triple}
use mycedrive_k8s.Dmtcp.{
  attach_running, take_checkpoint, wait_for_checkpoint_file, list_checkpoints,
}
use mycedrive_k8s.Dmtcp.States.{Shell, Dmtcp, Wait, found, timed_out, out_of_fuel}
use mycedrive_k8s.Agent.Surroundings.{
  Event, posted_remove, sent_file, Host, World, put_process, in_dmtcp, ask, tell, set_handler,
  accepted,
}
use mycedrive_k8s.Agent.{
  minute, accept_wait, pre_transfer, send_files, transfer_process, transfer_rest, transfer,
  volume_wanted, announce, end_container,
}
use mycedrive_k8s.Base.Invariant.{Invariant, pure-Invariant, if-Invariant, bind-Invariant}
use mycedrive_k8s.Agent.Quiet.{has_news, IsUnannounced, transfer_quiet}
use mycedrive_k8s.Agent.Rounds.{And, HasLayer, volume-Triple, pre_transfer-Triple}

-- Every layer of the volume was taken by the destination.
abbrev pub IsDelivered : Manager → Type 0
IsDelivered m = (n : ℕ) → has_dir upper n m.entries ≡ true → 1 ≤ n → 1 ≤ count n m.delivered

module _ (host : Host) where
  dmtcp-Triple {ℓ} :
      {A : Type ℓ} (v : Shell → Dmtcp A) (P : Manager → Type 0)
      → Triple (And P) (in_dmtcp host v) (λ a. And P)
  dmtcp-Triple v P =
      zoom-frame (λ w. w.process) put_process (And P) (λ w. v (host.shell w.events)) (λ t w h. h)

  tell-Triple :
      (event : Event) (P : Manager → Type 0) → Triple (And P) (tell host event) (λ a. And P)
  unfolding tell ask
  tell-Triple event P w h = go (accepted (host.accepts w.events event))
    where
      go : (o : Option (Unit {0})) → IsGood (λ a. And P) o (record w { events = event ∷ w.events })
      go none = tt
      go (some a) = h

  send_files-Triple :
      (files : List String) (P : Manager → Type 0)
      → Triple (And P) (send_files host files) (λ a. And P)
  unfolding send_files
  send_files-Triple [] P = pure-Triple tt _
  send_files-Triple (file ∷ files) P =
      bind-Triple _ (λ a. And P) _ _ _ (tell-Triple (sent_file file) P)
        λ a. send_files-Triple files P

  accept_wait-Triple : (wait : Wait) (P : World → Type 0) → Triple P (accept_wait wait) (λ a. P)
  accept_wait-Triple (found file) P = pure-Triple tt _
  accept_wait-Triple timed_out P = raise-Triple _ _
  accept_wait-Triple out_of_fuel P = raise-Triple _ _

  transfer_process-Triple :
      (process : Bool) (dest dir : String) (P : Manager → Type 0)
      → Triple (And P) (transfer_process host process dest dir) (λ a. And P)
  unfolding transfer_process set_handler
  transfer_process-Triple process dest dir P =
      if-Triple process _ _ _ _
        (λ e.
          bind-Triple _ (λ a. And P) _ _ _ (λ w h. h)
            λ a.
              bind-Triple _ (λ b. And P) _ _ _ (dmtcp-Triple (λ shell. attach_running) P)
                λ b.
                  bind-Triple _ (λ c. And P) _ _ _ (dmtcp-Triple take_checkpoint P)
                    λ c.
                      bind-Triple _ (λ wait. And P) _ _ _
                        (dmtcp-Triple (λ shell. wait_for_checkpoint_file shell minute) P)
                        λ wait.
                          bind-Triple _ (λ d. And P) _ _ _ (accept_wait-Triple wait (And P))
                            λ d.
                              bind-Triple _ (λ files. And P) _ _ _ (dmtcp-Triple list_checkpoints P)
                                λ files.
                                  if-Triple (dest == "") _ _ _ _ (λ f. pure-Triple tt _)
                                    (λ f. send_files-Triple files P))
        (λ e. pure-Triple tt _)

  transfer_rest-Triple :
      (dest : String) (sent : ℕ)
      → (dest == "") ≡ false
      → Triple (And IsReady) (transfer_rest host true dest sent) (λ n. And IsAllSent)
  unfolding transfer_rest
  transfer_rest-Triple dest sent given =
      bind-Triple _ (λ level w. (level ≡ w.manager.level) × And IsReady w) _ _ _
        (gets-Triple _ _ _ (λ w h. (refl, h)))
        λ level.
          if-Triple (ltb 0 level) _ _ _ _
            (λ e.
              bind-Triple _ (λ a. And IsAllSent) _ _ _
                (weaken-Triple (And IsReady) (λ w. (level ≡ w.manager.level) × And IsReady w) _
                  (λ a. And IsAllSent) (λ a. And IsAllSent) (λ w (same, h). h) (λ a w h. h)
                  (volume-Triple host (λ env. end_volume env dest) IsReady (λ a. IsAllSent)
                    (λ env. end_volume-Keeps env dest) (λ env. end_volume-Triple env dest given)))
                λ a. pure-Triple _ _)
            λ e w (same, (ready, backed)). absurd (ground (arith, e, same, ready.mounted.positive))

  transfer-Triple :
      (k : ℕ) (dir : String) (resp : RemoveResponse)
      → 1 ≤ k
      → (resp.dest_address == "") ≡ false
      → volume_wanted host resp ≡ true
      → Triple (And (HasLayer k)) (transfer host dir resp) (λ n w. IsDelivered w.manager)
  unfolding transfer
  transfer-Triple k dir resp positive given wanted =
      subst
        (λ volume.
          Triple (And (HasLayer k))
            (pre_transfer host volume resp.dest_address >>= λ sent.
              transfer_process host resp.process_migration resp.dest_address dir
              >> transfer_rest host volume resp.dest_address sent)
            (λ n w. IsDelivered w.manager))
        (sym wanted)
        (bind-Triple _ (λ sent. And IsReady) _ _ _
          (pre_transfer-Triple host k resp.dest_address positive given)
          λ sent.
            bind-Triple _ (λ a. And IsReady) _ _ _
              (transfer_process-Triple resp.process_migration resp.dest_address dir IsReady)
              λ a.
                weaken-Triple (And IsReady) (And IsReady)
                  (transfer_rest host true resp.dest_address sent) (λ n. And IsAllSent)
                  (λ n w. IsDelivered w.manager) (λ w h. h)
                  (λ n w (all, backed) j there low. backed j (all j there low))
                  (transfer_rest-Triple resp.dest_address sent given))

module _ (host : Host) where
  announce_keeps :
      (pod dir dest : String) (layers : ℕ)
      → Invariant (λ w. IsDelivered w.manager) (announce host pod dir dest layers)
  unfolding announce tell ask
  announce_keeps pod dir dest layers =
      bind-Invariant (λ w. IsDelivered w.manager) _ _
        (if-Invariant (λ w. IsDelivered w.manager) (dest == "") _ _
          (pure-Invariant (λ w. IsDelivered w.manager) tt) (λ w h. h))
        λ a w h. h

  announced_of :
      (pod dir dest : String) (o : Option ℕ) (w : World)
      → IsGood (λ n w. IsDelivered w.manager) o w
      → IsUnannounced w
      → let after = go_on o (announce host pod dir dest) w in
        has_news after.1.events ≡ true → IsDelivered after.1.manager
  announced_of pod dir dest none w good quiet news = absurd (ground (arith, quiet, news))
  announced_of pod dir dest (some layers) w good quiet news =
      announce_keeps pod dir dest layers w good

  -- A source that migrates its volume to a destination announces the end of the transfer, by DONE or by
  -- POST /copy, only after the destination has taken every layer of the volume, the last one included:
  -- whatever fails on the way, and also where the announcement itself fails. The volume is mounted (it
  -- has a layer), what is marked as sent before was sent, and nothing was announced before.
  pub end_container-IsDelivered :
      (pod dir : String) (resp : RemoveResponse) (k : ℕ) (w : World)
      → host.remove w.events pod ≡ some resp
      → (resp.dest_address == "") ≡ false
      → volume_wanted host resp ≡ true
      → 1 ≤ k
      → HasLayer k w.manager
      → IsBacked w.manager
      → IsUnannounced w
      → has_news (end_container host pod dir w).1.events ≡ true
      → IsDelivered (end_container host pod dir w).1.manager
  unfolding end_container ask ◌>>=◌ pure
  end_container-IsDelivered pod dir resp k w answer given wanted positive layer backed quiet =
      rw answer (go resp.needs_checkpoint)
    where
      w' : World
      w' = record w { events = posted_remove pod ∷ w.events }

      go :
          (b : Bool)
          → let after =
              (if b
                  then (transfer host dir resp >>= announce host pod dir resp.dest_address)
                  else pure tt)
                w' in
            has_news after.1.events ≡ true → IsDelivered after.1.manager
      go true news =
          announced_of pod dir resp.dest_address (transfer host dir resp w').0
            (transfer host dir resp w').1
            (transfer-Triple host k dir resp positive given wanted w' (layer, backed))
            (transfer_quiet host dir resp w' quiet) news
      go false news = absurd (ground (arith, quiet, news))
