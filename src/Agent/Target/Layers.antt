-- ===== src/Agent/Target/Layers.antt =====
-- go-agent/main.go with go-agent/utils/transfer.go: the destination has what the source has sent.
use mycedrive_k8s.Base.{
  Bool, true, Option, none, some, List, [], ◌∷◌, ◌++◌, ◌≡◌, refl, sym, ◌∙◌, ap, subst, map, String,
  if◌then◌else◌, pos_part, All, Bool-cases, inl, inr,
}
use mycedrive_k8s.Base.Action.{Action, ◌>>◌, pure, modify}
use mycedrive_k8s.Base.Triple.{IsGood, Triple, bind-Triple}
use mycedrive_k8s.Base.Invariant.{
  Invariant, pure-Invariant, raise-Invariant, if-Invariant, bind-Invariant, Invariant-Triple,
}
use mycedrive_k8s.Transfer.{Bytes, FrameHeader}
use mycedrive_k8s.Transfer.Exchange.{Connection, Outcome, complete, failed, receive_all}
use mycedrive_k8s.Transfer.Exchange.Session.{
  Item, IsSendable, normalised, connection_of, done_connection, receive_all-replay,
}
use mycedrive_k8s.Overlay.State.{lower, works, fails, breaks, Answer}
use mycedrive_k8s.Overlay.{init_volume}
use mycedrive_k8s.Overlay.Received.{init_volume_keeps}
use mycedrive_k8s.Dmtcp.{list_checkpoints, exec_restart}
use mycedrive_k8s.Agent.Target.{
  Target, Site, End, replaced, returned, in_volume, on_frame, accept_outcome, receive_frames,
  marked, unmark, after_exec, restore_with, restore_process, run_migration_target,
}
use mycedrive_k8s.Agent.Target.Held.{
  IsHeld, HoldsAll, volume_keeps, attempt_keeps, is_complete, replay_holds,
}

module _ (site : Site) where
  frames_hold :
      (items : List Item) (got : Outcome × Target)
      → (is_complete site got.0 ≡ true → HoldsAll items got.1)
      → IsGood (λ a. HoldsAll items) (accept_outcome site got).0 (accept_outcome site got).1
  frames_hold items (complete headers, t) h = h refl
  frames_hold items (failed headers, t) h = tt

  receive_frames-Triple :
      (items : List Item) (rest : List Connection)
      → site.connections ≡ map connection_of items ++ done_connection ∷ rest
      → All IsSendable items
      → Triple (λ t. Unit) (receive_frames site) (λ a. HoldsAll items)
  unfolding receive_frames
  receive_frames-Triple items rest sent sendable t _ =
      frames_hold items (receive_all (on_frame site) site.connections t) (
        subst (λ got. is_complete site got.0 ≡ true → HoldsAll items got.1)
          (sym (
            ap (λ cs. receive_all (on_frame site) cs t) sent
            ∙ receive_all-replay (on_frame site) items rest t sendable))
          (replay_holds site items [] t))

  -- What follows ReceiveAll.
  abbrev rest_of : String → Bool → Bool → Action Target End
  rest_of dir process volume =
      (if volume then in_volume (init_volume site.volume) else pure tt)
      >> restore_process site process dir

  module _ (h : FrameHeader) (payload : Bytes) where
    marked_keeps : (answer : Answer) → Invariant (IsHeld h payload) (marked site answer)
    marked_keeps works t held = held
    marked_keeps fails t held = held
    marked_keeps breaks t held = held

    unmark_keeps : Invariant (IsHeld h payload) (unmark site)
    unmark_keeps t held = elim (Bool-cases site.remove_marker) [
      | inl gone ↦ rw gone held
      | inr stays ↦ rw stays held
    ]

    after_exec_keeps :
        (argv : Option (List String)) → Invariant (IsHeld h payload) (after_exec site argv)
    after_exec_keeps (some argv) = pure-Invariant (IsHeld h payload) (replaced argv)
    after_exec_keeps none =
        bind-Invariant (IsHeld h payload) _ _ unmark_keeps
          λ a. raise-Invariant End (IsHeld h payload)

    restore_with_keeps :
        (found : Option (List String)) → Invariant (IsHeld h payload) (restore_with site found)
    restore_with_keeps none = pure-Invariant (IsHeld h payload) returned
    restore_with_keeps (some []) = pure-Invariant (IsHeld h payload) returned
    restore_with_keeps (some (file ∷ files)) =
        bind-Invariant (IsHeld h payload) _ _ (marked_keeps site.write_marker) λ a.
          bind-Invariant (IsHeld h payload) _ _ (attempt_keeps h payload (exec_restart site.shell))
            after_exec_keeps

    restore_keeps :
        (wanted : Bool) (dir : String)
        → Invariant (IsHeld h payload) (restore_process site wanted dir)
    unfolding restore_process modify
    restore_keeps wanted dir =
        if-Invariant (IsHeld h payload) wanted _ _
          (bind-Invariant (IsHeld h payload) _ _ (λ t held. held)
            λ a.
              bind-Invariant (IsHeld h payload) _ _
                (attempt_keeps h payload (list_checkpoints site.shell)) restore_with_keeps)
          (pure-Invariant (IsHeld h payload) returned)

    rest_keeps :
        (dir : String) (process volume : Bool)
        → Invariant (IsHeld h payload) (rest_of dir process volume)
    rest_keeps dir process volume =
        bind-Invariant (IsHeld h payload) _ _
          (if-Invariant (IsHeld h payload) volume _ _
            (volume_keeps h payload (init_volume site.volume)
              (init_volume_keeps site.volume lower (pos_part h.ordinal)))
            (pure-Invariant (IsHeld h payload) tt))
          λ a. restore_keeps process dir

  all_keeps :
      {A : Type 0} (x : Action Target A)
      → ((h : FrameHeader) (payload : Bytes) → Invariant (IsHeld h payload) x)
      → (items : List Item) → Invariant (HoldsAll items) x
  all_keeps x keeps [] t held = tt
  all_keeps x keeps (item ∷ items) t (held, all) =
      (keeps (normalised item.header) item.payload t held, all_keeps x keeps items t all)

  -- A destination to which a source sends frames, each on a connection of its own and DONE at last: where
  -- it ends without an error, restored or ready for a fresh launch, every layer that was sent has its
  -- directory below the volume, and every checkpoint file was extracted. The payloads are those that were
  -- sent, byte by byte.
  pub run_migration_target-HoldsAll :
      (items : List Item) (rest : List Connection) (dir : String) (process volume : Bool)
      (t : Target)
      → site.connections ≡ map connection_of items ++ done_connection ∷ rest
      → All IsSendable items
      → let ended = run_migration_target site dir process volume t in
        IsGood (λ end. HoldsAll items) ended.0 ended.1
  unfolding run_migration_target
  run_migration_target-HoldsAll items rest dir process volume t sent sendable =
      bind-Triple (λ t. Unit) (λ a. HoldsAll items) (λ end. HoldsAll items) _ _
        (receive_frames-Triple items rest sent sendable)
        (λ a. Invariant-Triple (HoldsAll items) (rest_of dir process volume) (
          all_keeps (rest_of dir process volume)
            (λ h payload. rest_keeps h payload dir process volume) items))
        t tt
