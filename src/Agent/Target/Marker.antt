-- ===== src/Agent/Target/Marker.antt =====
-- go-agent/main.go: the marker that tells the container's entrypoint whether the restored application
-- has run.
use mycedrive_k8s.Base.{
  ℤ, Bool, true, false, Option, none, some, List, [], ◌∷◌, ◌≡◌, refl, String, if◌then◌else◌, eqb,
  arith, atoi, Bool-cases, inl, inr,
}
use mycedrive_k8s.Base.Action.{Action, go_on, ◌>>=◌, ◌>>◌, pure, raise, attempt, modify}
use mycedrive_k8s.Base.Invariant.{
  Invariant, pure-Invariant, raise-Invariant, if-Invariant, zoom-Invariant, bind-Invariant,
}
use mycedrive_k8s.Transfer.{Bytes, FrameHeader, kind_layer, kind_checkpoint_file}
use mycedrive_k8s.Transfer.Exchange.{Outcome, complete, failed}
use mycedrive_k8s.Transfer.Exchange.Kept.{receive_all_keeps}
use mycedrive_k8s.Overlay.State.{Answer, Vol, works, fails, breaks}
use mycedrive_k8s.Overlay.{receive_checkpoint, init_volume}
use mycedrive_k8s.Dmtcp.States.{Dmtcp}
use mycedrive_k8s.Dmtcp.{list_checkpoints, exec_restart}
use mycedrive_k8s.Agent.Target.{
  Message, Target, Site, End, replaced, returned, put_manager, put_process, in_volume, in_dmtcp,
  reported, on_frame, accept_outcome, receive_frames, marked, after_exec, restore_with,
  restore_process, run_migration_target, volume_on, register_message, run_agent, check_layers,
  accept_number, after_register,
}

-- The answer of /register says that a migration is on.
abbrev pub is_migration : Option Message → Bool
is_migration none = false
is_migration (some response) = response.is_mig

-- Whether the marker is there.
abbrev Marked : Bool → Target → Type 0
Marked b t = t.marker ≡ b

reported_keeps {ℓ} :
    {A : Type ℓ} (P : Target → Type 0) (got : Option A × Target) → P got.1 → P (reported got).1
reported_keeps P (none, t) p = p
reported_keeps P (some a, t) p = p

module _ (site : Site) (b : Bool) where
  volume_unmarked {ℓ} : {A : Type ℓ} (v : Vol A) → Invariant (Marked b) (in_volume v)
  volume_unmarked v = zoom-Invariant (Marked b) (λ t. t.manager) put_manager (λ t. v) (λ m t h. h)

  dmtcp_unmarked {ℓ} : {A : Type ℓ} (v : Dmtcp A) → Invariant (Marked b) (in_dmtcp v)
  dmtcp_unmarked v = zoom-Invariant (Marked b) (λ t. t.process) put_process (λ t. v) (λ p t h. h)

  on_frame_unmarked :
      (h : FrameHeader) (payload : Bytes) (t : Target)
      → Marked b t
      → Marked b (on_frame site h payload t).1
  unfolding on_frame
  on_frame_unmarked h payload t m = elim (Bool-cases (eqb h.kind kind_layer)) [
    | inl layer ↦ rw layer (
        reported_keeps (Marked b) _
          (volume_unmarked (receive_checkpoint (site.layer payload) _) _ m))
    | inr other ↦ elim (Bool-cases (eqb h.kind kind_checkpoint_file)) [
      | inl file ↦
          rw (other, file)
            (elim (Bool-cases (site.extracts t.files payload)) [
              | inl good ↦ rw good m
              | inr bad ↦ rw bad m
            ])
      | inr neither ↦ rw (other, neither) m
    ]
  ]

  outcome_unmarked :
      (got : Outcome × Target) → Marked b got.1 → Marked b (accept_outcome site got).1
  outcome_unmarked (complete headers, t) m = m
  outcome_unmarked (failed headers, t) m = m

  receive_unmarked : Invariant (Marked b) (receive_frames site)
  unfolding receive_frames
  receive_unmarked t m =
      outcome_unmarked _
        (receive_all_keeps (on_frame site) (Marked b) on_frame_unmarked site.connections t m)

  -- A start that is not of a migration leaves the marker as it finds it.
  fresh_unmarked :
      (args : List String) (answer : Option Message)
      → is_migration answer ≡ false
      → Invariant (Marked b) (after_register site args answer)
  fresh_unmarked args none h = raise-Invariant End (Marked b)
  fresh_unmarked args (some response) h = rw h (
      bind-Invariant (Marked b) _ _
        (if-Invariant (Marked b) (volume_on site args) _ _
          (volume_unmarked (init_volume site.volume)) (pure-Invariant (Marked b) tt))
        λ a. pure-Invariant (Marked b) returned)

  number_unmarked : (number : Option ℤ) → Invariant (Marked b) (accept_number number)
  number_unmarked none = raise-Invariant (Unit {0}) (Marked b)
  number_unmarked (some n) = pure-Invariant (Marked b) tt

  check_unmarked : (args : List String) → Invariant (Marked b) (check_layers site args)
  check_unmarked [] = pure-Invariant (Marked b) tt
  check_unmarked (root ∷ []) = pure-Invariant (Marked b) tt
  check_unmarked (root ∷ layers ∷ args) = number_unmarked (atoi layers)

-- runAgent never touches the marker where the coordinator does not answer that a migration is on: a
-- marker of an earlier restore is still there when it returns.
pub run_agent-marker :
    (site : Site) (args : List String) (t : Target)
    → is_migration (site.register (register_message site args)) ≡ false
    → (run_agent site args t).1.marker ≡ t.marker
unfolding run_agent
run_agent-marker site args t fresh =
    bind-Invariant (Marked t.marker) _ _ (check_unmarked site t.marker args)
      (λ a.
        if-Invariant (Marked t.marker) site.listens _ _
          (fresh_unmarked site t.marker args (site.register (register_message site args)) fresh)
          (raise-Invariant End (Marked t.marker)))
      t refl

-- The marker is there exactly if the agent's process has become the restored application.
abbrev pub IsHonest : Option End → Target → Type 0
IsHonest (some (replaced argv)) t = t.marker ≡ true
IsHonest (some returned) t = t.marker ≡ false
IsHonest none t = t.marker ≡ false

abbrev pub is_whole : Answer → Bool
is_whole breaks = false
is_whole _ = true

abbrev HonestFrom : Action Target End → Type 0
HonestFrom action = (t : Target) → Marked false t → IsHonest (action t).0 (action t).1

bind-HonestFrom {ℓ} :
    {A : Type ℓ} (x : Action Target A) (next : A → Action Target End)
    → Invariant (Marked false) x
    → ((a : A) → HonestFrom (next a))
    → HonestFrom (x >>= next)
unfolding ◌>>=◌
bind-HonestFrom {A = A} x next h k t m = go (x t).0 (x t).1 (h t m)
  where
    go :
        (o : Option A) (t : Target)
        → Marked false t
        → IsHonest (go_on o next t).0 (go_on o next t).1
    go none t m = m
    go (some a) t m = k a t m

if-HonestFrom :
    (b : Bool) (x y : Action Target End)
    → HonestFrom x
    → HonestFrom y
    → HonestFrom (if b then x else y)
if-HonestFrom true x y f g = f
if-HonestFrom false x y f g = g

returned-HonestFrom : HonestFrom (pure returned)
unfolding pure
returned-HonestFrom t m = m

module _ (site : Site) (whole : is_whole site.write_marker ≡ true)
    (removes : site.remove_marker ≡ true) where
  after_exec-IsHonest :
      (argv : Option (List String)) (t : Target)
      → t.marker ≡ true
      → IsHonest (after_exec site argv t).0 (after_exec site argv t).1
  unfolding pure ◌>>=◌ raise
  after_exec-IsHonest none t m = rw removes refl
  after_exec-IsHonest (some argv) t m = m

  marked_honest :
      (next : Action Target End) (answer : Answer)
      → is_whole answer ≡ true
      → ((t : Target) → t.marker ≡ true → IsHonest (next t).0 (next t).1)
      → HonestFrom (marked site answer >> next)
  unfolding ◌>>=◌
  marked_honest next works w h t m = h _ refl
  marked_honest next fails w h t m = m
  marked_honest next breaks w h t m = absurd (ground (arith, w))

  exec-IsHonest :
      (t : Target)
      → t.marker ≡ true
      → let after = (attempt (in_dmtcp (exec_restart site.shell)) >>= after_exec site) t in
        IsHonest after.0 after.1
  unfolding ◌>>=◌ attempt
  exec-IsHonest t m =
      let before = in_dmtcp (exec_restart site.shell) t in
      after_exec-IsHonest before.0 before.1 (dmtcp_unmarked site true (exec_restart site.shell) t m)

  restore_with_honest : (found : Option (List String)) → HonestFrom (restore_with site found)
  restore_with_honest none = returned-HonestFrom
  restore_with_honest (some []) = returned-HonestFrom
  restore_with_honest (some (file ∷ files)) = marked_honest _ site.write_marker whole exec-IsHonest

  attempt_unmarked : {A : Type 0} (v : Dmtcp A) → Invariant (Marked false) (attempt (in_dmtcp v))
  unfolding attempt
  attempt_unmarked v = dmtcp_unmarked site false v

  restore_honest : (wanted : Bool) (dir : String) → HonestFrom (restore_process site wanted dir)
  unfolding restore_process modify
  restore_honest wanted dir =
      if-HonestFrom wanted _ _
        (bind-HonestFrom _ _ (λ t m. m)
          λ a.
            bind-HonestFrom _ _ (attempt_unmarked (list_checkpoints site.shell))
              restore_with_honest)
        returned-HonestFrom

  target_honest :
      (dir : String) (process volume : Bool)
      → HonestFrom (run_migration_target site dir process volume)
  unfolding run_migration_target
  target_honest dir process volume = bind-HonestFrom _ _ (receive_unmarked site false) λ a.
      bind-HonestFrom _ _
        (if-Invariant (Marked false) volume _ _
          (volume_unmarked site false (init_volume site.volume)) (pure-Invariant (Marked false) tt))
        λ b. restore_honest process dir

  register_honest :
      (args : List String) (answer : Option Message) → HonestFrom (after_register site args answer)
  unfolding raise
  register_honest args none = λ t m. m
  register_honest args (some response) = if-HonestFrom response.is_mig _ _ (target_honest _ _ _) (
      bind-HonestFrom _ _
        (if-Invariant (Marked false) (volume_on site args) _ _
          (volume_unmarked site false (init_volume site.volume)) (pure-Invariant (Marked false) tt))
        λ a. returned-HonestFrom)

  -- A start of the agent without a marker: after it the marker is there exactly if the process has become
  -- the restored application, whatever failed on the way. The marker is written wholly or not at all, and
  -- can be removed.
  pub run_agent-IsHonest :
      (args : List String) (t : Target)
      → t.marker ≡ false
      → IsHonest (run_agent site args t).0 (run_agent site args t).1
  unfolding run_agent raise
  run_agent-IsHonest args = bind-HonestFrom _ _ (check_unmarked site false args) λ a.
      if-HonestFrom site.listens _ _
        (register_honest args (site.register (register_message site args))) (λ t m. m)
