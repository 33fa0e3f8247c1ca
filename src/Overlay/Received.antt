-- ===== src/Overlay/Received.antt =====
-- go-agent/overlay/volume.go: a directory of the volume is never lost, and ReceiveCheckpoint makes one.
use mycedrive_k8s.Base.{
  ℕ, suc, ◌-◌, true, List, ◌∷◌, ◌≡◌, ltb, if◌then◌else◌, arith, Bool-cases, inl, inr,
}
use mycedrive_k8s.Base.Triple.{Triple, bind-Triple}
use mycedrive_k8s.Base.Invariant.{
  Invariant, pure-Invariant, gets-Invariant, if-Invariant, bind-Invariant, Invariant-Triple,
}
use mycedrive_k8s.Overlay.State.{
  Prefix, upper, work, merged, lower, Entry, dir, Call, make_dir, list_dir, mount_overlay, bind,
  unbind, unmount, send, mark, extract, stat, Manager, Answer, works, fails, breaks, Environment,
  Vol, ◌>>=◌, ◌>>◌, pure, gets, set_level, perform, answered, effect, has_dir, add_dir,
}
use mycedrive_k8s.Overlay.{
  numbered_dirs, lower_dir_of, make_level_dirs, mount_level, init_volume, receive_checkpoint,
}
use mycedrive_k8s.Overlay.Frozen.{perform-Triple}

-- A directory of the volume.
abbrev pub HasDir : Prefix → ℕ → Manager → Type 0
HasDir prefix n m = has_dir prefix n m.entries ≡ true

add_dir_keeps :
    (prefix p : Prefix) (n k : ℕ) (entries : List Entry)
    → has_dir prefix n entries ≡ true
    → has_dir prefix n (add_dir p k entries) ≡ true
unfolding add_dir has_dir
add_dir_keeps prefix p n k entries h = elim (Bool-cases (has_dir p k entries)) [
  | inl there ↦ rw there h
  | inr missing ↦ rw missing (ground (arith, h))
]

add_dir_makes :
    (p : Prefix) (k : ℕ) (entries : List Entry) → has_dir p k (add_dir p k entries) ≡ true
unfolding add_dir has_dir
add_dir_makes p k entries = elim (Bool-cases (has_dir p k entries)) [
  | inl there ↦ rw there there
  | inr missing ↦ rw missing (go p)
]
  where
    go : (p : Prefix) → has_dir p k (dir p k ∷ entries) ≡ true
    go upper = ground arith
    go work = ground arith
    go merged = ground arith
    go lower = ground arith

effect_keeps :
    (prefix : Prefix) (n : ℕ) (c : Call) (m : Manager)
    → HasDir prefix n m
    → HasDir prefix n (effect c m)
unfolding effect has_dir
effect_keeps prefix n (make_dir p k) m h = add_dir_keeps prefix p n k m.entries h
effect_keeps prefix n (mark k) m h = h
effect_keeps prefix n (extract k) m h = add_dir_keeps prefix lower n k m.entries h
effect_keeps prefix n (send k) m h = h
effect_keeps prefix n list_dir m h = h
effect_keeps prefix n unbind m h = h
effect_keeps prefix n (mount_overlay k lowers) m h = h
effect_keeps prefix n (bind k) m h = h
effect_keeps prefix n (unmount k) m h = h
effect_keeps prefix n (stat k) m h = h

module _ (env : Environment) (prefix : Prefix) (n : ℕ) where
  perform_keeps : (c : Call) → Invariant (HasDir prefix n) (perform env c)
  unfolding perform
  perform_keeps c m h = go (env m.calls c)
    where
      called : Manager
      called = record m { calls = c ∷ m.calls }

      go : (a : Answer) → HasDir prefix n (answered a c called).1
      go works = effect_keeps prefix n c called h
      go fails = h
      go breaks = effect_keeps prefix n c called h

  set_level_keeps : (level : ℕ) → Invariant (HasDir prefix n) (set_level level)
  unfolding set_level
  set_level_keeps level m h = h

  bind_keeps {ℓ κ} :
      {A : Type ℓ} {B : Type κ} (x : Vol A) (next : A → Vol B)
      → Invariant (HasDir prefix n) x
      → ((a : A) → Invariant (HasDir prefix n) (next a))
      → Invariant (HasDir prefix n) (x >>= next)
  bind_keeps x next = bind-Invariant (HasDir prefix n) x next

  pub init_volume_keeps : Invariant (HasDir prefix n) (init_volume env)
  unfolding init_volume numbered_dirs make_level_dirs mount_level
  init_volume_keeps =
      bind_keeps _ _
        (bind_keeps _ _ (perform_keeps list_dir) λ a. gets-Invariant (HasDir prefix n) _)
        λ lowers. bind_keeps _ _ (gets-Invariant (HasDir prefix n) _) λ old.
          bind_keeps _ _
            (bind_keeps _ _ (perform_keeps (make_dir upper (suc old))) λ a.
              bind_keeps _ _ (perform_keeps (make_dir work (suc old)))
                λ b. perform_keeps (make_dir merged (suc old)))
            λ a.
              bind_keeps _ _ (perform_keeps (mount_overlay (suc old) (lower_dir_of lowers)))
                λ b. bind_keeps _ _ (perform_keeps (bind (suc old))) λ c. set_level_keeps (suc old)

  remount_keeps : Invariant (HasDir prefix n) (
      gets (λ m. m.level) >>= λ level.
      if ltb 0 level
      then (perform env unbind
          >> (perform env (unmount level) >> (set_level (level - 1) >> init_volume env)))
      else pure tt)
  remount_keeps = bind_keeps _ _ (gets-Invariant (HasDir prefix n) _) λ level.
      if-Invariant (HasDir prefix n) (ltb 0 level) _ _
        (bind_keeps _ _ (perform_keeps unbind) λ b.
          bind_keeps _ _ (perform_keeps (unmount level))
            λ c. bind_keeps _ _ (set_level_keeps (level - 1)) λ d. init_volume_keeps)
        (pure-Invariant (HasDir prefix n) tt)

  pub receive_checkpoint_keeps :
      (ordinal : ℕ) → Invariant (HasDir prefix n) (receive_checkpoint env ordinal)
  unfolding receive_checkpoint
  receive_checkpoint_keeps ordinal =
      bind_keeps _ _ (perform_keeps (extract ordinal)) λ a. remount_keeps

-- A layer that was received without an error has its directory.
pub receive_checkpoint-Triple :
    (env : Environment) (ordinal : ℕ)
    → Triple (λ m. Unit) (receive_checkpoint env ordinal) (λ a. HasDir lower ordinal)
unfolding receive_checkpoint effect
receive_checkpoint-Triple env ordinal =
    bind-Triple _ (λ a. HasDir lower ordinal) _ _ _
      (perform-Triple env (extract ordinal) _ _ (λ m h. add_dir_makes lower ordinal m.entries))
      λ a. Invariant-Triple (HasDir lower ordinal) _ (remount_keeps env lower ordinal)
