-- ===== src/Overlay/Sent.antt =====
-- go-agent/overlay/volume.go: which layers are sent to the destination, and how often, by every method.
use mycedrive_k8s.Base.{
  ℕ, suc, ◌-◌, Bool, true, false, List, [], ◌∷◌, ◌≡◌, refl, String, eqb, ltb, ◌==◌, if◌then◌else◌,
}
use mycedrive_k8s.Overlay.State.{
  Prefix, upper, work, merged, lower, make_dir, list_dir, mount_overlay, bind, unbind, unmount,
  extract, Manager, Environment, Vol, ◌>>=◌, pure, raise,
}
use mycedrive_k8s.Overlay.{
  is_sent, or_sent, numbered_dirs, discover, make_level_dirs, mount_level, init_volume,
  create_checkpoint, send_layer, copy_checkpoint, receive_checkpoint, unmount_all, end_volume,
}
use mycedrive_k8s.Overlay.Marker.{StatsWork, Says, after_or_sent}
use mycedrive_k8s.Overlay.Steady.{
  count, IsBacked, Steady, Steady-refl, Steady-trans, Keeps, bind-Keeps, gets-Keeps,
  set_level-Keeps, perform-Keeps,
}
use mycedrive_k8s.Overlay.Sending.{calls_Steady, send_layer-Keeps, copy_layers-Keeps}

pure-Keeps {ℓ} : {A : Type ℓ} {env : Environment} (a : A) → Keeps env (pure a)
unfolding pure
pure-Keeps a m = Steady-refl m

raise-Keeps {ℓ} : {env : Environment} (A : Type ℓ) → Keeps env (raise {A = A})
unfolding raise
raise-Keeps A m = Steady-refl m

if-Keeps {ℓ} :
    {A : Type ℓ} {env : Environment} (b : Bool) (x y : Vol A)
    → Keeps env x
    → Keeps env y
    → Keeps env (if b then x else y)
if-Keeps true x y p q = p
if-Keeps false x y p q = q

module _ (env : Environment) where
  numbered_dirs-Keeps : (prefix : Prefix) → Keeps env (numbered_dirs env prefix)
  unfolding numbered_dirs
  numbered_dirs-Keeps prefix = bind-Keeps _ _ (perform-Keeps env list_dir refl) λ _. gets-Keeps _

  pub discover-Keeps : Keeps env (discover env)
  unfolding discover
  discover-Keeps = bind-Keeps _ _ (numbered_dirs-Keeps upper) λ ns. set_level-Keeps _

  make_level_dirs-Keeps : (level : ℕ) → Keeps env (make_level_dirs env level)
  unfolding make_level_dirs
  make_level_dirs-Keeps level = bind-Keeps _ _ (perform-Keeps env (make_dir upper level) refl) λ _.
      bind-Keeps _ _ (perform-Keeps env (make_dir work level) refl)
        λ _. perform-Keeps env (make_dir merged level) refl

  init_volume-Keeps : Keeps env (init_volume env)
  unfolding init_volume mount_level
  init_volume-Keeps = bind-Keeps _ _ (numbered_dirs-Keeps lower) λ ns.
      bind-Keeps _ _ (gets-Keeps _) λ old. bind-Keeps _ _ (make_level_dirs-Keeps (suc old)) λ _.
        bind-Keeps _ _ (perform-Keeps env (mount_overlay (suc old) _) refl) λ _.
          bind-Keeps _ _ (perform-Keeps env (bind (suc old)) refl) λ _. set_level-Keeps (suc old)

  pub create_checkpoint-Keeps : Keeps env (create_checkpoint env)
  unfolding create_checkpoint mount_level
  create_checkpoint-Keeps = bind-Keeps _ _ (gets-Keeps _) λ frozen.
      if-Keeps (eqb frozen 0) _ _ (raise-Keeps _) (
        bind-Keeps _ _ (make_level_dirs-Keeps (suc frozen)) λ _.
          bind-Keeps _ _ (perform-Keeps env (mount_overlay (suc frozen) _) refl) λ _.
            bind-Keeps _ _ (perform-Keeps env unbind refl) λ _.
              bind-Keeps _ _ (perform-Keeps env (bind (suc frozen)) refl)
                λ _. bind-Keeps _ _ (set_level-Keeps (suc frozen)) λ _. pure-Keeps frozen)

  pub copy_checkpoint-Keeps : (dest : String) → Keeps env (copy_checkpoint env dest)
  unfolding copy_checkpoint
  copy_checkpoint-Keeps dest =
      if-Keeps (dest == "") _ _ (raise-Keeps _)
        (bind-Keeps _ _ (numbered_dirs-Keeps upper) λ ns. copy_layers-Keeps env ns)

  receive_checkpoint-Keeps : (ordinal : ℕ) → Keeps env (receive_checkpoint env ordinal)
  unfolding receive_checkpoint
  receive_checkpoint-Keeps ordinal = bind-Keeps _ _ (perform-Keeps env (extract ordinal) refl) λ _.
      bind-Keeps _ _ (gets-Keeps _) λ level.
        if-Keeps (ltb 0 level) _ _
          (bind-Keeps _ _ (perform-Keeps env unbind refl) λ _.
            bind-Keeps _ _ (perform-Keeps env (unmount level) refl)
              λ _. bind-Keeps _ _ (set_level-Keeps (level - 1)) λ _. init_volume-Keeps)
          (pure-Keeps tt)

  unmount_all-Keeps : (ns : List ℕ) → Keeps env (unmount_all env ns)
  unfolding unmount_all
  unmount_all-Keeps [] = pure-Keeps tt
  unmount_all-Keeps (n ∷ ns) =
      bind-Keeps _ _ (perform-Keeps env (unmount n) refl) λ _. unmount_all-Keeps ns

  unless_skipped-Keeps :
      (before answer : Bool) (final : ℕ) (m : Manager)
      → Says env before (is_sent final m.entries) answer
      → Steady env m ((if answer then pure tt else send_layer env final) m).1
  unfolding pure
  unless_skipped-Keeps before true final m says = Steady-refl m
  unless_skipped-Keeps before false final m says =
      send_layer-Keeps env final m (λ w. says.unmarked w refl)

  -- The final layer is sent only where it is not marked.
  send_final-Keeps :
      (dest : String) (final : ℕ)
      → Keeps env (
          or_sent env (dest == "") final >>= λ skipped.
          if skipped then pure tt else send_layer env final)
  send_final-Keeps dest final m =
      after_or_sent env (dest == "") final
        (λ skipped. if skipped then pure tt else send_layer env final)
        (λ result. Steady env m result.1) m
        (λ answer calls says.
          Steady-trans m (record m { calls = calls }) _ (calls_Steady calls m)
            (unless_skipped-Keeps (dest == "") answer final (record m { calls = calls }) says))

  pub end_volume-Keeps : (dest : String) → Keeps env (end_volume env dest)
  unfolding end_volume
  end_volume-Keeps dest = bind-Keeps _ _ (gets-Keeps _) λ final.
      if-Keeps (eqb final 0) _ _ (raise-Keeps _) (
        bind-Keeps _ _ (perform-Keeps env unbind refl) λ _.
          bind-Keeps _ _ (numbered_dirs-Keeps merged) λ ns.
            bind-Keeps _ _ (unmount_all-Keeps _)
              λ _. bind-Keeps _ _ (set_level-Keeps 0) λ _. send_final-Keeps dest final)

-- A call of the manager.
pub data Method : Type 0 where
  discovers inits checkpoints : Method
  copies ends : String → Method
  receives : ℕ → Method

unfoldable pub invoke : Environment → Method → Manager → Manager
invoke env discovers m = (discover env m).1
invoke env inits m = (init_volume env m).1
invoke env checkpoints m = (create_checkpoint env m).1
invoke env (copies dest) m = (copy_checkpoint env dest m).1
invoke env (ends dest) m = (end_volume env dest m).1
invoke env (receives ordinal) m = (receive_checkpoint env ordinal m).1

unfoldable pub run : Environment → List Method → Manager → Manager
run env [] m = m
run env (method ∷ methods) m = run env methods (invoke env method m)

invoke-Steady :
    (env : Environment) (method : Method) (m : Manager) → Steady env m (invoke env method m)
unfolding invoke
invoke-Steady env discovers = discover-Keeps env
invoke-Steady env inits = init_volume-Keeps env
invoke-Steady env checkpoints = create_checkpoint-Keeps env
invoke-Steady env (copies dest) = copy_checkpoint-Keeps env dest
invoke-Steady env (ends dest) = end_volume-Keeps env dest
invoke-Steady env (receives ordinal) = receive_checkpoint-Keeps env ordinal

run-Steady :
    (env : Environment) (methods : List Method) (m : Manager) → Steady env m (run env methods m)
unfolding run
run-Steady env [] m = Steady-refl m
run-Steady env (method ∷ methods) m =
    Steady-trans m (invoke env method m) (run env methods (invoke env method m))
      (invoke-Steady env method m) (run-Steady env methods (invoke env method m))

-- What is marked stays marked.
abbrev pub KeepsMarks : Manager → Manager → Type 0
KeepsMarks m m' = (n : ℕ) → is_sent n m.entries ≡ true → is_sent n m'.entries ≡ true

-- Through any methods, to any destinations, whichever calls fail and when, the looks at the marks among
-- them: a layer that is marked as sent stays marked, and if every marked layer was taken by the
-- destination at the start, then so it is afterwards.
pub run-IsBacked :
    (env : Environment) (methods : List Method) (m : Manager)
    → IsBacked m
    → KeepsMarks m (run env methods m) × IsBacked (run env methods m)
run-IsBacked env methods m backed =
    let steady = run-Steady env methods m in (steady.stays, steady.backed backed)

-- Through any methods, to any destinations, whichever calls fail and when, but that a look at a mark fails
-- only where there is none: the destination does not take a layer again that is marked as sent.
pub run-once :
    (env : Environment) (methods : List Method) (m : Manager) (n : ℕ)
    → StatsWork env
    → is_sent n m.entries ≡ true
    → count n (run env methods m).delivered ≡ count n m.delivered
run-once env methods m n readable sent = (run-Steady env methods m).once readable n sent
