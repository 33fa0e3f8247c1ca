-- ===== src/Agent/Rounds.antt =====
-- go-agent/endcontainer.go: the rounds of the source leave its volume ready for the end.
use mycedrive_k8s.Base.{
  ℕ, suc, ◌≤◌, true, false, not, ◌&&◌, Option, none, some, ◌≡◌, refl, String, ltb, pos, pos_part,
  ◌==◌, arith,
}
use mycedrive_k8s.Base.Triple.{
  IsGood, Triple, pure-Triple, gets-Triple, if-Triple, weaken-Triple, bind-Triple, zoom-Triple,
}
use mycedrive_k8s.Env.{env_int}
use mycedrive_k8s.Env.Laws.{env_int-cases}
use mycedrive_k8s.Overlay.State.{upper, Manager, Environment, Vol, has_dir}
use mycedrive_k8s.Overlay.{discover, create_checkpoint, copy_checkpoint}
use mycedrive_k8s.Overlay.Steady.{IsBacked, Keeps}
use mycedrive_k8s.Overlay.Sent.{discover-Keeps, create_checkpoint-Keeps, copy_checkpoint-Keeps}
use mycedrive_k8s.Overlay.Frozen.{
  IsTop, IsMounted, IsReady, discover-Triple, create_checkpoint-Triple,
}
use mycedrive_k8s.Overlay.Ending.{copy_checkpoint-Triple}
use mycedrive_k8s.Agent.Surroundings.{Host, World, put_manager, in_volume}
use mycedrive_k8s.Agent.{transfer_rounds, pre_transfer}

-- A condition on the volume, whose marks are backed by deliveries.
abbrev pub And : (Manager → Type 0) → World → Type 0
And P w = P w.manager × IsBacked w.manager

-- The volume has the layer `k`, so Discover finds it mounted.
abbrev pub HasLayer : ℕ → Manager → Type 0
HasLayer k m = has_dir upper k m.entries ≡ true

IsBacked-Triple {ℓ} :
    {A : Type ℓ} (env : Environment) (v : Vol A) (P : Manager → Type 0) (Q : A → Manager → Type 0)
    → Keeps env v
    → Triple P v Q
    → Triple (λ m. P m × IsBacked m) v (λ a m. Q a m × IsBacked m)
IsBacked-Triple {A = A} env v P Q keeps h m (p, backed) = go (v m).0 (h m p)
  where
    go : (o : Option A) → IsGood Q o (v m).1 → IsGood (λ a m. Q a m × IsBacked m) o (v m).1
    go none q = tt
    go (some a) q = (q, (keeps m).backed backed)

module _ (host : Host) where
  pub volume-Triple {ℓ} :
      {A : Type ℓ} (v : Environment → Vol A) (P : Manager → Type 0) (Q : A → Manager → Type 0)
      → ((env : Environment) → Keeps env (v env))
      → ((env : Environment) → Triple P (v env) Q)
      → Triple (And P) (in_volume host v) (λ a. And (Q a))
  volume-Triple v P Q keeps h =
      zoom-Triple (λ w. w.manager) put_manager (λ m w. refl) (λ m. P m × IsBacked m)
        (λ a m. Q a m × IsBacked m) (λ w. v (host.volume w.events))
        (λ w. IsBacked-Triple _ _ P Q (keeps _) (h _))

  first_rounds-Triple :
      (n : ℕ) (dest : String)
      → Triple (And IsReady) (transfer_rounds host n dest) (λ a. And IsReady)
      → Triple (And IsMounted) (transfer_rounds host (suc n) dest) (λ a. And IsReady)
  unfolding transfer_rounds
  first_rounds-Triple n dest rest =
      bind-Triple _ (λ frozen. And IsMounted) _ _ _
        (volume-Triple create_checkpoint IsMounted (λ a. IsMounted) create_checkpoint-Keeps
          create_checkpoint-Triple)
        λ frozen.
          bind-Triple _ (λ a. And IsReady) _ _ _
            (volume-Triple (λ env. copy_checkpoint env dest) IsMounted (λ a. IsReady)
              (λ env. copy_checkpoint-Keeps env dest) (λ env. copy_checkpoint-Triple env dest))
            λ a. rest

  rounds-Triple :
      (n : ℕ) (dest : String)
      → Triple (And IsReady) (transfer_rounds host n dest) (λ a. And IsReady)
  unfolding transfer_rounds
  rounds-Triple ℕ.zero dest = pure-Triple tt _
  rounds-Triple (suc n) dest =
      weaken-Triple (And IsMounted) (And IsReady) (transfer_rounds host (suc n) dest)
        (λ a. And IsReady) (λ a. And IsReady) (λ w (ready, backed). (ready.mounted, backed))
        (λ a w h. h) (first_rounds-Triple n dest (rounds-Triple n dest))

  -- There is a round, whatever CHECKPOINT_ROUNDS says.
  some_rounds-Triple :
      (n : ℕ) (dest : String)
      → 1 ≤ n
      → Triple (And IsMounted) (transfer_rounds host n dest) (λ a. And IsReady)
  some_rounds-Triple ℕ.zero dest h = absurd (omega (arith, h))
  some_rounds-Triple (suc n) dest h = first_rounds-Triple n dest (rounds-Triple n dest)

  rounds_positive : 1 ≤ pos_part (env_int host.env "CHECKPOINT_ROUNDS" (pos 1))
  rounds_positive = ground (arith, env_int-cases host.env "CHECKPOINT_ROUNDS" (pos 1))

  pub pre_transfer-Triple :
      (k : ℕ) (dest : String)
      → 1 ≤ k
      → (dest == "") ≡ false
      → Triple (And (HasLayer k)) (pre_transfer host true dest) (λ a. And IsReady)
  unfolding pre_transfer
  pre_transfer-Triple k dest positive given =
      bind-Triple _ (λ a. And IsMounted) _ _ _
        (volume-Triple discover (HasLayer k) (λ a. IsMounted) discover-Keeps
          (λ env.
            weaken-Triple (HasLayer k) (HasLayer k) (discover env) (λ a m. IsTop m × HasLayer k m)
              (λ a. IsMounted) (λ m h. h)
              (λ a m (top, there). record {
                top = top;
                positive = omega (arith, positive, top k there);
              })
              (discover-Triple env (λ es. has_dir upper k es ≡ true))))
        λ a.
          bind-Triple _ (λ level w. (level ≡ w.manager.level) × And IsMounted w) _ _ _
            (gets-Triple _ _ _ (λ w h. (refl, h)))
            λ level.
              if-Triple (ltb 0 level && not (dest == "")) _ _ _ _
                (λ e.
                  bind-Triple _ (λ b. And IsReady) _ _ _
                    (weaken-Triple (And IsMounted)
                      (λ w. (level ≡ w.manager.level) × And IsMounted w) _ (λ a. And IsReady)
                      (λ a. And IsReady) (λ w (same, h). h) (λ a w h. h)
                      (some_rounds-Triple (pos_part (env_int host.env "CHECKPOINT_ROUNDS" (pos 1)))
                        dest rounds_positive))
                    λ b. pure-Triple _ _)
                λ e w (same, (mounted, backed)).
                  absurd (ground (arith, e, given, same, mounted.positive))
