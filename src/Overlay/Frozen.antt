-- ===== src/Overlay/Frozen.antt =====
-- go-agent/overlay/volume.go: the layers of a volume through the methods of a migration, from Discover
-- to EndVolume.
use mycedrive_k8s.Base.{
  ◌⊎◌, ℕ, suc, ◌≤◌, ◌<◌, true, List, ◌∷◌, ◌≡◌, refl, sym, subst, eqb, arith, Bool-cases, inl, inr,
}
use mycedrive_k8s.Base.Triple.{
  IsGood, Triple, pure-Triple, raise-Triple, gets-Triple, if-Triple, weaken-Triple, bind-Triple,
}
use mycedrive_k8s.Overlay.State.{
  Prefix, upper, work, merged, Entry, Call, make_dir, list_dir, mount_overlay, bind, unbind,
  Manager, Answer, works, fails, breaks, Environment, set_level, perform, answered, effect, has_dir,
  add_dir, same_prefix,
}
use mycedrive_k8s.Overlay.{
  is_sent, numbered_dirs, numbers_of, sort_ints, discover, make_level_dirs, mount_level,
  create_checkpoint,
}
use mycedrive_k8s.Overlay.Covered.{count-sort_ints, has_dir-count}
use mycedrive_k8s.Overlay.Order.{sort_ints-IsAscending, count-last_or}

-- No upper directory is numbered above the level.
abbrev pub IsBelow : ℕ → Manager → Type 0
IsBelow level m = (n : ℕ) → has_dir upper n m.entries ≡ true → n ≤ level

-- Every upper directory below the level is marked.
abbrev pub IsMarkedBelow : ℕ → Manager → Type 0
IsMarkedBelow level m =
    (n : ℕ) → has_dir upper n m.entries ≡ true → 1 ≤ n → n < level → is_sent n m.entries ≡ true

-- The level is the number of the newest upper directory, or above it,
abbrev pub IsTop : Manager → Type 0
IsTop m = IsBelow m.level m

-- and it is not 0.
pub record IsMounted (m : Manager) : Type 0 where
  pub top : IsTop m
  pub positive : 1 ≤ m.level

-- A mounted volume of which only the writable layer may not have been sent.
pub record IsReady (m : Manager) : Type 0 where
  pub mounted : IsMounted m
  pub marked : IsMarkedBelow m.level m

has_dir-add_dir :
    (n k : ℕ) (prefix : Prefix) (entries : List Entry)
    → has_dir upper n (add_dir prefix k entries) ≡ true
    → (has_dir upper n entries ≡ true) ⊎ ((same_prefix prefix upper ≡ true) × (n ≡ k))
unfolding has_dir add_dir
has_dir-add_dir n k prefix entries h = elim (Bool-cases (has_dir prefix k entries)) [
  | inl there ↦ inl (rw there at h)
  | inr new ↦ let h' = rw new at h in ground (arith, h')
]

module _ (env : Environment) where
  -- A call, from what its effect has to keep.
  pub perform-Triple :
      (c : Call) (P : Manager → Type 0) (Q : Unit {0} → Manager → Type 0)
      → ((m : Manager) → P m → Q tt (effect c (record m { calls = c ∷ m.calls })))
      → Triple P (perform env c) Q
  unfolding perform
  perform-Triple c P Q h m p = go (env m.calls c)
    where
      go :
          (a : Answer)
          → let result = answered a c (record m { calls = c ∷ m.calls }) in
            IsGood Q result.0 result.1
      go works = h m p
      go fails = tt
      go breaks = tt

  -- The calls that change no entry.
  pub plain-Triple :
      (c : Call) (E : List Entry → Type 0)
      → ((m : Manager) → (effect c m).entries ≡ m.entries)
      → Triple (λ m. E m.entries) (perform env c) (λ a m. E m.entries)
  plain-Triple c E same =
      perform-Triple c (λ m. E m.entries) (λ a m. E m.entries)
        λ m p. subst E (sym (same (record m { calls = c ∷ m.calls }))) p

  pub numbered_dirs-Triple :
      (prefix : Prefix) (E : List Entry → Type 0)
      → Triple
          (λ m. E m.entries)
          (numbered_dirs env prefix)
          (λ ns m. (ns ≡ sort_ints (numbers_of prefix m.entries)) × E m.entries)
  unfolding numbered_dirs effect
  numbered_dirs-Triple prefix E =
      bind-Triple _ (λ a m. E m.entries) _ _ _ (plain-Triple list_dir E (λ m. refl))
        λ a. gets-Triple _ _ _ (λ m e. (refl, e))

  -- Discover finds the newest upper directory.
  pub discover-Triple :
      (E : List Entry → Type 0)
      → Triple (λ m. E m.entries) (discover env) (λ a m. IsTop m × E m.entries)
  unfolding discover set_level
  discover-Triple E =
      bind-Triple _ (λ ns m. (ns ≡ sort_ints (numbers_of upper m.entries)) × E m.entries) _ _ _
        (numbered_dirs-Triple upper E)
        λ ns m (found, kept). (
          (λ n h. ground (
            arith,
            found,
            h,
            has_dir-count n m.entries h,
            count-sort_ints n (numbers_of upper m.entries),
            count-last_or n 0 (sort_ints (numbers_of upper m.entries))
                (sort_ints-IsAscending (numbers_of upper m.entries)),
          )),
          kept,
        )

  -- No upper directory is above `top`, and the level is `level`.
  abbrev IsCapped : ℕ → ℕ → Manager → Type 0
  IsCapped top level m = IsBelow top m × (m.level ≡ level)

  make_dir-Triple :
      (prefix : Prefix) (top level k : ℕ)
      → k ≤ top
      → Triple (IsCapped top level) (perform env (make_dir prefix k)) (λ a. IsCapped top level)
  unfolding effect
  make_dir-Triple prefix top level k low =
      perform-Triple (make_dir prefix k) (IsCapped top level) (λ a. IsCapped top level)
        λ m (below, same).
          (λ n h. ground (arith, h, low, below n, has_dir-add_dir n k prefix m.entries h), same)

  IsCapped-Triple :
      (c : Call) (top level : ℕ)
      → ((m : Manager) → effect c m ≡ m)
      → Triple (IsCapped top level) (perform env c) (λ a. IsCapped top level)
  IsCapped-Triple c top level same =
      perform-Triple c (IsCapped top level) (λ a. IsCapped top level)
        λ m h. subst (IsCapped top level) (sym (same (record m { calls = c ∷ m.calls }))) h

  make_level_dirs-Triple :
      (top level k : ℕ)
      → k ≤ top
      → Triple (IsCapped top level) (make_level_dirs env k) (λ a. IsCapped top level)
  unfolding make_level_dirs
  make_level_dirs-Triple top level k low =
      bind-Triple _ (λ a. IsCapped top level) _ _ _ (make_dir-Triple upper top level k low)
        λ a.
          bind-Triple _ (λ b. IsCapped top level) _ _ _ (make_dir-Triple work top level k low)
            λ b. make_dir-Triple merged top level k low

  -- CreateCheckpoint makes the next level the newest.
  pub create_checkpoint-Triple : Triple IsMounted (create_checkpoint env) (λ a. IsMounted)
  unfolding create_checkpoint mount_level effect set_level
  create_checkpoint-Triple =
      bind-Triple _ (λ l. IsCapped l l) _ _ _ (gets-Triple _ _ _ (λ m h. (h.top, refl)))
        λ l.
          if-Triple (eqb l 0) _ _ _ _ (λ e. raise-Triple _ _)
            λ e.
              bind-Triple _ (λ a. IsCapped (suc l) l) _ _ _
                (weaken-Triple (IsCapped (suc l) l) _ _ (λ a. IsCapped (suc l) l) _
                  (λ m (h, same). ((λ n there. omega (arith, h n there)), same)) (λ a m h. h)
                  (make_level_dirs-Triple (suc l) l (suc l) (omega arith)))
                λ a.
                  bind-Triple _ (λ b. IsCapped (suc l) l) _ _ _
                    (IsCapped-Triple (mount_overlay (suc l) _) (suc l) l (λ m. refl))
                    λ b.
                      bind-Triple _ (λ c. IsCapped (suc l) l) _ _ _
                        (IsCapped-Triple unbind (suc l) l (λ m. refl))
                        λ c.
                          bind-Triple _ (λ d. IsCapped (suc l) l) _ _ _
                            (IsCapped-Triple (bind (suc l)) (suc l) l (λ m. refl))
                            λ d.
                              bind-Triple _ (λ e. IsMounted) _ _ _
                                (λ m (h, same). record { top = h; positive = omega arith })
                                λ e. pure-Triple l _
