-- ===== src/Overlay/Ending.antt =====
-- go-agent/overlay/volume.go: CopyCheckpoint and EndVolume leave nothing of the volume behind.
use mycedrive_k8s.Base.{
  ℕ, ◌≤◌, ◌<◌, Bool, true, false, if◌then◌else◌, inl, inr, Option, none, some, List, [], ◌∷◌, ◌≡◌,
  refl, sym, ◌∙◌, String, eqb, ◌==◌, arith,
}
use mycedrive_k8s.Base.Triple.{
  IsGood, Triple, pure-Triple, raise-Triple, gets-Triple, if-Triple, weaken-Triple, bind-Triple,
}
use mycedrive_k8s.Overlay.State.{
  upper, merged, Entry, list_dir, unbind, unmount, send, mark, Manager, Environment, pure,
  set_level, effect, has_dir,
}
use mycedrive_k8s.Overlay.{
  is_sent, numbered_dirs, numbers_of, sort_ints, send_layer, copy_layers, copy_checkpoint,
  unmount_all, end_volume,
}
use mycedrive_k8s.Overlay.Marker.{Says, or_sent-Triple}
use mycedrive_k8s.Overlay.Covered.{IsComplete, copy_checkpoint-IsComplete}
use mycedrive_k8s.Overlay.Frozen.{
  IsMounted, IsReady, perform-Triple, plain-Triple, numbered_dirs-Triple,
}

-- The upper directories and the level are those of `m₀`.
abbrev IsSameVolume : Manager → Manager → Type 0
IsSameVolume m₀ m =
    ((n : ℕ) → has_dir upper n m.entries ≡ has_dir upper n m₀.entries) × (m.level ≡ m₀.level)

-- No upper directory is above `top`, and those below it are marked.
abbrev IsClosing : ℕ → List Entry → Type 0
IsClosing top entries =
    ((n : ℕ) → has_dir upper n entries ≡ true → n ≤ top)
    × ((n : ℕ) → has_dir upper n entries ≡ true → 1 ≤ n → n < top → is_sent n entries ≡ true)

-- Every upper directory is marked.
abbrev pub IsAllSent : Manager → Type 0
IsAllSent m = (n : ℕ) → has_dir upper n m.entries ≡ true → 1 ≤ n → is_sent n m.entries ≡ true

IsReady-of :
    (m₀ m : Manager) (o : Option (Unit {0}))
    → IsMounted m₀
    → IsGood (λ a. IsSameVolume m₀) o m
    → IsComplete m₀ o m
    → IsGood (λ a. IsReady) o m
IsReady-of m₀ m none mounted same complete = tt
IsReady-of m₀ m (some a) mounted (dirs, level) complete = record {
  mounted = record {
    top = λ n there. ground (arith, level, there, dirs n, mounted.top n);
    positive = omega (arith, level, mounted.positive);
  };
  marked = λ n there positive below.
      complete n (sym (dirs n) ∙ there) positive (ground (arith, level, below));
}

module _ (env : Environment) where
  copy_layers-Triple :
      (m₀ : Manager) (ns : List ℕ)
      → Triple (IsSameVolume m₀) (copy_layers env ns) (λ a. IsSameVolume m₀)
  unfolding copy_layers send_layer effect has_dir
  copy_layers-Triple m₀ [] = pure-Triple tt _
  copy_layers-Triple m₀ (n ∷ ns) =
      bind-Triple _ (λ above. IsSameVolume m₀) _ _ _ (gets-Triple _ _ _ (λ m h. h))
        λ above.
          bind-Triple _ (λ skipped. IsSameVolume m₀) _ _ _
            (weaken-Triple (IsSameVolume m₀) _ _
              (λ skipped m. Says env above (is_sent n m.entries) skipped × IsSameVolume m₀ m)
              (λ skipped. IsSameVolume m₀) (λ m h. h) (λ skipped m (says, h). h)
              (or_sent-Triple env above n (IsSameVolume m₀) (λ m calls h. h)))
            λ skipped.
              if-Triple skipped _ _ _ _ (λ e. copy_layers-Triple m₀ ns)
                λ e.
                  bind-Triple _ (λ a. IsSameVolume m₀) _ _ _
                    (bind-Triple _ (λ a. IsSameVolume m₀) _ _ _
                      (perform-Triple env (send n) _ _ (λ m h. h))
                      λ a. perform-Triple env (mark n) _ _ (λ m h. h))
                    λ a. copy_layers-Triple m₀ ns

  copy_checkpoint-same :
      (dest : String) (m₀ : Manager)
      → Triple (IsSameVolume m₀) (copy_checkpoint env dest) (λ a. IsSameVolume m₀)
  unfolding copy_checkpoint numbered_dirs effect
  copy_checkpoint-same dest m₀ =
      if-Triple (dest == "") _ _ _ _ (λ e. raise-Triple _ _)
        λ e.
          bind-Triple _ (λ ns. IsSameVolume m₀) _ _ _
            (bind-Triple _ (λ a. IsSameVolume m₀) _ _ _ (perform-Triple env list_dir _ _ (λ m h. h))
              λ a. gets-Triple _ _ _ (λ m h. h))
            λ ns. copy_layers-Triple m₀ ns

  -- CopyCheckpoint makes the volume ready for its end.
  pub copy_checkpoint-Triple :
      (dest : String) → Triple IsMounted (copy_checkpoint env dest) (λ a. IsReady)
  copy_checkpoint-Triple dest m mounted =
      IsReady-of m (copy_checkpoint env dest m).1 (copy_checkpoint env dest m).0 mounted
        (copy_checkpoint-same dest m m ((λ n. refl), refl)) (copy_checkpoint-IsComplete env dest m)

  unmount_all-Triple :
      (ns : List ℕ) (E : List Entry → Type 0)
      → Triple (λ m. E m.entries) (unmount_all env ns) (λ a m. E m.entries)
  unfolding unmount_all effect
  unmount_all-Triple [] E = pure-Triple tt _
  unmount_all-Triple (n ∷ ns) E =
      bind-Triple _ (λ a m. E m.entries) _ _ _ (plain-Triple env (unmount n) E (λ m. refl))
        λ a. unmount_all-Triple ns E

  send_final-Triple :
      (top : ℕ) → Triple (λ m. IsClosing top m.entries) (send_layer env top) (λ a. IsAllSent)
  unfolding send_layer effect has_dir is_sent
  send_final-Triple top =
      bind-Triple _ (λ a m. IsClosing top m.entries) _ _ _
        (perform-Triple env (send top) _ _ (λ m h. h))
        λ a. perform-Triple env (mark top) _ _ λ m (below, marked) n there positive.
          ground (arith, there, positive, below n there, marked n there positive)

  -- The test of the last layer has answered.
  abbrev Answered : Bool → ℕ → Bool → Manager → Type 0
  Answered before top answer m =
      Says env before (is_sent top m.entries) answer × IsClosing top m.entries

  final-Triple :
      (before skipped : Bool) (top : ℕ)
      → before ≡ false
      → Triple
          (Answered before top skipped)
          (if skipped then pure tt else send_layer env top)
          (λ a. IsAllSent)
  unfolding pure
  final-Triple before true top given m (says, (below, marked)) = elim (says.skips refl) [
    | inl empty ↦ absurd (ground (arith, empty, given))
    | inr sent ↦ λ n there positive.
        ground (arith, sent, there, positive, below n there, marked n there positive)
  ]
  final-Triple before false top given m (says, h) = send_final-Triple top m h

  -- EndVolume sends the last layer: then every one is marked.
  pub end_volume-Triple :
      (dest : String) → (dest == "") ≡ false → Triple IsReady (end_volume env dest) (λ a. IsAllSent)
  unfolding end_volume effect set_level pure
  end_volume-Triple dest given =
      bind-Triple _ (λ top m. IsClosing top m.entries) _ _ _
        (gets-Triple _ _ _ (λ m h. (h.mounted.top, h.marked)))
        λ top.
          if-Triple (eqb top 0) _ _ _ _ (λ e. raise-Triple _ _)
            λ e.
              bind-Triple _ (λ a m. IsClosing top m.entries) _ _ _
                (plain-Triple env unbind (IsClosing top) (λ m. refl))
                λ a.
                  bind-Triple _ (λ ns m. IsClosing top m.entries) _ _ _
                    (weaken-Triple (λ m. IsClosing top m.entries) _ _
                      (λ ns m.
                        (ns ≡ sort_ints (numbers_of merged m.entries)) × IsClosing top m.entries)
                      (λ ns m. IsClosing top m.entries) (λ m h. h) (λ ns m (found, h). h)
                      (numbered_dirs-Triple env merged (IsClosing top)))
                    λ ns.
                      bind-Triple _ (λ b m. IsClosing top m.entries) _ _ _
                        (unmount_all-Triple _ (IsClosing top))
                        λ b.
                          bind-Triple _ (λ c m. IsClosing top m.entries) _ _ _ (λ m h. h)
                            λ c.
                              bind-Triple _ (Answered (dest == "") top) _ _ _
                                (or_sent-Triple env (dest == "") top (λ m. IsClosing top m.entries)
                                  (λ m calls h. h))
                                λ skipped. final-Triple (dest == "") skipped top given
