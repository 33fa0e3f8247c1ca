-- ===== src/Dmtcp/Reads.antt =====
-- go-agent/dmtcp/handler.go: the methods that only read, and so leave the handler as it is.
use mycedrive_k8s.Base.{
  ℕ, suc, Bool, true, false, Option, none, some, List, [], ◌∷◌, ◌≡◌, refl, ◌∙◌, String, ltb, ◌==◌,
  Bool-cases, Option-cases, inl, inr, ◌+◌, ◌/◌,
}
use mycedrive_k8s.Base.Action.{go_on, ◌>>=◌, pure, raise, gets, attempt}
use mycedrive_k8s.Dmtcp.States.{
  Time, glob, stat, now, sleep, Shell, Process, Dmtcp, ask, Wait, half_second,
}
use mycedrive_k8s.Dmtcp.{
  newer, non_blank, if_early, look_again, latest_of, latest_among, latest_checkpoint_file,
  list_checkpoints, restart_argv, restart_command, wait_rounds, wait_for_checkpoint_file,
}

-- The handler is as it was.
abbrev pub IsRead {ℓ} : {A : Type ℓ} → Process → Option A × Process → Type 0
IsRead p result = result.1.handler ≡ p.handler

module _ (shell : Shell) where
  latest_of-IsRead :
      (files : List String) (best : String × Time) (p : Process)
      → IsRead p (latest_of shell files best p)
  unfolding latest_of ◌>>=◌ ask pure
  latest_of-IsRead [] best p = refl
  latest_of-IsRead (file ∷ files) best p =
      latest_of-IsRead files (newer file (shell.mod_time p.calls file) best)
        (record p { calls = stat file ∷ p.calls })

  non_blank-IsRead : (o : Option (String × Time)) (p : Process) → IsRead p (go_on o non_blank p)
  unfolding pure raise
  non_blank-IsRead none p = refl
  non_blank-IsRead (some best) p = elim (Bool-cases (best.0 == "")) [
    | inl blank ↦ rw blank refl
    | inr named ↦ rw named refl
  ]

  latest_among-IsRead : (o : Option (List String)) (p : Process) → IsRead p (latest_among shell o p)
  unfolding ◌>>=◌ raise
  latest_among-IsRead none p = refl
  latest_among-IsRead (some []) p = refl
  latest_among-IsRead (some (file ∷ files)) p =
      let first = latest_of shell (file ∷ files) ("", 0) p in
      non_blank-IsRead first.0 first.1 ∙ latest_of-IsRead (file ∷ files) ("", 0) p

  pub latest-IsRead : (p : Process) → IsRead p (latest_checkpoint_file shell p)
  unfolding latest_checkpoint_file ◌>>=◌ ask
  latest-IsRead p = latest_among-IsRead (shell.files p.calls) (record p { calls = glob ∷ p.calls })

  pub list_checkpoints-IsRead : (p : Process) → IsRead p (list_checkpoints shell p)
  unfolding list_checkpoints ◌>>=◌ ask pure raise
  list_checkpoints-IsRead p = elim (Option-cases (shell.files p.calls)) [
    | inl failed ↦ rw failed refl
    | inr (files, there) ↦ rw there refl
  ]

  restart_argv-IsRead :
      (o : Option (List String)) (p : Process)
      → IsRead p (go_on o (λ files. gets (λ q. q.handler) >>= λ h. restart_argv shell h files) p)
  unfolding ◌>>=◌ gets pure raise
  restart_argv-IsRead none p = refl
  restart_argv-IsRead (some []) p = refl
  restart_argv-IsRead (some (file ∷ files)) p = refl

  pub restart_command-IsRead : (p : Process) → IsRead p (restart_command shell p)
  unfolding restart_command ◌>>=◌
  restart_command-IsRead p =
      let first = list_checkpoints shell p in
      restart_argv-IsRead first.0 first.1 ∙ list_checkpoints-IsRead p

  look_again-IsRead :
      (rest : Dmtcp Wait) (o : Option String) (p : Process)
      → ((p' : Process) → IsRead p' (rest p'))
      → IsRead p (look_again rest o p)
  unfolding ◌>>=◌ ask pure
  look_again-IsRead rest none p h = h (record p { calls = sleep ∷ p.calls })
  look_again-IsRead rest (some file) p h = refl

  -- A round that began, in time or not.
  round-IsRead :
      (rest : Dmtcp Wait) (early : Bool) (p : Process)
      → ((p' : Process) → IsRead p' (rest p'))
      → IsRead p (if_early early (attempt (latest_checkpoint_file shell) >>= look_again rest) p)
  unfolding ◌>>=◌ attempt pure
  round-IsRead rest false p h = refl
  round-IsRead rest true p h =
      let look = latest_checkpoint_file shell p in
      look_again-IsRead rest look.0 look.1 h ∙ latest-IsRead p

  wait_rounds-IsRead :
      (fuel : ℕ) (deadline : Time) (p : Process) → IsRead p (wait_rounds shell fuel deadline p)
  unfolding wait_rounds ◌>>=◌ ask pure
  wait_rounds-IsRead ℕ.zero deadline p = refl
  wait_rounds-IsRead (suc fuel) deadline p =
      round-IsRead (wait_rounds shell fuel deadline) (ltb (shell.clock p.calls) deadline)
        (record p { calls = now ∷ p.calls }) (wait_rounds-IsRead fuel deadline)

  pub wait_for_checkpoint_file-IsRead :
      (timeout : Time) (p : Process) → IsRead p (wait_for_checkpoint_file shell timeout p)
  unfolding wait_for_checkpoint_file ◌>>=◌ ask
  wait_for_checkpoint_file-IsRead timeout p =
      wait_rounds-IsRead (timeout / half_second + 2) (shell.clock p.calls + timeout)
        (record p { calls = now ∷ p.calls })
