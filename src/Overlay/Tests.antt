-- ===== src/Overlay/Tests.antt =====
-- Runs of the layer manager on concrete inputs, and the theorems at such inputs.
use mycedrive_k8s.Base.{arith, ◌≤◌, true, eqb, if◌then◌else◌, List, [], ◌∷◌, ◌≡◌, refl}
use mycedrive_k8s.Overlay.State.{
  has_dir, Answer, works, fails, Environment, Manager, Call, send, stat, effect, perform,
}
use mycedrive_k8s.Overlay.{marker, upper, dir, copy_checkpoint, is_sent}
use mycedrive_k8s.Overlay.Covered.{copied_is_delivered}
use mycedrive_k8s.Overlay.Steady.{IsBacked, count}
use mycedrive_k8s.Overlay.Sent.{
  Method, inits, checkpoints, copies, ends, run, KeepsMarks, run-IsBacked, run-once,
}

-- To send the layer 2 fails; every other call works.
abbrev flaky : Environment
flaky calls (send n) = if eqb n 2 then fails else works
flaky calls _ = works

abbrev unmounted : Manager
unmounted = record { level = 0; entries = []; delivered = []; calls = [] }

abbrev story : List Method
story = inits ∷ checkpoints ∷ copies "b:2486" ∷ copies "b:2486" ∷ ends "b:2486" ∷ []

-- The layer 1 is sent once, and the writable layer 2 is tried at the end.
delivered_once : (run flaky story unmounted).delivered ≡ 1 ∷ []
unfolding run mycedrive_k8s.Overlay.Sent.invoke mycedrive_k8s.Overlay.end_volume
    mycedrive_k8s.Overlay.State.◌>>=◌ mycedrive_k8s.Overlay.State.gets
    mycedrive_k8s.Overlay.copy_checkpoint perform effect mycedrive_k8s.Overlay.create_checkpoint
    mycedrive_k8s.Overlay.init_volume mycedrive_k8s.Overlay.State.set_level
    mycedrive_k8s.Overlay.State.pure mycedrive_k8s.Overlay.State.attempt
delivered_once = refl

abbrev reliable : Environment
reliable calls call = works

-- The layer 1 was sent, the layer 2 is frozen, and 3 is the writable one.
abbrev mounted : Manager
mounted = record {
  level = 3;
  entries = dir upper 1 ∷ marker 1 ∷ dir upper 2 ∷ dir upper 3 ∷ [];
  delivered = 1 ∷ [];
  calls = [];
}

mounted-IsBacked : IsBacked mounted
unfolding is_sent count
mounted-IsBacked n e = ground (arith, e)

run-IsBacked_example :
    KeepsMarks mounted (run flaky story mounted) × IsBacked (run flaky story mounted)
run-IsBacked_example = run-IsBacked flaky story mounted mounted-IsBacked

run-once_example : count 1 (run flaky story mounted).delivered ≡ count 1 mounted.delivered
run-once_example = run-once flaky story mounted 1 (λ calls n. refl) (unfold is_sent in refl)

-- The marks cannot be read: then a marked layer is sent again.
abbrev blind : Environment
blind calls (stat n) = fails
blind calls _ = works

sent_again : (copy_checkpoint blind "b:2486" mounted).1.delivered ≡ 2 ∷ 1 ∷ 1 ∷ []
unfolding copy_checkpoint mycedrive_k8s.Overlay.State.◌>>=◌ mycedrive_k8s.Overlay.State.gets perform
    effect mycedrive_k8s.Overlay.State.pure mycedrive_k8s.Overlay.State.attempt
sent_again = refl

copied_is_delivered_example :
    (is_sent 2 (copy_checkpoint reliable "b:2486" mounted).1.entries ≡ true)
    × (1 ≤ count 2 (copy_checkpoint reliable "b:2486" mounted).1.delivered)
copied_is_delivered_example =
    copied_is_delivered reliable "b:2486" mounted 2 mounted-IsBacked
      (unfold copy_checkpoint mycedrive_k8s.Overlay.State.◌>>=◌ mycedrive_k8s.Overlay.State.gets
          perform effect mycedrive_k8s.Overlay.State.pure mycedrive_k8s.Overlay.State.attempt in
        refl)
      (unfold has_dir in refl) (omega arith) (omega arith)
