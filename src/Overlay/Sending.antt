-- ===== src/Overlay/Sending.antt =====
-- go-agent/overlay/volume.go: what the loop of CopyCheckpoint leaves of the marks.
use mycedrive_k8s.Base.{ℕ, Bool, true, false, List, [], ◌∷◌, ◌≡◌, refl, leb, if◌then◌else◌, arith}
use mycedrive_k8s.Overlay.State.{
  marker, Call, send, mark, Manager, Answer, works, fails, breaks, Environment, Vol, ◌>>=◌, pure,
  gets, perform, go_on, answered, effect,
}
use mycedrive_k8s.Overlay.{is_sent, send_layer, copy_layers}
use mycedrive_k8s.Overlay.Marker.{StatsWork, Says, after_or_sent}
use mycedrive_k8s.Overlay.Steady.{
  count, Steady, Steady-refl, Steady-trans, SameSent, SameSent-Steady, Keeps, go_on-Keeps,
}

-- The destination took the layer `n`, which was not marked if the marks can be read,
took_Steady :
    (env : Environment) (n level : ℕ) (calls : List Call) (m : Manager)
    → (StatsWork env → is_sent n m.entries ≡ false)
    → Steady env m
        (record { level = level; entries = m.entries; delivered = n ∷ m.delivered; calls = calls })
unfolding count
took_Steady env n level calls m new = record {
  stays = λ k e. e;
  once = λ w k e. ground (arith, e, new w);
  backed = λ h k e. ground (arith, h k e);
}

-- and it was marked after that.
marked_Steady :
    (env : Environment) (n level : ℕ) (calls : List Call) (m : Manager)
    → (StatsWork env → is_sent n m.entries ≡ false)
    → Steady env m (record {
      level = level;
      entries = marker n ∷ m.entries;
      delivered = n ∷ m.delivered;
      calls = calls;
    })
unfolding count is_sent
marked_Steady env n level calls m new = record {
  stays = λ k e. ground (arith, e);
  once = λ w k e. ground (arith, e, new w);
  backed = λ h k e. ground (arith, h k, e);
}

pub calls_Steady :
    {env : Environment} (calls : List Call) (m : Manager)
    → Steady env m (record m { calls = calls })
calls_Steady calls m =
    SameSent-Steady m (record m { calls = calls }) (unfold SameSent in ((λ k. refl), refl))

-- The mark, as the environment answers it, on a layer that was just taken.
mark-Keeps :
    (env : Environment) (b : Answer) (n : ℕ) (d : List Call) (m : Manager)
    → (StatsWork env → is_sent n m.entries ≡ false)
    → Steady env m (answered b (mark n) (record m { delivered = n ∷ m.delivered; calls = d })).1
unfolding effect
mark-Keeps env works n d m new = marked_Steady env n m.level d m new
mark-Keeps env fails n d m new = took_Steady env n m.level d m new
mark-Keeps env breaks n d m new = marked_Steady env n m.level d m new

marking : Environment → ℕ → Vol (Unit {0})
marking env n m = answered (env m.calls (mark n)) (mark n) (record m { calls = mark n ∷ m.calls })

-- The two calls of `send_layer`, as the environment answers them.
sent_marked-Keeps :
    (a : Answer) (env : Environment) (n : ℕ) (c : List Call) (m : Manager)
    → (StatsWork env → is_sent n m.entries ≡ false)
    → Steady env m
        (go_on
          (answered a (send n) (record m { calls = c })).0
          (λ _. marking env n)
          (answered a (send n) (record m { calls = c })).1).1
unfolding effect marking
sent_marked-Keeps works env n c m new = mark-Keeps env (env c (mark n)) n (mark n ∷ c) m new
sent_marked-Keeps fails env n c m new = calls_Steady c m
sent_marked-Keeps breaks env n c m new = took_Steady env n m.level c m new

pub send_layer-Keeps :
    (env : Environment) (n : ℕ) (m : Manager)
    → (StatsWork env → is_sent n m.entries ≡ false)
    → Steady env m (send_layer env n m).1
unfolding send_layer perform ◌>>=◌ marking
send_layer-Keeps env n m new =
    sent_marked-Keeps (env m.calls (send n)) env n (send n ∷ m.calls) m new

-- A layer is sent or passed over, as the test before says, and then comes the rest.
sent_or_not-Keeps {ℓ} :
    {A : Type ℓ} (env : Environment) (before answer : Bool) (n : ℕ) (rest : Vol A) (m : Manager)
    → Says env before (is_sent n m.entries) answer
    → Keeps env rest
    → Steady env m ((if answer then rest else (send_layer env n >>= λ _. rest)) m).1
unfolding ◌>>=◌
sent_or_not-Keeps env before true n rest m says h = h m
sent_or_not-Keeps env before false n rest m says h =
    Steady-trans m (send_layer env n m).1 _ (send_layer-Keeps env n m (λ w. says.unmarked w refl))
      (go_on-Keeps (send_layer env n m).0 (λ _. rest) (λ _. h) (send_layer env n m).1)

pub copy_layers-Keeps : (env : Environment) (ns : List ℕ) → Keeps env (copy_layers env ns)
unfolding copy_layers gets ◌>>=◌ pure
copy_layers-Keeps env [] m = Steady-refl m
copy_layers-Keeps env (n ∷ ns) m =
    after_or_sent env (leb m.level n) n
      (λ skipped.
        if skipped then copy_layers env ns else (send_layer env n >>= λ _. copy_layers env ns))
      (λ result. Steady env m result.1) m
      (λ answer calls says.
        Steady-trans m (record m { calls = calls }) _ (calls_Steady calls m)
          (sent_or_not-Keeps env (leb m.level n) answer n (copy_layers env ns)
            (record m { calls = calls }) says (copy_layers-Keeps env ns)))
