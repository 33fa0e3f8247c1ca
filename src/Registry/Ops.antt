-- ===== src/Registry/Ops.antt =====
-- The registry under any sequence of calls. The lock of registry.go makes each method one step, so
-- what concurrent REST handlers and reconcilers do to the registry is a list of such steps.
use mycedrive_k8s.Base.{Bool, true, false, List, [], ◌∷◌, ◌++◌, ◌≡◌, refl, String, ℤ, All}
use mycedrive_k8s.Registry.{
  Time, PodRecord, Registry, ArmInfo, register, delete, arm, disarm, record_sync_round,
  mark_checkpoint_ready, mark_restored, set_workload, set_node, seed,
}

pub data Op : Type 0 where
  registers : String → String → ℤ → Time → Op
  deletes : String → Op
  arms : String → ArmInfo → Time → Op
  disarms : String → Op
  reports_sync : String → ℤ → Op
  reports_copy : String → String → Op
  reports_restored : String → Op
  links : String → String → String → Op
  places : String → String → Op
  seeds : List PodRecord → Op

unfoldable pub apply : Op → Registry → Registry
apply (registers name address port now) r = (register name address port now r).1
apply (deletes name) r = delete name r
apply (arms name info now) r = arm name info now r
apply (disarms name) r = disarm name r
apply (reports_sync name round) r = (record_sync_round name round r).1
apply (reports_copy name dir) r = (mark_checkpoint_ready name dir r).1
apply (reports_restored name) r = (mark_restored name r).1
apply (links pod namespace workload) r = set_workload pod namespace workload r
apply (places pod node) r = set_node pod node r
apply (seeds records) r = seed records r

unfoldable pub run : List Op → Registry → Registry
run [] r = r
run (op ∷ ops) r = run ops (apply op r)

-- What an Execution Agent can cause over REST.
abbrev pub is_agent_op : Op → Bool
is_agent_op (registers _ _ _ _) = true
is_agent_op (reports_sync _ _) = true
is_agent_op (reports_copy _ _) = true
is_agent_op (reports_restored _) = true
is_agent_op _ = false

abbrev pub FromAgents : List Op → Type 0
FromAgents = All (λ op. is_agent_op op ≡ true)

pub run-append : (xs ys : List Op) (r : Registry) → run (xs ++ ys) r ≡ run ys (run xs r)
unfolding run
run-append [] ys r = refl
run-append (x ∷ xs) ys r = run-append xs ys (apply x r)
