-- ===== src/RestApi/Agents/Requests.antt =====
-- Whole requests of Execution Agents, as server.go routes them, and what they can do to the registry.
use mycedrive_k8s.Base.{
  Option, none, some, List, [], ◌∷◌, ◌++◌, ◌≡◌, inl, inr, refl, sym, ◌∙◌, String, lookup, ℤ, All,
  All-append, ap, subst, Bool-cases, arith, ◌==◌,
}
use mycedrive_k8s.Registry.{Time, PodRecord, Registry, record_sync_round}
use mycedrive_k8s.Registry.Ops.{
  Op, registers, reports_sync, reports_copy, reports_restored, run, apply, run-append, FromAgents,
}
use mycedrive_k8s.Registry.Flow.{Leads, agents_keep}
use mycedrive_k8s.RestApi.{Message, Response}
use mycedrive_k8s.RestApi.Agents.{
  handle_register, handle_remove, handle_copy, handle_sync, handle_restored, handle_poll,
}

-- The last argument of a handler that lets go of the lock is what other callers do meanwhile.
pub data Request : Type 0 where
  post_register : Option Message → Time → List Op → Request
  post_remove : Option String → Request
  post_copy : Option (String × String) → Request
  post_sync : Option (String × ℤ) → List Op → Request
  post_restored : Option String → Request
  get_poll : String → Request

-- The agents' routes.
unfoldable pub serve : Request → Registry → Response × Registry
serve (post_register msg now others) r = handle_register msg now others r
serve (post_remove req) r = handle_remove req r
serve (post_copy notif) r = handle_copy notif r
serve (post_sync notif others) r = handle_sync notif others r
serve (post_restored notif) r = handle_restored notif r
serve (get_poll name) r = handle_poll name r

unfoldable pub serve_all : List Request → Registry → Registry
serve_all [] r = r
serve_all (req ∷ reqs) r = serve_all reqs (serve req r).1

-- The other callers are agents too.
abbrev pub AmongAgents : Request → Type 0
AmongAgents (post_register msg now others) = FromAgents others
AmongAgents (post_sync notif others) = FromAgents others
AmongAgents _ = Unit

-- The change of the registry is a run of calls that agents may cause.
abbrev IsAgentRun : Registry → Registry → Type 0
IsAgentRun r r' = (ops : List Op) × FromAgents ops × (r' ≡ run ops r)

no_change : (r : Registry) → IsAgentRun r r
unfolding run
no_change r = ([], tt, refl)

serve-IsAgentRun : (req : Request) (r : Registry) → AmongAgents req → IsAgentRun r (serve req r).1
unfolding serve handle_register handle_remove handle_copy handle_sync handle_restored handle_poll
    run apply
serve-IsAgentRun (post_register none now others) r h = no_change r
serve-IsAgentRun (post_register (some msg) now others) r h =
    elim (Bool-cases (msg.pod_name == "")) [
      | inl empty ↦ rw empty (no_change r)
      | inr named ↦
          rw named (
            registers msg.pod_name msg.pod_address msg.container_port now ∷ others,
            (refl, h),
            refl,
          )
    ]
serve-IsAgentRun (post_remove none) r h = no_change r
serve-IsAgentRun (post_remove (some name)) r h = ([], tt, ground arith)
serve-IsAgentRun (post_copy none) r h = no_change r
serve-IsAgentRun (post_copy (some (name, dir))) r h = (reports_copy name dir ∷ [], (refl, tt), refl)
serve-IsAgentRun (post_sync none others) r h = no_change r
serve-IsAgentRun (post_sync (some (name, round)) others) r h =
    elim (Bool-cases (record_sync_round name round r).0) [
      | inl known ↦ rw known (reports_sync name round ∷ others, (refl, h), refl)
      | inr unknown ↦ rw unknown (reports_sync name round ∷ [], (refl, tt), refl)
    ]
serve-IsAgentRun (post_restored none) r h = no_change r
serve-IsAgentRun (post_restored (some name)) r h = (reports_restored name ∷ [], (refl, tt), refl)
serve-IsAgentRun (get_poll name) r h = ([], tt, ground arith)

serve_all-IsAgentRun :
    (reqs : List Request) (r : Registry) → All AmongAgents reqs → IsAgentRun r (serve_all reqs r)
unfolding serve_all
serve_all-IsAgentRun [] r h = no_change r
serve_all-IsAgentRun (req ∷ reqs) r (h, hs) =
    let (ops, from, e) = serve-IsAgentRun req r h in
    let (ops', from', e') = serve_all-IsAgentRun reqs (serve req r).1 hs in
    (
      ops ++ ops',
      All-append _ ops ops' from from',
      e' ∙ (ap (run ops') e ∙ sym (run-append ops ops' r)),
    )

-- Whatever requests agents send, well formed or not, a known pod stays known with the same name,
-- node, workload, toggles, requested rounds and armed flag; its progress flags and counts never fall;
-- and while no migration is armed its destination flag and endpoint do not change.
pub requests_keep :
    (k : String) (reqs : List Request) (r : Registry) (rec : PodRecord)
    → All AmongAgents reqs
    → lookup k r ≡ some rec
    → Leads rec (lookup k (serve_all reqs r))
requests_keep k reqs r rec h known =
    let (ops, from, e) = serve_all-IsAgentRun reqs r h in
    subst (λ r'. Leads rec (lookup k r')) (sym e) (agents_keep k ops r rec from known)
