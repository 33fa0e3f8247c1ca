-- ===== src/Controller/Migration/Orderly.antt =====
-- The pass from its start: it fetches a Migration and does to it what is in order.
use mycedrive_k8s.Base.{
  ap, ◌≡◌, refl, sym, subst, String, true, false, List, [], ◌∷◌, All, Bool-cases, inl, inr,
  if◌then◌else◌,
}
use mycedrive_k8s.Api.{Migration, MigrationStatus, is_terminal, is_terminal_phase}
use mycedrive_k8s.Registry.{Registry}
use mycedrive_k8s.Controller.Cluster.{update_migration, Cluster, Result, ok, Call, get_migration}
use mycedrive_k8s.Controller.Monad.{pure, State, ◌>>=◌, attempt, call, set_registry, set_mig}
use mycedrive_k8s.Controller.Ends.{
  weaken_after, strengthen, Ends, pure-Ends, attempt-Ends, if-Ends, weaken, bind-Ends, bind_keep,
  gets_knowing,
}
use mycedrive_k8s.Controller.Audit.{
  IsHeld, stay_at, IsInOrder, IsMoved, Held, Moved, Held→Moved, call-Held,
}
use mycedrive_k8s.Controller.Phases.{done, Outcome}
use mycedrive_k8s.Controller.Migration.{put_back, finalize, drive, after_fetch, reconcile}
use mycedrive_k8s.Controller.Migration.Audit.{with_workload-Moved}

-- The Migration in hand is `m`, and the calls so far are in order.
record Exactly (mig m : Migration) (s : State) : Type 0 where
  is_exact : s.mig ≡ m
  exact_calls : All (IsInOrder mig) s.calls

-- All but the finalizer is as it was fetched.
record IsSame (mig m : Migration) : Type 0 where
  same_status : m.status ≡ mig.status
  same_spec : m.spec ≡ mig.spec
  same_name : m.name ≡ mig.name
  same_namespace : m.namespace ≡ mig.namespace

module _ (mig m : Migration) (same : IsSame mig m) where
  Exactly→Moved : (s : State) → Exactly mig m s → Moved mig s
  Exactly→Moved s h = record {
    at_phase = subst (IsMoved mig) (sym h.is_exact) (record {
      moved = stay_at (ap (λ (st : MigrationStatus). st.phase) same.same_status);
      moved_spec = same.same_spec;
      moved_name = same.same_name;
      moved_namespace = same.same_namespace;
    });
    moved_calls = h.exact_calls;
  }

  -- An update of the object that sends it with its status and spec as they were.
  call-Exactly :
      {A : Type 0} (c : Call) (answer : List Call → Result A)
      → IsInOrder mig c
      → Ends (Exactly mig m) (Exactly mig m) (call c answer)
  unfolding call
  call-Exactly c answer legal = record {
    at = λ s h. record { is_exact = h.is_exact; exact_calls = (legal, h.exact_calls) };
  }

  registry-Exactly :
      (f : Registry → Registry) → Ends (Exactly mig m) (Exactly mig m) (set_registry f)
  unfolding set_registry
  registry-Exactly f = record {
    at = λ s h. record { is_exact = h.is_exact; exact_calls = h.exact_calls };
  }

set_mig-Exactly : (mig m m' : Migration) → Ends (Exactly mig m) (Exactly mig m') (set_mig m')
unfolding set_mig
set_mig-Exactly mig m m' = record {
  at = λ s h. record { is_exact = refl; exact_calls = h.exact_calls };
}

module _ (cluster : Cluster) (mig : Migration) where
  itself : IsSame mig mig
  itself = record { same_status = refl; same_spec = refl; same_name = refl; same_namespace = refl }

  -- The object is put back with another finalizer.
  put_back-Moved :
      (m m' : Migration) (outcome : Outcome)
      → IsSame mig m
      → IsSame mig m'
      → Ends (Exactly mig m) (Moved mig) (put_back cluster m' outcome)
  unfolding put_back
  put_back-Moved m m' outcome same same' = weaken_after (Exactly→Moved mig m' same') (
      bind_keep _ _ (set_mig-Exactly mig m m') λ _.
        gets_knowing _ _ (λ u. u ≡ m') (λ s h. h.is_exact)
          λ u e.
            bind-Ends _ _ (λ s h. h)
              (call-Exactly mig m' same' _ _ (
                subst (λ v. IsInOrder mig (update_migration v)) (sym e)
                  (same'.same_status, same'.same_spec, same'.same_name, same'.same_namespace)))
              λ _. pure-Ends _)

  finalize-Moved : Ends (Exactly mig mig) (Moved mig) (finalize cluster)
  unfolding finalize
  finalize-Moved =
      gets_knowing _ _ (λ m. m ≡ mig) (λ s h. h.is_exact)
        λ m e.
          if-Ends m.finalizer _ _
            (bind-Ends _ _ (Exactly→Moved mig mig itself) (registry-Exactly mig mig itself _) λ _.
              put_back-Moved mig (record m { finalizer = false }) _ itself
                (subst (λ v. IsSame mig (record v { finalizer = false })) (sym e)
                  (record {
                    same_status = refl;
                    same_spec = refl;
                    same_name = refl;
                    same_namespace = refl;
                  })))
            (weaken _ (Exactly→Moved mig mig itself) (pure-Ends _))

  Exactly→Held : (s : State) → Exactly mig mig s → Held mig s
  Exactly→Held s h = record {
    held = subst (IsHeld mig) (sym h.is_exact) (record {
      same_phase = refl;
      same_source = refl;
      held_spec = refl;
      held_name = refl;
      held_namespace = refl;
    });
    held_calls = h.exact_calls;
  }

  drive-Moved :
      is_terminal_phase mig.status.phase ≡ false
      → Ends (Exactly mig mig) (Moved mig) (drive cluster mig)
  unfolding drive
  drive-Moved live =
      if-Ends mig.finalizer _ _
        (strengthen _ Exactly→Held (
          bind-Ends _ _ (Held→Moved mig) (attempt-Ends _ (call-Held mig _ _ tt))
            λ r. with_workload-Moved cluster mig live r))
        (put_back-Moved mig (record mig { finalizer = true }) _ itself
          (record {
            same_status = refl;
            same_spec = refl;
            same_name = refl;
            same_namespace = refl;
          }))

  -- The rest of the pass, with the Migration in hand.
  rest-Moved : Ends (Exactly mig mig) (Moved mig) (
      if mig.deleted
      then finalize cluster
      else if is_terminal mig.status
      then pure done
      else drive cluster mig)
  unfolding is_terminal
  rest-Moved =
      if-Ends mig.deleted _ _ finalize-Moved
        (elim (Bool-cases (is_terminal_phase mig.status.phase)) [
          | inl at_end ↦ rw at_end (weaken _ (Exactly→Moved mig mig itself) (pure-Ends _))
          | inr live ↦ rw live (drive-Moved live)
        ])

  after_fetch-Moved :
      (s : State) → All (IsInOrder mig) s.calls → Moved mig (after_fetch cluster (ok mig) s).1
  unfolding after_fetch ◌>>=◌ set_mig
  after_fetch-Moved s calls =
      rest-Moved.at (record s { mig = mig }) (record { is_exact = refl; exact_calls = calls })

-- Whatever the cluster answers, every call of a pass is in order for the Migration that the pass
-- fetched: a status is written only with the phase as it was or with one that may follow, and with the
-- spec untouched; only the Migration's source pod is deleted, only in the phases before the downtime;
-- labels change only on its two nodes, and only while it is Pending; and replicas are scaled only while
-- it is Pending or Restoring.
pub reconcile_orderly :
    (cluster : Cluster) (namespace name : String) (s : State) (mig : Migration)
    → s.calls ≡ []
    → cluster.migration [] namespace name ≡ ok mig
    → All (IsInOrder mig) (reconcile cluster namespace name s).1.calls
unfolding reconcile ◌>>=◌ attempt call
reconcile_orderly cluster namespace name s mig start fetched =
    rw (start, fetched)
      (after_fetch-Moved cluster mig (record s { calls = get_migration namespace name ∷ [] })
        (tt, tt)).moved_calls
