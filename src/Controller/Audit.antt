-- ===== src/Controller/Audit.antt =====
-- What one pass may ask of the cluster, by the Migration that it fetched.
use mycedrive_k8s.Base.{sym, ◌∙◌, subst, false, List, ◌≡◌, ◌⊎◌, All}
use mycedrive_k8s.Api.{
  Phase, unset, pending, syncing, checkpointing, transferring, restoring, completed, failed,
  is_terminal_phase, Migration, MigrationStatus,
}
use mycedrive_k8s.Registry.{Registry}
use mycedrive_k8s.Controller.Cluster.{
  Result, Call, update_migration, update_status, patch_node_labels, delete_pod, patch_replicas,
}
use mycedrive_k8s.Controller.Monad.{State, call, modify, set_status, set_registry}
use mycedrive_k8s.Controller.Ends.{Ends}

-- The life of a Migration: from its first phase to the next phases, and from any phase but the last two
-- to a failure.
infix 40 ◌⟶◌
pub data ◌⟶◌ : Phase → Phase → Type 0 where
  stay : {p : Phase} → p ⟶ p
  admit : unset ⟶ pending
  pre_copy : pending ⟶ syncing
  stop_pending : pending ⟶ checkpointing
  reschedule_pending : pending ⟶ restoring
  stop_synced : syncing ⟶ checkpointing
  reschedule_synced : syncing ⟶ restoring
  transfer : checkpointing ⟶ transferring
  restore : transferring ⟶ restoring
  finish : restoring ⟶ completed
  give_up : {p : Phase} → is_terminal_phase p ≡ false → p ⟶ failed

abbrev pub Deletes : Phase → Type 0
Deletes p = (p ≡ pending) ⊎ (p ≡ syncing)

abbrev pub Scales : Phase → Type 0
Scales p = (p ≡ pending) ⊎ (p ≡ restoring)

-- A call is in order for a Migration that was fetched as `mig`.
abbrev pub IsInOrder : Migration → Call → Type 0
IsInOrder mig (update_status m) =
    (mig.status.phase ⟶ m.status.phase)
    × (m.spec ≡ mig.spec)
    × (m.name ≡ mig.name)
    × (m.namespace ≡ mig.namespace)
IsInOrder mig (update_migration m) =
    (m.status ≡ mig.status)
    × (m.spec ≡ mig.spec)
    × (m.name ≡ mig.name)
    × (m.namespace ≡ mig.namespace)
IsInOrder mig (delete_pod namespace name) =
    Deletes mig.status.phase × (namespace ≡ mig.namespace) × (name ≡ mig.status.source_pod)
IsInOrder mig (patch_node_labels node labels) =
    (mig.status.phase ≡ pending) × ((node ≡ mig.spec.source_node) ⊎ (node ≡ mig.spec.target_node))
IsInOrder mig (patch_replicas namespace name n) = Scales mig.status.phase
IsInOrder mig _ = Unit

-- The Migration in hand is still the fetched one in phase, source pod and identity.
pub record IsHeld (mig m : Migration) : Type 0 where
  pub same_phase : m.status.phase ≡ mig.status.phase
  pub same_source : m.status.source_pod ≡ mig.status.source_pod
  pub held_spec : m.spec ≡ mig.spec
  pub held_name : m.name ≡ mig.name
  pub held_namespace : m.namespace ≡ mig.namespace

-- It may have moved on.
pub record IsMoved (mig m : Migration) : Type 0 where
  pub moved : mig.status.phase ⟶ m.status.phase
  pub moved_spec : m.spec ≡ mig.spec
  pub moved_name : m.name ≡ mig.name
  pub moved_namespace : m.namespace ≡ mig.namespace

pub record Held (mig : Migration) (s : State) : Type 0 where
  pub held : IsHeld mig s.mig
  pub held_calls : All (IsInOrder mig) s.calls

pub record Moved (mig : Migration) (s : State) : Type 0 where
  pub at_phase : IsMoved mig s.mig
  pub moved_calls : All (IsInOrder mig) s.calls

pub stay_at : {p q : Phase} → q ≡ p → p ⟶ q
stay_at {p} e = subst (λ r. p ⟶ r) (sym e) stay

pub Held→Moved : (mig : Migration) (s : State) → Held mig s → Moved mig s
Held→Moved mig s h = record {
  at_phase = record {
    moved = stay_at h.held.same_phase;
    moved_spec = h.held.held_spec;
    moved_name = h.held.held_name;
    moved_namespace = h.held.held_namespace;
  };
  moved_calls = h.held_calls;
}

module _ (mig : Migration) where
  module _ {ℓ} {A : Type ℓ} (c : Call) (answer : List Call → Result A)
      (legal : IsInOrder mig c) where
    pub call-Held : Ends (Held mig) (Held mig) (call c answer)
    unfolding call
    call-Held = record { at = λ s h. record { held = h.held; held_calls = (legal, h.held_calls) } }

    pub call-Moved : Ends (Moved mig) (Moved mig) (call c answer)
    unfolding call
    call-Moved = record {
      at = λ s h. record { at_phase = h.at_phase; moved_calls = (legal, h.moved_calls) };
    }

  pub registry-Held : (f : Registry → Registry) → Ends (Held mig) (Held mig) (set_registry f)
  unfolding set_registry
  registry-Held f = record { at = λ s h. record { held = h.held; held_calls = h.held_calls } }

  -- A change of the status that keeps phase and source pod.
  pub status-Held :
      (f : MigrationStatus → MigrationStatus)
      → ((st : MigrationStatus) → ((f st).phase ≡ st.phase) × ((f st).source_pod ≡ st.source_pod))
      → Ends (Held mig) (Held mig) (set_status f)
  unfolding set_status
  status-Held f same = record {
    at = λ s h. record {
      held = record {
        same_phase = (same s.mig.status).0 ∙ h.held.same_phase;
        same_source = (same s.mig.status).1 ∙ h.held.same_source;
        held_spec = h.held.held_spec;
        held_name = h.held.held_name;
        held_namespace = h.held.held_namespace;
      };
      held_calls = h.held_calls;
    };
  }

  -- A change of the status that keeps the phase.
  pub status-Moved :
      (f : MigrationStatus → MigrationStatus)
      → ((st : MigrationStatus) → (f st).phase ≡ st.phase)
      → Ends (Held mig) (Moved mig) (set_status f)
  unfolding set_status
  status-Moved f same = record {
    at = λ s h. record {
      at_phase = record {
        moved = stay_at (same s.mig.status ∙ h.held.same_phase);
        moved_spec = h.held.held_spec;
        moved_name = h.held.held_name;
        moved_namespace = h.held.held_namespace;
      };
      moved_calls = h.held_calls;
    };
  }

  -- A change of the status to a phase that may follow.
  pub phase-Moved :
      (f : MigrationStatus → MigrationStatus) (q : Phase)
      → ((st : MigrationStatus) → (f st).phase ≡ q)
      → mig.status.phase ⟶ q
      → Ends (Held mig) (Moved mig) (set_status f)
  unfolding set_status
  phase-Moved f q to step = record {
    at = λ s h. record {
      at_phase = record {
        moved = subst (λ r. mig.status.phase ⟶ r) (sym (to s.mig.status)) step;
        moved_spec = h.held.held_spec;
        moved_name = h.held.held_name;
        moved_namespace = h.held.held_namespace;
      };
      moved_calls = h.held_calls;
    };
  }

  pub modify-Moved :
      (f : State → State)
      → ((s : State) → ((f s).mig ≡ s.mig) × ((f s).calls ≡ s.calls))
      → Ends (Moved mig) (Moved mig) (modify f)
  unfolding modify
  modify-Moved f same = record {
    at = λ s h. record {
      at_phase = subst (IsMoved mig) (sym (same s).0) h.at_phase;
      moved_calls = subst (All (IsInOrder mig)) (sym (same s).1) h.moved_calls;
    };
  }
