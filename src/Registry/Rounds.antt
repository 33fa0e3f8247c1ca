-- ===== src/Registry/Rounds.antt =====
-- The overlay rounds that a source agent reports (POST /sync), which may come late, twice or out of
-- order.
use mycedrive_k8s.Base.{
  Option, none, some, List, [], ◌∷◌, ◌≡◌, ◌⊎◌, inl, inr, refl, String, lookup, ℤ, ◌≤ℤ◌, ltℤ, All,
  Bool-cases, arith, ◌==◌, if◌then◌else◌,
}
use mycedrive_k8s.Registry.{PodRecord, Registry}
use mycedrive_k8s.Registry.Ops.{
  Op, registers, deletes, arms, disarms, reports_sync, reports_copy, reports_restored, links,
  places, seeds, run, FromAgents,
}
use mycedrive_k8s.Registry.Pod.{pod_step, pod_run, lookup-run}

-- The rounds reported of a pod.
unfoldable pub reported : String → List Op → List ℤ
reported k [] = []
reported k (reports_sync name round ∷ ops) =
    let rest = reported k ops in if name == k then round ∷ rest else rest
reported k (_ ∷ ops) = reported k ops

abbrev pub OneOf : ℤ → List ℤ → Type 0
OneOf x [] = ⊥
OneOf x (y ∷ ys) = (x ≡ y) ⊎ OneOf x ys

-- `x` is the greatest of a list that has it.
abbrev pub IsGreatest : ℤ → List ℤ → Type 0
IsGreatest x ys = OneOf x ys × All (λ y. y ≤ℤ x) ys

abbrev pub RoundIs : (ℤ → Type 0) → Option PodRecord → Type 0
RoundIs P none = ⊥
RoundIs P (some rec) = P rec.sync_round

All-le_trans : (a b : ℤ) (ys : List ℤ) → a ≤ℤ b → All (λ y. y ≤ℤ a) ys → All (λ y. y ≤ℤ b) ys
All-le_trans a b [] p h = tt
All-le_trans a b (y ∷ ys) p (h, hs) = (omega arith, All-le_trans a b ys p hs)

-- The greater of the first two stands for both.
IsGreatest-absorb :
    (x a b : ℤ) (ys : List ℤ)
    → IsGreatest x ((if ltℤ a b then b else a) ∷ ys)
    → IsGreatest x (a ∷ b ∷ ys)
IsGreatest-absorb x a b ys (one, (top, all)) = elim (Bool-cases (ltℤ a b)) [
  | inl less ↦ (widen (rw less at one), (ground arith, (ground arith, all)))
  | inr more ↦ (insert_second (rw more at one), (ground arith, (ground arith, all)))
]
  where
    widen : (x ≡ b) ⊎ OneOf x ys → (x ≡ a) ⊎ ((x ≡ b) ⊎ OneOf x ys)
    widen h = inr h

    insert_second : (x ≡ a) ⊎ OneOf x ys → (x ≡ a) ⊎ ((x ≡ b) ⊎ OneOf x ys)
    insert_second (inl e) = inl e
    insert_second (inr m) = inr (inr m)

RoundIs-map :
    {P Q : ℤ → Type 0} (o : Option PodRecord) → ((x : ℤ) → P x → Q x) → RoundIs P o → RoundIs Q o
RoundIs-map none f h = h
RoundIs-map (some rec) f h = f rec.sync_round h

rounds_run :
    (k : String) (ops : List Op) (rec : PodRecord)
    → FromAgents ops
    → RoundIs (λ x. IsGreatest x (rec.sync_round ∷ reported k ops)) (pod_run k ops (some rec))
unfolding pod_run pod_step reported
rounds_run k [] rec h = (inl refl, (omega arith, tt))
rounds_run k (reports_sync name round ∷ ops) rec (h, hs) = elim (Bool-cases (name == k)) [
  | inl same ↦ rw same (
      RoundIs-map
        (pod_run k ops (
          some (record rec {
            sync_round = if ltℤ rec.sync_round round then round else rec.sync_round;
          })))
        (λ x. IsGreatest-absorb x rec.sync_round round (reported k ops))
        (rounds_run k ops
          (record rec { sync_round = if ltℤ rec.sync_round round then round else rec.sync_round })
          hs))
  | inr other ↦ rw other (rounds_run k ops rec hs)
]
rounds_run k (registers name address port now ∷ ops) rec (h, hs) = elim (Bool-cases (name == k)) [
  | inl same ↦ rw same (rounds_run k ops _ hs)
  | inr other ↦ rw other (rounds_run k ops rec hs)
]
rounds_run k (reports_copy name dir ∷ ops) rec (h, hs) = elim (Bool-cases (name == k)) [
  | inl same ↦ rw same (rounds_run k ops _ hs)
  | inr other ↦ rw other (rounds_run k ops rec hs)
]
rounds_run k (reports_restored name ∷ ops) rec (h, hs) = elim (Bool-cases (name == k)) [
  | inl same ↦ rw same (rounds_run k ops _ hs)
  | inr other ↦ rw other (rounds_run k ops rec hs)
]
rounds_run k (deletes name ∷ ops) rec (h, hs) = cc
rounds_run k (arms name info now ∷ ops) rec (h, hs) = cc
rounds_run k (disarms name ∷ ops) rec (h, hs) = cc
rounds_run k (links pod namespace workload ∷ ops) rec (h, hs) = cc
rounds_run k (places pod node ∷ ops) rec (h, hs) = cc
rounds_run k (seeds records ∷ ops) rec (h, hs) = cc

-- After any reports of agents, the sync round of a known pod is the greatest of the round that it had
-- and of all rounds reported of it.
pub sync_round-run :
    (k : String) (ops : List Op) (r : Registry) (rec : PodRecord)
    → FromAgents ops
    → lookup k r ≡ some rec
    → RoundIs (λ x. IsGreatest x (rec.sync_round ∷ reported k ops)) (lookup k (run ops r))
sync_round-run k ops r rec h known = rw (lookup-run k ops r, known) (rounds_run k ops rec h)
