-- ===== src/Registry/Pod.antt =====
-- One pod by itself: what each registry call does to the record of a given pod, and the proof that the
-- registry is nothing but such machines side by side.
use mycedrive_k8s.Base.{
  true, Option, none, some, List, [], ◌∷◌, ◌++◌, ◌≡◌, refl, String, lookup, ℤ, arith, eq_iff,
  lookup-insert, lookup-remove, Option-cases, inl, inr, ltℤ, ◌==◌, if◌then◌else◌,
}
use mycedrive_k8s.Registry.{
  Time, PodRecord, zero_record, Registry, ArmInfo, register, delete, arm, disarm, record_sync_round,
  mark_checkpoint_ready, mark_restored, set_workload, set_node, seed, seed_one, change,
  fresh_record, reregistered, armed, disarmed,
}
use mycedrive_k8s.Registry.Ops.{
  Op, registers, deletes, arms, disarms, reports_sync, reports_copy, reports_restored, links,
  places, seeds, apply, run,
}

-- The first record of that name.
unfoldable pub find_record : String → List PodRecord → Option PodRecord
find_record k [] = none
find_record k (rec ∷ rest) = if rec.name == k then some rec else find_record k rest

abbrev pub map_some : (PodRecord → PodRecord) → Option PodRecord → Option PodRecord
map_some f none = none
map_some f (some rec) = some (f rec)

abbrev enrol : String → String → ℤ → Time → Option PodRecord → PodRecord
enrol k address port now none = fresh_record k address port now
enrol k address port now (some rec) = reregistered address port now rec

abbrev target : String → ArmInfo → Time → Option PodRecord → PodRecord
target k info now none = armed info (record zero_record { name = k; registered_at = now })
target k info now (some rec) = armed info rec

abbrev or_seed : String → List PodRecord → Option PodRecord → Option PodRecord
or_seed k records none = find_record k records
or_seed k records (some rec) = some rec

-- The pod `k` under one call; `none` is an unknown pod.
unfoldable pub pod_step : String → Op → Option PodRecord → Option PodRecord
unfolding fresh_record reregistered armed disarmed find_record
pod_step k (registers name address port now) o =
    if name == k then some (enrol k address port now o) else o
pod_step k (deletes name) o = if name == k then none else o
pod_step k (arms name info now) o = if name == k then some (target k info now o) else o
pod_step k (disarms name) o = if name == k then map_some disarmed o else o
pod_step k (reports_sync name round) o =
    if name == k
    then map_some
        (λ rec. record rec {
          sync_round = if ltℤ rec.sync_round round then round else rec.sync_round;
        })
        o
    else o
pod_step k (reports_copy name dir) o =
    if name == k
    then map_some
        (λ rec. record rec {
          checkpoint_ready = true;
          checkpoint_dir = if dir == "" then rec.checkpoint_dir else dir;
        })
        o
    else o
pod_step k (reports_restored name) o =
    if name == k then map_some (λ rec. record rec { restored = true }) o else o
pod_step k (links pod namespace workload) o =
    if pod == k
    then map_some (λ rec. record rec { workload_namespace = namespace; workload_name = workload }) o
    else o
pod_step k (places pod node) o =
    if pod == k then map_some (λ rec. record rec { node = node }) o else o
pod_step k (seeds records) o = or_seed k records o

unfoldable pub pod_run : String → List Op → Option PodRecord → Option PodRecord
pod_run k [] o = o
pod_run k (op ∷ ops) o = pod_run k ops (pod_step k op o)

lookup-change :
    (k name : String) (f : PodRecord → PodRecord) (r : Registry)
    → lookup k (change name f r).1 ≡ (if name == k then map_some f (lookup k r) else lookup k r)
lookup-change k name f r = elim (Option-cases (lookup name r)) [
  | inl unknown ↦ rw (unknown, change) (ground (arith, eq_iff name k))
  | inr (rec, known) ↦
      rw (known, change) (ground (arith, eq_iff name k, lookup-insert name k (f rec) r))
]

lookup-seed_one :
    (k : String) (rec : PodRecord) (r : Registry)
    → lookup k (seed_one rec r) ≡ or_seed k (rec ∷ []) (lookup k r)
unfolding seed_one find_record
lookup-seed_one k rec r = ground (arith, eq_iff rec.name k, lookup-insert rec.name k rec r)

or_seed-cons :
    (k : String) (rec : PodRecord) (rest : List PodRecord) (o : Option PodRecord)
    → or_seed k rest (or_seed k (rec ∷ []) o) ≡ or_seed k (rec ∷ rest) o
unfolding find_record
or_seed-cons k rec rest o = ground arith

lookup-seed :
    (k : String) (records : List PodRecord) (r : Registry)
    → lookup k (seed records r) ≡ or_seed k records (lookup k r)
unfolding seed find_record
lookup-seed k [] r = ground arith
lookup-seed k (rec ∷ rest) r =
    rw (lookup-seed k rest (seed_one rec r), lookup-seed_one k rec r)
      (or_seed-cons k rec rest (lookup k r))

-- A call changes the record of a pod as the machine of that pod says, and no other call matters.
pub lookup-apply :
    (k : String) (op : Op) (r : Registry) → lookup k (apply op r) ≡ pod_step k op (lookup k r)
unfolding apply pod_step register delete arm disarm record_sync_round mark_checkpoint_ready
    mark_restored set_workload set_node
lookup-apply k (registers name address port now) r = ground (
  arith,
  eq_iff name k,
  lookup-insert name k (fresh_record name address port now) r,
  lookup-insert name k (enrol k address port now (lookup name r)) r,
)
lookup-apply k (deletes name) r = lookup-remove name k r
lookup-apply k (arms name info now) r =
    ground (arith, eq_iff name k, lookup-insert name k (target name info now (lookup name r)) r)
lookup-apply k (disarms name) r = lookup-change k name _ r
lookup-apply k (reports_sync name round) r = lookup-change k name _ r
lookup-apply k (reports_copy name dir) r = lookup-change k name _ r
lookup-apply k (reports_restored name) r = lookup-change k name _ r
lookup-apply k (links pod namespace workload) r = lookup-change k pod _ r
lookup-apply k (places pod node) r = lookup-change k pod _ r
lookup-apply k (seeds records) r = lookup-seed k records r

-- The registry refines one independent machine for each pod: after any calls, the record of a pod is
-- what its own machine makes of the calls and of its record before them.
pub lookup-run :
    (k : String) (ops : List Op) (r : Registry) → lookup k (run ops r) ≡ pod_run k ops (lookup k r)
unfolding run pod_run
lookup-run k [] r = refl
lookup-run k (op ∷ ops) r = rw (lookup-run k ops (apply op r), lookup-apply k op r) refl

-- Calls one after another.
pub pod_run-append :
    (k : String) (xs ys : List Op) (o : Option PodRecord)
    → pod_run k (xs ++ ys) o ≡ pod_run k ys (pod_run k xs o)
unfolding pod_run
pod_run-append k [] ys o = refl
pod_run-append k (x ∷ xs) ys o = pod_run-append k xs ys (pod_step k x o)
