-- ===== src/Registry/Invariant.antt =====
-- What holds of every record at every moment, whatever calls reach the registry.
use mycedrive_k8s.Base.{
  true, false, List, [], ◌∷◌, ◌≡◌, String, lookup, ℤ, All, arith, Each, insert-Each, remove-Each,
  Option-cases, inl, inr,
}
use mycedrive_k8s.Registry.{
  Time, PodRecord, Registry, new, ArmInfo, register, delete, arm, disarm, record_sync_round,
  mark_checkpoint_ready, mark_restored, set_workload, set_node, seed, seed_one, change,
}
use mycedrive_k8s.Registry.Ops.{
  Op, registers, deletes, arms, disarms, reports_sync, reports_copy, reports_restored, links,
  places, seeds, apply, run,
}

-- A record stands under its own name; a destination is registered only while a migration is armed;
-- and an endpoint is remembered only of a registered destination.
pub record IsSound (key : String) (rec : PodRecord) : Type 0 where
  pub keyed : rec.name ≡ key
  pub armed_first : rec.dest_registered ≡ true → rec.migrating ≡ true
  pub endpoint_of_dest : rec.dest_registered ≡ false → rec.dest_address ≡ ""

abbrev pub IsConsistent : Registry → Type 0
IsConsistent = Each IsSound

-- The records that a caller seeds are sound by themselves.
abbrev pub SoundSeeds : Op → Type 0
SoundSeeds (seeds records) = All (λ rec. IsSound rec.name rec) records
SoundSeeds _ = Unit

change-IsConsistent :
    (name : String) (f : PodRecord → PodRecord) (r : Registry)
    → ((rec : PodRecord) → IsSound name rec → IsSound name (f rec))
    → IsConsistent r
    → IsConsistent (change name f r).1
change-IsConsistent name f r keep h = elim (Option-cases (lookup name r)) [
  | inl unknown ↦ rw (unknown, change) h
  | inr (rec, known) ↦
      rw (known, change) (insert-Each name (f rec) r h (keep rec (h name rec known)))
]

register-IsConsistent :
    (name address : String) (port : ℤ) (now : Time) (r : Registry)
    → IsConsistent r
    → IsConsistent (register name address port now r).1
unfolding register
register-IsConsistent name address port now r h = elim (Option-cases (lookup name r)) [
  | inl unknown ↦ rw (unknown, register) (insert-Each name _ r h (ground arith))
  | inr (rec, known) ↦
      let old : IsSound name rec = h name rec known in
      rw (known, register) (insert-Each name _ r h (ground arith))
]

arm-IsConsistent :
    (name : String) (info : ArmInfo) (now : Time) (r : Registry)
    → IsConsistent r
    → IsConsistent (arm name info now r)
unfolding arm
arm-IsConsistent name info now r h = elim (Option-cases (lookup name r)) [
  | inl unknown ↦ rw (unknown, arm) (insert-Each name _ r h (ground arith))
  | inr (rec, known) ↦
      let old : IsSound name rec = h name rec known in
      rw (known, arm) (insert-Each name _ r h (ground arith))
]

seed_one-IsConsistent :
    (rec : PodRecord) (r : Registry)
    → IsSound rec.name rec
    → IsConsistent r
    → IsConsistent (seed_one rec r)
unfolding seed_one
seed_one-IsConsistent rec r s h = elim (Option-cases (lookup rec.name r)) [
  | inl unknown ↦ rw (unknown, seed_one) (insert-Each rec.name rec r h s)
  | inr (old, known) ↦ rw (known, seed_one) h
]

seed-IsConsistent :
    (records : List PodRecord) (r : Registry)
    → All (λ rec. IsSound rec.name rec) records
    → IsConsistent r
    → IsConsistent (seed records r)
unfolding seed
seed-IsConsistent [] r s h = h
seed-IsConsistent (rec ∷ rest) r (s, ss) h =
    seed-IsConsistent rest (seed_one rec r) ss (seed_one-IsConsistent rec r s h)

apply-IsConsistent :
    (op : Op) (r : Registry) → SoundSeeds op → IsConsistent r → IsConsistent (apply op r)
unfolding apply delete disarm record_sync_round mark_checkpoint_ready mark_restored set_workload
    set_node
apply-IsConsistent (registers name address port now) r s h =
    register-IsConsistent name address port now r h
apply-IsConsistent (deletes name) r s h = remove-Each name r h
apply-IsConsistent (arms name info now) r s h = arm-IsConsistent name info now r h
apply-IsConsistent (disarms name) r s h = change-IsConsistent name _ r (λ rec old. ground arith) h
apply-IsConsistent (reports_sync name round) r s h =
    change-IsConsistent name _ r (λ rec old. ground arith) h
apply-IsConsistent (reports_copy name dir) r s h =
    change-IsConsistent name _ r (λ rec old. ground arith) h
apply-IsConsistent (reports_restored name) r s h =
    change-IsConsistent name _ r (λ rec old. ground arith) h
apply-IsConsistent (links pod namespace workload) r s h =
    change-IsConsistent pod _ r (λ rec old. ground arith) h
apply-IsConsistent (places pod node) r s h = change-IsConsistent pod _ r (λ rec old. ground arith) h
apply-IsConsistent (seeds records) r s h = seed-IsConsistent records r s h

-- Any calls, in any order, on a consistent registry leave it consistent, if the seeded records are
-- sound.
pub run-IsConsistent :
    (ops : List Op) (r : Registry) → All SoundSeeds ops → IsConsistent r → IsConsistent (run ops r)
unfolding run
run-IsConsistent [] r s h = h
run-IsConsistent (op ∷ ops) r (s, ss) h =
    run-IsConsistent ops (apply op r) ss (apply-IsConsistent op r s h)

pub new-IsConsistent : IsConsistent new
unfolding lookup
new-IsConsistent k v e = cc
