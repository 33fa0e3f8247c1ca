-- ===== src/Controller/Seeding.antt =====
-- operator/internal/controller/migration_controller.go: SeedHistory, which makes the history of a new
-- operator of the Migrations that the API server lists.
mod Tests
use mycedrive_k8s.Base.{
  ◌⊎◌, Bool-cases, text-cases, ℕ, suc, ◌+◌, ◌≤◌, Bool, true, false, Option, none, some, List, [],
  ◌∷◌, ◌++◌, ◌≡◌, refl, sym, ◌∙◌, ap, subst, String, pos, length, length-append, lookup, insert,
  lookup-insert, ltb, leb, eqb, ◌==◌, if◌then◌else◌, map, arith, eq_iff, Bool-cases, Option-cases,
  inl, inr,
}
use mycedrive_k8s.Api.{Time, phase_text, Migration}
use mycedrive_k8s.History.Types.{millis_between, Record}
use mycedrive_k8s.History.{
  total_of_completed, Store, new_store, record_key, seeded_record, seed_one, seed_records, evict,
  evict_fuel, seed,
}

abbrev text_or : String → String → String
text_or text default = if text == "" then default else text

abbrev time_or : Time → Option Time → Time
time_or default none = default
time_or default (some time) = time

-- The record of a Migration.
unfoldable pub history_record : Migration → Record
unfolding phase_text
history_record mig = record {
  name = mig.name;
  namespace = mig.namespace;
  workload = mig.spec.workload_name;
  source_pod = mig.status.source_pod;
  destination_pod = mig.status.destination_pod;
  source_node = mig.spec.source_node;
  target_node = mig.spec.target_node;
  process_migration = mig.status.process_migration;
  volume_migration = mig.status.volume_migration;
  phase = text_or (phase_text mig.status.phase) "Pending";
  message = mig.status.message;
  is_accessible = false;
  started_at = time_or mig.creation_time mig.status.start_time;
  completed_at = mig.status.completion_time;
  total_ms = pos 0;
  downtime_ms = pos 0;
  steps = [];
  seeded = false;
}

-- SeedHistory, of the Migrations that the API server lists, or of none where that fails
unfoldable pub seed_history : Option (List Migration) → Store → Store
unfolding history_record
seed_history none s = s
seed_history (some migs) s = seed (map history_record migs) s

-- The record that is seeded for a key: that of the first Migration with the key.
abbrev pub seeded_for : String → List Record → Option Record
seeded_for key [] = none
seeded_for key (rec ∷ rest) =
    if record_key rec.namespace rec.name == key
    then some (seeded_record rec)
    else seeded_for key rest

or_else : Option Record → Option Record → Option Record
or_else none o = o
or_else (some rec) o = some rec

abbrev entered : Record → Store → Store
entered rec s =
    let k = record_key rec.namespace rec.name in
    record s { records = insert k (seeded_record rec) s.records; order = s.order ++ k ∷ [] }

seed_one-unknown :
    (rec : Record) (s : Store)
    → lookup (record_key rec.namespace rec.name) s.records ≡ none
    → seed_one rec s ≡ entered rec s
unfolding seed_one
seed_one-unknown rec s unknown = rw (unknown, seed_one) refl

seed_one-known :
    (rec old : Record) (s : Store)
    → lookup (record_key rec.namespace rec.name) s.records ≡ some old
    → seed_one rec s ≡ s
unfolding seed_one
seed_one-known rec old s known = rw (known, seed_one) refl

lookup-seed_records :
    (key : String) (recs : List Record) (s : Store)
    → lookup key (seed_records recs s).records
      ≡ or_else (lookup key s.records) (seeded_for key recs)
unfolding seed_records or_else
lookup-seed_records key [] s = elim (Option-cases (lookup key s.records)) [
  | inl unknown ↦ rw unknown refl
  | inr (old, known) ↦ rw known refl
]
lookup-seed_records key (rec ∷ rest) s =
    let k = record_key rec.namespace rec.name in
    elim (Option-cases (lookup k s.records)) [
      | inl unknown ↦
          let below = lookup-seed_records key rest (entered rec s) in
          ap (λ s'. lookup key (seed_records rest s').records) (seed_one-unknown rec s unknown)
          ∙ (ground (
            arith,
            below,
            unknown,
            lookup-insert k key (seeded_record rec) s.records,
            eq_iff k key,
          ))
      | inr (old, known) ↦
          let below = lookup-seed_records key rest s in
          ap (λ s'. lookup key (seed_records rest s').records) (seed_one-known rec old s known)
          ∙ (ground (arith, below, known, eq_iff k key))
    ]

-- The order after the records of `rest` on a store, against the one with `rec` before.
abbrev IsOrdered : Record → List Record → Store → Store → Type 0
IsOrdered rec rest s s' =
    (length (seed_records rest s').order ≤ length s.order + suc (length rest))
    × ((seed_records rest s').limit ≡ s.limit)

seed_records-order :
    (recs : List Record) (s : Store)
    → (length (seed_records recs s).order ≤ length s.order + length recs)
      × ((seed_records recs s).limit ≡ s.limit)
unfolding seed_records
seed_records-order [] s = (omega arith, refl)
seed_records-order (rec ∷ rest) s =
    let k = record_key rec.namespace rec.name in
    elim (Option-cases (lookup k s.records)) [
      | inl unknown ↦
          let below = seed_records-order rest (entered rec s) in
          subst (IsOrdered rec rest s) (sym (seed_one-unknown rec s unknown))
            (omega (arith, below.0, length-append s.order (k ∷ [])), below.1)
      | inr (old, known) ↦
          let below = seed_records-order rest s in
          subst (IsOrdered rec rest s) (sym (seed_one-known rec old s known))
            (omega (arith, below.0), below.1)
    ]

length-map : (migs : List Migration) → length (map history_record migs) ≡ length migs
length-map [] = refl
length-map (mig ∷ rest) = ap suc (length-map rest)

evict_fuel-within :
    (fuel : ℕ) (s : Store) → ltb s.limit (length s.order) ≡ false → evict_fuel fuel s ≡ s
unfolding evict_fuel
evict_fuel-within ℕ.zero s within = refl
evict_fuel-within (suc fuel) s within = rw (within, evict_fuel) refl

evict-within : (s : Store) → length s.order ≤ s.limit → evict s ≡ s
unfolding evict
evict-within s within = evict_fuel-within (length s.order) s (ground (arith, within))

-- The first Migration with a key.
abbrev pub first_of : String → List Migration → Option Migration
first_of key [] = none
first_of key (mig ∷ rest) =
    if record_key mig.namespace mig.name == key then some mig else first_of key rest

-- What a seeded record tells of its Migration.
pub record Tells (mig : Migration) (rec : Record) : Type 0 where
  pub name : rec.name ≡ mig.name
  pub namespace : rec.namespace ≡ mig.namespace
  pub workload : rec.workload ≡ mig.spec.workload_name
  pub source_node : rec.source_node ≡ mig.spec.source_node
  pub target_node : rec.target_node ≡ mig.spec.target_node
  pub source_pod : rec.source_pod ≡ mig.status.source_pod
  pub destination_pod : rec.destination_pod ≡ mig.status.destination_pod
  pub process_migration : rec.process_migration ≡ mig.status.process_migration
  pub volume_migration : rec.volume_migration ≡ mig.status.volume_migration
  pub message : rec.message ≡ mig.status.message
  pub completed_at : rec.completed_at ≡ mig.status.completion_time
  pub steps : rec.steps ≡ []
  pub seeded : rec.seeded ≡ true
  -- The phase; Pending where there is none yet.
  pub phase :
      ((phase_text mig.status.phase ≡ "") × (rec.phase ≡ "Pending"))
      ⊎ (((phase_text mig.status.phase == "") ≡ false) × (rec.phase ≡ phase_text mig.status.phase))
  -- The start; the creation of the Migration where it has not started.
  pub started_at :
      ((mig.status.start_time ≡ none) × (rec.started_at ≡ mig.creation_time))
      ⊎ (mig.status.start_time ≡ some rec.started_at)
  -- The whole time, in milliseconds, of what has ended.
  pub total_ms :
      ((mig.status.completion_time ≡ none) × (rec.total_ms ≡ pos 0))
      ⊎ ((ended : Time) × ((mig.status.completion_time ≡ some ended)
            × (rec.total_ms ≡ millis_between ended rec.started_at)))

-- There is a record exactly if there is a Migration, and it tells of it.
abbrev pub IsTold : Option Migration → Option Record → Type 0
IsTold none none = Unit
IsTold (some mig) (some rec) = Tells mig rec
IsTold _ _ = ⊥

started-cases :
    (created : Time) (start : Option Time)
    → ((start ≡ none) × (time_or created start ≡ created)) ⊎ (start ≡ some (time_or created start))
started-cases created none = inl (refl, refl)
started-cases created (some time) = inr refl

total-cases :
    (rec : Record) (ended : Option Time)
    → rec.total_ms ≡ pos 0
    → ((ended ≡ none) × (total_of_completed rec ended ≡ pos 0))
      ⊎ ((at : Time) × ((ended ≡ some at)
            × (total_of_completed rec ended ≡ millis_between at rec.started_at)))
total-cases rec none zero = inl (refl, zero)
total-cases rec (some at) zero = inr (at, (refl, refl))

history_record-Tells : (mig : Migration) → Tells mig (seeded_record (history_record mig))
unfolding seeded_record history_record
history_record-Tells mig = record {
  name = refl;
  namespace = refl;
  workload = refl;
  source_node = refl;
  target_node = refl;
  source_pod = refl;
  destination_pod = refl;
  process_migration = refl;
  volume_migration = refl;
  message = refl;
  completed_at = refl;
  steps = refl;
  seeded = refl;
  phase = elim (text-cases (phase_text mig.status.phase) "") [
    | inl empty ↦ inl (empty, rw empty refl)
    | inr given ↦ inr (given, rw given refl)
  ];
  started_at = started-cases mig.creation_time mig.status.start_time;
  total_ms = total-cases (history_record mig) mig.status.completion_time refl;
}

seeded_for-IsTold :
    (key : String) (migs : List Migration)
    → IsTold (first_of key migs) (seeded_for key (map history_record migs))
unfolding record_key history_record
seeded_for-IsTold key [] = tt
seeded_for-IsTold key (mig ∷ rest) =
    go (Bool-cases (record_key mig.namespace mig.name == key)) (history_record-Tells mig)
      (seeded_for-IsTold key rest)
  where
    go :
        ((record_key mig.namespace mig.name == key) ≡ true)
          ⊎ ((record_key mig.namespace mig.name == key) ≡ false)
        → Tells mig (seeded_record (history_record mig))
        → IsTold (first_of key rest) (seeded_for key (map history_record rest))
        → IsTold (first_of key (mig ∷ rest)) (seeded_for key (map history_record (mig ∷ rest)))
    go (inl here) told below = rw here told
    go (inr other) told below = rw other below

-- A new operator with room for all of the Migrations that it lists: its history has a record for a key
-- exactly if one of them has the key, and the record tells of the first of those, from its spec and its
-- status: with the phase Pending where the status has none, the creation time where the migration has not
-- started, the whole time where it has ended, and without steps.
pub seed_history-lookup :
    (migs : List Migration) (enabled : Bool) (limit : ℕ) (key : String)
    → 1 ≤ limit
    → length migs ≤ limit
    → IsTold
        (first_of key migs)
        (lookup key (seed_history (some migs) (new_store enabled limit)).records)
unfolding seed_history seed new_store or_else lookup
seed_history-lookup migs enabled limit key positive room =
    let recs = map history_record migs in
    let start : Store = new_store enabled limit in
    let ordered = seed_records-order recs start in
    let large : start.limit ≡ limit = ground (arith, positive) in
    subst (IsTold (first_of key migs))
      (sym (
        ap (λ s. lookup key s.records)
          (evict-within (seed_records recs start)
            (omega (arith, room, length-map migs, ordered.0, ordered.1, large)))
        ∙ lookup-seed_records key recs start))
      (seeded_for-IsTold key migs)
