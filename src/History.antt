-- ===== src/History.antt =====
-- operator/pkg/history/history.go: the bounded history of migrations. Each method of `Store` holds the
-- lock for its whole body, so it is a function from the store before it to the store after it. The
-- clock readings of a method are its arguments.
pub mod Types
pub mod Advance
pub mod Evict
pub mod Entered
pub mod Live
pub mod Timeline
pub mod Recorded
pub mod Report
pub mod Counts
pub mod Keys
mod Tests
use Prim.Native.String.{◌++◌ as ◌<>◌}
use mycedrive_k8s.Base.{
  ℕ, suc, Bool, true, false, ◌||◌, Option, none, some, List, [], ◌∷◌, ◌++◌, String, Map, lookup,
  insert, remove, length, ltb, eqb, ℤ, ◌==◌, if◌then◌else◌,
}
use Types.{Time, default_limit, Step, Record, Transition, millis_between, accessible, terminal}
use Advance.{fresh_record, advance}

pub record Store : Type 0 where
  pub enabled : Bool
  pub limit : ℕ
  pub order : List String
  pub records : Map Record

-- NewStore; a limit that is not positive stands for the default.
unfoldable pub new_store : Bool → ℕ → Store
new_store enabled limit = record {
  enabled = enabled;
  limit = if eqb limit 0 then default_limit else limit;
  order = [];
  records = [];
}

-- SetEnabled
unfoldable pub set_enabled : Bool → Store → Store
set_enabled enabled s = record s { enabled = enabled }

-- The record key, namespace/name.
unfoldable pub record_key : String → String → String
record_key namespace name = namespace <> "/" <> name

-- What the eviction may drop. A key without a record is passed over here, where the program would follow a nil pointer.
abbrev pub evictable : Option Record → Bool
evictable none = false
evictable (some rec) = terminal rec || rec.seeded

-- The first key of the order that may be dropped.
unfoldable pub find_evictable : List String → Map Record → Option String
find_evictable [] records = none
find_evictable (key ∷ rest) records =
    if evictable (lookup key records) then some key else find_evictable rest records

-- The order without the first place of a key.
unfoldable pub erase_first : String → List String → List String
erase_first key [] = []
erase_first key (k ∷ rest) =
    let rest' = erase_first key rest in if k == key then rest else k ∷ rest'

-- One round's deletion.
unfoldable pub drop : String → Store → Store
unfolding erase_first
drop key s = record s { order = erase_first key s.order; records = remove key s.records }

-- evictLocked: a round drops one record, so the length of the order bounds the rounds.
unfoldable pub evict_fuel : ℕ → Store → Store
unfolding find_evictable drop
evict_fuel ℕ.zero s = s
evict_fuel (suc fuel) s = elim (ltb s.limit (length s.order)) [
  | false ↦ s
  | true ↦ elim (find_evictable s.order s.records) [
    | none ↦ s
    | some key ↦ evict_fuel fuel (drop key s)
  ]
]

unfoldable pub evict : Store → Store
unfolding evict_fuel
evict s = evict_fuel (length s.order) s

abbrev pub with_clock : Time → Transition → Transition
with_clock now tr = record tr { time = if eqb tr.time 0 then now else tr.time }

-- The record is a pointer: what is written to it stands in the map if the map still has it, and is lost
-- if an eviction took it out.
unfoldable pub write_back : String → Record → Store → Store
write_back key rec s = elim (lookup key s.records) [
  | some old ↦ record s { records = insert key rec s.records }
  | none ↦ s
]

-- RecordTransition; `now` and `later` are its own clock reading and that of `downtime`.
unfoldable pub record_transition : Transition → Time → Time → Store → Store
unfolding record_key fresh_record advance evict write_back
record_transition tr₀ now later s =
    if s.enabled
    then (let tr = with_clock now tr₀ in
        let key = record_key tr.namespace tr.name in
        elim (lookup key s.records) [
          | some rec ↦ write_back key (advance tr later rec) s
          | none ↦
              let rec = fresh_record tr in
              let s₁ =
                evict
                  (record s { records = insert key rec s.records; order = s.order ++ key ∷ [] }) in
              write_back key (advance tr later rec) s₁
        ])
    else s

abbrev pub total_of_completed : Record → Option Time → ℤ
total_of_completed rec none = rec.total_ms
total_of_completed rec (some at) = millis_between at rec.started_at

-- A restored record.
unfoldable pub seeded_record : Record → Record
unfolding accessible millis_between
seeded_record rec = record rec {
  seeded = true;
  is_accessible = accessible rec.phase;
  total_ms = total_of_completed rec rec.completed_at;
}

unfoldable pub seed_one : Record → Store → Store
unfolding record_key seeded_record
seed_one rec s =
    let key = record_key rec.namespace rec.name in
    elim (lookup key s.records) [
      | some _ ↦ s
      | none ↦ record s {
        records = insert key (seeded_record rec) s.records;
        order = s.order ++ key ∷ [];
      }
    ]

unfoldable pub seed_records : List Record → Store → Store
unfolding seed_one
seed_records [] s = s
seed_records (rec ∷ rest) s = seed_records rest (seed_one rec s)

-- Seed
unfoldable pub seed : List Record → Store → Store
unfolding seed_records evict
seed records s = evict (seed_records records s)
