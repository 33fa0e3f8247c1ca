-- ===== src/History/Live.antt =====
-- operator/pkg/history/history.go: which records of migrations in flight a call touches.
use mycedrive_k8s.Base.{
  Bool, false, some, List, [], ◌∷◌, ◌++◌, ◌≡◌, refl, String, lookup, insert, length, ◌==◌, arith,
  eq_iff, Bool-cases, Option-cases, text-cases, inl, inr, lookup-remove, lookup-insert,
  lookup-insert_self, All,
}
use mycedrive_k8s.History.Types.{Time, Record, Transition, terminal}
use mycedrive_k8s.History.Advance.{fresh_record}
use mycedrive_k8s.History.{
  Store, evictable, find_evictable, drop, evict, record_transition, seed, seed_records, seed_one,
  set_enabled, record_key, with_clock, write_back, seeded_record,
}
use mycedrive_k8s.History.Evict.{find_evictable-some, evict_fuel-keeps}

-- A call of the history.
pub data Event : Type 0 where
  transitions : Transition → Time → Time → Event
  seeds : List Record → Event
  toggles : Bool → Event

unfoldable pub handle : Event → Store → Store
handle (transitions tr now later) s = record_transition tr now later s
handle (seeds records) s = seed records s
handle (toggles enabled) s = set_enabled enabled s

unfoldable pub run : List Event → Store → Store
run [] s = s
run (event ∷ events) s = run events (handle event s)

-- A key at the end of the order, with its record.
abbrev pub added : String → Record → Store → Store
added key rec s = record s { records = insert key rec s.records; order = s.order ++ key ∷ [] }

-- A record that the eviction may not drop stays through it.
abbrev pub HasRecord : String → Record → Store → Type 0
HasRecord k rec s = lookup k s.records ≡ some rec

drop-HasRecord :
    (k : String) (rec : Record)
    → evictable (some rec) ≡ false
    → (s : Store) (key : String) → find_evictable s.order s.records ≡ some key
    → HasRecord k rec s
    → HasRecord k rec (drop key s)
unfolding drop
drop-HasRecord k rec live s key found h = elim (text-cases key k) [
  | inl same ↦
      absurd (ground (arith, same, live, h, find_evictable-some s.order s.records key found))
  | inr differ ↦ ground (arith, differ, h, lookup-remove key k s.records)
]

evict-HasRecord :
    (k : String) (rec : Record) (s : Store)
    → evictable (some rec) ≡ false
    → HasRecord k rec s
    → HasRecord k rec (evict s)
unfolding evict
evict-HasRecord k rec s live =
    evict_fuel-keeps (HasRecord k rec) (drop-HasRecord k rec live) (length s.order) s

fresh_record-live : (tr : Transition) → evictable (some (fresh_record tr)) ≡ false
unfolding fresh_record terminal
fresh_record-live tr = refl

-- The store of a new migration, before its first transition is entered.
abbrev pub begun : String → Transition → Store → Store
begun key tr s = evict (added key (fresh_record tr) s)

pub begun-HasRecord :
    (key : String) (tr : Transition) (s : Store) → HasRecord key (fresh_record tr) (begun key tr s)
begun-HasRecord key tr s =
    evict-HasRecord key (fresh_record tr) (added key (fresh_record tr) s) (fresh_record-live tr)
      (lookup-insert_self key (fresh_record tr) s.records)

abbrev pub key_of : Transition → String
key_of tr = record_key tr.namespace tr.name

write_back-HasRecord :
    (k key : String) (rec new : Record) (s : Store)
    → (key == k) ≡ false
    → HasRecord k rec s
    → HasRecord k rec (write_back key new s)
unfolding write_back
write_back-HasRecord k key rec new s differ h = elim (Option-cases (lookup key s.records)) [
  | inl lost ↦ rw (lost, write_back) h
  | inr (old, known) ↦
      rw (known, write_back) (ground (arith, lookup-insert key k new s.records, differ, h))
]

record_transition-HasRecord :
    (k : String) (rec : Record) (tr : Transition) (now later : Time) (s : Store)
    → (key_of tr == k) ≡ false
    → evictable (some rec) ≡ false
    → HasRecord k rec s
    → HasRecord k rec (record_transition tr now later s)
unfolding record_transition
record_transition-HasRecord k rec tr now later s differ live h = elim (Bool-cases s.enabled) [
  | inl on ↦ elim (Option-cases (lookup (key_of tr) s.records)) [
    | inl unknown ↦
        rw (on, unknown, record_transition)
          (write_back-HasRecord k (key_of tr) rec _ (begun (key_of tr) (with_clock now tr) s) differ
            (evict-HasRecord k rec (added (key_of tr) (fresh_record (with_clock now tr)) s) live (
              ground (
                arith,
                lookup-insert (key_of tr) k (fresh_record (with_clock now tr)) s.records,
                differ,
                h,
              ))))
    | inr (old, known) ↦
        rw (on, known, record_transition) (write_back-HasRecord k (key_of tr) rec _ s differ h)
  ]
  | inr off ↦ rw (off, record_transition) h
]

seed_one-HasRecord :
    (k : String) (rec new : Record) (s : Store)
    → HasRecord k rec s
    → HasRecord k rec (seed_one new s)
unfolding seed_one
seed_one-HasRecord k rec new s h =
    let key = record_key new.namespace new.name in
    ground (arith, lookup-insert key k (seeded_record new) s.records, eq_iff key k, h)

seed_records-HasRecord :
    (k : String) (rec : Record) (records : List Record) (s : Store)
    → HasRecord k rec s
    → HasRecord k rec (seed_records records s)
unfolding seed_records
seed_records-HasRecord k rec [] s h = h
seed_records-HasRecord k rec (new ∷ rest) s h =
    seed_records-HasRecord k rec rest (seed_one new s) (seed_one-HasRecord k rec new s h)

-- The event is no transition of the migration `k`.
abbrev pub IsNotOf : String → Event → Type 0
IsNotOf k (transitions tr now later) = (key_of tr == k) ≡ false
IsNotOf k _ = Unit

handle-HasRecord :
    (k : String) (rec : Record) (event : Event) (s : Store)
    → IsNotOf k event
    → evictable (some rec) ≡ false
    → HasRecord k rec s
    → HasRecord k rec (handle event s)
unfolding handle seed set_enabled
handle-HasRecord k rec (transitions tr now later) s other live h =
    record_transition-HasRecord k rec tr now later s other live h
handle-HasRecord k rec (seeds records) s other live h =
    evict-HasRecord k rec (seed_records records s) live (seed_records-HasRecord k rec records s h)
handle-HasRecord k rec (toggles enabled) s other live h = h

-- The record of a migration that is not terminal and was not seeded stays as it is through any
-- transitions of other migrations, any seeds and any toggles, however small the limit is.
pub run-HasRecord :
    (k : String) (rec : Record) (events : List Event) (s : Store)
    → All (IsNotOf k) events
    → evictable (some rec) ≡ false
    → HasRecord k rec s
    → HasRecord k rec (run events s)
unfolding run
run-HasRecord k rec [] s others live h = h
run-HasRecord k rec (event ∷ events) s (other, others) live h =
    run-HasRecord k rec events (handle event s) others live
      (handle-HasRecord k rec event s other live h)
