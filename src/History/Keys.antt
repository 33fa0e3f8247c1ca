-- ===== src/History/Keys.antt =====
-- The two halves of the store of operator/pkg/history/history.go, its order of keys and its map of
-- records, under every method that changes them.
use mycedrive_k8s.Base.{
  ℕ, Option, none, some, List, [], ◌∷◌, ◌≡◌, String, lookup, length, arith, eq_iff, Bool-cases,
  Option-cases, inl, inr, lookup-remove, lookup-insert,
}
use mycedrive_k8s.History.Types.{Time, Record, Transition}
use mycedrive_k8s.History.{
  Store, find_evictable, drop, evict, record_transition, seed, seed_records, seed_one, set_enabled,
  record_key, with_clock, write_back, seeded_record,
}
use mycedrive_k8s.History.Evict.{
  times, times-append, times-erase_first, find_evictable-some, evict_fuel-keeps,
}
use mycedrive_k8s.History.Live.{
  Event, transitions, seeds, toggles, handle, run, added, begun, begun-HasRecord, key_of,
}

abbrev pub count_of : Option Record → ℕ
count_of none = 0
count_of (some rec) = 1

-- A key stands once in the order if it has a record, and else not at all.
abbrev pub IsIndexed : Store → Type 0
IsIndexed s = (k : String) → times k s.order ≡ count_of (lookup k s.records)

drop-IsIndexed :
    (s : Store) (key : String)
    → find_evictable s.order s.records ≡ some key
    → IsIndexed s
    → IsIndexed (drop key s)
unfolding drop
drop-IsIndexed s key found h k = ground (
  arith,
  times-erase_first k key s.order,
  lookup-remove key k s.records,
  find_evictable-some s.order s.records key found,
  h k,
  h key,
  eq_iff key k,
)

evict-IsIndexed : (s : Store) → IsIndexed s → IsIndexed (evict s)
unfolding evict
evict-IsIndexed s = evict_fuel-keeps IsIndexed drop-IsIndexed (length s.order) s

added-IsIndexed :
    (key : String) (rec : Record) (s : Store)
    → lookup key s.records ≡ none
    → IsIndexed s
    → IsIndexed (added key rec s)
added-IsIndexed key rec s unknown h k = rw (times-append k s.order (key ∷ [])) (
    unfold times in
    ground (arith, lookup-insert key k rec s.records, h k, h key, unknown, eq_iff key k))

write_back-IsIndexed :
    (key : String) (rec old : Record) (s : Store)
    → lookup key s.records ≡ some old
    → IsIndexed s
    → IsIndexed (write_back key rec s)
unfolding write_back
write_back-IsIndexed key rec old s known h =
    rw (known, write_back)
      (λ k. ground (arith, lookup-insert key k rec s.records, h k, known, eq_iff key k))

record_transition-IsIndexed :
    (tr : Transition) (now later : Time) (s : Store)
    → IsIndexed s
    → IsIndexed (record_transition tr now later s)
unfolding record_transition
record_transition-IsIndexed tr now later s h = elim (Bool-cases s.enabled) [
  | inl on ↦ elim (Option-cases (lookup (key_of tr) s.records)) [
    | inl unknown ↦
        rw (on, unknown, record_transition)
          (write_back-IsIndexed (key_of tr) _ _ (begun (key_of tr) (with_clock now tr) s)
            (begun-HasRecord (key_of tr) (with_clock now tr) s)
            (evict-IsIndexed _ (added-IsIndexed (key_of tr) _ s unknown h)))
    | inr (rec, known) ↦
        rw (on, known, record_transition) (write_back-IsIndexed (key_of tr) _ rec s known h)
  ]
  | inr off ↦ rw (off, record_transition) h
]

seed_one-IsIndexed : (rec : Record) (s : Store) → IsIndexed s → IsIndexed (seed_one rec s)
unfolding seed_one
seed_one-IsIndexed rec s h =
    elim (Option-cases (lookup (record_key rec.namespace rec.name) s.records)) [
      | inl unknown ↦ rw (unknown, seed_one) (added-IsIndexed _ (seeded_record rec) s unknown h)
      | inr (old, known) ↦ rw (known, seed_one) h
    ]

seed_records-IsIndexed :
    (records : List Record) (s : Store) → IsIndexed s → IsIndexed (seed_records records s)
unfolding seed_records
seed_records-IsIndexed [] s h = h
seed_records-IsIndexed (rec ∷ rest) s h =
    seed_records-IsIndexed rest (seed_one rec s) (seed_one-IsIndexed rec s h)

handle-IsIndexed : (event : Event) (s : Store) → IsIndexed s → IsIndexed (handle event s)
unfolding handle seed set_enabled
handle-IsIndexed (transitions tr now later) s h = record_transition-IsIndexed tr now later s h
handle-IsIndexed (seeds records) s h = evict-IsIndexed _ (seed_records-IsIndexed records s h)
handle-IsIndexed (toggles enabled) s h = h

-- Whatever the history is told, in any order, its order of keys lists every record of the map exactly
-- once, and nothing else.
pub run-IsIndexed : (events : List Event) (s : Store) → IsIndexed s → IsIndexed (run events s)
unfolding run
run-IsIndexed [] s h = h
run-IsIndexed (event ∷ events) s h =
    run-IsIndexed events (handle event s) (handle-IsIndexed event s h)
