-- ===== src/History/Recorded.antt =====
-- operator/pkg/history/history.go: the steps of every record that the history holds, whatever it is
-- told.
use mycedrive_k8s.Base.{
  ◌++◌, arith, Option, none, some, String, List, [], ◌∷◌, ◌≡◌, lookup, Each, insert-Each,
  remove-Each, All, Bool-cases, Option-cases, inl, inr, length, subst, sym,
}
use mycedrive_k8s.History.Types.{Time, Record, Transition}
use mycedrive_k8s.History.Advance.{
  close_step, fresh_record, refresh, close_and_settle, settle, open_last, advance,
}
use mycedrive_k8s.History.{
  Step, Store, drop, evict, record_transition, seed, seed_records, seed_one, set_enabled,
  record_key, with_clock, write_back, seeded_record,
}
use mycedrive_k8s.History.Evict.{evict_fuel-keeps}
use mycedrive_k8s.History.Live.{Event, transitions, seeds, toggles, handle, run, key_of, added}
use mycedrive_k8s.History.Timeline.{IsTimeline, advance-IsTimeline}

-- The record's steps are a timeline of its phase.
abbrev pub IsTimed : Record → Type 0
IsTimed rec = IsTimeline rec.phase rec.steps

abbrev pub IsTimedStore : Store → Type 0
IsTimedStore s = Each (λ k rec. IsTimed rec) s.records

settle_phase : (tr : Transition) (now : Time) (rec : Record) → (settle tr now rec).phase ≡ rec.phase
unfolding settle
settle_phase tr now rec = ground arith

close_and_settle_phase :
    (tr : Transition) (now : Time) (rec : Record) (o : Option (List Step × Step))
    → (close_and_settle tr now rec o).phase ≡ rec.phase
unfolding close_and_settle
close_and_settle_phase tr now rec none = settle_phase tr now rec
close_and_settle_phase tr now rec (some (front, last)) =
    ground
      (arith, settle_phase tr now (record rec { steps = front ++ close_step tr.time last ∷ [] }))

advance_phase :
    (tr : Transition) (now : Time) (rec : Record) → (advance tr now rec).phase ≡ tr.phase
unfolding advance refresh close_and_settle
advance_phase tr now rec = close_and_settle_phase tr now (refresh tr rec) (open_last rec.steps)

advance-IsTimed :
    (tr : Transition) (now : Time) (rec : Record) → IsTimed rec → IsTimed (advance tr now rec)
advance-IsTimed tr now rec h =
    subst (λ p. IsTimeline p (advance tr now rec).steps) (sym (advance_phase tr now rec))
      (advance-IsTimeline tr now rec h)

evict-IsTimedStore : (s : Store) → IsTimedStore s → IsTimedStore (evict s)
unfolding evict drop
evict-IsTimedStore s =
    evict_fuel-keeps IsTimedStore (λ s key found h. remove-Each key s.records h) (length s.order) s

write_back-IsTimedStore :
    (key : String) (rec : Record) (s : Store)
    → IsTimedStore s
    → IsTimed rec
    → IsTimedStore (write_back key rec s)
unfolding write_back
write_back-IsTimedStore key rec s h timed = elim (Option-cases (lookup key s.records)) [
  | inl lost ↦ rw (lost, write_back) h
  | inr (old, known) ↦ rw (known, write_back) (insert-Each key rec s.records h timed)
]

record_transition-IsTimedStore :
    (tr : Transition) (now later : Time) (s : Store)
    → IsTimedStore s
    → IsTimedStore (record_transition tr now later s)
unfolding record_transition fresh_record
record_transition-IsTimedStore tr now later s h = elim (Bool-cases s.enabled) [
  | inl on ↦ elim (Option-cases (lookup (key_of tr) s.records)) [
    | inl unknown ↦
        rw (on, unknown, record_transition)
          (write_back-IsTimedStore (key_of tr) _ _
            (evict-IsTimedStore (added (key_of tr) (fresh_record (with_clock now tr)) s)
              (insert-Each (key_of tr) (fresh_record (with_clock now tr)) s.records h tt))
            (advance-IsTimed (with_clock now tr) later (fresh_record (with_clock now tr)) tt))
    | inr (rec, known) ↦
        rw (on, known, record_transition)
          (write_back-IsTimedStore (key_of tr) _ s h
            (advance-IsTimed (with_clock now tr) later rec (h (key_of tr) rec known)))
  ]
  | inr off ↦ rw (off, record_transition) h
]

seed_one-IsTimedStore :
    (rec : Record) (s : Store) → IsTimed rec → IsTimedStore s → IsTimedStore (seed_one rec s)
unfolding seed_one seeded_record
seed_one-IsTimedStore rec s timed h =
    elim (Option-cases (lookup (record_key rec.namespace rec.name) s.records)) [
      | inl unknown ↦ rw (unknown, seed_one) (insert-Each _ (seeded_record rec) s.records h timed)
      | inr (old, known) ↦ rw (known, seed_one) h
    ]

seed_records-IsTimedStore :
    (records : List Record) (s : Store)
    → All IsTimed records
    → IsTimedStore s
    → IsTimedStore (seed_records records s)
unfolding seed_records
seed_records-IsTimedStore [] s timed h = h
seed_records-IsTimedStore (rec ∷ rest) s (t, ts) h =
    seed_records-IsTimedStore rest (seed_one rec s) ts (seed_one-IsTimedStore rec s t h)

-- The seeded records of an event have timelines.
abbrev pub IsSoundEvent : Event → Type 0
IsSoundEvent (seeds records) = All IsTimed records
IsSoundEvent _ = Unit

handle-IsTimedStore :
    (event : Event) (s : Store)
    → IsSoundEvent event
    → IsTimedStore s
    → IsTimedStore (handle event s)
unfolding handle seed set_enabled
handle-IsTimedStore (transitions tr now later) s sound h =
    record_transition-IsTimedStore tr now later s h
handle-IsTimedStore (seeds records) s sound h =
    evict-IsTimedStore (seed_records records s) (seed_records-IsTimedStore records s sound h)
handle-IsTimedStore (toggles enabled) s sound h = h

-- Whatever the history is told, if the seeded records have timelines, every record has one: each of
-- its steps has ended, but that the last one may be open, and is then the step of the record's phase,
-- which is neither Completed nor Failed.
pub run-IsTimedStore :
    (events : List Event) (s : Store)
    → All IsSoundEvent events
    → IsTimedStore s
    → IsTimedStore (run events s)
unfolding run
run-IsTimedStore [] s sound h = h
run-IsTimedStore (event ∷ events) s (e, es) h =
    run-IsTimedStore events (handle event s) es (handle-IsTimedStore event s e h)
