-- ===== src/History/Tests.antt =====
-- Runs of the history on concrete inputs, and the theorems at such inputs.
use mycedrive_k8s.Base.{
  ◌+◌, String, true, false, List, [], ◌∷◌, ◌≡◌, refl, some, none, pos, lookup, length, All, Each,
}
use mycedrive_k8s.History.Types.{Record, Transition, terminal}
use mycedrive_k8s.History.Advance.{fresh_record}
use mycedrive_k8s.History.{Store, new_store, record_key, with_clock, evict, record_transition}
use mycedrive_k8s.History.Evict.{times, Settled, evict-Settled}
use mycedrive_k8s.History.Live.{
  Event, transitions, seeds, toggles, run, HasRecord, run-HasRecord, key_of,
}
use mycedrive_k8s.History.Entered.{Shows, record_transition-Shows}
use mycedrive_k8s.History.Report.{snapshot, summarize}
use mycedrive_k8s.History.Counts.{run-Counts}
use mycedrive_k8s.History.Keys.{IsIndexed, run-IsIndexed}
use mycedrive_k8s.History.Recorded.{IsTimedStore, run-IsTimedStore}

abbrev to_phase : String → String → Transition
to_phase name phase = record {
  namespace = "default";
  name = name;
  workload = "db";
  source_pod = "db-0";
  destination_pod = "";
  source_node = "node-a";
  target_node = "node-b";
  process_migration = true;
  volume_migration = true;
  phase = phase;
  message = "";
  time = 0;
}

abbrev old_record : Record
old_record = record (fresh_record (to_phase "old" "Completed")) { phase = "Completed" }

abbrev story : List Event
story =
    seeds (old_record ∷ [])
    ∷ transitions (to_phase "m1" "Pending") 1000000 1000000
    ∷ transitions (to_phase "m1" "Restoring") 3000000 3000000
    ∷ transitions (to_phase "m2" "Pending") 4000000 4000000
    ∷ transitions (to_phase "m1" "Completed") 9000000 9000000
    ∷ toggles false
    ∷ []

abbrev start : Store
start = new_store true 1

order_after : (run story start).order ≡ "default/m1" ∷ "default/m2" ∷ []
unfolding run mycedrive_k8s.History.Live.handle mycedrive_k8s.History.set_enabled record_transition
    mycedrive_k8s.History.seed lookup new_store mycedrive_k8s.Base.insert mycedrive_k8s.Base.remove
order_after = refl

run-IsIndexed_example : IsIndexed (run story start)
run-IsIndexed_example = run-IsIndexed story start (unfold times lookup new_store in λ k. refl)

run-IsTimedStore_example : IsTimedStore (run story start)
unfolding fresh_record
run-IsTimedStore_example =
    run-IsTimedStore story start ((tt, tt), (tt, (tt, (tt, (tt, (tt, tt))))))
      (unfold lookup new_store in λ k rec e. cc)

-- A migration in flight, in a store that holds one record at most.
abbrev in_flight : Record
in_flight = record (fresh_record (to_phase "m3" "Syncing")) { phase = "Syncing" }

abbrev full : Store
full = record start { order = "default/m3" ∷ []; records = ("default/m3", in_flight) ∷ [] }

run-HasRecord_example : HasRecord "default/m3" in_flight (run story full)
run-HasRecord_example =
    run-HasRecord "default/m3" in_flight story full
      (unfold record_key in (tt, (refl, (refl, (refl, (refl, (tt, tt)))))))
      (unfold fresh_record terminal in refl) (unfold lookup in refl)

record_transition-Shows_example :
    (rec : Record) × HasRecord
      (key_of (to_phase "m4" "Pending"))
      rec
      (record_transition (to_phase "m4" "Pending") 7 8 full)
    × Shows 7 (to_phase "m4" "Pending") (lookup (key_of (to_phase "m4" "Pending")) full.records) rec
record_transition-Shows_example =
    record_transition-Shows (to_phase "m4" "Pending") 7 8 full (unfold new_store in refl)

-- A terminal record and one in flight, where one is the limit.
abbrev crowded : Store
crowded = record full {
  order = "default/old" ∷ "default/m3" ∷ [];
  records = ("default/old", old_record) ∷ ("default/m3", in_flight) ∷ [];
}

evict-Settled_example : Settled (evict crowded)
evict-Settled_example = evict-Settled crowded

run-Counts_example :
    (records : List Record) × (snapshot 10 11 (run story start) ≡ some records)
    × ((summarize records).total ≡ length (run story start).order)
    × ((summarize records).active + (summarize records).completed + (summarize records).failed
        ≡ (summarize records).total)
run-Counts_example = run-Counts story 10 11 start (unfold times lookup new_store in λ k. refl)
