-- ===== src/History/Counts.antt =====
-- Snapshot and Summarize of operator/pkg/history/history.go on a store in use.
use mycedrive_k8s.Base.{
  ◌+◌, ◌≤◌, some, List, [], ◌∷◌, ◌≡◌, refl, String, Map, lookup, arith, Option-cases, inl, inr,
  length, eq_refl,
}
use mycedrive_k8s.History.Types.{Time, Record, terminal}
use mycedrive_k8s.History.{Store}
use mycedrive_k8s.History.Evict.{times}
use mycedrive_k8s.History.Live.{Event, run}
use mycedrive_k8s.History.Keys.{IsIndexed, run-IsIndexed, count_of}
use mycedrive_k8s.History.Report.{
  live_copy, copies, snapshot, Totals, count_record, count_records, summarize, nothing_counted,
}

-- As many records as keys, if every key has one.
copies-length :
    (now later : Time) (keys : List String) (m : Map Record)
    → ((k : String) → 1 ≤ times k keys → 1 ≤ count_of (lookup k m))
    → (records : List Record) × (copies now later keys m ≡ some records)
      × (length records ≡ length keys)
unfolding copies times
copies-length now later [] m h = ([], refl, refl)
copies-length now later (key ∷ keys) m h =
    let (records, all, same) = copies-length now later keys m (λ k e. h k (ground (arith, e))) in
    elim (Option-cases (lookup key m)) [
      | inl unknown ↦ absurd (ground (arith, unknown, h key, eq_refl key))
      | inr (rec, known) ↦
          (live_copy now later rec ∷ records, rw (known, all) refl, omega (arith, same))
    ]

counts_add :
    (records : List Record) (t : Totals)
    → t.active + t.completed + t.failed ≡ t.total
    → t.completed + t.failed ≡ t.finished
    → ((count_records records t).total ≡ length records + t.total)
      × ((count_records records t).active
            + (count_records records t).completed
            + (count_records records t).failed
          ≡ (count_records records t).total)
      × ((count_records records t).completed + (count_records records t).failed
          ≡ (count_records records t).finished)
unfolding count_records
counts_add [] t h f = (omega arith, h, f)
counts_add (rec ∷ rest) t h f =
    let (sums, parts, done) =
      counts_add rest (count_record rec t) (unfold count_record terminal in ground (arith, h))
        (unfold count_record terminal in ground (arith, f)) in
    (unfold count_record in omega (arith, sums), parts, done)

-- Whatever the history was told, on a store whose order lists its records, Snapshot meets no key
-- without a record, and of its copies Summarize
-- counts as many as there are keys, each as one of active, completed and failed.
pub run-Counts :
    (events : List Event) (now later : Time) (s : Store)
    → IsIndexed s
    → (records : List Record) × (snapshot now later (run events s) ≡ some records)
      × ((summarize records).total ≡ length (run events s).order)
      × ((summarize records).active + (summarize records).completed + (summarize records).failed
          ≡ (summarize records).total)
unfolding snapshot summarize
run-Counts events now later s h =
    let indexed = run-IsIndexed events s h in
    let (records, all, same) =
      copies-length now later (run events s).order (run events s).records
        (λ k e. ground (arith, e, indexed k)) in
    let (sums, parts, done) = counts_add records nothing_counted refl refl in
    (records, all, omega (arith, sums, same), parts)
