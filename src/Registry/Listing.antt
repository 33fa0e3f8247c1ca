-- ===== src/Registry/Listing.antt =====
-- operator/pkg/registry/registry.go: List, and which record of a list stands for a name.
use Prim.Native.Nat.{Ordering}
use Prim.Native.String.{compare}
use mycedrive_k8s.Base.{
  ℤ, Bool, true, false, Option, none, some, List, [], ◌∷◌, ◌≡◌, refl, ◌∙◌, ap, String, lookup,
  insert, remove, lookup-insert, ◌==◌, if◌then◌else◌, arith, All, Bool-cases, Option-cases, inl,
  inr, eq_iff, map,
}
use mycedrive_k8s.Registry.{
  Time, ArmInfo, PodRecord, Registry, seed, seed_one, change, register, delete, arm, disarm,
  record_sync_round, mark_checkpoint_ready, mark_restored, set_workload, set_node,
}
use mycedrive_k8s.Registry.Ops.{
  Op, registers, deletes, arms, disarms, reports_sync, reports_copy, reports_restored, links,
  places, seeds, apply, run,
}

-- s < t of Go's texts
abbrev pub lt_text : String → String → Bool
lt_text s t = elim (compare s t) [ Ordering.lt ↦ true | _ ↦ false ]

unfoldable pub put_by_name : PodRecord → List PodRecord → List PodRecord
put_by_name rec [] = rec ∷ []
put_by_name rec (first ∷ rest) =
    let later = put_by_name rec rest in
    if lt_text first.name rec.name then first ∷ later else rec ∷ first ∷ rest

-- sort.Slice by the names
unfoldable pub sort_by_name : List PodRecord → List PodRecord
unfolding put_by_name
sort_by_name [] = []
sort_by_name (rec ∷ rest) = put_by_name rec (sort_by_name rest)

-- List
unfoldable pub list : Registry → List PodRecord
unfolding sort_by_name
list r = sort_by_name (map (λ entry. entry.1) r)

-- The first record of a name.
unfoldable pub first_named : String → List PodRecord → Option PodRecord
first_named name [] = none
first_named name (rec ∷ rest) = if rec.name == name then some rec else first_named name rest

or_else : Option PodRecord → Option PodRecord → Option PodRecord
or_else none o = o
or_else (some rec) o = some rec

lt_text_irrefl : (s t : String) → lt_text s t ≡ true → (s == t) ≡ false
lt_text_irrefl s t h = ground arith

first_named-put :
    (name : String) (rec : PodRecord) (recs : List PodRecord)
    → first_named name (put_by_name rec recs) ≡ first_named name (rec ∷ recs)
unfolding first_named put_by_name
first_named-put name rec [] = refl
first_named-put name rec (first ∷ rest) =
    let below = first_named-put name rec rest in
    ground (
      arith,
      below,
      lt_text_irrefl first.name rec.name,
      eq_iff first.name name,
      eq_iff rec.name name,
      eq_iff first.name rec.name,
    )

first_named-sort :
    (name : String) (recs : List PodRecord)
    → first_named name (sort_by_name recs) ≡ first_named name recs
unfolding first_named sort_by_name
first_named-sort name [] = refl
first_named-sort name (rec ∷ rest) =
    first_named-put name rec (sort_by_name rest)
    ∙ ap (λ o. if rec.name == name then some rec else o) (first_named-sort name rest)

-- Every record of the map stands under its own name.
abbrev pub IsKeyed : Registry → Type 0
IsKeyed r = All (λ entry. entry.1.name ≡ entry.0) r

-- List has the record that Get gives.
pub first_named-list :
    (name : String) (r : Registry) → IsKeyed r → first_named name (list r) ≡ lookup name r
unfolding list lookup first_named
first_named-list name r keyed = first_named-sort name (map (λ entry. entry.1) r) ∙ go r keyed
  where
    go : (r : Registry) → IsKeyed r → first_named name (map (λ entry. entry.1) r) ≡ lookup name r
    go [] k = refl
    go ((here, rec) ∷ rest) (same, k) = rw (same, go rest k) refl

insert-IsKeyed :
    (name : String) (rec : PodRecord) (r : Registry)
    → rec.name ≡ name
    → IsKeyed r
    → IsKeyed (insert name rec r)
unfolding insert
insert-IsKeyed name rec [] same keyed = (same, tt)
insert-IsKeyed name rec ((here, old) ∷ rest) same (k, keyed) = elim (Bool-cases (here == name)) [
  | inl found ↦ rw (found, insert) (same, keyed)
  | inr other ↦ rw (other, insert) (k, insert-IsKeyed name rec rest same keyed)
]

remove-IsKeyed : (name : String) (r : Registry) → IsKeyed r → IsKeyed (remove name r)
unfolding remove
remove-IsKeyed name [] keyed = tt
remove-IsKeyed name ((here, old) ∷ rest) (k, keyed) = elim (Bool-cases (here == name)) [
  | inl found ↦ rw (found, remove) (remove-IsKeyed name rest keyed)
  | inr other ↦ rw (other, remove) (k, remove-IsKeyed name rest keyed)
]

lookup-IsKeyed :
    (name : String) (rec : PodRecord) (r : Registry)
    → IsKeyed r
    → lookup name r ≡ some rec
    → rec.name ≡ name
unfolding lookup
lookup-IsKeyed name rec [] keyed e = absurd (ground (arith, e))
lookup-IsKeyed name rec ((here, old) ∷ rest) (k, keyed) e =
    ground (arith, e, k, eq_iff here name, lookup-IsKeyed name rec rest keyed)

change-IsKeyed :
    (name : String) (f : PodRecord → PodRecord) (r : Registry)
    → ((rec : PodRecord) → (f rec).name ≡ rec.name)
    → IsKeyed r
    → IsKeyed (change name f r).1
change-IsKeyed name f r same keyed = elim (Option-cases (lookup name r)) [
  | inl unknown ↦ rw (unknown, change) keyed
  | inr (rec, known) ↦
      rw (known, change)
        (insert-IsKeyed name (f rec) r (same rec ∙ lookup-IsKeyed name rec r keyed known) keyed)
]

seed-IsKeyed : (recs : List PodRecord) (r : Registry) → IsKeyed r → IsKeyed (seed recs r)
unfolding seed seed_one
seed-IsKeyed [] r keyed = keyed
seed-IsKeyed (rec ∷ rest) r keyed = elim (Option-cases (lookup rec.name r)) [
  | inl unknown ↦
      rw (unknown, seed_one)
        (seed-IsKeyed rest (insert rec.name rec r) (insert-IsKeyed rec.name rec r refl keyed))
  | inr (old, known) ↦ rw (known, seed_one) (seed-IsKeyed rest r keyed)
]

register-IsKeyed :
    (name address : String) (port : ℤ) (now : Time) (r : Registry)
    → IsKeyed r
    → IsKeyed (register name address port now r).1
unfolding register
register-IsKeyed name address port now r keyed = elim (Option-cases (lookup name r)) [
  | inl unknown ↦ rw (unknown, register) (insert-IsKeyed name _ r refl keyed)
  | inr (rec, known) ↦
      rw (known, register) (insert-IsKeyed name _ r (lookup-IsKeyed name rec r keyed known) keyed)
]

arm-IsKeyed :
    (name : String) (info : ArmInfo) (now : Time) (r : Registry)
    → IsKeyed r
    → IsKeyed (arm name info now r)
unfolding arm
arm-IsKeyed name info now r keyed = elim (Option-cases (lookup name r)) [
  | inl unknown ↦ rw (unknown, arm) (insert-IsKeyed name _ r refl keyed)
  | inr (rec, known) ↦
      rw (known, arm) (insert-IsKeyed name _ r (lookup-IsKeyed name rec r keyed known) keyed)
]

apply-IsKeyed : (op : Op) (r : Registry) → IsKeyed r → IsKeyed (apply op r)
unfolding apply delete disarm record_sync_round mark_checkpoint_ready mark_restored set_workload
    set_node
apply-IsKeyed (registers name address port now) r keyed =
    register-IsKeyed name address port now r keyed
apply-IsKeyed (deletes name) r keyed = remove-IsKeyed name r keyed
apply-IsKeyed (arms name info now) r keyed = arm-IsKeyed name info now r keyed
apply-IsKeyed (disarms name) r keyed = change-IsKeyed name _ r (λ rec. refl) keyed
apply-IsKeyed (reports_sync name round) r keyed = change-IsKeyed name _ r (λ rec. refl) keyed
apply-IsKeyed (reports_copy name dir) r keyed = change-IsKeyed name _ r (λ rec. refl) keyed
apply-IsKeyed (reports_restored name) r keyed = change-IsKeyed name _ r (λ rec. refl) keyed
apply-IsKeyed (links pod namespace workload) r keyed = change-IsKeyed pod _ r (λ rec. refl) keyed
apply-IsKeyed (places pod node) r keyed = change-IsKeyed pod _ r (λ rec. refl) keyed
apply-IsKeyed (seeds recs) r keyed = seed-IsKeyed recs r keyed

-- Whatever calls reach the registry, its records stand under their names.
pub run-IsKeyed : (ops : List Op) (r : Registry) → IsKeyed r → IsKeyed (run ops r)
unfolding run
run-IsKeyed [] r keyed = keyed
run-IsKeyed (op ∷ ops) r keyed = run-IsKeyed ops (apply op r) (apply-IsKeyed op r keyed)

lookup-seed_from :
    (name : String) (recs : List PodRecord) (r : Registry)
    → lookup name (seed recs r) ≡ or_else (lookup name r) (first_named name recs)
unfolding seed seed_one first_named or_else
lookup-seed_from name [] r = elim (Option-cases (lookup name r)) [
  | inl unknown ↦ rw unknown refl
  | inr (old, known) ↦ rw known refl
]
lookup-seed_from name (rec ∷ rest) r = elim (Option-cases (lookup rec.name r)) [
  | inl unknown ↦
      let below = lookup-seed_from name rest (insert rec.name rec r) in
      rw (unknown, seed_one)
        (ground (arith, below, unknown, lookup-insert rec.name name rec r, eq_iff rec.name name))
  | inr (old, known) ↦
      let below = lookup-seed_from name rest r in
      rw (known, seed_one) (ground (arith, below, known, eq_iff rec.name name))
]

-- Into an empty registry, Seed puts the first record of every name.
pub lookup-seed :
    (name : String) (recs : List PodRecord) → lookup name (seed recs []) ≡ first_named name recs
unfolding lookup or_else
lookup-seed name recs = lookup-seed_from name recs []
