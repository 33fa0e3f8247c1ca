-- ===== src/Transfer/Extract/Within.antt =====
-- go-agent/utils/transfer.go: the names that ExtractTarGz gives to the file system.
use mycedrive_k8s.Base.{
  ℕ, suc, Bool, true, false, ◌&&◌, Option, none, some, List, [], ◌∷◌, ◌++◌, ◌≡◌, ◌⊎◌, refl, ap,
  if◌then◌else◌, arith, All, Bool-cases, inl, inr,
}
use mycedrive_k8s.Transfer.Extract.{
  Part, Route, parts_of, is_void, is_up, up_from, with_part, clean, reversed, joined_below,
  safe_join, EntryKind, directory, regular, symlink_to, TarEntry, entry, broken, Call, make_all,
  remove, create, write, symlink, Files, parent, steps_of, run_steps, and_then, on_target,
  extract_entries, extract_tar_gz,
}

-- A part that neither stays nor goes up.
abbrev pub IsPlain : Part → Type 0
IsPlain part = (is_void part ≡ false) × (is_up part ≡ false)

-- Below the destination, or the destination itself: no part goes up.
abbrev pub IsWithin : Route → Route → Type 0
IsWithin dest target = (rest : Route) × ((target ≡ dest ++ rest) × All IsPlain rest)

-- What a call may name: a path within the destination, or the parent of one, to make it.
abbrev pub IsAllowed : Route → Call → Type 0
IsAllowed dest (make_all target) =
    IsWithin dest target ⊎ ((inner : Route) × ((target ≡ parent inner) × IsWithin dest inner))
IsAllowed dest (remove target) = IsWithin dest target
IsAllowed dest (create target) = IsWithin dest target
IsAllowed dest (write target) = IsWithin dest target
IsAllowed dest (symlink link target) = IsWithin dest target

up_from-All :
    (ups : ℕ) (parts : List Part) → All IsPlain parts → All IsPlain (up_from (ups, parts)).1
up_from-All ups [] h = tt
up_from-All ups (top ∷ parts) (p, h) = h

clean-All :
    (parts : List Part) (at : ℕ × List Part) → All IsPlain at.1 → All IsPlain (clean at parts).1
unfolding clean
clean-All [] at h = h
clean-All (part ∷ parts) at h =
    clean-All parts _ (go at h (Bool-cases (is_void part)) (Bool-cases (is_up part)))
  where
    go :
        (at : ℕ × List Part)
        → All IsPlain at.1
        → (is_void part ≡ true) ⊎ (is_void part ≡ false)
        → (is_up part ≡ true) ⊎ (is_up part ≡ false)
        → All IsPlain
            (if is_void part then at else if is_up part then up_from at else with_part at part).1
    go at h (inl v) u = rw v h
    go at h (inr v) (inl u) = rw (v, u) (up_from-All at.0 at.1 h)
    go at h (inr v) (inr u) = rw (v, u) ((v, u), h)

reversed-All :
    (parts acc : List Part) → All IsPlain parts → All IsPlain acc → All IsPlain (reversed parts acc)
unfolding reversed
reversed-All [] acc h k = k
reversed-All (part ∷ parts) acc (p, h) k = reversed-All parts (part ∷ acc) h (p, k)

joined-IsWithin :
    (dest target : Route) (at : ℕ × List Part)
    → All IsPlain at.1
    → joined_below dest at ≡ some target
    → IsWithin dest target
joined-IsWithin dest target (ℕ.zero, parts) h e =
    (reversed parts [], (cc, reversed-All parts [] h tt))
joined-IsWithin dest target (suc ups, parts) h e = absurd (ground (arith, e))

safe_join-IsWithin :
    (dest target : Route) (name : List ℕ) → safe_join dest name ≡ some target → IsWithin dest target
unfolding safe_join
safe_join-IsWithin dest target name e =
    joined-IsWithin dest target (clean (0, []) (parts_of name))
      (clean-All (parts_of name) (0, []) tt) (ground (arith, e))

abbrev StepsAllowed : Route → List (Bool × Call) → Type 0
StepsAllowed dest = All (λ step. IsAllowed dest step.1)

steps-Allowed :
    (dest target : Route) (kind : EntryKind)
    → IsWithin dest target
    → StepsAllowed dest (steps_of kind target)
unfolding steps_of
steps-Allowed dest target directory w = (inl w, tt)
steps-Allowed dest target (symlink_to link) w = (inr (target, (refl, w)), (w, (w, tt)))
steps-Allowed dest target regular w = (inr (target, (refl, w)), (w, (w, tt)))

module _ (files : Files) (dest : Route) where
  run_steps-Allowed :
      (steps : List (Bool × Call)) (calls : List Call)
      → StepsAllowed dest steps
      → All (IsAllowed dest) calls
      → All (IsAllowed dest) (run_steps files steps calls).1
  unfolding run_steps
  run_steps-Allowed [] calls s h = h
  run_steps-Allowed ((matters, call) ∷ steps) calls (a, s) h =
      elim (Bool-cases (matters && (if files calls call then false else true))) [
        | inl stops ↦ rw stops (a, h)
        | inr goes ↦ rw goes (run_steps-Allowed steps (call ∷ calls) s (a, h))
      ]

  and_then-Allowed :
      (next : List Call → Bool × List Call) (got : Bool × List Call)
      → ((calls : List Call) → All (IsAllowed dest) calls → All (IsAllowed dest) (next calls).1)
      → All (IsAllowed dest) got.1
      → All (IsAllowed dest) (and_then files next got).1
  and_then-Allowed next (true, calls) keep h = keep calls h
  and_then-Allowed next (false, calls) keep h = h

  on_target-Allowed :
      (next : List Call → Bool × List Call) (kind : EntryKind) (o : Option Route)
      (calls : List Call)
      → ((calls : List Call) → All (IsAllowed dest) calls → All (IsAllowed dest) (next calls).1)
      → ((target : Route) → o ≡ some target → IsWithin dest target)
      → All (IsAllowed dest) calls
      → All (IsAllowed dest) (on_target files next kind o calls).1
  on_target-Allowed next kind none calls keep within h = h
  on_target-Allowed next kind (some target) calls keep within h =
      and_then-Allowed next (run_steps files (steps_of kind target) calls) keep (
        run_steps-Allowed (steps_of kind target) calls
          (steps-Allowed dest target kind (within target refl)) h)

  extract_entries-Allowed :
      (entries : List TarEntry) (calls : List Call)
      → All (IsAllowed dest) calls
      → All (IsAllowed dest) (extract_entries files dest entries calls).1
  unfolding extract_entries
  extract_entries-Allowed [] calls h = h
  extract_entries-Allowed (broken ∷ rest) calls h = h
  extract_entries-Allowed (entry kind name ∷ rest) calls h =
      on_target-Allowed (extract_entries files dest rest) kind (safe_join dest name) calls
        (extract_entries-Allowed rest) (λ target e. safe_join-IsWithin dest target name e) h

  gzip-Allowed :
      (is_gzip : Bool) (entries : List TarEntry) (calls : List Call)
      → All (IsAllowed dest) calls
      → All
          (IsAllowed dest)
          (if is_gzip then extract_entries files dest entries calls else (false, calls)).1
  gzip-Allowed true entries calls h = extract_entries-Allowed entries calls h
  gzip-Allowed false entries calls h = h

  -- Whatever the archive holds and whichever calls fail: every path that ExtractTarGz makes, removes, links,
  -- opens or writes is the destination followed by parts none of which is empty, a dot or two dots, or it is
  -- made as the parent of such a path. A symbolic link on the way is not looked at.
  pub extract_tar_gz-IsAllowed :
      (is_gzip : Bool) (entries : List TarEntry)
      → All (IsAllowed dest) (extract_tar_gz files dest is_gzip entries []).1
  unfolding extract_tar_gz
  extract_tar_gz-IsAllowed is_gzip entries =
      and_then-Allowed
        (λ calls. if is_gzip then extract_entries files dest entries calls else (false, calls)) _
        (gzip-Allowed is_gzip entries)
        (run_steps-Allowed ((true, make_all dest) ∷ []) [] (inl ([], (append_nil dest, tt)), tt) tt)
    where
      append_nil : (xs : Route) → xs ≡ xs ++ []
      append_nil [] = refl
      append_nil (x ∷ xs) = ap (λ ys. x ∷ ys) (append_nil xs)
