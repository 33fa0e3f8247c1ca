-- ===== src/Transfer/Extract.antt =====
-- go-agent/utils/transfer.go: ExtractTarGz and safeJoin. The entries that gzip and tar read out of a
-- payload are a list, and the file system is a parameter. A path is its parts, the code points of each.
pub mod Within
mod Tests
use mycedrive_k8s.Base.{
  ℕ, suc, ◌-◌, Bool, true, false, ◌||◌, ◌&&◌, Option, none, some, List, [], ◌∷◌, ◌++◌, eqb,
  if◌then◌else◌,
}

abbrev pub Part : Type 0
Part = List ℕ

abbrev pub Route : Type 0
Route = List Part

-- filepath.IsAbs
abbrev pub is_abs : List ℕ → Bool
is_abs [] = false
is_abs (c ∷ cs) = eqb c b'/'

abbrev onto_first : ℕ → List Part → List Part
onto_first c [] = (c ∷ []) ∷ []
onto_first c (part ∷ parts) = (c ∷ part) ∷ parts

-- The parts of a text between its slashes.
unfoldable pub parts_of : List ℕ → List Part
parts_of [] = [] ∷ []
parts_of (c ∷ cs) = let rest = parts_of cs in if eqb c b'/' then [] ∷ rest else onto_first c rest

-- A part that is empty or a dot says nothing.
unfoldable pub is_void : Part → Bool
is_void [] = true
is_void (c ∷ []) = eqb c b'.'
is_void (c ∷ d ∷ cs) = false

unfoldable pub is_up : Part → Bool
is_up (c ∷ d ∷ []) = eqb c b'.' && eqb d b'.'
is_up _ = false

abbrev up_from : ℕ × List Part → ℕ × List Part
up_from (ups, []) = (suc ups, [])
up_from (ups, part ∷ parts) = (ups, parts)

abbrev with_part : ℕ × List Part → Part → ℕ × List Part
with_part (ups, parts) part = (ups, part ∷ parts)

-- filepath.Clean of a relative path: how often it goes up first, and the parts after, the last one first.
unfoldable pub clean : ℕ × List Part → List Part → ℕ × List Part
unfolding is_void is_up
clean at [] = at
clean at (part ∷ parts) =
    clean (if is_void part then at else if is_up part then up_from at else with_part at part) parts

unfoldable pub reversed : List Part → List Part → List Part
reversed [] acc = acc
reversed (part ∷ parts) acc = reversed parts (part ∷ acc)

abbrev joined_below : Route → ℕ × List Part → Option Route
joined_below dest (ℕ.zero, parts) = some (dest ++ reversed parts [])
joined_below dest (suc ups, parts) = none

-- safeJoin
unfoldable pub safe_join : Route → List ℕ → Option Route
unfolding parts_of clean reversed
safe_join dest name =
    if is_abs name then none else joined_below dest (clean (0, []) (parts_of name))

pub data EntryKind : Type 0 where
  directory regular : EntryKind
  symlink_to : List ℕ → EntryKind

pub data TarEntry : Type 0 where
  entry : EntryKind → List ℕ → TarEntry
  broken : TarEntry

-- os.MkdirAll, os.Remove, os.Symlink, os.OpenFile and io.Copy with Close.
pub data Call : Type 0 where
  make_all remove create write : Route → Call
  symlink : List ℕ → Route → Call

-- Whether a call works, by the calls before it, the last one first.
abbrev pub Files : Type 0
Files = List Call → Call → Bool

-- filepath.Dir
unfoldable pub parent : Route → Route
parent [] = []
parent (part ∷ []) = []
parent (part ∷ next ∷ parts) = part ∷ parent (next ∷ parts)

-- The calls for an entry, each with whether its error is looked at.
unfoldable pub steps_of : EntryKind → Route → List (Bool × Call)
unfolding parent
steps_of directory target = (true, make_all target) ∷ []
steps_of (symlink_to link) target =
    (true, make_all (parent target)) ∷ (false, remove target) ∷ (true, symlink link target) ∷ []
steps_of regular target =
    (true, make_all (parent target)) ∷ (true, create target) ∷ (true, write target) ∷ []

module _ (files : Files) where
  unfoldable pub run_steps : List (Bool × Call) → List Call → Bool × List Call
  run_steps [] calls = (true, calls)
  run_steps ((matters, call) ∷ steps) calls =
      let rest = run_steps steps (call ∷ calls) in
      if matters && (if files calls call then false else true) then (false, call ∷ calls) else rest

  abbrev pub and_then : (List Call → Bool × List Call) → Bool × List Call → Bool × List Call
  and_then next (true, calls) = next calls
  and_then next (false, calls) = (false, calls)

  abbrev pub on_target :
      (List Call → Bool × List Call) → EntryKind → Option Route → List Call → Bool × List Call
  on_target next kind none calls = (false, calls)
  on_target next kind (some target) calls = and_then next (run_steps (steps_of kind target) calls)

  -- The loop over the entries, up to the end of the archive.
  unfoldable pub extract_entries : Route → List TarEntry → List Call → Bool × List Call
  unfolding safe_join run_steps steps_of
  extract_entries dest [] calls = (true, calls)
  extract_entries dest (broken ∷ rest) calls = (false, calls)
  extract_entries dest (entry kind name ∷ rest) calls =
      on_target (extract_entries dest rest) kind (safe_join dest name) calls

  -- ExtractTarGz: whether it reports no error, and the calls after it. `is_gzip` says whether gzip reads the
  -- payload's header.
  unfoldable pub extract_tar_gz : Route → Bool → List TarEntry → List Call → Bool × List Call
  unfolding extract_entries
  extract_tar_gz dest is_gzip entries calls =
      and_then (λ calls. if is_gzip then extract_entries dest entries calls else (false, calls))
        (run_steps ((true, make_all dest) ∷ []) calls)
