-- ===== src/Transfer/Extract/Tests.antt =====
-- ExtractTarGz on concrete archives, and the theorem at one.
use mycedrive_k8s.Base.{true, none, some, List, [], ◌∷◌, ◌≡◌, refl, All}
use mycedrive_k8s.Transfer.Extract.{
  Route, TarEntry, entry, symlink_to, regular, Files, safe_join, extract_tar_gz,
}
use mycedrive_k8s.Transfer.Extract.Within.{IsAllowed, extract_tar_gz-IsAllowed}

abbrev dest : Route
dest = (100 ∷ []) ∷ []

-- The name "a/../../b" goes up, and "a/./../b" does not.
refused : safe_join dest (97 ∷ 47 ∷ 46 ∷ 46 ∷ 47 ∷ 46 ∷ 46 ∷ 47 ∷ 98 ∷ []) ≡ none
unfolding safe_join
refused = refl

accepted :
    safe_join dest (97 ∷ 47 ∷ 46 ∷ 47 ∷ 46 ∷ 46 ∷ 47 ∷ 98 ∷ []) ≡ some ((100 ∷ []) ∷ (98 ∷ []) ∷ [])
unfolding safe_join
accepted = refl

-- A link "a" to "/", and then the file "a/b".
abbrev through_a_link : List TarEntry
through_a_link = entry (symlink_to (47 ∷ [])) (97 ∷ []) ∷ entry regular (97 ∷ 47 ∷ 98 ∷ []) ∷ []

abbrev files : Files
files calls call = true

taken : (extract_tar_gz files dest true through_a_link []).0 ≡ true
unfolding extract_tar_gz
taken = refl

extract_tar_gz-IsAllowed_example :
    All (IsAllowed dest) (extract_tar_gz files dest true through_a_link []).1
extract_tar_gz-IsAllowed_example = extract_tar_gz-IsAllowed files dest true through_a_link
