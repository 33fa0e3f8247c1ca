-- ===== src/Base/Assoc.antt =====
-- Go's maps with text keys, as association lists. The program never depends on the order in which a
-- map is walked: the one walk sorts its result.
use Prim.Native.String.{String}
use mathlib.Core.Path.{◌≡◌, refl, sym, subst, ◌∙◌}
use mathlib.Core.Logic.{inl, inr}
use mathlib.Core.Bool.{false}
use mathlib.Core.Option.{Option, none, some}
use mathlib.Core.List.{List, [], ◌∷◌}
use native.Mathlib.Omega.{arith}
use text.Mathlib.Text.{◌==◌}
use text.Mathlib.TextEquality.{eq_iff}
use text.Mathlib.TextPositions.{eq_refl}
use mycedrive_k8s.Base.Tests.{if◌then◌else◌, Bool-cases, text-cases}

abbrev pub Map {ℓ} : Type ℓ → Type ℓ
Map V = List (String × V)

module _ {ℓ} {V : Type ℓ} where
  -- The text `asked` is the key of the walk, `here` the key the walk stands on.
  -- m[asked]
  unfoldable pub lookup : (asked : String) (entries : Map V) → Option V
  lookup asked [] = none
  lookup asked ((here, found) ∷ entries) =
      if here == asked then some found else lookup asked entries

  -- m[asked] = new
  unfoldable pub insert : (asked : String) (new : V) (entries : Map V) → Map V
  insert asked new [] = (asked, new) ∷ []
  insert asked new ((here, old) ∷ entries) =
      let below = insert asked new entries in
      if here == asked then (asked, new) ∷ entries else (here, old) ∷ below

  -- delete(m, asked)
  unfoldable pub remove : (asked : String) (entries : Map V) → Map V
  remove asked [] = []
  remove asked ((here, old) ∷ entries) =
      let below = remove asked entries in if here == asked then below else (here, old) ∷ below

  pub lookup-remove :
      (gone asked : String) (entries : Map V)
      → lookup asked (remove gone entries) ≡ (if gone == asked then none else lookup asked entries)
  unfolding lookup remove
  lookup-remove gone asked [] = ground arith
  lookup-remove gone asked ((here, old) ∷ entries) =
      let below = lookup-remove gone asked entries in
      ground (arith, below, eq_iff here asked, eq_iff here gone, eq_iff gone asked)

  pub lookup-insert :
      (set asked : String) (new : V) (entries : Map V)
      → lookup asked (insert set new entries)
        ≡ (if set == asked then some new else lookup asked entries)
  unfolding lookup insert
  lookup-insert set asked new [] = refl
  lookup-insert set asked new ((here, old) ∷ entries) =
      let below = lookup-insert set asked new entries in
      ground (arith, below, eq_iff here asked, eq_iff here set, eq_iff set asked)

  pub lookup-insert_self :
      (set : String) (new : V) (entries : Map V) → lookup set (insert set new entries) ≡ some new
  lookup-insert_self set new entries = rw (lookup-insert set set new entries, eq_refl set)

  pub lookup-insert_ne :
      (k j : String) (v : V) (m : Map V) → (k == j) ≡ false → lookup j (insert k v m) ≡ lookup j m
  lookup-insert_ne k j v m h = simp (lookup-insert, h)

  -- `P` holds of every key and its value.
  abbrev pub Each {κ} : (String → V → Type κ) → Map V → Type (ℓ ⊔ κ)
  Each P m = (k : String) (v : V) → lookup k m ≡ some v → P k v

module _ {ℓ κ} {V : Type ℓ} {P : String → V → Type κ} where
  pub insert-Each : (k : String) (v : V) (m : Map V) → Each P m → P k v → Each P (insert k v m)
  insert-Each k v m h p j w e = elim (text-cases k j) [
    | inl same ↦
        let here : v ≡ w = ground (arith, eq_iff k j, lookup-insert k j v m) in
        subst (λ i. P i w) same (subst (P k) here p)
    | inr differ ↦ h j w (sym (lookup-insert_ne k j v m differ) ∙ e)
  ]

  pub remove-Each : (k : String) (m : Map V) → Each P m → Each P (remove k m)
  remove-Each k m h j w e = elim (Bool-cases (k == j)) [
    | inl same ↦ absurd (ground (arith, lookup-remove k j m))
    | inr differ ↦ h j w (ground (arith, lookup-remove k j m))
  ]
