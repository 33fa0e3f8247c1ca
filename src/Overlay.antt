-- ===== src/Overlay.antt =====
-- go-agent/overlay/volume.go: LayerManager, which freezes the layers of a pod's volume and sends them
-- to the destination. A method is a function of the manager and of its data directory; the text of an
-- error is left out. The names in the data directory stand by what they say, as `Entry`.
pub mod State
mod Marker
pub mod Steady
mod Sending
pub mod Sent
pub mod Covered
pub mod Order
pub mod Frozen
pub mod Ending
pub mod Received
mod Tests
use mycedrive_k8s.Base.{
  ℕ, suc, ◌-◌, Bool, true, false, ◌||◌, Option, none, some, List, [], ◌∷◌, String, eqb, leb, ltb,
  ◌==◌, if◌then◌else◌,
}
use State.{
  Prefix, upper, work, merged, lower, Entry, dir, marker, LowerDir, root_dir, merged_of, received,
  Call, make_dir, list_dir, mount_overlay, bind, unbind, unmount, send, mark, extract, Manager,
  Environment, Vol, ◌>>=◌, ◌>>◌, pure, raise, attempt, gets, stat, set_level, perform,
}

-- The layers of a list are numbered from 1; a directory numbered 0 is passed over.
abbrev numbered : Prefix → Entry → Option ℕ
numbered upper (dir upper n) = if eqb n 0 then none else some n
numbered merged (dir merged n) = if eqb n 0 then none else some n
numbered lower (dir lower n) = if eqb n 0 then none else some n
numbered _ _ = none

abbrev add_found : Option ℕ → List ℕ → List ℕ
add_found none ns = ns
add_found (some n) ns = n ∷ ns

unfoldable pub numbers_of : Prefix → List Entry → List ℕ
numbers_of prefix [] = []
numbers_of prefix (entry ∷ rest) = add_found (numbered prefix entry) (numbers_of prefix rest)

-- sort.Ints
unfoldable pub put_in_order : ℕ → List ℕ → List ℕ
put_in_order n [] = n ∷ []
put_in_order n (m ∷ ms) = let rest = put_in_order n ms in if leb n m then n ∷ m ∷ ms else m ∷ rest

unfoldable pub sort_ints : List ℕ → List ℕ
unfolding put_in_order
sort_ints [] = []
sort_ints (n ∷ ns) = put_in_order n (sort_ints ns)

-- Whether the marker of a layer is there.
unfoldable pub is_sent : ℕ → List Entry → Bool
is_sent n [] = false
is_sent n (marker m ∷ rest) = let more = is_sent n rest in if eqb m n then true else more
is_sent n (_ ∷ rest) = is_sent n rest

-- A marker is seen only where the stat of it works.
abbrev pub seen_in : Option (Unit {0}) → ℕ → Manager → Bool
seen_in none n m = false
seen_in (some _) n m = is_sent n m.entries

-- The last number of a list in ascending order.
unfoldable pub last_or : ℕ → List ℕ → ℕ
last_or n [] = n
last_or n (m ∷ ms) = last_or m ms

abbrev reversed_onto : List ℕ → List ℕ → List ℕ
reversed_onto [] acc = acc
reversed_onto (n ∷ ns) acc = reversed_onto ns (n ∷ acc)

-- The lower directories of a first mount: what was received, newest first, or the volume itself.
unfoldable pub lower_dir_of : List ℕ → LowerDir
lower_dir_of [] = root_dir
lower_dir_of (n ∷ ns) = received (reversed_onto (n ∷ ns) [])

module _ (env : Environment) where
  -- numberedDirs
  unfoldable pub numbered_dirs : Prefix → Vol (List ℕ)
  unfolding numbers_of sort_ints
  numbered_dirs prefix = do
    perform env list_dir
    gets (λ m. sort_ints (numbers_of prefix m.entries))

  -- Discover
  unfoldable pub discover : Vol (Unit {0})
  unfolding numbered_dirs last_or
  discover = do uppers ← numbered_dirs upper; set_level (last_or 0 uppers)

  -- mkLevelDirs
  unfoldable pub make_level_dirs : ℕ → Vol (Unit {0})
  make_level_dirs level = do
    perform env (make_dir upper level)
    perform env (make_dir work level)
    perform env (make_dir merged level)

  -- mountLevel
  unfoldable pub mount_level : ℕ → LowerDir → Vol (Unit {0})
  mount_level level lowers = perform env (mount_overlay level lowers)

  -- InitVolume
  unfoldable pub init_volume : Vol (Unit {0})
  unfolding numbered_dirs make_level_dirs lower_dir_of mount_level
  init_volume = do
    lowers ← numbered_dirs lower
    old ← gets (λ m. m.level)
    make_level_dirs (suc old)
    mount_level (suc old) (lower_dir_of lowers)
    perform env (bind (suc old))
    set_level (suc old)

  -- CreateCheckpoint: the number of the frozen layer.
  unfoldable pub create_checkpoint : Vol ℕ
  unfolding make_level_dirs mount_level
  create_checkpoint = do
    frozen ← gets (λ m. m.level)
    if eqb frozen 0 then raise else do
      make_level_dirs (suc frozen)
      mount_level (suc frozen) (merged_of frozen)
      perform env unbind
      perform env (bind (suc frozen))
      set_level (suc frozen)
      pure frozen

  -- isSent
  unfoldable pub has_marker : ℕ → Vol Bool
  unfolding is_sent
  has_marker n = do found ← attempt (perform env (stat n)); gets (seen_in found n)

  -- `|| isSent`: the mark is looked for only where the test before it is false.
  abbrev pub or_sent : Bool → ℕ → Vol Bool
  or_sent true n = pure true
  or_sent false n = has_marker n

  -- SendDir and markSent of a layer.
  unfoldable pub send_layer : ℕ → Vol (Unit {0})
  send_layer n = do perform env (send n); perform env (mark n)

  -- The loop over the upper directories: the writable layer and what was sent are left out.
  unfoldable pub copy_layers : List ℕ → Vol (Unit {0})
  unfolding has_marker send_layer
  copy_layers [] = pure tt
  copy_layers (n ∷ ns) = do
    above ← gets (λ m. leb m.level n)
    skipped ← or_sent above n
    if skipped then copy_layers ns else do send_layer n; copy_layers ns

  -- CopyCheckpoint
  unfoldable pub copy_checkpoint : String → Vol (Unit {0})
  unfolding numbered_dirs copy_layers
  copy_checkpoint dest_addr =
      if dest_addr == "" then raise else do uppers ← numbered_dirs upper; copy_layers uppers

  -- ReceiveCheckpoint
  unfoldable pub receive_checkpoint : ℕ → Vol (Unit {0})
  unfolding init_volume
  receive_checkpoint ordinal = do
    perform env (extract ordinal)
    level ← gets (λ m. m.level)
    if ltb 0 level
        then (do
          perform env unbind
          perform env (unmount level)
          set_level (level - 1)
          init_volume)
        else pure tt

  unfoldable pub unmount_all : List ℕ → Vol (Unit {0})
  unmount_all [] = pure tt
  unmount_all (n ∷ ns) = do perform env (unmount n); unmount_all ns

  -- EndVolume
  unfoldable pub end_volume : String → Vol (Unit {0})
  unfolding numbered_dirs unmount_all has_marker send_layer
  end_volume dest_addr = do
    final ← gets (λ m. m.level)
    if eqb final 0 then raise else do
      perform env unbind
      mounted ← numbered_dirs merged
      unmount_all (reversed_onto mounted [])
      set_level 0
      skipped ← or_sent (dest_addr == "") final
      if skipped then pure tt else send_layer final
