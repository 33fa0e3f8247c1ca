-- ===== src/Overlay/State.antt =====
-- What go-agent/overlay/volume.go works on: the data directory, the mounts and the destination.
use mycedrive_k8s.Base.{
  ◌&&◌, if◌then◌else◌, eqb, Bool, true, false, ℕ, Option, none, some, List, [], ◌∷◌, String,
}
unfoldable pub use mycedrive_k8s.Base.Action.{
  Action, go_on, ◌>>=◌, ◌>>◌, pure, raise, gets, attempt,
}

pub data Prefix : Type 0 where
  upper work merged lower : Prefix

-- u<N>, w<N>, o<N>, l<N>, .sent_<N>, or any other name.
pub data Entry : Type 0 where
  dir : Prefix → ℕ → Entry
  marker : ℕ → Entry
  other : String → Entry

-- The lowerdir option of a mount.
pub data LowerDir : Type 0 where
  root_dir : LowerDir
  merged_of : ℕ → LowerDir
  received : List ℕ → LowerDir

-- What the manager asks of the file system, of `mount` and `umount`, and of the destination's agent;
-- `stat` is of a marker.
pub data Call : Type 0 where
  list_dir unbind : Call
  make_dir : Prefix → ℕ → Call
  mount_overlay : ℕ → LowerDir → Call
  bind unmount send mark extract stat : ℕ → Call

pub record Manager : Type 0 where
  pub level : ℕ
  pub entries : List Entry
  -- The layers that the destination took.
  pub delivered : List ℕ
  -- The latest call first.
  pub calls : List Call

-- A call works; it fails with nothing done; or it did its work and is reported as failed.
pub data Answer : Type 0 where
  works fails breaks : Answer

-- What a call meets may depend on everything that was called before.
abbrev pub Environment : Type 0
Environment = List Call → Call → Answer

abbrev pub same_prefix : Prefix → Prefix → Bool
same_prefix upper upper = true
same_prefix work work = true
same_prefix merged merged = true
same_prefix lower lower = true
same_prefix _ _ = false

unfoldable pub has_dir : Prefix → ℕ → List Entry → Bool
has_dir prefix n [] = false
has_dir prefix n (dir p m ∷ rest) =
    let more = has_dir prefix n rest in if same_prefix p prefix && eqb m n then true else more
has_dir prefix n (_ ∷ rest) = has_dir prefix n rest

-- os.MkdirAll, which leaves a directory that is there as it is.
unfoldable pub add_dir : Prefix → ℕ → List Entry → List Entry
unfolding has_dir
add_dir prefix n entries = if has_dir prefix n entries then entries else dir prefix n ∷ entries

unfoldable pub effect : Call → Manager → Manager
unfolding add_dir
effect (make_dir prefix n) m = record m { entries = add_dir prefix n m.entries }
effect (mark n) m = record m { entries = marker n ∷ m.entries }
effect (extract n) m = record m { entries = add_dir lower n m.entries }
effect (send n) m = record m { delivered = n ∷ m.delivered }
effect _ m = m

abbrev pub Vol {ℓ} : Type ℓ → Type ℓ
Vol A = Action Manager A

unfoldable pub set_level : ℕ → Vol (Unit {0})
set_level level m = (some tt, record m { level = level })

abbrev pub answered : Answer → Call → Manager → Option (Unit {0}) × Manager
answered works c m = (some tt, effect c m)
answered fails c m = (none, m)
answered breaks c m = (none, effect c m)

unfoldable pub perform : Environment → Call → Vol (Unit {0})
perform env c m = answered (env m.calls c) c (record m { calls = c ∷ m.calls })
