-- ===== src/Registry/Address.antt =====
-- `joinHostPort` of operator/pkg/registry/registry.go, with the parts of Go's standard library that
-- it calls: `net.SplitHostPort` (whether it succeeds), `net.JoinHostPort`, `strconv.Itoa` and
-- `strings.Contains` for one character.
use Prim.Native.Char.{code}
use Prim.Native.String.{String, ◌++◌}
use mycedrive_k8s.Base.{
  ℕ, Bool, true, false, not, ◌&&◌, List, [], ◌∷◌, eqb, ℤ, pos, leℤ, itoa, ◌==◌, if◌then◌else◌,
}

-- The characters of a text.
abbrev pub codes : String → List ℕ
codes String.[] = []
codes (String.◌∷◌ c s) = code c ∷ codes s

unfoldable pub contains : ℕ → List ℕ → Bool
contains c [] = false
contains c (x ∷ xs) = if eqb x c then true else contains c xs

-- What follows the first `c`.
unfoldable pub after : ℕ → List ℕ → List ℕ
after c [] = []
after c (x ∷ xs) = if eqb x c then xs else after c xs

-- What stands before the first `c`.
unfoldable pub before : ℕ → List ℕ → List ℕ
before c [] = []
before c (x ∷ xs) = let rest = before c xs in if eqb x c then [] else x ∷ rest

-- What follows `]` in a bracketed host must be a colon that is the last one, with no bracket behind.
unfoldable pub is_port_suffix : List ℕ → Bool
unfolding contains
is_port_suffix [] = false
is_port_suffix (c ∷ rest) =
    eqb c b':' && not (contains b':' rest) && not (contains b'[' rest) && not (contains b']' rest)

-- Whether `net.SplitHostPort` returns no error.
unfoldable pub splits_host_port : List ℕ → Bool
unfolding contains after before is_port_suffix
splits_host_port [] = false
splits_host_port (c ∷ rest) =
    if eqb c b'['
    then contains b']' rest && not (contains b'[' rest) && is_port_suffix (after b']' rest)
    else contains b':' (c ∷ rest)
      && not (contains b':' (after b':' (c ∷ rest)))
      && not (contains b'[' (c ∷ rest))
      && not (contains b']' (c ∷ rest))

abbrev pub default_transfer_port : ℤ
default_transfer_port = pos 2486

unfoldable pub effective_port : ℤ → ℤ
effective_port port = if leℤ port (pos 0) then default_transfer_port else port

unfoldable pub join_host_port : String → ℤ → String
unfolding splits_host_port contains itoa effective_port
join_host_port address port =
    if address == ""
    then ""
    else if splits_host_port (codes address)
    then address
    else if contains b':' (codes address)
    then "[" ++ address ++ "]:" ++ itoa (effective_port port)
    else address ++ ":" ++ itoa (effective_port port)
