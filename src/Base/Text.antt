-- ===== src/Base/Text.antt =====
-- Go's formatting of numbers and quoted texts.
use Prim.Native.Char.{code}
use Prim.Native.String.{String, ◌++◌}
use Prim.Native.Nat.{ℕ, zero, suc, ◌+◌, ◌/◌, ◌%◌}
use mathlib.Core.List.{List, []}
use mycedrive_k8s.Base.Tests.{ltb, eqb, if◌then◌else◌}
use mycedrive_k8s.Base.Int.{ℤ, pos, negsuc}

digit : ℕ → String
digit n =
    if eqb n 0
    then "0"
    else if eqb n 1
    then "1"
    else if eqb n 2
    then "2"
    else if eqb n 3
    then "3"
    else if eqb n 4
    then "4"
    else if eqb n 5
    then "5"
    else if eqb n 6
    then "6"
    else if eqb n 7
    then "7"
    else if eqb n 8
    then "8"
    else "9"

-- The decimal digits of n, with more rounds than n has digits.
itoa_fuel : ℕ → ℕ → String
unfolding digit
itoa_fuel zero n = ""
itoa_fuel (suc f) n =
    let front = itoa_fuel f (n / 10) in if ltb n 10 then digit n else front ++ digit (n % 10)

-- `strconv.Itoa`
unfoldable pub itoa : ℤ → String
unfolding itoa_fuel
itoa (pos n) = itoa_fuel (suc n) n
itoa (negsuc n) = "-" ++ itoa_fuel (n + 2) (n + 1)

-- The characters of a quoted text. Go's %q also escapes what cannot be printed, which the names of
-- Kubernetes objects never hold.
unfoldable pub quote_chars : String → String
quote_chars String.[] = ""
quote_chars (String.◌∷◌ c s) =
    let rest = String.◌∷◌ c (quote_chars s) in
    if eqb (code c) b'"' then "\\" ++ rest else if eqb (code c) b'\\' then "\\" ++ rest else rest

-- fmt's %q
unfoldable pub quoted : String → String
unfolding quote_chars
quoted s = "\"" ++ quote_chars s ++ "\""

-- The texts one after another.
unfoldable pub joined : List String → String
joined [] = ""
joined (List.◌∷◌ s ss) = s ++ joined ss
