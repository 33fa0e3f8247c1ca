-- ===== src/Base/Number.antt =====
-- Go's reading of decimal numbers.
use Prim.Native.Char.{code}
use Prim.Native.Nat.{ℕ, ◌+◌, ◌-◌, ◌*◌}
use Prim.Native.String.{String}
use mathlib.Core.Bool.{◌&&◌}
use mathlib.Core.Option.{Option, none, some}
use mathlib.Core.List.{List, [], ◌∷◌}
use mycedrive_k8s.Base.Tests.{ltb, leb, eqb, if◌then◌else◌}
use mycedrive_k8s.Base.Int.{ℤ, pos, sub_ℕ}

-- The code points of a text.
unfoldable pub code_points : String → List ℕ
code_points String.[] = []
code_points (String.◌∷◌ c s) = code c ∷ code_points s

abbrev with_digit : ℕ → Option ℕ → Option ℕ
with_digit c none = none
with_digit c (some n) = if leb b'0' c && leb c b'9' then some (n * 10 + (c - b'0')) else none

-- The number of digits read so far, and those to come.
unfoldable pub digits_from : Option ℕ → List ℕ → Option ℕ
digits_from n [] = n
digits_from n (c ∷ cs) = digits_from (with_digit c n) cs

unfoldable pub digits : List ℕ → Option ℕ
unfolding digits_from
digits [] = none
digits (c ∷ cs) = digits_from (some 0) (c ∷ cs)

abbrev positive : Option ℕ → Option ℤ
positive none = none
positive (some n) = if ltb n 9223372036854775808 then some (pos n) else none

abbrev negative : Option ℕ → Option ℤ
negative none = none
negative (some n) = if leb n 9223372036854775808 then some (sub_ℕ 0 n) else none

unfoldable pub signed : List ℕ → Option ℤ
unfolding digits
signed [] = none
signed (c ∷ cs) =
    if eqb c b'+'
    then positive (digits cs)
    else if eqb c b'-'
    then negative (digits cs)
    else positive (digits (c ∷ cs))

-- strconv.Atoi, where an int has 64 bits; `none` is an error.
unfoldable pub atoi : String → Option ℤ
unfolding signed code_points
atoi s = signed (code_points s)
