-- ===== src/Common/Text.antt =====
-- Text: what `fmt.Sprintf` puts together, decimal numbers, `strconv.Atoi` and `strings.SplitN`.
use Prim.Native.Nat.{ℕ, suc, zero, ◌+◌, ◌-◌, ◌*◌, ◌/◌, ◌%◌}
use Prim.Native.Char.{code}
use Prim.Native.String.{String, ◌++◌, slice}
use mathlib.Core.Bool.{◌&&◌}
use mathlib.Core.Option.{Option, none, some}
use mathlib.Core.Option
use mathlib.Core.List.{List, [], ◌∷◌}
use kubernetes_operators.Common.Tests.{ltb, leb, eqb, if◌then◌else◌}

-- The pieces of a formatted text, one after the other.
abbrev pub concat : List String → String
concat [] = ""
concat (s ∷ ss) = s ++ concat ss

-- The decimal digits of `n`; each round divides by ten, so fuel above `n` is enough.
unfoldable pub show_digits : ℕ → ℕ → String → String
show_digits zero n acc = acc
show_digits (suc f) n acc =
    let acc' = slice "0123456789" (n % 10) (n % 10 + 1) ++ acc in
    let rest = show_digits f (n / 10) acc' in if ltb n 10 then acc' else rest

unfoldable pub show_nat : ℕ → String
unfolding show_digits
show_nat n = show_digits (suc n) n ""

-- The text before and after the first '/': `strings.SplitN(s, "/", 2)` has two parts exactly then.
unfoldable pub split_slash : String → Option (String × String)
split_slash String.[] = none
split_slash (String.◌∷◌ c s) =
    if eqb (code c) b'/'
    then some ("", s)
    else Option.map (λ p. (String.◌∷◌ c p.0, p.1)) (split_slash s)

-- The value of a text of decimal digits, after the digits already read.
unfoldable pub read_digits : String → ℕ → Option ℕ
read_digits String.[] acc = some acc
read_digits (String.◌∷◌ c s) acc =
    let rest = read_digits s (acc * 10 + (code c - b'0')) in
    if leb b'0' (code c) && leb (code c) b'9' then rest else none

-- A number needs a digit.
unfoldable pub read_number : String → Option ℕ
unfolding read_digits
read_number String.[] = none
read_number (String.◌∷◌ c s) = read_digits (String.◌∷◌ c s) 0
