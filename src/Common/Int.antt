-- ===== src/Common/Int.antt =====
-- Signed integers over the native numbers, for Go's `int32` and `int64` fields.
use kubernetes_operators.Common.{
  ℕ, zero, suc, String, ◌+◌, ◌-◌, ◌%◌, ◌^◌, ◌≤◌, Bool, Option, none, some, [], ◌∷◌, ltb, leb, eqb,
  if◌then◌else◌, concat, show_nat, read_number,
}
use Prim.Native.Char.{code}

-- `negsuc n` is -(n + 1).
pub data ℤ : Type 0 where
  pos : ℕ → ℤ
  negsuc : ℕ → ℤ

abbrev pub pos_part : ℤ → ℕ
pos_part (pos n) = n
pos_part (negsuc n) = 0

abbrev pub neg_part : ℤ → ℕ
neg_part (pos n) = 0
neg_part (negsuc n) = suc n

infix 50 ◌≤ℤ◌
abbrev pub ◌≤ℤ◌ : ℤ → ℤ → Type 0
a ≤ℤ b = pos_part a + neg_part b ≤ pos_part b + neg_part a

abbrev pub ltb_ℤ : ℤ → ℤ → Bool
ltb_ℤ a b = ltb (pos_part a + neg_part b) (pos_part b + neg_part a)

abbrev pub leb_ℤ : ℤ → ℤ → Bool
leb_ℤ a b = leb (pos_part a + neg_part b) (pos_part b + neg_part a)

abbrev pub eqb_ℤ : ℤ → ℤ → Bool
eqb_ℤ a b = eqb (pos_part a + neg_part b) (pos_part b + neg_part a)

-- `%d`
unfoldable pub show_int : ℤ → String
unfolding show_nat
show_int (pos n) = show_nat n
show_int (negsuc n) = concat ("-" ∷ show_nat (suc n) ∷ [])

abbrev negate : ℕ → ℤ
negate zero = pos 0
negate (suc n) = negsuc n

-- A magnitude with its sign, if an `int64` holds it.
abbrev int64_of : Bool → ℕ → Option ℤ
int64_of negative n =
    if negative
    then (if leb n (2 ^ 63) then some (negate n) else none)
    else (if ltb n (2 ^ 63) then some (pos n) else none)

abbrev with_sign : Bool → Option ℕ → Option ℤ
with_sign negative none = none
with_sign negative (some n) = int64_of negative n

-- `strconv.Atoi`: an optional sign, decimal digits, and the range of a 64-bit `int`.
unfoldable pub atoi : String → Option ℤ
unfolding read_number
atoi String.[] = none
atoi (String.◌∷◌ c s) =
    if eqb (code c) b'-'
    then with_sign Bool.true (read_number s)
    else if eqb (code c) b'+'
    then with_sign Bool.false (read_number s)
    else with_sign Bool.false (read_number (String.◌∷◌ c s))

-- `int32(n)`: the low 32 bits, read in two's complement.
abbrev low_32 : ℤ → ℕ
low_32 (pos n) = n % 2 ^ 32
low_32 (negsuc n) = 2 ^ 32 - 1 - n % 2 ^ 32

unfoldable pub to_int32 : ℤ → ℤ
to_int32 z = if ltb (low_32 z) (2 ^ 31) then pos (low_32 z) else negsuc (2 ^ 32 - 1 - low_32 z)
