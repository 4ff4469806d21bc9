-- ===== src/Database/Decimal.antt =====
-- The texts of numbers, which lib/db.c and ospf6-sibling/ospf6_db.c print with "%d" and read with
-- strtol and sscanf. A text is the list of its codes; a number is an `unsigned int`.
use Prim.Native.Char.{code}
use Prim.Native.String.{String}
use harry.Base.{
  ℕ, zero, suc, ◌+◌, ◌-◌, ◌*◌, ◌/◌, ◌%◌, Bool, false, ◌&&◌, ◌||◌, List, [], ◌∷◌, ◌++◌, Option, none,
  some, ltb, leb, ◌==◌, if◌then◌else◌, u32,
}

abbrev pub Text : Type 0
Text = List ℕ

abbrev pub codes : String → Text
codes String.[] = []
codes (String.◌∷◌ c s) = code c ∷ codes s

abbrev pub pow10 : ℕ → ℕ
pow10 zero = 1
pow10 (suc n) = 10 * pow10 n

-- The digits of a number, with one unit of fuel for each.
unfoldable pub digits : ℕ → ℕ → Text
digits zero n = []
digits (suc f) n =
    let rest = digits f (n / 10) in if ltb n 10 then (48 + n) ∷ [] else rest ++ (48 + n % 10) ∷ []

-- sprintf of "%d" with an `unsigned int`, which is printed as an `int`.
unfoldable pub print_int : ℕ → Text
print_int n = if ltb n 2147483648 then digits 10 n else b'-' ∷ digits 10 (4294967296 - n)

unfoldable pub is_digit : ℕ → Bool
is_digit c = leb 48 c && leb c 57

-- The number at the front of a text, after the digits that are already read.
unfoldable pub read_digits : ℕ → Text → ℕ
unfolding is_digit
read_digits n [] = n
read_digits n (c ∷ cs) =
    let rest = read_digits (10 * n + (c - 48)) cs in if is_digit c then rest else n

unfoldable pub starts_digit : Text → Bool
unfolding is_digit
starts_digit [] = false
starts_digit (c ∷ cs) = is_digit c

unfoldable pub is_space : ℕ → Bool
is_space c = (c == 32) || (leb 9 c && leb c 13)

unfoldable pub skip_space : Text → Text
unfolding is_space
skip_space [] = []
skip_space (c ∷ cs) = if is_space c then skip_space cs else c ∷ cs

-- The range of `long`, then the conversion to `unsigned int`.
abbrev pub positive : ℕ → ℕ
positive n = u32 (if ltb n 9223372036854775808 then n else 9223372036854775807)

abbrev pub negative : ℕ → ℕ
negative n = if leb n 9223372036854775808 then u32 (4294967296 - u32 n) else 0

abbrev some_digits : Text → (ℕ → ℕ) → Option ℕ
some_digits cs f = if starts_digit cs then some (f (read_digits 0 cs)) else none

unfoldable pub read_signed : Text → Option ℕ
unfolding starts_digit read_digits
read_signed [] = none
read_signed (c ∷ cs) =
    if c == b'-'
    then some_digits cs negative
    else if c == b'+'
    then some_digits cs positive
    else some_digits (c ∷ cs) positive

-- sscanf of "%d": `none` where the text does not begin with a number, and nothing is assigned.
unfoldable pub scan_int : Text → Option ℕ
unfolding skip_space read_signed
scan_int cs = read_signed (skip_space cs)

abbrev or_zero : Option ℕ → ℕ
or_zero none = 0
or_zero (some n) = n

-- strtol in base 10, converted to `unsigned int`; without a number it is 0.
unfoldable pub strtol : Text → ℕ
unfolding scan_int
strtol cs = or_zero (scan_int cs)
