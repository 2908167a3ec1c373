-- ===== src/Numbers.antt =====
-- JavaScript's Number(text) where its value is a non-negative integer, and text.split: the parts of the
-- language that the parsers of the program share.
use pane_fleet.Base.{
  ℕ, zero, ◌+◌, ◌-◌, ◌*◌, ◌/◌, ◌%◌, ◌^◌, Bool, true, false, not, ◌&&◌, ◌||◌, Option, none, some,
  List, [], ◌∷◌, ◌++◌, every, length, Text, is_empty, is_digit, is_hex, trim, ltb, leb, ◌==◌,
  if◌then◌else◌,
}

-- text.split(separator) for a separator of one unit
unfoldable pub split : ℕ → Text → List Text
split separator [] = [] ∷ []
split separator (c ∷ s) = elim (split separator s) [
  | [] ↦ (c ∷ []) ∷ []
  | part ∷ parts ↦ if c == separator then [] ∷ part ∷ parts else (c ∷ part) ∷ parts
]

-- The value of a digit 0 to 9, a to f, A to F.
unfoldable pub digit_value : ℕ → ℕ
digit_value c = if leb c b'9' then c - b'0' else if leb c b'F' then c - b'A' + 10 else c - b'a' + 10

-- /^\d+$/
unfoldable pub all_digits : Text → Bool
all_digits s = not (is_empty s) && every is_digit s

unfoldable pub digits_value : ℕ → ℕ → Text → ℕ
digits_value base sum [] = sum
digits_value base sum (c ∷ s) = digits_value base (sum * base + digit_value c) s

-- The digits at the head of a text, and what follows them.
unfoldable pub leading_digits : Text → Text × Text
leading_digits [] = ([], [])
leading_digits (c ∷ s) =
    let (digits, rest) = leading_digits s in if is_digit c then (c ∷ digits, rest) else ([], c ∷ s)

-- Behind the digits: a fraction's digits, and what follows them.
unfoldable pub fraction : Text → Text × Text
fraction [] = ([], [])
fraction (c ∷ s) = if c == b'.' then leading_digits s else ([], c ∷ s)

-- The exponent: whether it is negative, and its size.
unfoldable pub exponent_digits : Bool → Text → Option (Bool × ℕ)
exponent_digits negative s = if all_digits s then some (negative, digits_value 10 0 s) else none

unfoldable pub exponent : Text → Option (Bool × ℕ)
exponent [] = some (false, 0)
exponent (e ∷ []) = none
exponent (e ∷ c ∷ s) =
    if e == b'e' || e == b'E'
    then (if c == b'+'
        then exponent_digits false s
        else if c == b'-'
        then exponent_digits true s
        else exponent_digits false (c ∷ s))
    else none

-- digits * 10 ^ up / 10 ^ down, when that is an integer below the range of Infinity. A value that is
-- no integer but rounds to one as a double is not counted as an integer here.
unfoldable pub scaled : ℕ → ℕ → ℕ → Option ℕ
scaled digits up down =
    if digits == 0
    then some 0
    else if ltb (up - down) 400
    then (if digits * 10 ^ (up - down) % 10 ^ (down - up) == 0
        then finite (digits * 10 ^ (up - down) / 10 ^ (down - up))
        else none)
    else none
  where
    finite : ℕ → Option ℕ
    finite value = if ltb value (2 ^ 1024 - 2 ^ 970) then some value else none

unfoldable pub unsigned_number : Text → Option ℕ
unsigned_number s =
    let (digits, behind_digits) = leading_digits s in
    let (decimals, tail) = fraction behind_digits in
    if is_empty digits && is_empty decimals then none else elim (exponent tail) [
      | none ↦ none
      | some (negative, size) ↦
          if negative
          then scaled (digits_value 10 0 (digits ++ decimals)) 0 (length decimals + size)
          else scaled (digits_value 10 0 (digits ++ decimals)) size (length decimals)
    ]

-- `-0` is an integer and compares like 0.
unfoldable pub signed_number : ℕ → Text → Option ℕ
signed_number c s =
    if c == b'+'
    then unsigned_number s
    else if c == b'-'
    then elim (unsigned_number s) [ some zero ↦ some zero | _ ↦ none ]
    else unsigned_number (c ∷ s)

-- 0x, 0o and 0b
unfoldable pub radix : ℕ → Option ℕ
radix c =
    if c == b'x' || c == b'X'
    then some 16
    else if c == b'o' || c == b'O'
    then some 8
    else if c == b'b' || c == b'B'
    then some 2
    else none

unfoldable pub in_radix : ℕ → ℕ → Bool
in_radix base c = (is_hex c || (leb b'A' c && leb c b'F')) && ltb (digit_value c) base

unfoldable pub literal : ℕ → Text → Option ℕ
literal base s =
    if not (is_empty s) && every (in_radix base) s then some (digits_value base 0 s) else none

unfoldable pub number_of : Text → Option ℕ
number_of text = elim (trim text) [
  | [] ↦ some 0
  | c ∷ [] ↦ signed_number c []
  | c ∷ d ∷ s ↦
      if c == b'0'
      then elim (radix d) [ none ↦ signed_number c (d ∷ s) | some base ↦ literal base s ]
      else signed_number c (d ∷ s)
]
