-- ===== src/Base/Texts.antt =====
-- JavaScript strings as lists of UTF-16 code units, and the string methods that the program uses.
use Prim.Native.Nat.{ℕ}
use Prim.Native.Char.{code}
use Prim.Native.String.{String}
use mathlib.Core.Path.{◌≡◌, refl}
use mathlib.Core.Bool.{Bool, true, false, ◌&&◌, ◌||◌}
use mathlib.Core.List.{List, [], ◌∷◌, reverse}
use native.Mathlib.Omega.{arith}
use pane_fleet.Base.Tests.{leb, ◌==◌, if◌then◌else◌}
use pane_fleet.Base.Lists.{length, every}

abbrev pub Text : Type 0
Text = List ℕ

-- The code units of a literal, which is ASCII.
abbrev pub codes : String → Text
codes String.[] = []
codes (String.◌∷◌ c s) = code c ∷ codes s

-- left === right
unfoldable pub text_eq : Text → Text → Bool
text_eq [] [] = true
text_eq [] (y ∷ ys) = false
text_eq (x ∷ xs) [] = false
text_eq (x ∷ xs) (y ∷ ys) = x == y && text_eq xs ys

pub text_eq_sound : (s t : Text) → text_eq s t ≡ true → s ≡ t
unfolding text_eq
text_eq_sound [] [] h = refl
text_eq_sound [] (y ∷ ys) h = cc
text_eq_sound (x ∷ xs) [] h = cc
text_eq_sound (x ∷ xs) (y ∷ ys) h = ground (arith, text_eq_sound xs ys)

pub text_eq_self : (s : Text) → text_eq s s ≡ true
unfolding text_eq
text_eq_self [] = refl
text_eq_self (x ∷ xs) = ground (arith, text_eq_self xs)

-- array.includes(value)
unfoldable pub includes : List Text → Text → Bool
unfolding text_eq
includes [] v = false
includes (x ∷ xs) v = text_eq x v || includes xs v

abbrev pub is_empty : Text → Bool
is_empty [] = true
is_empty (c ∷ s) = false

-- Character classes of the regular expressions.
unfoldable pub is_digit : ℕ → Bool
is_digit c = leb b'0' c && leb c b'9'

unfoldable pub is_lower : ℕ → Bool
is_lower c = leb b'a' c && leb c b'z'

unfoldable pub is_upper : ℕ → Bool
is_upper c = leb b'A' c && leb c b'Z'

unfoldable pub is_hex : ℕ → Bool
unfolding is_digit
is_hex c = is_digit c || (leb b'a' c && leb c b'f')

-- What `\s` and `trim` count as white space.
unfoldable pub is_space : ℕ → Bool
is_space c =
    (leb 9 c && leb c 13)
    || c == 32
    || c == 0xa0
    || c == 0x1680
    || (leb 0x2000 c && leb c 0x200a)
    || c == 0x2028
    || c == 0x2029
    || c == 0x202f
    || c == 0x205f
    || c == 0x3000
    || c == 0xfeff

unfoldable pub trim_start : Text → Text
unfolding is_space
trim_start [] = []
trim_start (c ∷ s) = let rest = trim_start s in if is_space c then rest else c ∷ s

unfoldable pub trim : Text → Text
unfolding trim_start
trim s = reverse (trim_start (reverse (trim_start s)))

-- text.startsWith(prefix); the text behind the prefix
unfoldable pub starts_with : Text → Text → Bool
starts_with [] s = true
starts_with (c ∷ p) [] = false
starts_with (c ∷ p) (d ∷ s) = c == d && starts_with p s

abbrev pub behind : Text → Text → Text
behind [] s = s
behind (c ∷ p) [] = []
behind (c ∷ p) (d ∷ s) = behind p s

abbrev pub tail_matches : (ℕ → Bool) → (ℕ → Bool) → ℕ → ℕ → Text → Bool
tail_matches first rest lo hi [] = false
tail_matches first rest lo hi (c ∷ cs) =
    first c && leb lo (length cs) && leb (length cs) hi && every rest cs

-- The shape shared by the identifier patterns: `^`, prefix, one `first`, lo to hi of `rest`, `$`.
unfoldable pub matches_id : Text → (ℕ → Bool) → (ℕ → Bool) → ℕ → ℕ → Text → Bool
unfolding starts_with
matches_id prefix first rest lo hi s =
    starts_with prefix s && tail_matches first rest lo hi (behind prefix s)
