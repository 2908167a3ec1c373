-- ===== src/Delivery/Fields/Ids.antt =====
-- Identifiers of steps hold no white space, so that normalising one changes nothing.
use mathlib.Core.List.{reverse, reverse-cons, reverse-reverse}
use pane_fleet.Base.{
  ℕ, ◌≡◌, refl, Bool, true, false, not, ◌&&◌, [], ◌∷◌, ◌++◌, every, Text, codes, trim_start, trim,
  is_space, is_upper, is_digit, is_hex, starts_with, behind, matches_id, tail_matches, &&-eq-true,
  arith,
}
use pane_fleet.Delivery.Types.{Platform}
use pane_fleet.Delivery.Fields.{
  newlines, text, collapse, inline, upper_first, upper_rest, step_id_pattern,
}

abbrev solid : ℕ → Bool
solid c = not (is_space c)

solid-not-return : (c : ℕ) → c ≡ 13 → solid c ≡ false
unfolding is_space
solid-not-return c h = rw h

newlines-solid : (s : Text) → every solid s ≡ true → newlines false s ≡ s
unfolding newlines
newlines-solid [] h = refl
newlines-solid (c ∷ s) h = ground (arith, solid-not-return c, newlines-solid s)

collapse-solid : (s : Text) → every solid s ≡ true → collapse false s ≡ s
unfolding collapse
collapse-solid [] h = refl
collapse-solid (c ∷ s) h = ground (arith, collapse-solid s)

trim_start-solid : (s : Text) → every solid s ≡ true → trim_start s ≡ s
unfolding trim_start
trim_start-solid [] h = refl
trim_start-solid (c ∷ s) h = ground arith

every-append : (f : ℕ → Bool) (s t : Text) → every f (s ++ t) ≡ (every f s && every f t)
every-append f [] t = refl
every-append f (c ∷ s) t = ground (arith, every-append f s t)

every-reverse : (f : ℕ → Bool) (s : Text) → every f s ≡ true → every f (reverse s) ≡ true
every-reverse f [] h = refl
every-reverse f (c ∷ s) h =
    rw (reverse-cons c s, every-append f (reverse s) (c ∷ [])) (ground (arith, every-reverse f s))

trim-solid : (s : Text) → every solid s ≡ true → trim s ≡ s
unfolding trim
trim-solid s h =
    rw (trim_start-solid s h, trim_start-solid (reverse s) (every-reverse solid s h))
      (reverse-reverse s)

inline-solid : (s : Text) → every solid s ≡ true → inline s ≡ s
unfolding inline text
inline-solid s h = rw (newlines-solid s h, trim-solid s h) (collapse-solid s h)

append-behind : (p s : Text) → starts_with p s ≡ true → s ≡ p ++ behind p s
unfolding starts_with
append-behind [] s h = refl
append-behind (c ∷ p) [] h = cc
append-behind (c ∷ p) (d ∷ s) h = ground (arith, append-behind p s)

upper_first-solid : (c : ℕ) → upper_first c ≡ true → solid c ≡ true
unfolding upper_first is_upper is_digit is_space
upper_first-solid c h = ground arith

upper_rest-solid : (c : ℕ) → upper_rest c ≡ true → solid c ≡ true
unfolding upper_rest is_upper is_digit is_space
upper_rest-solid c h = ground arith

every-upper_rest : (s : Text) → every upper_rest s ≡ true → every solid s ≡ true
every-upper_rest [] h = refl
every-upper_rest (c ∷ s) h = ground (arith, upper_rest-solid c, every-upper_rest s)

tail-solid :
    (lo hi : ℕ) (s : Text)
    → tail_matches upper_first upper_rest lo hi s ≡ true
    → every solid s ≡ true
tail-solid lo hi [] h = cc
tail-solid lo hi (c ∷ s) h = ground (arith, upper_first-solid c, every-upper_rest s)

step_id-solid : (s : Text) → step_id_pattern s ≡ true → every solid s ≡ true
unfolding step_id_pattern matches_id is_space
step_id-solid s h =
    let (start, tail) = &&-eq-true (starts_with (codes "STEP-") s) _ h in
    rw (append-behind (codes "STEP-") s start) (tail-solid 0 39 _ tail)

pub inline-step_id : (s : Text) → step_id_pattern s ≡ true → inline s ≡ s
inline-step_id s h = inline-solid s (step_id-solid s h)

hex-solid : (c : ℕ) → is_hex c ≡ true → solid c ≡ true
unfolding is_hex is_digit is_space
hex-solid c h = ground arith

every-hex : (s : Text) → every is_hex s ≡ true → every solid s ≡ true
every-hex [] h = refl
every-hex (c ∷ s) h = ground (arith, hex-solid c, every-hex s)

pub inline-hex : (s : Text) → every is_hex s ≡ true → inline s ≡ s
inline-hex s h = inline-solid s (every-hex s h)

-- `String.prototype.toUpperCase` leaves the identifier of a step alone.
abbrev pub KeepsStepIds : Platform → Type 0
KeepsStepIds p = (s : Text) → step_id_pattern s ≡ true → p.to_upper_case s ≡ s
