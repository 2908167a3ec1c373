-- ===== src/Terminal/Style.antt =====
-- The colours and styles of terminal-ansi.js: lines 1 to 119. A string of the source is a Text, its
-- empty string [].
use pane_fleet.Base.{
  ℕ, ◌+◌, ◌-◌, ◌*◌, ◌/◌, ◌%◌, Bool, false, not, ◌&&◌, Option, none, some, List, [], ◌∷◌, ◌++◌,
  get_elem?, Text, codes, text_eq, is_empty, ltb, leb, ◌==◌, if◌then◌else◌,
}

abbrev pub standard_colors : List Text
standard_colors =
    codes "#000000"
    ∷ codes "#cd3131"
    ∷ codes "#0dbc79"
    ∷ codes "#e5e510"
    ∷ codes "#2472c8"
    ∷ codes "#bc3fbc"
    ∷ codes "#11a8cd"
    ∷ codes "#e5e5e5"
    ∷ codes "#666666"
    ∷ codes "#f14c4c"
    ∷ codes "#23d18b"
    ∷ codes "#f5f543"
    ∷ codes "#3b8eea"
    ∷ codes "#d670d6"
    ∷ codes "#29b8db"
    ∷ codes "#ffffff"
    ∷ []

-- STANDARD_COLORS[index]; the callers' indices are below 16
unfoldable pub standard_color : ℕ → Text
standard_color index = elim (get_elem? standard_colors index) [ none ↦ [] | some color ↦ color ]

-- The numbers here are non-negative integers: applySgr rejects all others before it uses them.
unfoldable pub bounded_byte : ℕ → Option ℕ
bounded_byte value = if leb value 255 then some value else none

unfoldable pub hex_digit : ℕ → ℕ
hex_digit value = if ltb value 10 then b'0' + value else b'a' + (value - 10)

-- value.toString(16).padStart(2, '0') of a byte
unfoldable pub byte_hex : ℕ → Text
byte_hex value = hex_digit (value / 16) ∷ hex_digit (value % 16) ∷ []

unfoldable pub channel : ℕ → ℕ
channel part = if part == 0 then 0 else 55 + part * 40

unfoldable pub color_of : ℕ → ℕ → ℕ → Text
color_of red green blue = b'#' ∷ byte_hex red ++ byte_hex green ++ byte_hex blue

unfoldable pub color_at : ℕ → Text
color_at value =
    if ltb value 16
    then standard_color value
    else if ltb value 232
    then color_of (channel ((value - 16) / 36)) (channel ((value - 16) % 36 / 6))
        (channel ((value - 16) % 6))
    else color_of (8 + (value - 232) * 10) (8 + (value - 232) * 10) (8 + (value - 232) * 10)

unfoldable pub indexed_color : ℕ → Option Text
indexed_color index = elim (bounded_byte index) [ none ↦ none | some value ↦ some (color_at value) ]

pub record Style : Type 0 where
  pub fg : Text
  pub bg : Text
  pub bold : Bool
  pub dim : Bool
  pub italic : Bool
  pub underline : Bool
  pub inverse : Bool

unfoldable pub same_flag : Bool → Bool → Bool
same_flag left right = if left then right else not right

unfoldable pub same_style : Style → Style → Bool
same_style left right =
    text_eq left.fg right.fg
    && text_eq left.bg right.bg
    && same_flag left.bold right.bold
    && same_flag left.dim right.dim
    && same_flag left.italic right.italic
    && same_flag left.underline right.underline
    && same_flag left.inverse right.inverse

unfoldable pub style_is_default : Style → Bool
style_is_default style =
    is_empty style.fg
    && is_empty style.bg
    && not style.bold
    && not style.dim
    && not style.italic
    && not style.underline
    && not style.inverse

abbrev pub fresh_style : Style
fresh_style = record {
  fg = [];
  bg = [];
  bold = false;
  dim = false;
  italic = false;
  underline = false;
  inverse = false;
}

pub data Target : Type 0 where
  foreground background : Target

-- style[target] = color
unfoldable pub set_color : Target → Text → Style → Style
set_color Target.foreground color style = record style { fg = color }
set_color Target.background color style = record style { bg = color }

-- applyExtendedColor on the parameters behind the 38 or 48: the style, and how many of them it reads;
-- `none` for { valid: false }.
unfoldable pub apply_extended_color : Style → List ℕ → Target → Option (Style × ℕ)
apply_extended_color style (mode ∷ rest) target =
    if mode == 5
    then elim rest [
      | [] ↦ none
      | index ∷ _ ↦ elim (indexed_color index) [
        | none ↦ none
        | some color ↦ some (set_color target color style, 2)
      ]
    ]
    else if mode == 2
    then elim rest [
      | red ∷ green ∷ blue ∷ _ ↦
          if leb red 255 && leb green 255 && leb blue 255
          then some (set_color target (color_of red green blue) style, 4)
          else none
      | _ ↦ none
    ]
    else none
apply_extended_color style [] target = none
