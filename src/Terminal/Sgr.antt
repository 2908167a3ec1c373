-- ===== src/Terminal/Sgr.antt =====
-- applySgr of terminal-ansi.js and its reading of the parameters.
use pane_fleet.Base.{
  ℕ, zero, suc, ◌+◌, ◌-◌, Bool, true, false, ◌&&◌, ◌||◌, Option, none, some, List, [], ◌∷◌, Text,
  leb, ◌==◌, if◌then◌else◌,
}
use pane_fleet.Numbers.{split, number_of}
use pane_fleet.Terminal.Style.{Style, Target, standard_color, fresh_style, apply_extended_color}

-- The parsed list, `none` when one parameter is not a non-negative integer.
unfoldable pub numbers_of : List Text → Option (List ℕ)
numbers_of [] = some []
numbers_of (part ∷ parts) = elim (number_of part) [
  | none ↦ none
  | some number ↦ elim (numbers_of parts) [ none ↦ none | some numbers ↦ some (number ∷ numbers) ]
]

-- rawParameters === '' is the one part '', which Number reads as 0 too.
unfoldable pub parameters_of : Text → Option (List ℕ)
parameters_of raw = numbers_of (split b';' raw)

-- One code other than 38 and 48.
unfoldable pub apply_code : ℕ → Style → Style
apply_code code style =
    if code == 0
    then fresh_style
    else if code == 1
    then record style { bold = true }
    else if code == 2
    then record style { dim = true }
    else if code == 3
    then record style { italic = true }
    else if code == 4 || code == 21
    then record style { underline = true }
    else if code == 7
    then record style { inverse = true }
    else if code == 22
    then record style { bold = false; dim = false }
    else if code == 23
    then record style { italic = false }
    else if code == 24
    then record style { underline = false }
    else if code == 27
    then record style { inverse = false }
    else if leb 30 code && leb code 37
    then record style { fg = standard_color (code - 30) }
    else if leb 40 code && leb code 47
    then record style { bg = standard_color (code - 40) }
    else if leb 90 code && leb code 97
    then record style { fg = standard_color (code - 90 + 8) }
    else if leb 100 code && leb code 107
    then record style { bg = standard_color (code - 100 + 8) }
    else if code == 39
    then record style { fg = [] }
    else if code == 49
    then record style { bg = [] }
    else style

-- The loop over the parameters; `skip` counts those that an extended colour has read. The style stands
-- for the source's mutated object: it keeps what came before a failure.
unfoldable pub sgr_loop : ℕ → List ℕ → Style → Style × Bool
sgr_loop skip [] style = (style, true)
sgr_loop (suc skip) (code ∷ codes) style = sgr_loop skip codes style
sgr_loop zero (code ∷ codes) style = elim (code == 38 || code == 48) [
  | true ↦
      elim (apply_extended_color style codes
        (if code == 38 then Target.foreground else Target.background)) [
          | none ↦ (style, false)
          | some (colored, read) ↦ sgr_loop read codes colored
        ]
  | false ↦ sgr_loop zero codes (apply_code code style)
]

unfoldable pub apply_sgr : Style → Text → Style × Bool
apply_sgr style raw = elim (parameters_of raw) [
  | none ↦ (style, false)
  | some parameters ↦ sgr_loop 0 parameters style
]
