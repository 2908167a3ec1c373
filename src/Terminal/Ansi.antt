-- ===== src/Terminal/Ansi.antt =====
-- parseTerminalAnsi of terminal-ansi.js.
pub mod Invariant
pub mod Limit
pub mod Plain
use pane_fleet.Base.{
  ℕ, zero, suc, ◌+◌, ◌-◌, Bool, true, false, not, ◌&&◌, ◌||◌, Option, none, some, List, [], ◌∷◌,
  ◌++◌, length, take, get_elem?, Text, ltb, leb, ◌==◌, if◌then◌else◌,
}
use pane_fleet.Terminal.Style.{Style, fresh_style, same_style, style_is_default}
use pane_fleet.Terminal.Sgr.{apply_sgr}

abbrev pub default_max_style_runs : ℕ
default_max_style_runs = 12000

abbrev pub max_safe_integer : ℕ
max_safe_integer = 9007199254740991

-- How many units behind `start` the sequence's last unit stands; `none` for -1.
unfoldable pub control_sequence_end : Text → Option ℕ
control_sequence_end [] = none
control_sequence_end (c ∷ rest) =
    let behind = control_sequence_end rest in
    if leb 0x40 c && leb c 0x7e then some 0 else elim behind [ none ↦ none | some n ↦ some (suc n) ]

abbrev pub starts_backslash : Text → Bool
starts_backslash [] = false
starts_backslash (c ∷ rest) = c == 0x5c

unfoldable pub string_control_end : Text → Option ℕ
string_control_end [] = none
string_control_end (c ∷ rest) =
    let behind = string_control_end rest in
    if c == 0x07 || c == 0x9c
    then some 0
    else if c == 0x1b && starts_backslash rest
    then some 1
    else elim behind [ none ↦ none | some n ↦ some (suc n) ]

-- value.replace(/\r\n/g, '\n').replace(/\r/g, '\n')
unfoldable pub unified_newlines : Text → Text
unified_newlines [] = []
unified_newlines (c ∷ []) = (if c == 13 then 10 else c) ∷ []
unified_newlines (c ∷ d ∷ rest) =
    let tail = unified_newlines (d ∷ rest) in
    if c == 13 && d == 10 then tail else (if c == 13 then 10 else c) ∷ tail

pub record StyleRun : Type 0 where
  pub start : ℕ
  pub end : ℕ
  pub style : Style

-- The variables of the loop.
pub record Scan : Type 0 where
  pub style : Style
  pub style_runs : List StyleRun
  pub output : Text
  pub run_start : ℕ
  pub styles_reliable : Bool

abbrev pub first_scan : Scan
first_scan = record {
  style = fresh_style;
  style_runs = [];
  output = [];
  run_start = 0;
  styles_reliable = true;
}

-- styleRuns.at(-1)
unfoldable pub last_run : List StyleRun → Option StyleRun
last_run [] = none
last_run (run ∷ []) = some run
last_run (run ∷ next ∷ runs) = last_run (next ∷ runs)

-- previous.end = end
unfoldable pub extend_last : ℕ → List StyleRun → List StyleRun
extend_last end [] = []
extend_last end (run ∷ []) = record run { end = end } ∷ []
extend_last end (run ∷ next ∷ runs) = run ∷ extend_last end (next ∷ runs)

unfoldable pub add_run : List StyleRun → StyleRun → List StyleRun
add_run runs next = elim (last_run runs) [
  | none ↦ runs ++ next ∷ []
  | some previous ↦
      if previous.end == next.start && same_style previous.style next.style
      then extend_last next.end runs
      else runs ++ next ∷ []
]

unfoldable pub flush : Scan → Scan
flush s =
    if leb (length s.output) s.run_start || style_is_default s.style
    then record s { run_start = length s.output }
    else record s {
      style_runs =
          add_run s.style_runs
            (record { start = s.run_start; end = length s.output; style = s.style });
      run_start = length s.output;
    }

-- What the loop's body does at one unit: it leaves the loop, or moves `skip` units past the next one.
pub data Move : Type 0 where
  leave : Scan → Move
  go : ℕ → Scan → Move

abbrev unreliable : Scan → Scan
unreliable s = record s { styles_reliable = false }

-- An `m` sequence: flush, apply, start a run.
unfoldable pub apply_style : Text → Scan → Scan
apply_style raw s =
    let flushed = flush s in
    let (style, valid) = apply_sgr flushed.style raw in
    record flushed {
      style = style;
      styles_reliable = flushed.styles_reliable && valid;
      run_start = length flushed.output;
    }

-- value[end] === 'm'
unfoldable pub ends_style : Text → ℕ → Bool
ends_style rest end = elim (get_elem? rest end) [ none ↦ false | some c ↦ c == b'm' ]

-- A control sequence whose first parameter is at the head of `rest`, behind `intro` units.
unfoldable pub control_move : ℕ → Text → Scan → Move
control_move intro rest s = elim (control_sequence_end rest) [
  | none ↦ leave (unreliable s)
  | some end ↦
      go (intro + end + 1) (if ends_style rest end then apply_style (take end rest) s else s)
]

unfoldable pub string_move : ℕ → Text → Scan → Move
string_move intro rest s = elim (string_control_end rest) [
  | none ↦ leave (unreliable s)
  | some end ↦ go (intro + end + 1) s
]

-- ']PX^_'.includes(marker || '') with a marker
unfoldable pub is_string_marker : ℕ → Bool
is_string_marker marker =
    marker == b']' || marker == b'P' || marker == b'X' || marker == b'^' || marker == b'_'

-- Behind an escape. At the end of the text the source's `includes('')` holds: a string control.
unfoldable pub escape_move : Text → Scan → Move
escape_move [] s = string_move 0 [] s
escape_move (marker ∷ rest) s =
    if marker == b'['
    then control_move 1 rest s
    else if is_string_marker marker
    then string_move 1 rest s
    else go 1 s

abbrev pub is_string_control : ℕ → Bool
is_string_control code =
    code == 0x90 || code == 0x98 || code == 0x9d || code == 0x9e || code == 0x9f

unfoldable pub append_unit : ℕ → Scan → Scan
append_unit c s = record s { output = s.output ++ c ∷ [] }

-- The loop's body.
unfoldable pub scan_unit : ℕ → Text → Scan → Move
scan_unit code rest s =
    if code == 0x1b
    then escape_move rest s
    else if code == 0x9b
    then control_move 0 rest s
    else if is_string_control code
    then string_move 0 rest s
    else if leb 0x80 code && leb code 0x9f
    then go 0 s
    else if ltb code 0x20 || code == 0x7f
    then (if code == 0x0a || code == 0x09 then go 0 (append_unit code s) else go 0 s)
    else go 0 (append_unit code s)

-- The loop: `skip` units have been consumed by the sequence before them.
unfoldable pub scan : ℕ → Text → Scan → Scan
scan skip [] s = s
scan (suc skip) (code ∷ rest) s = scan skip rest s
scan zero (code ∷ rest) s = elim (scan_unit code rest s) [
  | leave left ↦ left
  | go skip moved ↦ scan skip rest moved
]

pub data StyleStatus : Type 0 where
  styled style_limit plain_fallback : StyleStatus

pub record Parsed : Type 0 where
  pub text : Text
  pub style_runs : List StyleRun
  pub style_status : StyleStatus

-- `none` for a maximum that is no safe non-negative integer, or is left out.
unfoldable pub maximum_runs : Option ℕ → ℕ
maximum_runs none = default_max_style_runs
maximum_runs (some maximum) =
    if leb maximum max_safe_integer then maximum else default_max_style_runs

unfoldable pub scanned : Text → Scan
scanned input = flush (scan 0 (unified_newlines input) first_scan)

unfoldable pub parse_terminal_ansi : Text → Option ℕ → Parsed
parse_terminal_ansi input maximum_style_runs =
    let s = scanned input in
    let within_limit = leb (length s.style_runs) (maximum_runs maximum_style_runs) in
    record {
      text = s.output;
      style_runs = if s.styles_reliable && within_limit then s.style_runs else [];
      style_status =
          if s.styles_reliable
          then (if within_limit then StyleStatus.styled else StyleStatus.style_limit)
          else StyleStatus.plain_fallback;
    }
