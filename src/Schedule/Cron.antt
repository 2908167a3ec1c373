-- ===== src/Schedule/Cron.antt =====
-- prompt-schedule.js: parseCronField, parsePromptCron, cronMatches and the two exported queries.
use pane_fleet.Base.{
  ℕ, zero, suc, ◌+◌, ◌-◌, ◌*◌, ◌/◌, ◌%◌, Bool, true, false, not, ◌&&◌, ◌||◌, Option, none, some,
  List, [], ◌∷◌, ◌++◌, length, some_of, get_elem?, Text, is_empty, is_space, trim, leb, ◌==◌,
  if◌then◌else◌, Result, ok, err, ◌>>=◌, ◌>>◌, guard,
}
use pane_fleet.Numbers.{split, number_of, all_digits, digits_value}
use pane_fleet.Schedule.Calendar.{Date, date_at, max_time}

pub data CronError : Type 0 where
  cron_invalid no_run date_invalid : CronError

-- A Set of numbers in insertion order.
unfoldable pub has : List ℕ → ℕ → Bool
has values value = some_of (λ v. v == value) values

unfoldable pub add : ℕ → List ℕ → List ℕ
add value values = if has values value then values else values ++ value ∷ []

-- sundaySeven && value === 7 ? 0 : value
unfoldable pub folded : Bool → ℕ → ℕ
folded sunday_seven value = if sunday_seven && value == 7 then 0 else value

-- for (let value = start; value <= end; value += step); `fuel` bounds the rounds.
unfoldable pub add_values : ℕ → Bool → ℕ → ℕ → ℕ → List ℕ → List ℕ
add_values zero sunday_seven value end step values = values
add_values (suc fuel) sunday_seven value end step values = elim (leb value end) [
  | false ↦ values
  | true ↦
      add_values fuel sunday_seven (value + step) end step (add (folded sunday_seven value) values)
]

-- /^\d+-\d+$/ and its two numbers
unfoldable pub range_of : List Text → Option (ℕ × ℕ)
range_of (first ∷ last ∷ []) =
    if all_digits first && all_digits last
    then some (digits_value 10 0 first, digits_value 10 0 last)
    else none
range_of _ = none

abbrev is_star : Text → Bool
is_star (c ∷ []) = c == b'*'
is_star _ = false

-- Lines 18 to 30: the bounds of a segment's base.
unfoldable pub bounds_of : Text → Bool → ℕ → ℕ → Option (ℕ × ℕ)
bounds_of base has_step minimum maximum =
    if is_star base then some (minimum, maximum) else elim (range_of (split b'-' base)) [
      | some bounds ↦ some bounds
      | none ↦
          if all_digits base
          then some (digits_value 10 0 base, if has_step then maximum else digits_value 10 0 base)
          else none
    ]

-- Lines 31 to 34, with the loop's fuel: no more rounds than numbers up to `maximum`.
unfoldable pub add_range : Bool → ℕ → ℕ → ℕ → Option (ℕ × ℕ) → List ℕ → Result CronError (List ℕ)
add_range sunday_seven minimum maximum step none values = err cron_invalid
add_range sunday_seven minimum maximum step (some (start, end)) values = do
  guard (leb minimum start && leb end maximum && leb start end) cron_invalid
  ok (add_values (suc maximum) sunday_seven start end step values)

-- Lines 13 to 16: the step, 1 without a slash.
unfoldable pub step_of : Option Text → Option ℕ
step_of none = some 1
step_of (some text) = number_of text

unfoldable pub valid_step : ℕ → ℕ → Option ℕ → Result CronError ℕ
valid_step minimum maximum none = err cron_invalid
valid_step minimum maximum (some step) =
    if leb 1 step && leb step (maximum - minimum + 1) then ok step else err cron_invalid

abbrev pub is_given : Option Text → Bool
is_given none = false
is_given (some text) = true

unfoldable pub add_stepped : Bool → ℕ → ℕ → Text → Option Text → List ℕ → Result CronError (List ℕ)
add_stepped sunday_seven minimum maximum base step_text values = do
  guard (not (is_empty base)) cron_invalid
  step ← valid_step minimum maximum (step_of step_text)
  add_range sunday_seven minimum maximum step (bounds_of base (is_given step_text) minimum maximum)
      values

-- One segment: [base, stepText, ...extra] = segment.split('/')
unfoldable pub add_segment : Bool → ℕ → ℕ → List Text → List ℕ → Result CronError (List ℕ)
add_segment sunday_seven minimum maximum (base ∷ []) values =
    add_stepped sunday_seven minimum maximum base none values
add_segment sunday_seven minimum maximum (base ∷ step_text ∷ []) values =
    add_stepped sunday_seven minimum maximum base (some step_text) values
add_segment sunday_seven minimum maximum _ values = err cron_invalid

unfoldable pub add_segments : Bool → ℕ → ℕ → List Text → List ℕ → Result CronError (List ℕ)
add_segments sunday_seven minimum maximum [] values = ok values
add_segments sunday_seven minimum maximum (segment ∷ segments) values =
    add_segment sunday_seven minimum maximum (split b'/' segment) values
    >>= add_segments sunday_seven minimum maximum segments

-- An empty text is one empty segment, which has an empty base: the same error.
unfoldable pub parse_cron_field : Text → ℕ → ℕ → Bool → Result CronError (List ℕ)
parse_cron_field source minimum maximum sunday_seven =
    add_segments sunday_seven minimum maximum (split b',' (trim source)) []

pub record Cron : Type 0 where
  pub cron : Text
  pub minutes : List ℕ
  pub hours : List ℕ
  pub days : List ℕ
  pub months : List ℕ
  pub weekdays : List ℕ
  pub day_wildcard : Bool
  pub weekday_wildcard : Bool

-- MAX_DAYS_BY_MONTH[month]; without an entry the source compares with undefined, which is false
abbrev pub max_days_by_month : List ℕ
max_days_by_month = 0 ∷ 31 ∷ 29 ∷ 31 ∷ 30 ∷ 31 ∷ 30 ∷ 31 ∷ 31 ∷ 30 ∷ 31 ∷ 30 ∷ 31 ∷ []

unfoldable pub fits_month : ℕ → ℕ → Bool
fits_month month day = elim (get_elem? max_days_by_month month) [
  | none ↦ false
  | some most ↦ leb day most
]

unfoldable pub has_possible_calendar_match : Cron → Bool
has_possible_calendar_match parsed =
    parsed.day_wildcard
    || not parsed.weekday_wildcard
    || some_of (λ month. some_of (fits_month month) parsed.days) parsed.months

-- value.replace(/\s+/g, ' ')
unfoldable pub collapsed : Text → Text
collapsed [] = []
collapsed (c ∷ []) = (if is_space c then b' ' else c) ∷ []
collapsed (c ∷ d ∷ s) =
    let rest = collapsed (d ∷ s) in
    if is_space c then (if is_space d then rest else b' ' ∷ rest) else c ∷ rest

unfoldable pub parse_parts : Text → List Text → Result CronError Cron
parse_parts cron (minute ∷ hour ∷ day ∷ month ∷ weekday ∷ []) = do
  guard (leb (length cron) 80) cron_invalid
  days ← parse_cron_field day 1 31 false
  weekdays ← parse_cron_field weekday 0 7 true
  minutes ← parse_cron_field minute 0 59 false
  hours ← parse_cron_field hour 0 23 false
  months ← parse_cron_field month 1 12 false
  ok (record {
    cron = cron;
    minutes = minutes;
    hours = hours;
    days = days;
    months = months;
    weekdays = weekdays;
    day_wildcard = length days == 31;
    weekday_wildcard = length weekdays == 7;
  })
parse_parts cron _ = err cron_invalid

unfoldable pub parse_prompt_cron : Text → Result CronError Cron
parse_prompt_cron value = do
  parsed ← parse_parts (collapsed (trim value)) (split b' ' (collapsed (trim value)))
  guard (has_possible_calendar_match parsed) no_run
  ok parsed

unfoldable pub day_matches : Cron → Date → Bool
day_matches parsed date =
    let day_match = has parsed.days date.day in
    let weekday_match = has parsed.weekdays date.weekday in
    if parsed.day_wildcard && parsed.weekday_wildcard
    then true
    else if parsed.day_wildcard
    then weekday_match
    else if parsed.weekday_wildcard
    then day_match
    else day_match || weekday_match

-- An invalid date's NaN is in no set.
unfoldable pub cron_matches : Cron → Option Date → Bool
cron_matches parsed none = false
cron_matches parsed (some date) =
    has parsed.minutes date.minute
    && has parsed.hours date.hour
    && has parsed.months date.month
    && day_matches parsed date

-- The tests of seconds and milliseconds, then cronMatches.
unfoldable pub prompt_cron_matches_at : Text → ℕ → Result CronError Bool
prompt_cron_matches_at cron at = do
  guard (leb at max_time) date_invalid
  if at % 60000 == 0
      then parse_prompt_cron cron >>= (λ parsed. ok (cron_matches parsed (date_at at)))
      else ok false

abbrev pub max_cron_search_minutes : ℕ
max_cron_search_minutes = 8 * 366 * 24 * 60

-- The loop over minutes.
unfoldable pub search_minutes : ℕ → Cron → ℕ → Result CronError ℕ
search_minutes zero parsed candidate = err no_run
search_minutes (suc rounds) parsed candidate = elim (cron_matches parsed (date_at candidate)) [
  | true ↦ ok candidate
  | false ↦ search_minutes rounds parsed (candidate + 60000)
]

-- The result is the candidate's time, which the source formats by toISOString.
unfoldable pub next_prompt_cron_at : Text → ℕ → Result CronError ℕ
next_prompt_cron_at cron after = do
  parsed ← parse_prompt_cron cron
  guard (leb (after / 60000 * 60000 + 60000) max_time) date_invalid
  search_minutes max_cron_search_minutes parsed (after / 60000 * 60000 + 60000)
