-- ===== src/Samples/Schedules.antt =====
-- The search of prompt-schedule.js at a concrete schedule.
use pane_fleet.Base.{◌≡◌, ◌∷◌, [], refl, true, codes, ok, arith}
use pane_fleet.Base.{
  text_eq, includes, is_digit, is_lower, is_upper, is_hex, is_space, trim_start, trim, starts_with,
  matches_id,
}
use pane_fleet.Numbers.{
  split, digit_value, all_digits, digits_value, leading_digits, fraction, exponent_digits, exponent,
  scaled, unsigned_number, signed_number, radix, in_radix, literal, number_of,
}
use pane_fleet.Schedule.Calendar.{date_fields, date_at}
use pane_fleet.Schedule.Cron.{
  has, add, folded, add_values, range_of, bounds_of, add_range, step_of, valid_step, add_stepped,
  add_segment, add_segments, parse_cron_field, fits_month, has_possible_calendar_match, collapsed,
  parse_parts, parse_prompt_cron, day_matches, cron_matches, prompt_cron_matches_at,
}
use pane_fleet.Samples.Others.{weekdays_field}
use pane_fleet.Schedule.Listed.{IsListed, stepped, parse_cron_field-has_listed}
use pane_fleet.Schedule.Reached.{RunsBy, next_prompt_cron_at-RunsBy}

-- Every seventh day from 0 on lists 7, which is Sunday.
seven : IsListed 0 7 7 (codes "*" ∷ codes "7" ∷ [])
unfolding split digit_value all_digits digits_value leading_digits fraction exponent_digits exponent
    scaled unsigned_number signed_number radix in_radix literal number_of range_of bounds_of step_of
    is_digit trim_start trim is_space text_eq starts_with is_lower is_upper includes
seven = stepped (record {
  step = 7;
  start = 0;
  end = 7;
  rounds = 1;
  step_is = refl;
  bounds_are = refl;
  reached = refl;
  within = omega arith;
})

seventh : IsListed 0 7 7 (split b'/' (codes "*/7"))
unfolding split
seventh = seven

parse_cron_field-has_listed_example : has (1 ∷ 2 ∷ 3 ∷ 6 ∷ 0 ∷ []) (folded true 7) ≡ true
unfolding split trim trim_start is_space
parse_cron_field-has_listed_example =
    parse_cron_field-has_listed (codes "1-3,6/1,*/7") 0 7 true (1 ∷ 2 ∷ 3 ∷ 6 ∷ 0 ∷ []) 2
      (codes "*/7") 7 weekdays_field refl seventh

-- Sunday 3 August 2025, 12:15 UTC.
on_sunday : prompt_cron_matches_at (codes "15 12 31 * 7") 1754223300000 ≡ ok true
unfolding text_eq includes is_digit is_lower is_upper is_hex is_space trim_start trim starts_with
    matches_id split digit_value all_digits digits_value leading_digits fraction exponent_digits
    exponent scaled unsigned_number signed_number radix in_radix literal number_of date_fields
    date_at has add folded add_values range_of bounds_of add_range step_of valid_step add_stepped
    add_segment add_segments parse_cron_field fits_month has_possible_calendar_match collapsed
    parse_parts parse_prompt_cron day_matches cron_matches prompt_cron_matches_at
on_sunday = refl

next_prompt_cron_at-RunsBy_example : RunsBy (codes "15 12 31 * 7") 1753872072000 1754223300000
next_prompt_cron_at-RunsBy_example =
    next_prompt_cron_at-RunsBy (codes "15 12 31 * 7") 1753872072000 1754223300000 on_sunday
      (omega arith) (omega arith)
