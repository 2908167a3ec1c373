-- ===== src/Schedule/Calendar.antt =====
-- The UTC getters of JavaScript's Date, for times from 1970 on: a time is its milliseconds.
use pane_fleet.Base.{ℕ, ◌+◌, ◌-◌, ◌*◌, ◌/◌, ◌%◌, Option, none, some, ltb, leb, if◌then◌else◌}

-- getUTCMinutes, getUTCHours, getUTCDate, getUTCMonth() + 1, getUTCDay
pub record Date : Type 0 where
  pub minute : ℕ
  pub hour : ℕ
  pub day : ℕ
  pub month : ℕ
  pub weekday : ℕ

-- Years of 365 days from a 1 March, in a 400-year era of 146097 days.
abbrev day_of_era : ℕ → ℕ
day_of_era days = (days + 719468) % 146097

abbrev year_of_era : ℕ → ℕ
year_of_era doe = (doe - doe / 1460 + doe / 36524 - doe / 146096) / 365

abbrev day_of_year : ℕ → ℕ
day_of_year doe = doe - (365 * year_of_era doe + year_of_era doe / 4 - year_of_era doe / 100)

-- The month from March on, 0 to 11.
abbrev month_from_march : ℕ → ℕ
month_from_march doy = (5 * doy + 2) / 153

unfoldable pub date_fields : ℕ → Date
date_fields time =
    let minutes = time / 60000 in
    let days = minutes / 1440 in
    let doy = day_of_year (day_of_era days) in
    let march = month_from_march doy in
    record {
      minute = minutes % 60;
      hour = minutes / 60 % 24;
      day = doy - (153 * march + 2) / 5 + 1;
      month = if ltb march 10 then march + 3 else march - 9;
      weekday = (days + 4) % 7;
    }

-- The last time that a Date can hold.
abbrev pub max_time : ℕ
max_time = 8640000000000000

-- `none` for an invalid date, whose getters return NaN.
unfoldable pub date_at : ℕ → Option Date
date_at time = if leb time max_time then some (date_fields time) else none
