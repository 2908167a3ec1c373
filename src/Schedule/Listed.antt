-- ===== src/Schedule/Listed.antt =====
-- parseCronField of prompt-schedule.js keeps every number that a segment lists: the fuel of its loop
-- is enough.
use pane_fleet.Base.{
  ℕ, zero, suc, ◌+◌, ◌*◌, ◌≤◌, ◌<◌, ◌≡◌, Bool, true, arith, List, [], ◌∷◌, leb, Text, Option, none,
  some, ok, not, is_empty, guard->>-eq-ok, >>=-ok_cases, get_elem?, ◌&&◌, Result, if-eq_cases, ◌-◌,
  trim,
}
use pane_fleet.Numbers.{split}
use pane_fleet.Schedule.Cron.{
  has, folded, step_of, bounds_of, is_given, add_stepped, valid_step, cron_invalid, add_range,
  add_segment, add_segments, parse_cron_field, CronError,
}
use pane_fleet.Schedule.Values.{add_values-keeps, add_values-has}

-- The numbers that a segment lists: its range from the first number on, step by step to the last.
pub record IsStepped (minimum maximum : ℕ) (base : Text) (step_text : Option Text) (raw : ℕ)
    : Type 0 where
  pub step : ℕ
  pub start : ℕ
  pub end : ℕ
  pub rounds : ℕ
  pub step_is : step_of step_text ≡ some step
  pub bounds_are : bounds_of base (is_given step_text) minimum maximum ≡ some (start, end)
  pub reached : raw ≡ start + rounds * step
  pub within : raw ≤ end

pub data IsListed (minimum maximum raw : ℕ) : List Text → Type 0 where
  plain :
      {base : Text}
      → IsStepped minimum maximum base none raw
      → IsListed minimum maximum raw (base ∷ [])
  stepped :
      {base step_text : Text}
      → IsStepped minimum maximum base (some step_text) raw
      → IsListed minimum maximum raw (base ∷ step_text ∷ [])

ok-inj : {A : Type 0} {x y : A} → ◌≡◌ {A = Result CronError A} (ok x) (ok y) → x ≡ y
ok-inj h = cc

valid_step-eq-ok :
    (minimum maximum given step : ℕ)
    → valid_step minimum maximum (some given) ≡ ok step
    → (given ≡ step) × (1 ≤ given)
unfolding valid_step
valid_step-eq-ok minimum maximum given step h =
    if-eq_cases (leb 1 given && leb given (maximum - minimum + 1)) h
      (λ e h1. (ok-inj h1, ground (arith, e))) (λ e h1. absurd (cc h1))

rounds_le : (rounds step : ℕ) → 1 ≤ step → rounds ≤ rounds * step
rounds_le rounds zero l = absurd (omega (arith, l))
rounds_le rounds (suc step) l = omega arith

module _ (sunday_seven : Bool) (minimum maximum raw : ℕ) where
  add_range-keeps :
      (step : ℕ) (bounds : Option (ℕ × ℕ)) (values result : List ℕ) (value : ℕ)
      → add_range sunday_seven minimum maximum step bounds values ≡ ok result
      → has values value ≡ true
      → has result value ≡ true
  unfolding add_range
  add_range-keeps step none values result value h kept = absurd (cc h)
  add_range-keeps step (some (start, end)) values result value h kept =
      let (valid, h1) =
        guard->>-eq-ok (leb minimum start && leb end maximum && leb start end) cron_invalid _ h in
      rw (← (ok-inj h1))
        (add_values-keeps sunday_seven end step (suc maximum) start values value kept)

  add_range-has :
      (step start end rounds : ℕ) (values result : List ℕ)
      → add_range sunday_seven minimum maximum step (some (start, end)) values ≡ ok result
      → 1 ≤ step
      → raw ≡ start + rounds * step
      → raw ≤ end
      → has result (folded sunday_seven raw) ≡ true
  unfolding add_range
  add_range-has step start end rounds values result h positive reached within =
      let (valid, h1) =
        guard->>-eq-ok (leb minimum start && leb end maximum && leb start end) cron_invalid _ h in
      let bound : end ≤ maximum = ground (arith, valid) in
      let enough : rounds < suc maximum =
        omega (arith, rounds_le rounds step positive, bound, reached, within) in
      let inside : start + rounds * step ≤ end = omega (arith, reached, within) in
      rw (← (ok-inj h1), reached)
        (add_values-has sunday_seven end step (suc maximum) rounds start values enough inside)

  add_stepped-has :
      (base : Text) (step_text : Option Text) (values result : List ℕ)
      → add_stepped sunday_seven minimum maximum base step_text values ≡ ok result
      → IsStepped minimum maximum base step_text raw
      → has result (folded sunday_seven raw) ≡ true
  unfolding add_stepped
  add_stepped-has base step_text values result h listed =
      let (filled, h1) = guard->>-eq-ok (not (is_empty base)) cron_invalid _ h in
      >>=-ok_cases (valid_step minimum maximum (step_of step_text)) _ h1 λ step e h2.
        let (same, positive) =
          valid_step-eq-ok minimum maximum listed.step step (rw listed.step_is at e) in
        add_range-has listed.step listed.start listed.end listed.rounds values result
          (rw (← same, listed.bounds_are) at h2) positive listed.reached listed.within

  add_stepped-keeps :
      (base : Text) (step_text : Option Text) (values result : List ℕ) (value : ℕ)
      → add_stepped sunday_seven minimum maximum base step_text values ≡ ok result
      → has values value ≡ true
      → has result value ≡ true
  unfolding add_stepped
  add_stepped-keeps base step_text values result value h kept =
      let (filled, h1) = guard->>-eq-ok (not (is_empty base)) cron_invalid _ h in
      >>=-ok_cases (valid_step minimum maximum (step_of step_text)) _ h1 λ step e h2.
        add_range-keeps step (bounds_of base (is_given step_text) minimum maximum) values result
          value h2 kept

  add_segment-has :
      (parts : List Text) (values result : List ℕ)
      → add_segment sunday_seven minimum maximum parts values ≡ ok result
      → IsListed minimum maximum raw parts
      → has result (folded sunday_seven raw) ≡ true
  unfolding add_segment
  add_segment-has [] values result h l = absurd (cc h)
  add_segment-has (base ∷ step_text ∷ extra ∷ more) values result h l = absurd (cc h)
  add_segment-has (base ∷ []) values result h (plain l) =
      add_stepped-has base none values result h l
  add_segment-has (base ∷ step_text ∷ []) values result h (stepped l) =
      add_stepped-has base (some step_text) values result h l

  add_segment-keeps :
      (parts : List Text) (values result : List ℕ) (value : ℕ)
      → add_segment sunday_seven minimum maximum parts values ≡ ok result
      → has values value ≡ true
      → has result value ≡ true
  unfolding add_segment
  add_segment-keeps [] values result value h kept = absurd (cc h)
  add_segment-keeps (base ∷ []) values result value h kept =
      add_stepped-keeps base none values result value h kept
  add_segment-keeps (base ∷ step ∷ []) values result value h kept =
      add_stepped-keeps base (some step) values result value h kept
  add_segment-keeps (base ∷ step ∷ extra ∷ more) values result value h kept = absurd (cc h)

  add_segments-keeps :
      (segments : List Text) (values result : List ℕ) (value : ℕ)
      → add_segments sunday_seven minimum maximum segments values ≡ ok result
      → has values value ≡ true
      → has result value ≡ true
  unfolding add_segments
  add_segments-keeps [] values result value h kept = rw (← (ok-inj h)) kept
  add_segments-keeps (segment ∷ segments) values result value h kept =
      >>=-ok_cases (add_segment sunday_seven minimum maximum (split b'/' segment) values) _ h
        λ next e h1.
          add_segments-keeps segments next result value h1
            (add_segment-keeps _ values next value e kept)

  add_segments-has :
      (segments : List Text) (index : ℕ) (segment : Text) (values result : List ℕ)
      → add_segments sunday_seven minimum maximum segments values ≡ ok result
      → get_elem? segments index ≡ some segment
      → IsListed minimum maximum raw (split b'/' segment)
      → has result (folded sunday_seven raw) ≡ true
  unfolding add_segments
  add_segments-has [] index segment values result h e listed = absurd (cc e)
  add_segments-has (first ∷ segments) zero segment values result h e listed =
      let same : first ≡ segment = cc e in
      >>=-ok_cases (add_segment sunday_seven minimum maximum (split b'/' first) values) _ h
        λ next e1 h1.
          add_segments-keeps segments next result (folded sunday_seven raw) h1
            (add_segment-has _ values next (rw same at e1) listed)
  add_segments-has (first ∷ segments) (suc index) segment values result h e listed =
      >>=-ok_cases (add_segment sunday_seven minimum maximum (split b'/' first) values) _ h
        λ next e1 h1. add_segments-has segments index segment next result h1 e listed

-- Each number that a segment of an accepted field lists is in the field's set, 7 as 0 where Sunday may be 7.
pub parse_cron_field-has_listed :
    (source : Text) (minimum maximum : ℕ) (sunday_seven : Bool) (values : List ℕ) (index : ℕ)
    (segment : Text) (raw : ℕ)
    → parse_cron_field source minimum maximum sunday_seven ≡ ok values
    → get_elem? (split b',' (trim source)) index ≡ some segment
    → IsListed minimum maximum raw (split b'/' segment)
    → has values (folded sunday_seven raw) ≡ true
unfolding parse_cron_field
parse_cron_field-has_listed source minimum maximum sunday_seven values index segment raw h e l =
    add_segments-has sunday_seven minimum maximum raw _ index segment [] values h e l
