-- ===== src/Schedule/Field.antt =====
-- parseCronField of prompt-schedule.js yields numbers of its field only.
use pane_fleet.Base.{
  ℕ, zero, suc, ◌+◌, ◌≤◌, ◌≡◌, refl, Bool, inl, inr, Bool-cases, arith, ◌&&◌, not, Option, none,
  some, List, [], ◌∷◌, ◌++◌, All, Text, is_empty, ok, Result, >>=-ok_cases, guard->>-eq-ok, leb,
  leb→le,
}
use pane_fleet.Numbers.{split}
use pane_fleet.Schedule.Cron.{
  CronError, cron_invalid, has, add, folded, add_values, add_range, step_of, valid_step, is_given,
  bounds_of, add_stepped, add_segment, add_segments, parse_cron_field,
}

-- A value of the field: a number between its bounds, 7 folded to 0 where the source says so.
abbrev pub IsOfField : Bool → ℕ → ℕ → ℕ → Type 0
IsOfField sunday_seven minimum maximum value =
    (raw : ℕ) × (minimum ≤ raw) × (raw ≤ maximum) × (value ≡ folded sunday_seven raw)

All-push : (P : ℕ → Type 0) (xs : List ℕ) (x : ℕ) → All P xs → P x → All P (xs ++ x ∷ [])
All-push P [] x a p = (p, tt)
All-push P (y ∷ xs) x a p = (a.0, All-push P xs x a.1 p)

add-All :
    (P : ℕ → Type 0) (values : List ℕ) (value : ℕ)
    → All P values
    → P value
    → All P (add value values)
unfolding add
add-All P values value a p = elim (Bool-cases (has values value)) [
  | inl e ↦ rw e a
  | inr e ↦ rw e (All-push P values value a p)
]

ok-inj : {x y : List ℕ} → ◌≡◌ {A = Result CronError (List ℕ)} (ok x) (ok y) → x ≡ y
ok-inj h = cc

module _ (sunday_seven : Bool) (minimum maximum : ℕ) where
  add_values-All :
      (fuel value end step : ℕ) (values : List ℕ)
      → minimum ≤ value
      → end ≤ maximum
      → All (IsOfField sunday_seven minimum maximum) values
      → All
          (IsOfField sunday_seven minimum maximum)
          (add_values fuel sunday_seven value end step values)
  unfolding add_values
  add_values-All zero value end step values l h a = a
  add_values-All (suc fuel) value end step values l h a = elim (Bool-cases (leb value end)) [
    | inl e ↦
        rw (add_values, e)
          (add_values-All fuel (value + step) end step _ (omega (arith, l)) h
            (add-All _ values _ a (value, l, omega (arith, h, leb→le value end e), refl)))
    | inr e ↦ rw (add_values, e) a
  ]

  add_range-All :
      (step : ℕ) (bounds : Option (ℕ × ℕ)) (values result : List ℕ)
      → add_range sunday_seven minimum maximum step bounds values ≡ ok result
      → All (IsOfField sunday_seven minimum maximum) values
      → All (IsOfField sunday_seven minimum maximum) result
  unfolding add_range
  add_range-All step none values result h a = absurd (cc h)
  add_range-All step (some (start, end)) values result h a =
      let (valid, h1) =
        guard->>-eq-ok (leb minimum start && leb end maximum && leb start end) cron_invalid _ h in
      rw (← (ok-inj h1)) (
        add_values-All (suc maximum) start end step values (ground (arith, valid))
          (ground (arith, valid)) a)

  add_stepped-All :
      (base : Text) (step_text : Option Text) (values result : List ℕ)
      → add_stepped sunday_seven minimum maximum base step_text values ≡ ok result
      → All (IsOfField sunday_seven minimum maximum) values
      → All (IsOfField sunday_seven minimum maximum) result
  unfolding add_stepped
  add_stepped-All base step_text values result h a =
      let (filled, h1) = guard->>-eq-ok (not (is_empty base)) cron_invalid _ h in
      >>=-ok_cases (valid_step minimum maximum (step_of step_text)) _ h1 λ step e h2.
        add_range-All step (bounds_of base (is_given step_text) minimum maximum) values result h2 a

  add_segment-All :
      (parts : List Text) (values result : List ℕ)
      → add_segment sunday_seven minimum maximum parts values ≡ ok result
      → All (IsOfField sunday_seven minimum maximum) values
      → All (IsOfField sunday_seven minimum maximum) result
  unfolding add_segment
  add_segment-All [] values result h a = absurd (cc h)
  add_segment-All (base ∷ []) values result h a = add_stepped-All base none values result h a
  add_segment-All (base ∷ step ∷ []) values result h a =
      add_stepped-All base (some step) values result h a
  add_segment-All (base ∷ step ∷ extra ∷ more) values result h a = absurd (cc h)

  add_segments-All :
      (segments : List Text) (values result : List ℕ)
      → add_segments sunday_seven minimum maximum segments values ≡ ok result
      → All (IsOfField sunday_seven minimum maximum) values
      → All (IsOfField sunday_seven minimum maximum) result
  unfolding add_segments
  add_segments-All [] values result h a = rw (← (ok-inj h)) a
  add_segments-All (segment ∷ segments) values result h a =
      >>=-ok_cases (add_segment sunday_seven minimum maximum (split b'/' segment) values) _ h
        λ next e h1. add_segments-All segments next result h1 (add_segment-All _ values next e a)

-- Each value of a field that parseCronField accepts is a number between the field's bounds, with 7 replaced by 0 where Sunday may be 7.
pub parse_cron_field-IsOfField :
    (source : Text) (minimum maximum : ℕ) (sunday_seven : Bool) (values : List ℕ)
    → parse_cron_field source minimum maximum sunday_seven ≡ ok values
    → All (IsOfField sunday_seven minimum maximum) values
unfolding parse_cron_field
parse_cron_field-IsOfField source minimum maximum sunday_seven values h =
    add_segments-All sunday_seven minimum maximum _ [] values h tt
