-- ===== src/Schedule/Values.antt =====
-- The set of numbers that the loop of parseCronField in prompt-schedule.js fills.
use pane_fleet.Base.{
  ℕ, zero, suc, ◌+◌, ◌*◌, ◌≤◌, ◌<◌, ◌≡◌, refl, Bool, true, inl, inr, Bool-cases, arith, List, [],
  ◌∷◌, ◌++◌, leb, ◌==◌,
}
use pane_fleet.Schedule.Cron.{has, add, folded, add_values}

has-append :
    (values : List ℕ) (more : List ℕ) (value : ℕ)
    → has values value ≡ true
    → has (values ++ more) value ≡ true
unfolding has
has-append [] more value h = absurd (cc h)
has-append (x ∷ values) more value h = elim (Bool-cases (x == value)) [
  | inl e ↦ rw e refl
  | inr e ↦ rw e (has-append values more value (rw e at h))
]

has-push : (values : List ℕ) (value : ℕ) → has (values ++ value ∷ []) value ≡ true
unfolding has
has-push [] value = let same : (value == value) ≡ true = ground arith in rw same refl
has-push (x ∷ values) value = elim (Bool-cases (x == value)) [
  | inl e ↦ rw e refl
  | inr e ↦ rw e (has-push values value)
]

add-has : (values : List ℕ) (value : ℕ) → has (add value values) value ≡ true
unfolding add
add-has values value = elim (Bool-cases (has values value)) [
  | inl e ↦ rw (e, e) refl
  | inr e ↦ rw e (has-push values value)
]

add-keeps :
    (values : List ℕ) (new value : ℕ) → has values value ≡ true → has (add new values) value ≡ true
unfolding add
add-keeps values new value h = elim (Bool-cases (has values new)) [
  | inl e ↦ rw e h
  | inr e ↦ rw e (has-append values (new ∷ []) value h)
]

module _ (sunday_seven : Bool) (end step : ℕ) where
  pub add_values-keeps :
      (fuel start : ℕ) (values : List ℕ) (value : ℕ)
      → has values value ≡ true
      → has (add_values fuel sunday_seven start end step values) value ≡ true
  unfolding add_values
  add_values-keeps zero start values value h = h
  add_values-keeps (suc fuel) start values value h = elim (Bool-cases (leb start end)) [
    | inl e ↦
        rw (add_values, e)
          (add_values-keeps fuel (start + step) _ value
            (add-keeps values (folded sunday_seven start) value h))
    | inr e ↦ rw (add_values, e) h
  ]

  -- With a positive step, `fuel` rounds reach each listed number up to `start + fuel - 1`.
  pub add_values-has :
      (fuel rounds start : ℕ) (values : List ℕ)
      → rounds < fuel
      → start + rounds * step ≤ end
      → has
          (add_values fuel sunday_seven start end step values)
          (folded sunday_seven (start + rounds * step))
        ≡ true
  unfolding add_values
  add_values-has zero rounds start values l h = absurd (omega (arith, l))
  add_values-has (suc fuel) zero start values l h =
      let same : start + 0 * step ≡ start = omega arith in
      let within : leb start end ≡ true = ground (arith, h, same) in
      rw (add_values, within, same)
        (add_values-keeps fuel (start + step) _ (folded sunday_seven start)
          (add-has values (folded sunday_seven start)))
  add_values-has (suc fuel) (suc rounds) start values l h =
      let same : start + suc rounds * step ≡ start + step + rounds * step = omega arith in
      let within : leb start end ≡ true = ground (arith, h, same) in
      rw (add_values, within, same)
        (add_values-has fuel rounds (start + step) _ (omega (arith, l)) (rw same at h))
