-- ===== src/Schedule/Reached.antt =====
-- nextPromptCronAt of prompt-schedule.js against promptCronMatchesAt: the search reaches each minute
-- that the other query accepts.
use mathlib.Core.Path.{subst}
use pane_fleet.Base.{
  ℕ, zero, suc, ◌+◌, ◌-◌, ◌*◌, ◌/◌, ◌%◌, ◌<◌, ◌≤◌, ◌≡◌, true, false, inl, inr, Bool-cases, arith,
  Text, ok, >>=-ok_cases, guard->>-eq-ok, if-eq_cases, leb, leb→le, ◌==◌, refl,
}
use pane_fleet.Schedule.Calendar.{date_at, max_time}
use pane_fleet.Schedule.Cron.{
  Cron, cron_matches, search_minutes, next_prompt_cron_at, prompt_cron_matches_at,
  parse_prompt_cron, max_cron_search_minutes, date_invalid,
}

-- A time that promptCronMatchesAt accepts.
pub record Accepts (cron : Text) (time : ℕ) : Type 0 where
  pub parsed : Cron
  pub parses : parse_prompt_cron cron ≡ ok parsed
  pub valid : time ≤ max_time
  pub whole_minute : time % 60000 ≡ 0
  pub matches : cron_matches parsed (date_at time) ≡ true

prompt_cron_matches_at-Accepts :
    (cron : Text) (time : ℕ) → prompt_cron_matches_at cron time ≡ ok true → Accepts cron time
unfolding prompt_cron_matches_at
prompt_cron_matches_at-Accepts cron time h =
    let (valid, h1) = guard->>-eq-ok (leb time max_time) date_invalid _ h in
    if-eq_cases (time % 60000 == 0) h1
      (λ e h2. >>=-ok_cases (parse_prompt_cron cron) _ h2 λ parsed e1 h3. record {
        parsed = parsed;
        parses = e1;
        valid = leb→le time max_time valid;
        whole_minute = ground (arith, e);
        matches = cc h3;
      })
      (λ e h2. absurd (cc h2))

Accepts-prompt_cron_matches_at :
    (cron : Text) (time : ℕ) → Accepts cron time → prompt_cron_matches_at cron time ≡ ok true
unfolding prompt_cron_matches_at
Accepts-prompt_cron_matches_at cron time a =
    let valid : leb time max_time ≡ true = ground (arith, a.valid) in
    let whole : (time % 60000 == 0) ≡ true = ground (arith, a.whole_minute) in
    rw (valid, whole, a.parses, a.matches) refl

-- The search of `fuel` minutes from `candidate` on stops at a match, at most `rounds` minutes away.
abbrev StopsWithin : ℕ → ℕ → Cron → ℕ → Type 0
StopsWithin fuel rounds parsed candidate =
    (early : ℕ) × (early ≤ rounds)
    × (search_minutes fuel parsed candidate ≡ ok (candidate + early * 60000))
    × (cron_matches parsed (date_at (candidate + early * 60000)) ≡ true)

stops_here :
    (fuel rounds : ℕ) (parsed : Cron) (candidate : ℕ)
    → cron_matches parsed (date_at candidate) ≡ true
    → StopsWithin (suc fuel) rounds parsed candidate
unfolding search_minutes
stops_here fuel rounds parsed candidate here =
    let same : candidate ≡ candidate + 0 * 60000 = omega arith in
    (0, omega arith, rw (search_minutes, here) (cc same), rw (← same) here)

stops_later :
    (fuel rounds : ℕ) (parsed : Cron) (candidate : ℕ)
    → cron_matches parsed (date_at candidate) ≡ false
    → StopsWithin fuel rounds parsed (candidate + 60000)
    → StopsWithin (suc fuel) (suc rounds) parsed candidate
unfolding search_minutes
stops_later fuel rounds parsed candidate later (early, l, stops, match) =
    let same : candidate + 60000 + early * 60000 ≡ candidate + suc early * 60000 = omega arith in
    (suc early, omega (arith, l), rw (search_minutes, later) (cc (stops, same)), rw (← same) match)

search_minutes-StopsWithin :
    (fuel rounds : ℕ) (parsed : Cron) (candidate : ℕ)
    → rounds < fuel
    → cron_matches parsed (date_at (candidate + rounds * 60000)) ≡ true
    → StopsWithin fuel rounds parsed candidate
search_minutes-StopsWithin zero rounds parsed candidate l e = absurd (omega (arith, l))
search_minutes-StopsWithin (suc fuel) zero parsed candidate l e =
    let same : candidate + 0 * 60000 ≡ candidate = omega arith in
    stops_here fuel 0 parsed candidate (rw same at e)
search_minutes-StopsWithin (suc fuel) (suc rounds) parsed candidate l e =
    elim (Bool-cases (cron_matches parsed (date_at candidate))) [
      | inl here ↦ stops_here fuel (suc rounds) parsed candidate here
      | inr later ↦ stops_later fuel rounds parsed candidate later (
          search_minutes-StopsWithin fuel rounds parsed (candidate + 60000) (omega (arith, l))
            (subst (λ t. cron_matches parsed (date_at t) ≡ true) (omega arith) e))
    ]

-- What nextPromptCronAt returns when a run is due by `time`.
pub record RunsBy (cron : Text) (after time : ℕ) : Type 0 where
  pub found : ℕ
  pub returned : next_prompt_cron_at cron after ≡ ok found
  pub in_time : found ≤ time
  pub accepted : prompt_cron_matches_at cron found ≡ ok true

-- If promptCronMatchesAt accepts a time later than `after` and within the minutes that nextPromptCronAt searches, nextPromptCronAt returns a time: no later than that one, and itself accepted by promptCronMatchesAt.
pub next_prompt_cron_at-RunsBy :
    (cron : Text) (after time : ℕ)
    → prompt_cron_matches_at cron time ≡ ok true
    → after < time
    → time ≤ after + max_cron_search_minutes * 60000
    → RunsBy cron after time
unfolding next_prompt_cron_at
next_prompt_cron_at-RunsBy cron after time h l near =
    let due = prompt_cron_matches_at-Accepts cron time h in
    let rounds : ℕ = time / 60000 - after / 60000 - 1 in
    let first : ℕ = after / 60000 * 60000 + 60000 in
    let distance : time ≡ first + rounds * 60000 = omega (arith, l, due.whole_minute) in
    let (early, closer, stops, match) =
      search_minutes-StopsWithin max_cron_search_minutes rounds due.parsed first
        (omega (arith, l, near, due.whole_minute))
        (subst (λ t. cron_matches due.parsed (date_at t) ≡ true) distance due.matches) in
    let in_time : first + early * 60000 ≤ time = omega (arith, closer, distance) in
    let valid : leb first max_time ≡ true = ground (arith, in_time, due.valid) in
    record {
      found = first + early * 60000;
      returned = rw (due.parses, valid) stops;
      in_time = in_time;
      accepted = Accepts-prompt_cron_matches_at cron _ (record {
        parsed = due.parsed;
        parses = due.parses;
        valid = omega (arith, in_time, due.valid);
        whole_minute = omega arith;
        matches = match;
      });
    }
