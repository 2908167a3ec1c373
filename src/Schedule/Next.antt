-- ===== src/Schedule/Next.antt =====
-- nextPromptCronAt of prompt-schedule.js returns the first match.
use mathlib.Core.Path.{subst}
use pane_fleet.Base.{
  ℕ, zero, suc, ◌+◌, ◌-◌, ◌*◌, ◌/◌, ◌%◌, ◌<◌, ◌≡◌, true, false, inl, inr, Bool-cases, arith, Text,
  ok, Result, >>=-ok_cases, guard->>-eq-ok, leb,
}
use pane_fleet.Schedule.Calendar.{date_at, max_time}
use pane_fleet.Schedule.Cron.{
  Cron, CronError, cron_matches, search_minutes, next_prompt_cron_at, parse_prompt_cron,
  max_cron_search_minutes, date_invalid,
}

-- The first matching minute from `candidate` on.
pub record FirstMatch (parsed : Cron) (candidate found : ℕ) : Type 0 where
  pub rounds : ℕ
  pub distance : found ≡ candidate + rounds * 60000
  pub matches : cron_matches parsed (date_at found) ≡ true
  pub earlier :
      (round : ℕ)
      → round < rounds
      → cron_matches parsed (date_at (candidate + round * 60000)) ≡ false

first-FirstMatch :
    (parsed : Cron) (candidate found : ℕ)
    → cron_matches parsed (date_at candidate) ≡ true
    → ◌≡◌ {A = Result CronError ℕ} (ok candidate) (ok found)
    → FirstMatch parsed candidate found
first-FirstMatch parsed candidate found e h =
    let same : found ≡ candidate = cc h in
    record {
      rounds = 0;
      distance = omega (arith, same);
      matches = rw same e;
      earlier = λ round l. absurd (omega (arith, l));
    }

-- No match at `candidate` and none in `n` minutes behind it.
shifted-misses :
    (n : ℕ) (parsed : Cron) (candidate : ℕ)
    → cron_matches parsed (date_at candidate) ≡ false
    → ((round : ℕ)
        → round < n
        → cron_matches parsed (date_at (candidate + 60000 + round * 60000)) ≡ false)
    → (round : ℕ) → round < suc n
    → cron_matches parsed (date_at (candidate + round * 60000)) ≡ false
shifted-misses n parsed candidate e h zero l =
    subst (λ t. cron_matches parsed (date_at t) ≡ false) (omega arith) e
shifted-misses n parsed candidate e h (suc round) l =
    subst (λ t. cron_matches parsed (date_at t) ≡ false) (omega arith) (h round (omega (arith, l)))

later-FirstMatch :
    (parsed : Cron) (candidate found : ℕ)
    → cron_matches parsed (date_at candidate) ≡ false
    → FirstMatch parsed (candidate + 60000) found
    → FirstMatch parsed candidate found
later-FirstMatch parsed candidate found e m = record {
  rounds = suc m.rounds;
  distance = omega (arith, m.distance);
  matches = m.matches;
  earlier = shifted-misses m.rounds parsed candidate e m.earlier;
}

search_minutes-FirstMatch :
    (fuel : ℕ) (parsed : Cron) (candidate found : ℕ)
    → search_minutes fuel parsed candidate ≡ ok found
    → FirstMatch parsed candidate found
unfolding search_minutes
search_minutes-FirstMatch zero parsed candidate found h = absurd (cc h)
search_minutes-FirstMatch (suc fuel) parsed candidate found h =
    elim (Bool-cases (cron_matches parsed (date_at candidate))) [
      | inl e ↦ first-FirstMatch parsed candidate found e (rw (search_minutes, e) at h)
      | inr e ↦ later-FirstMatch parsed candidate found e (
          search_minutes-FirstMatch fuel parsed (candidate + 60000) found
            (rw (search_minutes, e) at h))
    ]

-- A successful nextPromptCronAt.
pub record IsNext (cron : Text) (after found : ℕ) : Type 0 where
  pub parsed : Cron
  pub parses : parse_prompt_cron cron ≡ ok parsed
  pub later : after < found
  pub whole_minute : found % 60000 ≡ 0
  pub matches : cron_matches parsed (date_at found) ≡ true
  pub earliest :
      (time : ℕ)
      → after < time
      → time < found
      → time % 60000 ≡ 0
      → cron_matches parsed (date_at time) ≡ false

next_minute : (after : ℕ) → after < after / 60000 * 60000 + 60000
next_minute after = omega arith

-- The first run that nextPromptCronAt returns is later than `after`, on a whole minute, matches the parsed schedule, and no whole minute between the two matches.
pub next_prompt_cron_at-IsNext :
    (cron : Text) (after found : ℕ)
    → next_prompt_cron_at cron after ≡ ok found
    → IsNext cron after found
unfolding next_prompt_cron_at
next_prompt_cron_at-IsNext cron after found h =
    >>=-ok_cases (parse_prompt_cron cron) _ h λ parsed e1 h1.
      let (valid, h2) =
        guard->>-eq-ok (leb (after / 60000 * 60000 + 60000) max_time) date_invalid _ h1 in
      let m = search_minutes-FirstMatch max_cron_search_minutes parsed _ found h2 in
      record {
        parsed = parsed;
        parses = e1;
        later = omega (arith, m.distance);
        whole_minute = omega (arith, m.distance);
        matches = m.matches;
        earliest = λ time l k w.
            subst (λ t. cron_matches parsed (date_at t) ≡ false)
              (omega (arith, l, k, w, m.distance))
              (m.earlier (time / 60000 - after / 60000 - 1) (omega (arith, l, k, w, m.distance)));
      }
