-- ===== src/Terminal/Ansi/Limit.antt =====
-- The limit of style runs of terminal-ansi.js.
use pane_fleet.Base.{
  ℕ, ◌≤◌, ◌≡◌, refl, arith, inl, inr, Bool-cases, true, false, ◌&&◌, some, [], length, leb, leb→le,
  List, Bool, Text, if◌then◌else◌,
}
use pane_fleet.Terminal.Ansi.{
  StyleStatus, StyleRun, Parsed, scanned, parse_terminal_ansi, maximum_runs,
}

-- What a smaller maximum makes of a result: the same one, or its text without any style.
abbrev pub limited : Parsed → ℕ → Parsed
limited parsed maximum =
    if leb (length parsed.style_runs) maximum
    then parsed
    else record { text = parsed.text; style_runs = []; style_status = StyleStatus.style_limit }

-- Number.MAX_SAFE_INTEGER
abbrev pub largest : ℕ
largest = 9007199254740991

-- The result for a scan: its flag, its text and its runs.
abbrev result : Bool → Text → List StyleRun → ℕ → Parsed
result reliable output runs maximum = record {
  text = output;
  style_runs = if reliable && leb (length runs) maximum then runs else [];
  style_status =
      if reliable
      then (if leb (length runs) maximum then StyleStatus.styled else StyleStatus.style_limit)
      else StyleStatus.plain_fallback;
}

parse-result :
    (input : Text) (maximum : ℕ)
    → maximum ≤ largest
    → parse_terminal_ansi input (some maximum)
      ≡ result
          (scanned input).styles_reliable
          (scanned input).output
          (scanned input).style_runs
          maximum
unfolding parse_terminal_ansi maximum_runs
parse-result input maximum safe =
    let fits : leb maximum largest ≡ true = ground (arith, safe) in
    rw (parse_terminal_ansi, maximum_runs, fits) refl

result-bounded :
    (reliable : Bool) (output : Text) (runs : List StyleRun) (maximum : ℕ)
    → length (result reliable output runs maximum).style_runs ≤ maximum
result-bounded false output runs maximum = omega arith
result-bounded true output runs maximum = elim (Bool-cases (leb (length runs) maximum)) [
  | inl e ↦ rw e (leb→le _ _ e)
  | inr e ↦ rw e (omega arith)
]

result-limited :
    (reliable : Bool) (output : Text) (runs : List StyleRun) (small large : ℕ)
    → small ≤ large
    → result reliable output runs small ≡ limited (result reliable output runs large) small
result-limited false output runs small large smaller =
    let none_fits : leb 0 small ≡ true = ground arith in rw none_fits refl
result-limited true output runs small large smaller = elim (Bool-cases (leb (length runs) large)) [
  | inl e ↦ elim (Bool-cases (leb (length runs) small)) [
    | inl k ↦ rw (e, k) refl
    | inr k ↦ rw (e, k) refl
  ]
  | inr e ↦
      let k : leb (length runs) small ≡ false = ground (arith, e, smaller) in
      let none_fits : leb 0 small ≡ true = ground arith in rw (e, k, none_fits) refl
]

-- For a maximum that is a safe integer, parseTerminalAnsi returns at most so many style runs; and the
-- result under it follows from the one under any larger safe maximum: it is the same when the runs of
-- that one are not more than the smaller maximum, and else its text without any run and the status of
-- the limit.
pub style_runs-bounded :
    (input : Text) (small large : ℕ)
    → small ≤ large
    → large ≤ largest
    → (length (parse_terminal_ansi input (some small)).style_runs ≤ small)
      × (parse_terminal_ansi input (some small)
          ≡ limited (parse_terminal_ansi input (some large)) small)
style_runs-bounded input small large smaller safe =
    let at_small = parse-result input small (omega (arith, smaller, safe)) in
    let at_large = parse-result input large safe in
    let s = scanned input in
    rw (at_small, at_large)
      (
        result-bounded s.styles_reliable s.output s.style_runs small,
        result-limited s.styles_reliable s.output s.style_runs small large smaller,
      )
