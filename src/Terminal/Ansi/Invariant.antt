-- ===== src/Terminal/Ansi/Invariant.antt =====
-- What parseTerminalAnsi promises: no control units in its text, style runs in order within it.
use pane_fleet.Base.{
  ℕ, zero, suc, ◌≤◌, ◌<◌, ◌≡◌, refl, Bool, true, false, not, ◌&&◌, ◌||◌, Option, List, [], ◌∷◌,
  ◌++◌, length, take, length-append, every, Text, ltb, leb, ◌==◌, arith, Bool-cases, inl, inr,
  if-intro, Option-cases,
}
use pane_fleet.Terminal.Style.{style_is_default, same_style}
use pane_fleet.Terminal.Ansi.{
  StyleRun, Scan, Move, leave, go, first_scan, last_run, extend_last, add_run, flush, apply_style,
  control_move, ends_style, string_move, escape_move, append_unit, scan_unit, is_string_marker,
  scan, scanned, parse_terminal_ansi, is_string_control, control_sequence_end, string_control_end,
}

-- Line feed, tab, and every unit outside the two control blocks and DEL.
abbrev pub is_printable : ℕ → Bool
is_printable c =
    c == 0x0a || c == 0x09 || (leb 0x20 c && not (c == 0x7f) && not (leb 0x80 c && leb c 0x9f))

-- Runs between two offsets, in order, without overlap, none empty.
abbrev pub AreOrdered : ℕ → List StyleRun → ℕ → Type 0
AreOrdered low [] high = low ≤ high
AreOrdered low (run ∷ runs) high =
    (low ≤ run.start) × (run.start < run.end) × AreOrdered run.end runs high

AreOrdered-grow :
    (low : ℕ) (runs : List StyleRun) (high more : ℕ)
    → AreOrdered low runs high
    → high ≤ more
    → AreOrdered low runs more
AreOrdered-grow low [] high more h k = omega arith
AreOrdered-grow low (run ∷ runs) high more h k =
    (h.0, h.1, AreOrdered-grow run.end runs high more h.2 k)

AreOrdered-push :
    (low : ℕ) (runs : List StyleRun) (high : ℕ) (next : StyleRun)
    → AreOrdered low runs high
    → high ≤ next.start
    → next.start < next.end
    → AreOrdered low (runs ++ next ∷ []) next.end
AreOrdered-push low [] high next h k l = (omega arith, l, omega arith)
AreOrdered-push low (run ∷ runs) high next h k l =
    (h.0, h.1, AreOrdered-push run.end runs high next h.2 k l)

AreOrdered-extend :
    (low : ℕ) (runs : List StyleRun) (high more : ℕ)
    → AreOrdered low runs high
    → high ≤ more
    → AreOrdered low (extend_last more runs) more
unfolding extend_last
AreOrdered-extend low [] high more h k = omega arith
AreOrdered-extend low (run ∷ []) high more h k = (h.0, omega (arith, h), omega arith)
AreOrdered-extend low (run ∷ next ∷ runs) high more h k =
    (h.0, h.1, AreOrdered-extend run.end (next ∷ runs) high more h.2 k)

AreOrdered-add :
    (runs : List StyleRun) (next : StyleRun)
    → AreOrdered 0 runs next.start
    → next.start < next.end
    → AreOrdered 0 (add_run runs next) next.end
unfolding add_run
AreOrdered-add runs next h k = elim (Option-cases (last_run runs)) [
  | inl e ↦ rw (add_run, e) (AreOrdered-push 0 runs next.start next h (omega arith) k)
  | inr (previous, e) ↦
      rw (add_run, e)
        (if-intro (λ rs. AreOrdered 0 rs next.end)
          (previous.end == next.start && same_style previous.style next.style)
          {x = extend_last next.end runs} {y = runs ++ next ∷ []}
          (λ _. AreOrdered-extend 0 runs next.start next.end h (omega (arith, k)))
          (λ _. AreOrdered-push 0 runs next.start next h (omega arith) k))
]

-- The loop's invariant.
pub record IsSound (s : Scan) : Type 0 where
  pub printable : every is_printable s.output ≡ true
  pub ordered : AreOrdered 0 s.style_runs s.run_start
  pub within : s.run_start ≤ length s.output

flush-IsSound : (s : Scan) → IsSound s → IsSound (flush s)
unfolding flush
flush-IsSound s i =
    elim (Bool-cases (leb (length s.output) s.run_start || style_is_default s.style)) [
      | inl e ↦ rw e (record {
        printable = i.printable;
        ordered = AreOrdered-grow 0 s.style_runs s.run_start _ i.ordered i.within;
        within = omega arith;
      })
      | inr e ↦ rw e (record {
        printable = i.printable;
        ordered =
            AreOrdered-add s.style_runs
              (record { start = s.run_start; end = length s.output; style = s.style }) i.ordered
              (ground (arith, e));
        within = omega arith;
      })
    ]

apply_style-IsSound : (raw : Text) (s : Scan) → IsSound s → IsSound (apply_style raw s)
unfolding apply_style
apply_style-IsSound raw s i =
    let flushed = flush-IsSound s i in
    record {
      printable = flushed.printable;
      ordered = AreOrdered-grow 0 (flush s).style_runs _ _ flushed.ordered flushed.within;
      within = omega arith;
    }

every-append :
    (f : ℕ → Bool) (s : Text) (c : ℕ) → every f s ≡ true → f c ≡ true → every f (s ++ c ∷ []) ≡ true
every-append f [] c h k = ground (arith, k)
every-append f (d ∷ s) c h k = ground (arith, h, every-append f s c)

append_unit-IsSound :
    (c : ℕ) (s : Scan) → is_printable c ≡ true → IsSound s → IsSound (append_unit c s)
unfolding append_unit
append_unit-IsSound c s h i = record {
  printable = every-append is_printable s.output c i.printable h;
  ordered = i.ordered;
  within = omega (arith, i.within, length-append s.output (c ∷ []));
}

-- A move's scan is sound.
data IsSoundMove : Move → Type 0 where
  leaves : {s : Scan} → IsSound s → IsSoundMove (leave s)
  goes : {skip : ℕ} {s : Scan} → IsSound s → IsSoundMove (go skip s)

unreliable-IsSound : (s : Scan) → IsSound s → IsSound (record s { styles_reliable = false })
unreliable-IsSound s i = record { printable = i.printable; ordered = i.ordered; within = i.within }

control_move-IsSound :
    (intro : ℕ) (rest : Text) (s : Scan) → IsSound s → IsSoundMove (control_move intro rest s)
unfolding control_move
control_move-IsSound intro rest s i = elim (Option-cases (control_sequence_end rest)) [
  | inl e ↦ rw (control_move, e) (leaves (unreliable-IsSound s i))
  | inr (end, e) ↦
      rw (control_move, e)
        (goes (
          if-intro IsSound (ends_style rest end) (λ _. apply_style-IsSound (take end rest) s i)
            (λ _. i)))
]

string_move-IsSound :
    (intro : ℕ) (rest : Text) (s : Scan) → IsSound s → IsSoundMove (string_move intro rest s)
unfolding string_move
string_move-IsSound intro rest s i = elim (Option-cases (string_control_end rest)) [
  | inl e ↦ rw (string_move, e) (leaves (unreliable-IsSound s i))
  | inr (end, e) ↦ rw (string_move, e) (goes i)
]

escape_move-IsSound : (rest : Text) (s : Scan) → IsSound s → IsSoundMove (escape_move rest s)
unfolding escape_move
escape_move-IsSound [] s i = string_move-IsSound 0 [] s i
escape_move-IsSound (marker ∷ rest) s i =
    if-intro IsSoundMove (marker == b'[') (λ _. control_move-IsSound 1 rest s i)
      (λ _.
        if-intro IsSoundMove (is_string_marker marker) (λ _. string_move-IsSound 1 rest s i)
          (λ _. goes i))

scan_unit-IsSound :
    (code : ℕ) (rest : Text) (s : Scan) → IsSound s → IsSoundMove (scan_unit code rest s)
unfolding scan_unit
scan_unit-IsSound code rest s i =
    if-intro IsSoundMove (code == 0x1b) (λ _. escape_move-IsSound rest s i)
      (λ _.
        if-intro IsSoundMove (code == 0x9b) (λ _. control_move-IsSound 0 rest s i)
          (λ _.
            if-intro IsSoundMove (is_string_control code) (λ _. string_move-IsSound 0 rest s i)
              (λ _.
                if-intro IsSoundMove (leb 0x80 code && leb code 0x9f) (λ _. goes i)
                  (λ e.
                    if-intro IsSoundMove (ltb code 0x20 || code == 0x7f)
                      (λ _.
                        if-intro IsSoundMove (code == 0x0a || code == 0x09)
                          (λ k. goes (append_unit-IsSound code s (ground (arith, k)) i))
                          (λ _. goes i))
                      (λ k. goes (append_unit-IsSound code s (ground (arith, e, k)) i))))))

moved-IsSound :
    (rest : Text) (move : Move)
    → ((skip : ℕ) (moved : Scan) → IsSound moved → IsSound (scan skip rest moved))
    → IsSoundMove move
    → IsSound (elim move [ leave left ↦ left | go skip moved ↦ scan skip rest moved ])
moved-IsSound rest _ h (leaves i) = i
moved-IsSound rest _ h (goes {skip} {s} i) = h skip s i

scan-IsSound : (skip : ℕ) (rest : Text) (s : Scan) → IsSound s → IsSound (scan skip rest s)
unfolding scan
scan-IsSound skip [] s i = i
scan-IsSound (suc skip) (code ∷ rest) s i = scan-IsSound skip rest s i
scan-IsSound zero (code ∷ rest) s i =
    moved-IsSound rest (scan_unit code rest s) (λ skip moved. scan-IsSound skip rest moved)
      (scan_unit-IsSound code rest s i)

scanned-IsSound : (input : Text) → IsSound (scanned input)
unfolding scanned
scanned-IsSound input = flush-IsSound _ (
    scan-IsSound 0 _ first_scan
      (record { printable = refl; ordered = omega arith; within = omega arith }))

-- The text that parseTerminalAnsi returns has no terminal control unit: each unit is a line feed, a tab, or lies outside both blocks of control characters and DEL, whatever the input.
pub text-printable :
    (input : Text) (maximum : Option ℕ)
    → every is_printable (parse_terminal_ansi input maximum).text ≡ true
unfolding parse_terminal_ansi
text-printable input maximum = (scanned-IsSound input).printable

-- The style runs that parseTerminalAnsi returns are in order, do not overlap, are not empty, and lie within its text.
pub style_runs-AreOrdered :
    (input : Text) (maximum : Option ℕ)
    → AreOrdered 0
        (parse_terminal_ansi input maximum).style_runs
        (length (parse_terminal_ansi input maximum).text)
unfolding parse_terminal_ansi
style_runs-AreOrdered input maximum =
    if-intro (λ rs. AreOrdered 0 rs (length (scanned input).output)) _
      {x = (scanned input).style_runs} {y = []}
      (λ _. AreOrdered-grow 0 _ _ _ (scanned-IsSound input).ordered (scanned-IsSound input).within)
      (λ _. omega arith)
