-- ===== src/Terminal/Ansi/Plain.antt =====
-- parseTerminalAnsi leaves text without control units alone.
use mathlib.Core.List.{append_assoc, append-nil}
use pane_fleet.Base.{
  ℕ, ◌≡◌, refl, sym, ◌∙◌, true, false, ◌&&◌, ◌||◌, Option, [], ◌∷◌, ◌++◌, length, every, Text, ltb,
  leb, ◌==◌, if◌then◌else◌, if-intro, arith, &&-eq-true, Bool-cases, inl, inr,
}
use pane_fleet.Terminal.Style.{style_is_default}
use pane_fleet.Terminal.Ansi.{
  Scan, go, first_scan, unified_newlines, flush, append_unit, scan_unit, scan, scanned,
  parse_terminal_ansi, is_string_control,
}
use pane_fleet.Terminal.Ansi.Invariant.{is_printable, text-printable}

unified_newlines-printable : (s : Text) → every is_printable s ≡ true → unified_newlines s ≡ s
unfolding unified_newlines
unified_newlines-printable [] h = refl
unified_newlines-printable (c ∷ []) h =
    let plain : (c == 13) ≡ false = ground (arith, h) in rw plain refl
unified_newlines-printable (c ∷ d ∷ rest) h =
    let plain : (c == 13) ≡ false = ground (arith, h) in
    let tail : every is_printable (d ∷ rest) ≡ true = (&&-eq-true (is_printable c) _ h).1 in
    rw (plain, unified_newlines-printable (d ∷ rest) tail) refl

scan_unit-printable :
    (c : ℕ) (rest : Text) (s : Scan)
    → is_printable c ≡ true
    → scan_unit c rest s ≡ go 0 (append_unit c s)
unfolding scan_unit
scan_unit-printable c rest s h =
    let escape : (c == 0x1b) ≡ false = ground (arith, h) in
    let control : (c == 0x9b) ≡ false = ground (arith, h) in
    let string : is_string_control c ≡ false = ground (arith, h) in
    let upper : (leb 0x80 c && leb c 0x9f) ≡ false = ground (arith, h) in
    rw (escape, control, string, upper)
      (if-intro (λ m. m ≡ go 0 (append_unit c s)) (ltb c 0x20 || c == 0x7f)
        {x = if c == 0x0a || c == 0x09 then go 0 (append_unit c s) else go 0 s}
        {y = go 0 (append_unit c s)} (λ e. rw (blank e) refl) (λ e. refl))
  where
    blank : (ltb c 0x20 || c == 0x7f) ≡ true → (c == 0x0a || c == 0x09) ≡ true
    blank e = ground (arith, h, e)

scan-printable :
    (rest : Text) (s : Scan)
    → every is_printable rest ≡ true
    → (scan 0 rest s).output ≡ s.output ++ rest
unfolding scan append_unit
scan-printable [] s h = sym (append-nil s.output)
scan-printable (c ∷ rest) s h =
    rw (scan, scan_unit-printable c rest s (&&-eq-true _ _ h).0)
      (scan-printable rest (append_unit c s) (&&-eq-true _ _ h).1
        ∙ append_assoc s.output (c ∷ []) rest)

flush-output : (s : Scan) → (flush s).output ≡ s.output
unfolding flush
flush-output s = elim (Bool-cases (leb (length s.output) s.run_start || style_is_default s.style)) [
  | inl e ↦ rw (flush, e) refl
  | inr e ↦ rw (flush, e) refl
]

-- Text without control units, but for line feeds and tabs, passes through parseTerminalAnsi unchanged.
pub printable-unchanged :
    (input : Text) (maximum : Option ℕ)
    → every is_printable input ≡ true
    → (parse_terminal_ansi input maximum).text ≡ input
unfolding parse_terminal_ansi scanned
printable-unchanged input maximum h =
    flush-output _ ∙ rw (unified_newlines-printable input h) (scan-printable input first_scan h)

-- Parsing is idempotent on text: the text that parseTerminalAnsi returns for any input comes back unchanged when it is parsed again.
pub parse-idempotent :
    (input : Text) (maximum again : Option ℕ)
    → (parse_terminal_ansi (parse_terminal_ansi input maximum).text again).text
      ≡ (parse_terminal_ansi input maximum).text
parse-idempotent input maximum again =
    printable-unchanged (parse_terminal_ansi input maximum).text again
      (text-printable input maximum)
