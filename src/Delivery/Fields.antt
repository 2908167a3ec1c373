-- ===== src/Delivery/Fields.antt =====
-- The field checks of delivery-run.js: normalised text, patterns, timestamps, lists of ids.
pub mod Ids
use pane_fleet.Base.{
  ℕ, ◌^◌, ◌-◌, ◌++◌, Bool, true, false, not, ◌&&◌, ◌||◌, Option, none, some, List, [], ◌∷◌, leb,
  ◌==◌, if◌then◌else◌, length, some_of, Text, codes, text_eq, includes, is_empty, is_digit,
  is_lower, is_upper, is_hex, is_space, trim, starts_with, matches_id, every, Result, ok, err,
  ◌>>=◌, ◌>>◌, guard,
}
use pane_fleet.Delivery.Types.{
  RunError, timestamp_invalid, control_characters_not_allowed, allowed_path_invalid,
  allowed_paths_invalid, Platform, BindingKeyInput,
}

abbrev pub max_safe_integer : ℕ
max_safe_integer = 2 ^ 53 - 1

unfoldable pub newlines : Bool → Text → Text
newlines after_cr [] = []
newlines after_cr (c ∷ s) =
    let rest = newlines (c == 13) s in
    if c == 13 then 10 ∷ rest else if after_cr && c == 10 then rest else c ∷ rest

unfoldable pub text : Text → Text
text value = trim (newlines false value)

unfoldable pub collapse : Bool → Text → Text
collapse after_space [] = []
collapse after_space (c ∷ s) =
    let rest = collapse (is_space c) s in
    if is_space c then (if after_space then rest else 32 ∷ rest) else c ∷ rest

unfoldable pub inline : Text → Text
inline value = collapse false (text value)

unfoldable pub is_control : ℕ → Bool
is_control c = leb c 8 || c == 0xb || c == 0xc || (leb 0xe c && leb c 0x1f) || c == 0x7f

unfoldable pub assert_text : Text → RunError → Bool → ℕ → Result RunError (Unit {0})
assert_text value code required max_length = do
  guard (not (required && is_empty value) && leb (length value) max_length) code
  guard (not (some_of is_control value)) control_characters_not_allowed

unfoldable pub valid_timestamp : Platform → Text → Bool
valid_timestamp p value = not (is_empty value) && elim (p.date_parse value) [
  | none ↦ false
  | some parsed ↦ text_eq value (p.to_iso_string parsed)
]

unfoldable pub timestamp : Platform → Text → Result RunError Text
timestamp p value =
    let normalized = inline value in
    if valid_timestamp p normalized then ok normalized else err timestamp_invalid

-- Date.parse(left) < Date.parse(right); false where one of them is NaN.
unfoldable pub date_before : Platform → Text → Text → Bool
date_before p left right = elim (p.date_parse left) [
  | none ↦ false
  | some l ↦ elim (p.date_parse right) [ none ↦ false | some r ↦ not (leb r l) ]
]

unfoldable pub is_digest : Text → Bool
is_digest s = length s == 64 && every is_hex s

unfoldable pub assert_digest : Text → RunError → Result RunError (Unit {0})
assert_digest value code = guard (is_digest value) code

-- if (value) assertDigest(value, code)
unfoldable pub assert_optional_digest : Text → RunError → Result RunError (Unit {0})
assert_optional_digest value code = guard (is_empty value || is_digest value) code

-- The classes [a-z0-9], [a-z0-9-], [A-Z0-9], [A-Z0-9_-].
unfoldable pub lower_first : ℕ → Bool
lower_first c = is_lower c || is_digit c

unfoldable pub lower_rest : ℕ → Bool
lower_rest c = is_lower c || is_digit c || c == b'-'

unfoldable pub upper_first : ℕ → Bool
upper_first c = is_upper c || is_digit c

unfoldable pub upper_rest : ℕ → Bool
upper_rest c = is_upper c || is_digit c || c == b'_' || c == b'-'

unfoldable pub run_id_pattern : Text → Bool
run_id_pattern = matches_id (codes "run-") lower_first lower_rest 7 63

unfoldable pub plan_id_pattern : Text → Bool
plan_id_pattern = matches_id (codes "plan-") lower_first lower_rest 7 63

unfoldable pub step_id_pattern : Text → Bool
step_id_pattern = matches_id (codes "STEP-") upper_first upper_rest 0 39

unfoldable pub acceptance_id_pattern : Text → Bool
acceptance_id_pattern = matches_id (codes "AC-") upper_first upper_rest 0 39

unfoldable pub evidence_id_pattern : Text → Bool
evidence_id_pattern = matches_id (codes "EVD-") upper_first upper_rest 2 63

unfoldable pub verification_id_pattern : Text → Bool
verification_id_pattern = matches_id (codes "verification-") lower_first lower_rest 7 63

unfoldable pub mission_id_pattern : Text → Bool
mission_id_pattern = matches_id (codes "mission-") lower_rest lower_rest 7 63

unfoldable pub outbox_id_pattern : Text → Bool
outbox_id_pattern = matches_id (codes "outbox-") is_hex is_hex 31 31

unfoldable pub unique_from :
    (Text → Bool) → RunError → List Text → List Text → Result RunError (List Text)
unique_from pattern code seen [] = ok seen
unique_from pattern code seen (value ∷ values) =
    let rest = unique_from pattern code (value ∷ seen) values in
    if not (pattern value) || includes seen value then err code else rest

unfoldable pub unique_strings :
    List Text → (Text → Bool) → RunError → ℕ → Result RunError (List Text)
unique_strings values pattern code max_items = do
  guard (leb (length values) max_items) code
  unique_from pattern code [] values

unfoldable pub normalized_ids :
    Platform → (Text → Bool) → RunError → List Text → List Text → Result RunError (List Text)
normalized_ids p pattern code result [] = ok result
normalized_ids p pattern code result (value ∷ values) =
    let normalized = p.to_upper_case (inline value) in
    let rest =
      normalized_ids p pattern code
        (if includes result normalized then result else result ++ normalized ∷ []) values in
    if pattern normalized then rest else err code

unfoldable pub normalized_unique_ids :
    Platform → List Text → (Text → Bool) → RunError → ℕ → Result RunError (List Text)
normalized_unique_ids p values pattern code max_items = do
  guard (leb (length values) max_items) code
  normalized_ids p pattern code [] values

-- value.replaceAll('\\', '/')
unfoldable pub slashes : Text → Text
slashes [] = []
slashes (c ∷ s) = (if c == b'\\' then b'/' else c) ∷ slashes s

-- value.split('/')
unfoldable pub add_head : ℕ → List Text → List Text
add_head c [] = (c ∷ []) ∷ []
add_head c (s ∷ ss) = (c ∷ s) ∷ ss

unfoldable pub segments : Text → List Text
segments [] = [] ∷ []
segments (c ∷ s) = let rest = segments s in if c == b'/' then [] ∷ rest else add_head c rest

-- path.isAbsolute, which is path.posix.isAbsolute on the program's platform
unfoldable pub is_absolute : Text → Bool
is_absolute = starts_with (codes "/")

unfoldable pub normalized_scope_path : Platform → Text → Result RunError Text
normalized_scope_path p value =
    let candidate = slashes (inline value) in
    let normalized = p.path_normalize candidate in
    do
      assert_text candidate allowed_path_invalid true 512
      guard
          (not (is_empty candidate)
            && not (text_eq normalized (codes "."))
            && text_eq normalized candidate
            && not (is_absolute normalized)
            && not (includes (segments normalized) (codes ".."))
            && not (includes (segments normalized) (codes ".git")))
          allowed_path_invalid
      ok normalized

unfoldable pub scope_paths : Platform → List Text → List Text → Result RunError (List Text)
scope_paths p result [] = ok result
scope_paths p result (value ∷ values) = do
  normalized ← normalized_scope_path p value
  scope_paths p (if includes result normalized then result else result ++ normalized ∷ []) values

unfoldable pub normalized_scope_paths : Platform → List Text → Result RunError (List Text)
normalized_scope_paths p values = do
  guard (leb 1 (length values) && leb (length values) 100) allowed_paths_invalid
  scope_paths p [] values

unfoldable pub delivery_run_mission_binding_key : Platform → Text → Text → Text → Text → Text
delivery_run_mission_binding_key p run_id plan_id plan_digest step_id = p.canonical_sha256 (record {
  version = 1;
  role = codes "implementation";
  run_id = run_id;
  plan_id = plan_id;
  plan_digest = plan_digest;
  step_id = step_id;
})
