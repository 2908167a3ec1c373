-- ===== src/Plan/Checks.antt =====
-- The checks of texts, lists, ids and paths of delivery-plan.js, lines 252 to 297.
use pane_fleet.Base.{
  ℕ, Bool, true, false, not, ◌&&◌, List, [], ◌∷◌, leb, ◌==◌, length, some_of, Text, codes, text_eq,
  includes, is_empty, Result, ok, ◌>>◌, guard, for_each,
}
use pane_fleet.Delivery.Fields.{is_control, is_absolute, segments, upper_first, upper_rest}
use pane_fleet.Base.{matches_id}
use pane_fleet.Plan.Types.{
  PlanError, field_invalid, field_too_long, field_duplicate, control_characters_not_allowed,
  scope_path_invalid, PlanHost,
}

unfoldable pub assert_plan_text : Text → Text → Bool → ℕ → Result PlanError (Unit {0})
assert_plan_text value field required max_length = do
  guard (not (required && is_empty value)) (field_invalid field)
  guard (leb (length value) max_length) (field_too_long field)
  guard (not (some_of is_control value)) control_characters_not_allowed

unfoldable pub assert_string_list : List Text → Text → ℕ → ℕ → Result PlanError (Unit {0})
assert_string_list values field max_items max_chars = do
  guard (leb (length values) max_items) (field_invalid field)
  for_each (λ value. assert_plan_text value field true max_chars) values

-- The ids of the items, each matching the pattern and none repeated.
unfoldable pub ids_unique :
    Text → (Text → Bool) → List Text → List Text → Result PlanError (Unit {0})
ids_unique field pattern seen [] = ok tt
ids_unique field pattern seen (id ∷ ids) = do
  guard (pattern id) (field_invalid field)
  guard (not (includes seen id)) (field_duplicate field)
  ids_unique field pattern (id ∷ seen) ids

unfoldable pub requirement_id_pattern : Text → Bool
requirement_id_pattern s = matches_id (codes "REQ-") upper_first upper_rest 0 39 s

unfoldable pub ends_with_slash : Text → Bool
ends_with_slash [] = false
ends_with_slash (c ∷ []) = c == b'/'
ends_with_slash (c ∷ d ∷ s) = ends_with_slash (d ∷ s)

-- The root of an absolute POSIX path is '/'.
unfoldable pub is_canonical_workspace : PlanHost → Text → Bool
is_canonical_workspace host workspace =
    is_absolute workspace
    && text_eq (host.platform.path_normalize workspace) workspace
    && not (not (text_eq workspace (codes "/")) && ends_with_slash workspace)

unfoldable pub assert_scope_path : PlanHost → Text → Result PlanError (Unit {0})
assert_scope_path host value =
    let normalized = host.platform.path_normalize value in
    do
      assert_plan_text value (codes "scope_path") true 512
      guard
          (not (some_of (λ c. c == 0x5c) value)
            && not (text_eq normalized (codes "."))
            && text_eq normalized value
            && not (is_absolute normalized)
            && not (includes (segments normalized) (codes ".."))
            && not (includes (segments normalized) (codes ".git")))
          scope_path_invalid
