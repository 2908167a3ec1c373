-- ===== src/Samples/Others.antt =====
-- The theorems on schedules, terminal text, recovery slots, retention and snapshots at concrete inputs.
use pane_fleet.Base.{
  ◌+◌, ◌≡◌, refl, true, false, none, some, List, [], ◌∷◌, ◌++◌, codes, Text, ok, every, filter,
  length, All,
}
use pane_fleet.Base.{
  text_eq, includes, is_digit, is_lower, is_upper, is_hex, is_space, trim_start, trim, starts_with,
  matches_id,
}
use pane_fleet.Numbers.{
  split, digit_value, all_digits, digits_value, leading_digits, fraction, exponent_digits, exponent,
  scaled, unsigned_number, signed_number, radix, in_radix, literal, number_of,
}
use pane_fleet.Schedule.Calendar.{date_fields, date_at}
use pane_fleet.Schedule.Cron.{
  has, add, folded, add_values, range_of, bounds_of, add_range, step_of, valid_step, add_stepped,
  add_segment, add_segments, parse_cron_field, fits_month, has_possible_calendar_match, collapsed,
  parse_parts, parse_prompt_cron, day_matches, cron_matches, prompt_cron_matches_at, search_minutes,
  next_prompt_cron_at,
}
use pane_fleet.Delivery.Fields.{slashes, add_head, segments, is_absolute}
use pane_fleet.Schedule.Next.{IsNext, next_prompt_cron_at-IsNext}
use pane_fleet.Schedule.Field.{IsOfField, parse_cron_field-IsOfField}
use pane_fleet.Terminal.Ansi.{parse_terminal_ansi}
use pane_fleet.Terminal.Ansi.Plain.{parse-idempotent, printable-unchanged}
use pane_fleet.Terminal.Ansi.Invariant.{
  is_printable, AreOrdered, text-printable, style_runs-AreOrdered,
}
use pane_fleet.Recovery.Slots.{
  is_word, session_pattern, planning_session_pattern, hex_groups, rollout_id_pattern, is_model_unit,
  model_pattern, reasoning_efforts, turn_states, recovery_errors, iso_timestamp,
  valid_optional_timestamp, valid_turn_state, valid_slot, agent_recovery_session_eligible,
  agent_recovery_turn_state_error,
}
use pane_fleet.Recovery.Store.{
  updated_store, create_agent_recovery_store, is_valid_store, validate_agent_recovery_store,
  slot_of, put_slot, valid_input, registered_slot, register_agent_recovery_slot, update_slot,
  set_agent_recovery_enabled, mark_agent_recovery_attempt, mark_agent_recovery_result,
}
use pane_fleet.Recovery.Slots.{Host}
use pane_fleet.Recovery.Store.{Store, SlotInput}
use pane_fleet.Recovery.Kept.{Kept, registers, Change-Kept}
use pane_fleet.Runtime.Retention.{Clock, Agent, prune_agent_sample_store}
use pane_fleet.Runtime.Active.{prune-keeps_active}
use pane_fleet.Runtime.Snapshot.{Field, keys_of, changes_of, removed_of}
use pane_fleet.Runtime.Stream.{Socket, Response, is_sequenced, write_snapshot_event, write-settles}
use pane_fleet.Runtime.Patch.{AreUnique, value_in, patched, patched-value_in}

-- 30 July 2025, 10:41:12 UTC: the next run of a schedule for 12:15 on the 31st and on Sundays.
next_run : next_prompt_cron_at (codes "15 12 31 * 7") 1753872072000 ≡ ok 1753964100000
unfolding text_eq includes is_digit is_lower is_upper is_hex is_space trim_start trim starts_with
    matches_id split digit_value all_digits digits_value leading_digits fraction exponent_digits
    exponent scaled unsigned_number signed_number radix in_radix literal number_of date_fields
    date_at has add folded add_values range_of bounds_of add_range step_of valid_step add_stepped
    add_segment add_segments parse_cron_field fits_month has_possible_calendar_match collapsed
    parse_parts parse_prompt_cron day_matches cron_matches prompt_cron_matches_at search_minutes
    next_prompt_cron_at
next_run = refl

next_prompt_cron_at-IsNext_example : IsNext (codes "15 12 31 * 7") 1753872072000 1753964100000
next_prompt_cron_at-IsNext_example =
    next_prompt_cron_at-IsNext (codes "15 12 31 * 7") 1753872072000 1753964100000 next_run

pub weekdays_field : parse_cron_field (codes "1-3,6/1,*/7") 0 7 true ≡ ok (1 ∷ 2 ∷ 3 ∷ 6 ∷ 0 ∷ [])
unfolding text_eq includes is_digit is_lower is_upper is_hex is_space trim_start trim starts_with
    matches_id split digit_value all_digits digits_value leading_digits fraction exponent_digits
    exponent scaled unsigned_number signed_number radix in_radix literal number_of date_fields
    date_at has add folded add_values range_of bounds_of add_range step_of valid_step add_stepped
    add_segment add_segments parse_cron_field fits_month has_possible_calendar_match collapsed
    parse_parts parse_prompt_cron day_matches cron_matches prompt_cron_matches_at search_minutes
    next_prompt_cron_at
weekdays_field = refl

parse_cron_field-IsOfField_example : All (IsOfField true 0 7) (1 ∷ 2 ∷ 3 ∷ 6 ∷ 0 ∷ [])
parse_cron_field-IsOfField_example =
    parse_cron_field-IsOfField (codes "1-3,6/1,*/7") 0 7 true (1 ∷ 2 ∷ 3 ∷ 6 ∷ 0 ∷ [])
      weekdays_field

-- Red text, a title sequence and a bell.
abbrev pub colored : Text
colored =
    27 ∷ codes "[1;38;5;9mred"
    ++ 27 ∷ codes "[0m"
    ++ 27 ∷ codes "]0;title"
    ++ 7 ∷ codes "ok"
    ++ 13 ∷ 10 ∷ []

text-printable_example : every is_printable (parse_terminal_ansi colored none).text ≡ true
text-printable_example = text-printable colored none

style_runs-AreOrdered_example :
    AreOrdered 0
      (parse_terminal_ansi colored none).style_runs
      (length (parse_terminal_ansi colored none).text)
style_runs-AreOrdered_example = style_runs-AreOrdered colored none

abbrev host : Host
host = record {
  date_parse = λ s. elim s [ c ∷ rest ↦ some c | [] ↦ none ];
  to_iso_string = λ n. n ∷ [];
  locale_before = λ a b. false;
}

abbrev slot_input : SlotInput
slot_input = record {
  session = codes "codex-main";
  workspace = codes "/work";
  rollout_id = codes "01234567-89ab-cdef-0123-456789abcdef";
  model = codes "gpt-5";
  reasoning = codes "high";
  root_interactive = true;
  turn_state = some (codes "idle");
  auto_recover = none;
}

abbrev empty_store : Store
empty_store = record { version = 1; revision = 0; updated_at = codes "1"; slots = [] }

abbrev filled_store : Store
filled_store = record {
  version = 1;
  revision = 1;
  updated_at = codes "2";
  slots =
      record {
        key = codes "codex-main";
        slot = record {
          session = codes "codex-main";
          workspace = codes "/work";
          rollout_id = codes "01234567-89ab-cdef-0123-456789abcdef";
          model = codes "gpt-5";
          reasoning = codes "high";
          root_interactive = some true;
          turn_state = some (codes "idle");
          auto_recover = true;
          registered_at = codes "2";
          last_observed_at = codes "2";
          last_attempt_at = none;
          last_recovered_at = none;
          attempt_count = 0;
          last_error = [];
        };
      }
      ∷ [];
}

registered : register_agent_recovery_slot host empty_store slot_input (codes "2") ≡ ok filled_store
unfolding text_eq includes is_digit is_lower is_upper is_hex is_space trim_start trim starts_with
    matches_id is_word session_pattern planning_session_pattern hex_groups rollout_id_pattern
    is_model_unit model_pattern reasoning_efforts turn_states recovery_errors iso_timestamp
    valid_optional_timestamp valid_turn_state valid_slot agent_recovery_session_eligible
    agent_recovery_turn_state_error updated_store create_agent_recovery_store is_valid_store
    validate_agent_recovery_store slot_of put_slot valid_input registered_slot
    register_agent_recovery_slot update_slot set_agent_recovery_enabled mark_agent_recovery_attempt
    mark_agent_recovery_result slashes add_head segments is_absolute
registered = refl

Change-Kept_example : Kept host empty_store (codes "codex-main") filled_store
Change-Kept_example =
    Change-Kept host empty_store (codes "codex-main") filled_store
      (registers slot_input (codes "2") registered)

abbrev clock : Clock
clock = record {
  date_parse = λ s. elim s [ c ∷ rest ↦ some c | [] ↦ none ];
  locale_before = λ a b. false;
}

abbrev agents : List Agent
agents =
    record { session = codes "a"; updated_at = codes "1" }
    ∷ record { session = codes "b"; updated_at = codes "2" }
    ∷ record { session = codes "c"; updated_at = codes "3" }
    ∷ []

prune-keeps_active_example :
    filter
      (λ (agent : Agent). includes (codes "a" ∷ []) agent.session)
      (prune_agent_sample_store clock agents (codes "a" ∷ []) 60 9 1).agents
    ≡ filter (λ (agent : Agent). includes (codes "a" ∷ []) agent.session) agents
prune-keeps_active_example = prune-keeps_active clock agents (codes "a" ∷ []) 60 9 1

abbrev before : List Field
before =
    record { key = codes "a"; serialized = codes "1" }
    ∷ record { key = codes "b"; serialized = codes "2" }
    ∷ []

abbrev after : List Field
after =
    record { key = codes "b"; serialized = codes "3" }
    ∷ record { key = codes "c"; serialized = codes "4" }
    ∷ []

after-AreUnique : AreUnique after
unfolding includes text_eq keys_of
after-AreUnique = (refl, (refl, tt))

patched-value_in_example :
    patched before (changes_of before after) (removed_of before after) (codes "a")
    ≡ value_in (codes "a") after
patched-value_in_example = patched-value_in before after (codes "a") after-AreUnique

seven_valid : is_sequenced (some 7) ≡ true
unfolding is_sequenced
seven_valid = refl

abbrev socket : Socket
socket = record { throws = λ frame. false; fills = λ frame. true; decimal = λ n. (48 + n) ∷ [] }

abbrev response : Response
response = record {
  destroyed = false;
  writable_ended = false;
  writable_need_drain = false;
  written = [];
  sent = none;
}

write-settles_example :
    (write_snapshot_event socket
      (write_snapshot_event socket response (codes "snapshot") (codes "{}") (some 7)).1
      (codes "snapshot")
      (codes "{}")
      (some 7)).1
    ≡ (write_snapshot_event socket response (codes "snapshot") (codes "{}") (some 7)).1
write-settles_example =
    write-settles socket response 7 (codes "snapshot") (codes "{}") (codes "snapshot") (codes "{}")
      seven_valid

parse-idempotent_example :
    (parse_terminal_ansi (parse_terminal_ansi colored none).text (some 2)).text
    ≡ (parse_terminal_ansi colored none).text
parse-idempotent_example = parse-idempotent colored none (some 2)

printable-unchanged_example :
    (parse_terminal_ansi (codes "plain text") none).text ≡ codes "plain text"
printable-unchanged_example = printable-unchanged (codes "plain text") none refl
