-- ===== src/Recovery/Slots.antt =====
-- agent-recovery.js: a recovery slot, the patterns of its fields and the check of one slot.
use pane_fleet.Base.{
  ℕ, ◌-◌, Bool, true, false, not, ◌&&◌, ◌||◌, Option, none, some, List, [], ◌∷◌, length, every,
  Text, codes, text_eq, includes, is_empty, is_digit, is_hex, is_lower, is_upper, starts_with,
  behind, leb, ◌==◌, if◌then◌else◌,
}
use pane_fleet.Delivery.Fields.{is_absolute}

-- The error of every refusal: agent_recovery_state_invalid.
pub data RecoveryError : Type 0 where
  state_invalid : RecoveryError

-- JavaScript's Date.parse, Date.prototype.toISOString of its result, and localeCompare.
pub record Host : Type 0 where
  pub date_parse : Text → Option ℕ
  pub to_iso_string : ℕ → Text
  pub locale_before : Text → Text → Bool

-- `none` of root_interactive and turn_state stands for undefined, of the two times for null.
pub record Slot : Type 0 where
  pub session : Text
  pub workspace : Text
  pub rollout_id : Text
  pub model : Text
  pub reasoning : Text
  pub root_interactive : Option Bool
  pub turn_state : Option Text
  pub auto_recover : Bool
  pub registered_at : Text
  pub last_observed_at : Text
  pub last_attempt_at : Option Text
  pub last_recovered_at : Option Text
  pub attempt_count : ℕ
  pub last_error : Text

pub record Entry : Type 0 where
  pub key : Text
  pub slot : Slot

-- \w and -
unfoldable pub is_word : ℕ → Bool
is_word c = is_lower c || is_upper c || is_digit c || c == b'_' || c == b'-'

unfoldable pub session_pattern : Text → Bool
session_pattern s = starts_with (codes "codex") s && every is_word (behind (codes "codex") s)

unfoldable pub planning_session_pattern : Text → Bool
planning_session_pattern s = starts_with (codes "codex-planning-") s

-- Groups of hexadecimal digits, each but the last ended by a dash.
unfoldable pub hex_groups : List ℕ → ℕ → Text → Bool
hex_groups sizes left [] = elim sizes [ [] ↦ left == 0 | _ ↦ false ]
hex_groups [] left (c ∷ s) = let rest = hex_groups [] (left - 1) s in leb 1 left && is_hex c && rest
hex_groups (size ∷ sizes) left (c ∷ s) =
    let inside = hex_groups (size ∷ sizes) (left - 1) s in
    let next = hex_groups sizes size s in
    if left == 0 then c == b'-' && next else is_hex c && inside

unfoldable pub rollout_id_pattern : Text → Bool
rollout_id_pattern s = hex_groups (4 ∷ 4 ∷ 4 ∷ 12 ∷ []) 8 s

unfoldable pub is_model_unit : ℕ → Bool
is_model_unit c =
    is_lower c || is_upper c || is_digit c || c == b'.' || c == b'_' || c == b':' || c == b'-'

unfoldable pub model_pattern : Text → Bool
model_pattern s = is_empty s || (leb (length s) 128 && every is_model_unit s)

unfoldable pub reasoning_efforts : List Text
reasoning_efforts =
    []
    ∷ codes "minimal"
    ∷ codes "low"
    ∷ codes "medium"
    ∷ codes "high"
    ∷ codes "xhigh"
    ∷ codes "max"
    ∷ codes "ultra"
    ∷ []

unfoldable pub turn_states : List Text
turn_states = codes "active" ∷ codes "idle" ∷ codes "unknown" ∷ []

unfoldable pub recovery_errors : List Text
recovery_errors =
    []
    ∷ codes "agent_recovery_dead_pane"
    ∷ codes "agent_recovery_input_failed"
    ∷ codes "agent_recovery_interrupted_turn"
    ∷ codes "agent_recovery_isolation_unavailable"
    ∷ codes "agent_recovery_memory_gate"
    ∷ codes "agent_recovery_metrics_unavailable"
    ∷ codes "agent_recovery_pressure_gate"
    ∷ codes "agent_recovery_session_conflict"
    ∷ codes "agent_recovery_spawn_failed"
    ∷ codes "agent_recovery_swap_gate"
    ∷ codes "agent_recovery_turn_state_unverified"
    ∷ codes "agent_recovery_unsupported_pane"
    ∷ codes "agent_recovery_workspace_unavailable"
    ∷ []

-- '' when the time does not parse.
unfoldable pub iso_timestamp : Host → Text → Text
iso_timestamp host value = elim (host.date_parse value) [
  | none ↦ []
  | some parsed ↦ host.to_iso_string parsed
]

unfoldable pub valid_optional_timestamp : Host → Option Text → Bool
valid_optional_timestamp host none = true
valid_optional_timestamp host (some value) = not (is_empty (iso_timestamp host value))

unfoldable pub valid_turn_state : Option Text → Bool
valid_turn_state none = true
valid_turn_state (some state) = includes turn_states state

unfoldable pub valid_slot : Host → Entry → Bool
valid_slot host entry =
    let slot = entry.slot in
    session_pattern entry.key
    && text_eq slot.session entry.key
    && is_absolute slot.workspace
    && leb (length slot.workspace) 4096
    && (is_empty slot.rollout_id || rollout_id_pattern slot.rollout_id)
    && model_pattern slot.model
    && includes reasoning_efforts slot.reasoning
    && valid_turn_state slot.turn_state
    && not (is_empty (iso_timestamp host slot.registered_at))
    && not (is_empty (iso_timestamp host slot.last_observed_at))
    && valid_optional_timestamp host slot.last_attempt_at
    && valid_optional_timestamp host slot.last_recovered_at
    && leb slot.attempt_count 1000
    && includes recovery_errors slot.last_error

unfoldable pub agent_recovery_session_eligible : Text → Bool
agent_recovery_session_eligible session =
    session_pattern session && not (planning_session_pattern session)

unfoldable pub agent_recovery_turn_state_error : Option Slot → Text
agent_recovery_turn_state_error slot = elim slot [
  | none ↦ codes "agent_recovery_turn_state_unverified"
  | some s ↦ elim s.turn_state [
    | none ↦ codes "agent_recovery_turn_state_unverified"
    | some state ↦
        if text_eq state (codes "idle")
        then []
        else if text_eq state (codes "active")
        then codes "agent_recovery_interrupted_turn"
        else codes "agent_recovery_turn_state_unverified"
  ]
]
