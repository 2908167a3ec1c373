-- ===== src/Recovery/Store.antt =====
-- agent-recovery.js: the store and the operations that change its slots. A store is a value:
-- each operation copies it. Its `slots` object is a list of entries in insertion order.
use pane_fleet.Base.{
  ℕ, ◌+◌, min, Bool, true, false, not, ◌&&◌, ◌||◌, Option, none, some, List, [], ◌∷◌, length, every,
  find, Text, codes, text_eq, includes, is_empty, ltb, leb, ◌==◌, if◌then◌else◌, Result, ok, ◌>>=◌,
  ◌>>◌, guard, or_throw,
}
use pane_fleet.Delivery.Fields.{is_absolute, max_safe_integer}
use pane_fleet.Recovery.Slots.{
  RecoveryError, Host, Slot, Entry, rollout_id_pattern, model_pattern, reasoning_efforts,
  recovery_errors, iso_timestamp, valid_turn_state, valid_slot, agent_recovery_session_eligible,
  state_invalid,
}

pub record Store : Type 0 where
  pub version : ℕ
  pub revision : ℕ
  pub updated_at : Text
  pub slots : List Entry

abbrev max_recovery_slots : ℕ
max_recovery_slots = 64

-- updatedStore; the copy itself is the value.
unfoldable pub updated_store : Store → Text → Store
updated_store store at = record store { revision = store.revision + 1; updated_at = at }

unfoldable pub create_agent_recovery_store : Host → Text → Result RecoveryError Store
create_agent_recovery_store host at = do
  guard (not (is_empty (iso_timestamp host at))) state_invalid
  ok (record { version = 1; revision = 0; updated_at = iso_timestamp host at; slots = [] })

unfoldable pub is_valid_store : Host → Store → Bool
is_valid_store host store =
    store.version == 1
    && leb store.revision max_safe_integer
    && not (is_empty (iso_timestamp host store.updated_at))
    && leb (length store.slots) max_recovery_slots
    && every (valid_slot host) store.slots

unfoldable pub validate_agent_recovery_store : Host → Store → Result RecoveryError Store
validate_agent_recovery_store host store = do
  guard (is_valid_store host store) state_invalid
  ok store

abbrev pub has_key : Text → Entry → Bool
has_key session entry = text_eq entry.key session

-- store.slots[session], among the object's own entries. Of the names that the object inherits,
-- `__proto__` is treated by `update_slot`; a write to any other stores an own entry under a key that the
-- closing validation refuses, with the same error as a missing slot.
unfoldable pub slot_of : Store → Text → Option Slot
slot_of store session = elim (find (has_key session) store.slots) [
  | none ↦ none
  | some entry ↦ some entry.slot
]

-- next.slots[session] = slot
unfoldable pub put_slot : Text → Slot → List Entry → List Entry
put_slot session slot [] = record { key = session; slot = slot } ∷ []
put_slot session slot (entry ∷ entries) =
    let rest = put_slot session slot entries in
    if has_key session entry then record entry { slot = slot } ∷ entries else entry ∷ rest

pub record SlotInput : Type 0 where
  pub session : Text
  pub workspace : Text
  pub rollout_id : Text
  pub model : Text
  pub reasoning : Text
  pub root_interactive : Bool
  pub turn_state : Option Text
  pub auto_recover : Option Bool

-- a || b for strings, and a ?? b
abbrev or_text : Text → Text → Text
or_text left right = if is_empty left then right else left

abbrev or_option {ℓ} : {A : Type ℓ} → Option A → Option A → Option A
or_option none right = right
or_option (some a) right = some a

abbrev or_value {ℓ} : {A : Type ℓ} → Option A → A → A
or_value none right = right
or_value (some a) right = a

-- existing?.field
abbrev of_slot {ℓ} : {A : Type ℓ} → Option Slot → A → (Slot → A) → A
of_slot none missing field = missing
of_slot (some slot) missing field = field slot

unfoldable pub valid_input : Text → SlotInput → Bool
valid_input timestamp input =
    not (is_empty timestamp)
    && agent_recovery_session_eligible input.session
    && is_absolute input.workspace
    && leb (length input.workspace) 4096
    && (is_empty input.rollout_id || rollout_id_pattern input.rollout_id)
    && model_pattern input.model
    && includes reasoning_efforts input.reasoning
    && valid_turn_state input.turn_state

unfoldable pub registered_slot : SlotInput → Option Slot → Text → Slot
registered_slot input existing timestamp = record {
  session = input.session;
  workspace = input.workspace;
  rollout_id = or_text input.rollout_id (of_slot existing [] (λ s. s.rollout_id));
  model = or_text input.model (of_slot existing [] (λ s. s.model));
  reasoning = or_text input.reasoning (of_slot existing [] (λ s. s.reasoning));
  root_interactive = some input.root_interactive;
  turn_state = some (
      or_value (or_option input.turn_state (of_slot existing none (λ s. s.turn_state)))
        (codes "unknown"));
  auto_recover = or_value input.auto_recover (of_slot existing true (λ s. s.auto_recover));
  registered_at = or_text (of_slot existing [] (λ s. s.registered_at)) timestamp;
  last_observed_at = timestamp;
  last_attempt_at = of_slot existing none (λ s. s.last_attempt_at);
  last_recovered_at = of_slot existing none (λ s. s.last_recovered_at);
  attempt_count = 0;
  last_error = [];
}

abbrev is_some {ℓ} : {A : Type ℓ} → Option A → Bool
is_some none = false
is_some (some a) = true

unfoldable pub register_agent_recovery_slot :
    Host → Store → SlotInput → Text → Result RecoveryError Store
register_agent_recovery_slot host store input at =
    let timestamp = iso_timestamp host at in
    let existing = slot_of store input.session in
    do
      guard (is_valid_store host store) state_invalid
      guard (valid_input timestamp input) state_invalid
      guard (is_some existing || ltb (length store.slots) max_recovery_slots) state_invalid
      validate_agent_recovery_store host (record (updated_store store timestamp) {
        slots = put_slot input.session (registered_slot input existing timestamp) store.slots;
      })

-- The session whose lookup finds the object's prototype and whose write replaces it.
unfoldable pub is_prototype : Text → Bool
is_prototype session = text_eq session (codes "__proto__")

-- The frame that the three updates of one slot share: lines 161 to 165, 172 and their likes.
unfoldable pub update_slot :
    Host → Store → Text → Text → Bool → (Text → Slot → Slot) → Result RecoveryError Store
update_slot host store session at accepted change =
    let timestamp = iso_timestamp host at in
    do
      guard (is_valid_store host store) state_invalid
      guard (not (is_empty timestamp)) state_invalid
      guard accepted state_invalid
      if is_prototype session
          then validate_agent_recovery_store host (updated_store store timestamp)
          else or_throw (slot_of store session) state_invalid >>= (λ existing.
            validate_agent_recovery_store host (record (updated_store store timestamp) {
              slots = put_slot session (change timestamp existing) store.slots;
            }))

unfoldable pub set_agent_recovery_enabled :
    Host → Store → Text → Bool → Text → Result RecoveryError Store
set_agent_recovery_enabled host store session enabled at =
    update_slot host store session at true (λ timestamp existing. record existing {
      auto_recover = enabled;
      last_error = if enabled then existing.last_error else [];
      attempt_count = if enabled then existing.attempt_count else 0;
    })

unfoldable pub mark_agent_recovery_attempt :
    Host → Store → Text → Text → Text → Result RecoveryError Store
mark_agent_recovery_attempt host store session error at =
    update_slot host store session at (includes recovery_errors error) (λ timestamp existing.
      record existing {
        last_attempt_at = some timestamp;
        attempt_count = min 1000 (existing.attempt_count + 1);
        last_error = error;
      })

unfoldable pub mark_agent_recovery_result :
    Host → Store → Text → Bool → Text → Text → Result RecoveryError Store
mark_agent_recovery_result host store session succeeded error at =
    update_slot host store session at
      (includes recovery_errors error && not (succeeded && not (is_empty error)))
      (λ timestamp existing. record existing {
        last_recovered_at = if succeeded then some timestamp else existing.last_recovered_at;
        attempt_count = if succeeded then 0 else existing.attempt_count;
        last_error = if succeeded then [] else error;
      })
