-- ===== src/Recovery/Candidates.antt =====
-- agentRecoveryCandidates of agent-recovery.js.
use pane_fleet.Base.{
  ℕ, ◌+◌, Bool, true, false, not, ◌&&◌, ◌||◌, none, some, List, [], ◌∷◌, map, filter, Text,
  includes, is_empty, ltb, leb, ◌==◌, if◌then◌else◌, Result, ok, ◌>>◌, guard,
}
use pane_fleet.Recovery.Slots.{
  Host, Slot, Entry, RecoveryError, state_invalid, iso_timestamp, agent_recovery_session_eligible,
}
use pane_fleet.Recovery.Store.{Store, is_valid_store}

-- Date.parse of a time that has been validated.
unfoldable pub parsed_time : Host → Text → ℕ
parsed_time host value = elim (host.date_parse value) [ none ↦ 0 | some time ↦ time ]

abbrev attempted_at : Host → Slot → ℕ
attempted_at host slot = elim slot.last_attempt_at [ none ↦ 0 | some at ↦ parsed_time host at ]

abbrev is_root_interactive : Slot → Bool
is_root_interactive slot = elim slot.root_interactive [ some true ↦ true | _ ↦ false ]

-- !attemptedAt || nowMs - attemptedAt >= retryAfterMs
unfoldable pub has_cooled_down : Host → ℕ → ℕ → Slot → Bool
has_cooled_down host now retry_after slot =
    attempted_at host slot == 0 || leb (attempted_at host slot + retry_after) now

unfoldable pub may_recover : Host → List Text → ℕ → ℕ → Slot → Bool
may_recover host live now retry_after slot =
    agent_recovery_session_eligible slot.session
    && slot.auto_recover
    && not (is_empty slot.rollout_id)
    && is_root_interactive slot
    && not (includes live slot.session)
    && has_cooled_down host now retry_after slot

-- The comparator: later observation first, then the session's name.
unfoldable pub comes_before : Host → Slot → Slot → Bool
comes_before host left right =
    let l = parsed_time host left.last_observed_at in
    let r = parsed_time host right.last_observed_at in
    ltb r l || (l == r && host.locale_before left.session right.session)

-- Array.prototype.sort: stable.
unfoldable pub insert_slot : Host → Slot → List Slot → List Slot
insert_slot host slot [] = slot ∷ []
insert_slot host slot (next ∷ slots) =
    let rest = insert_slot host slot slots in
    if comes_before host next slot then next ∷ rest else slot ∷ next ∷ slots

unfoldable pub sort_slots : Host → List Slot → List Slot
sort_slots host [] = []
sort_slots host (slot ∷ slots) = insert_slot host slot (sort_slots host slots)

unfoldable pub agent_recovery_candidates :
    Host → Store → List Text → Text → ℕ → Result RecoveryError (List Slot)
agent_recovery_candidates host store live at retry_after =
    let now = parsed_time host (iso_timestamp host at) in
    do
      guard (is_valid_store host store) state_invalid
      guard (not (is_empty (iso_timestamp host at))) state_invalid
      ok (
          sort_slots host (
            filter (may_recover host live now retry_after)
              (map (λ (entry : Entry). entry.slot) store.slots)))
