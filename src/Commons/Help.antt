-- ===== src/Commons/Help.antt =====
-- agentCommonsHelpRecommendation of agent-commons.js, lines 532 to 644. The readings that an open
-- resource gate passes on are left out, and a percentage is its whole part.
pub mod Advice
pub mod Gated
use pane_fleet.Base.{
  ℕ, Bool, true, false, not, ◌&&◌, ◌||◌, Option, none, some, List, [], ◌∷◌, ◌++◌, filter, find, leb,
  ltb, ◌==◌, Text, codes, text_eq, includes, is_empty, starts_with, behind, Result, ok, err, ◌>>=◌,
  ◌>>◌, guard, if◌then◌else◌,
}
use pane_fleet.Delivery.Fields.{is_absolute, valid_timestamp}
use pane_fleet.Commons.Types.{CommonsHost, CommonsError, invalid, Actor, operator, agent, Message}
use pane_fleet.Commons.Fields.{normalized_inline, normalized_message_id}
use pane_fleet.Commons.Lifecycle.{state_name}
use pane_fleet.Commons.Validate.{normalized_message}
use pane_fleet.Commons.Inbox.{is_help_request}

pub record HelperIdentity : Type 0 where
  pub name : Text
  pub session : Text

unfoldable pub helper_of : Text → HelperIdentity
helper_of message_id =
    let name = codes "commons-helper-" ++ behind (codes "commons-") message_id in
    record { name = name; session = codes "codex-" ++ name }

unfoldable pub agent_commons_helper_identity :
    CommonsHost → Text → Result CommonsError HelperIdentity
agent_commons_helper_identity host value = do
  message_id ← normalized_message_id host value (codes "message_id")
  ok (helper_of message_id)

-- value.replace(/\/+$/, '')
unfoldable pub without_slashes : Text → Text
without_slashes [] = []
without_slashes (c ∷ s) =
    let rest = without_slashes s in if c == b'/' && is_empty rest then [] else c ∷ rest

unfoldable pub normalized_workspace : Text → Text
normalized_workspace value =
    if is_absolute (without_slashes value) then without_slashes value else []

-- A running agent as the server lists it; a missing text is empty.
pub record ListedAgent : Type 0 where
  pub session : Text
  pub display_name : Text
  pub status_state : Text
  pub status_tone : Text
  pub current_path : Text
  pub last_interaction_at : Text
  pub can_send : Bool
  pub queue_ready : Bool

pub record CandidateSummary : Type 0 where
  pub session : Text
  pub display_name : Text
  pub state : Text
  pub workspace : Text
  pub last_interaction_at : Option Text

unfoldable pub help_candidate_summary :
    CommonsHost → ListedAgent → Result CommonsError CandidateSummary
help_candidate_summary host listed = do
  display_name ←
      normalized_inline
        (if is_empty listed.display_name then listed.session else listed.display_name)
        (codes "helper_display_name") 120 true
  ok (record {
    session = listed.session;
    display_name = display_name;
    state = if is_empty listed.status_state then codes "idle" else listed.status_state;
    workspace = normalized_workspace listed.current_path;
    last_interaction_at =
        if valid_timestamp host.platform listed.last_interaction_at
        then some listed.last_interaction_at
        else none;
  })

pub record HelpOptions : Type 0 where
  pub agents : List ListedAgent
  pub busy_sessions : List Text
  pub workspace : Text
  pub gate_ok : Bool
  pub gate_error : Text
  pub disk_used_percent : Option ℕ
  pub control_plane_ready : Bool

pub data HelpKind : Type 0 where
  closed helper_exists existing blocked spawn : HelpKind

pub record Recommendation : Type 0 where
  pub message_id : Text
  pub message_revision : ℕ
  pub helper : HelperIdentity
  pub workspace : Text
  pub kind : HelpKind
  pub candidate : Option CandidateSummary
  pub spawn_allowed : Bool
  pub reason : Text

-- /^codex(?:-|$)/
unfoldable pub is_codex_session : Text → Bool
is_codex_session session = text_eq session (codes "codex") || starts_with (codes "codex-") session

unfoldable pub is_helper_session : Text → Bool
is_helper_session session = starts_with (codes "codex-commons-helper-") session

abbrev pub requester_of : Actor → Text
requester_of operator = []
requester_of (agent author) = author.session

-- The filter of lines 593 to 605.
unfoldable pub is_available : HelpOptions → Text → Text → ListedAgent → Bool
is_available options requester workspace listed =
    is_codex_session listed.session
    && not (text_eq listed.session requester)
    && not (is_helper_session listed.session)
    && listed.can_send
    && listed.queue_ready
    && text_eq listed.status_state (codes "idle")
    && text_eq listed.status_tone (codes "good")
    && not (includes options.busy_sessions listed.session)
    && (is_empty workspace || text_eq (normalized_workspace listed.current_path) workspace)

-- Date.parse(value || '') || 0
unfoldable pub interaction_time : CommonsHost → Text → ℕ
interaction_time host value = elim (host.platform.date_parse value) [ none ↦ 0 | some time ↦ time ]

-- The order of lines 605 to 609; `locale_before` is a negative result of localeCompare.
unfoldable pub waits_longer : CommonsHost → (Text → Text → Bool) → ListedAgent → ListedAgent → Bool
waits_longer host locale_before left right =
    let l = interaction_time host left.last_interaction_at in
    let r = interaction_time host right.last_interaction_at in
    ltb l r || (l == r && locale_before left.session right.session)

-- The first agent of the stable sort.
unfoldable pub longest_waiting :
    CommonsHost → (Text → Text → Bool) → List ListedAgent → Option ListedAgent
longest_waiting host locale_before [] = none
longest_waiting host locale_before (listed ∷ rest) =
    elim (longest_waiting host locale_before rest) [
      | none ↦ some listed
      | some next ↦ if waits_longer host locale_before next listed then some next else some listed
    ]

unfoldable pub is_full : Option ℕ → Bool
is_full none = false
is_full (some percent) = leb 90 percent

unfoldable pub recommended :
    Message → Text → HelpKind → Option CandidateSummary → Bool → Text → Recommendation
recommended message workspace kind candidate spawn_allowed reason = record {
  message_id = message.id;
  message_revision = message.revision;
  helper = helper_of message.id;
  workspace = workspace;
  kind = kind;
  candidate = candidate;
  spawn_allowed = spawn_allowed;
  reason = reason;
}

unfoldable pub block : Message → Text → Text → Recommendation
block message workspace reason = recommended message workspace blocked none false reason

-- Lines 618 to 643, when no agent is available.
unfoldable pub spawn_or_block : Message → HelpOptions → Text → Recommendation
spawn_or_block message options workspace =
    if is_helper_session (requester_of message.author)
    then block message workspace (codes "recursive_helper_spawn_forbidden")
    else if is_empty workspace
    then block message workspace (codes "workspace_required")
    else if not options.control_plane_ready
    then block message workspace (codes "control_plane_isolation_required")
    else if is_full options.disk_used_percent
    then block message workspace (codes "disk_gate")
    else if not options.gate_ok
    then block message workspace (
        if is_empty options.gate_error
        then codes "agent_commons_helper_resource_gate_unavailable"
        else options.gate_error)
    else recommended message workspace spawn none true (codes "operator_approval_required")

unfoldable pub recommend_agent :
    CommonsHost
    → (Text → Text → Bool)
    → Message
    → HelpOptions
    → Text
    → Result CommonsError Recommendation
recommend_agent host locale_before message options workspace =
    elim (longest_waiting host locale_before
      (filter (is_available options (requester_of message.author) workspace) options.agents)) [
        | some listed ↦ help_candidate_summary host listed >>= λ summary. ok (
            recommended message workspace existing (some summary) false
              (codes "compatible_idle_agent_available"))
        | none ↦ ok (spawn_or_block message options workspace)
      ]

unfoldable pub recommend_open :
    CommonsHost
    → (Text → Text → Bool)
    → Message
    → HelpOptions
    → Text
    → Result CommonsError Recommendation
recommend_open host locale_before message options workspace =
    elim (find (λ (listed : ListedAgent). text_eq listed.session (helper_of message.id).session)
      options.agents) [
        | some listed ↦ help_candidate_summary host listed >>= λ summary. ok (
            recommended message workspace helper_exists (some summary) false
              (codes "deterministic_helper_already_exists"))
        | none ↦ recommend_agent host locale_before message options workspace
      ]

unfoldable pub agent_commons_help_recommendation :
    CommonsHost → (Text → Text → Bool) → Message → HelpOptions → Result CommonsError Recommendation
agent_commons_help_recommendation host locale_before value options = do
  message ← normalized_message host value
  guard (is_empty message.parent_id && is_help_request message.category)
      (invalid (codes "help_request"))
  if text_eq (state_name message.state) (codes "open")
      then recommend_open host locale_before message options
          (normalized_workspace options.workspace)
      else ok (
          recommended message (normalized_workspace options.workspace) closed none false
            (codes "request_closed"))
