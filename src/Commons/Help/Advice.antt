-- ===== src/Commons/Help/Advice.antt =====
-- The outcomes of a help recommendation of agent-commons.js, described without the functions that
-- find them.
use pane_fleet.Base.{
  ◌≡◌, Bool, true, false, not, ◌&&◌, Option, none, some, find, some_of, ltb, ℕ, ◌||◌, includes,
  starts_with, Text, codes, text_eq, is_empty, ok,
}
use pane_fleet.Commons.Types.{CommonsHost, Message}
use pane_fleet.Commons.Lifecycle.{state_name}
use pane_fleet.Commons.Help.{
  helper_of, normalized_workspace, ListedAgent, CandidateSummary, help_candidate_summary,
  HelpOptions, Recommendation, HelpKind, requester_of, existing, helper_exists,
}

abbrev pub is_helper_of : Message → ListedAgent → Bool
is_helper_of message listed = text_eq listed.session (helper_of message.id).session

-- An idle codex session in the workspace that can take a message, is not busy, and is neither the
-- requester nor a helper.
abbrev pub is_idle : HelpOptions → Text → Text → ListedAgent → Bool
is_idle options requester workspace listed =
    (text_eq listed.session (codes "codex") || starts_with (codes "codex-") listed.session)
    && not (text_eq listed.session requester)
    && not (starts_with (codes "codex-commons-helper-") listed.session)
    && listed.can_send
    && listed.queue_ready
    && text_eq listed.status_state (codes "idle")
    && text_eq listed.status_tone (codes "good")
    && not (includes options.busy_sessions listed.session)
    && (is_empty workspace || text_eq (normalized_workspace listed.current_path) workspace)

abbrev pub idle_for : HelpOptions → Message → ListedAgent → Bool
idle_for options message =
    is_idle options (requester_of message.author) (normalized_workspace options.workspace)

abbrev pub has_room : Option ℕ → Bool
has_room none = true
has_room (some percent) = ltb percent 90

-- The gates in front of a new helper: the requester is no helper, the workspace is known, the control
-- plane is isolated, the disk is below 90 percent, and the resource gate is open.
abbrev pub gates_open : HelpOptions → Message → Bool
gates_open options message =
    not (starts_with (codes "codex-commons-helper-") (requester_of message.author))
    && not (is_empty (normalized_workspace options.workspace))
    && options.control_plane_ready
    && has_room options.disk_used_percent
    && options.gate_ok

abbrev pub is_asked : Message → Bool
is_asked message = text_eq (state_name message.state) (codes "open")

abbrev pub Says : Recommendation → HelpKind → Option CandidateSummary → Bool → Type 0
Says advice kind candidate spawn_allowed =
    (advice.kind ≡ kind) × (advice.candidate ≡ candidate) × (advice.spawn_allowed ≡ spawn_allowed)

-- The outcomes for a help request.
pub data IsAdvice (host : CommonsHost) (message : Message) (options : HelpOptions)
    (advice : Recommendation) : Type 0 where
  closes :
      is_asked message ≡ false
      → Says advice HelpKind.closed none false
      → IsAdvice host message options advice
  reuses :
      (listed : ListedAgent) (summary : CandidateSummary)
      → is_asked message ≡ true
      → find (is_helper_of message) options.agents ≡ some listed
      → help_candidate_summary host listed ≡ ok summary
      → Says advice helper_exists (some summary) false
      → IsAdvice host message options advice
  offers :
      (listed : ListedAgent) (summary : CandidateSummary)
      → is_asked message ≡ true
      → find (is_helper_of message) options.agents ≡ none
      → idle_for options message listed ≡ true
      → help_candidate_summary host listed ≡ ok summary
      → Says advice existing (some summary) false
      → IsAdvice host message options advice
  blocks :
      is_asked message ≡ true
      → find (is_helper_of message) options.agents ≡ none
      → some_of (idle_for options message) options.agents ≡ false
      → gates_open options message ≡ false
      → Says advice HelpKind.blocked none false
      → IsAdvice host message options advice
  spawns :
      is_asked message ≡ true
      → find (is_helper_of message) options.agents ≡ none
      → some_of (idle_for options message) options.agents ≡ false
      → gates_open options message ≡ true
      → Says advice HelpKind.spawn none true
      → IsAdvice host message options advice
