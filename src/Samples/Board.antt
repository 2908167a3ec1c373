-- ===== src/Samples/Board.antt =====
-- A small board of messages, and the calls on it.
use pane_fleet.Base.{
  ◌≡◌, refl, ℕ, zero, suc, Bool, true, false, none, some, [], ◌∷◌, Text, codes, ok, List,
}
use pane_fleet.Commons.Types.{
  CommonsHost, Category, Attention, MessageState, open_, candidate, tried, operator, agent,
  AgentActor, everyone, Message, message_transition, CommonsStore,
}
use pane_fleet.Commons.Repository.{Reply, PublicMessage}
use pane_fleet.Commons.Help.{HelpOptions, Recommendation, spawn}
use pane_fleet.Samples.Runs.{platform}
use pane_fleet.Base.{
  text_eq, includes, is_digit, is_lower, is_upper, is_hex, is_space, trim_start, trim, starts_with,
  matches_id,
}
use pane_fleet.Delivery.Fields.{
  is_absolute, newlines, text, collapse, inline, is_control, is_digest, valid_timestamp,
  date_before, lower_first, lower_rest,
}
use pane_fleet.Commons.Fields.{
  timestamp, bounded_text, normalized_text, normalized_inline, alphanumeric, session_rest,
  operation_rest, actor_session_pattern, message_id_pattern, operation_id_pattern, pane_id_pattern,
  normalized_session, normalized_message_id, optional_message_id, normalized_operation_id, spaced,
  default_label, normalized_agent, normalized_actor, first_occurrences, audience_of,
  normalized_audience, normalized_scope, created_category, created_supersedes,
  normalized_create_input, acknowledgement_key, normalized_acknowledgement,
  normalized_request_digest,
}
use pane_fleet.Commons.Lifecycle.{
  initial_state, state_transitions, is_state_of, state_name, allows, is_closed, audience_includes,
  scope_includes, owns, can_agent_transition,
}
use pane_fleet.Commons.Validate.{
  distinct, normalized_acknowledgements, fits_thread, fits_supersession, normalized_message,
  normalized_operation, message_by_id, message_ids, operation_ids, thread_fits, supersession_fits,
  check_message, check_operations, validated_store, check_header, validate_agent_commons_store,
}
use pane_fleet.Commons.Changes.{
  set_message, fresh_id, supersedable, retire, created_message, create_change, is_addressed,
  reply_to, reply_change, acknowledged, acknowledge_change, moved_to, transition_change,
}
use pane_fleet.Commons.Repository.{
  empty_agent_commons_store, initialize, public_message, action_name, operation_by_id, replay_of,
  appended, applied, mutate, create_message, reply_message, acknowledge_message, transition_message,
}
use pane_fleet.Commons.Inbox.{
  roots_of, open_attention, counts_of, latest_from, last_activity, public_snapshot, last_by_id,
  default_visible_threads, viewer_threads, is_hidden, is_visible, insert_newest, sort_newest,
  inbox_of, agent_commons_inbox,
}
use pane_fleet.Commons.Help.{
  helper_of, agent_commons_helper_identity, without_slashes, normalized_workspace,
  help_candidate_summary, is_codex_session, is_helper_session, is_available, interaction_time,
  waits_longer, longest_waiting, is_full, recommended, block, spawn_or_block, recommend_agent,
  recommend_open, agent_commons_help_recommendation,
}

abbrev repeated : ℕ → ℕ → Text
repeated zero c = []
repeated (suc n) c = c ∷ repeated n c

-- Every digest is the same, and every store is short.
abbrev pub board_host : CommonsHost
board_host = record {
  platform = platform;
  request_digest = λ r. repeated 64 b'c';
  store_bytes = λ s. 1;
  create_id = codes "commons-bbbbbbbbbbbb";
  now = codes "2";
}

abbrev pub author : AgentActor
author = record {
  session = codes "codex-a";
  session_created_at = codes "1";
  pane_id = codes "%1";
  pane_pid = 7;
  label = codes "a";
}

abbrev pub lesson_in : MessageState → ℕ → Text → Message
lesson_in state revision at = record {
  version = 1;
  id = codes "commons-aaaaaaaaaaaa";
  thread_id = codes "commons-aaaaaaaaaaaa";
  parent_id = [];
  revision = revision;
  author = agent author;
  audience = everyone;
  category = Category.lesson;
  attention = Attention.board;
  scope = codes "global";
  body = codes "b";
  evidence = [];
  state = state;
  independent = false;
  supersedes_id = [];
  acknowledgements = [];
  created_at = codes "1";
  updated_at = at;
}

abbrev pub board : CommonsStore
board = record {
  version = 1;
  revision = 0;
  messages = lesson_in candidate 1 (codes "1") ∷ [];
  operations = [];
}

abbrev pub tried_board : CommonsStore
tried_board = record {
  version = 1;
  revision = 1;
  messages = lesson_in tried 2 (codes "2") ∷ [];
  operations =
      record {
        id = codes "commons-op-aaaaaaaa";
        action = message_transition;
        message_id = codes "commons-aaaaaaaaaaaa";
        request_digest = repeated 64 b'c';
        at = codes "2";
      }
      ∷ [];
}

abbrev pub tried_reply : Reply
tried_reply = record {
  store = tried_board;
  replayed = false;
  revision = 1;
  message = public_message (lesson_in tried 2 (codes "2"));
}

pub tries-lesson :
    transition_message board_host
      (some board)
      (codes "commons-aaaaaaaaaaaa")
      tried
      (agent author)
      (codes "commons-op-aaaaaaaa")
    ≡ ok tried_reply
unfolding text_eq includes is_digit is_lower is_upper is_hex is_space trim_start trim starts_with
    matches_id is_absolute newlines text collapse inline is_control is_digest valid_timestamp
    date_before lower_first lower_rest timestamp bounded_text normalized_text normalized_inline
    alphanumeric session_rest operation_rest actor_session_pattern message_id_pattern
    operation_id_pattern pane_id_pattern normalized_session normalized_message_id
    optional_message_id normalized_operation_id spaced default_label normalized_agent
    normalized_actor first_occurrences audience_of normalized_audience normalized_scope
    created_category created_supersedes normalized_create_input acknowledgement_key
    normalized_acknowledgement normalized_request_digest initial_state state_transitions is_state_of
    state_name allows is_closed audience_includes scope_includes owns can_agent_transition distinct
    normalized_acknowledgements fits_thread fits_supersession normalized_message
    normalized_operation message_by_id message_ids operation_ids thread_fits supersession_fits
    check_message check_operations validated_store check_header validate_agent_commons_store
    empty_agent_commons_store initialize public_message action_name operation_by_id replay_of
    appended applied mutate set_message fresh_id supersedable retire created_message create_change
    create_message is_addressed reply_to reply_change reply_message acknowledged acknowledge_change
    acknowledge_message moved_to transition_change transition_message roots_of open_attention
    counts_of latest_from last_activity public_snapshot last_by_id default_visible_threads
    viewer_threads is_hidden is_visible insert_newest sort_newest inbox_of agent_commons_inbox
    helper_of agent_commons_helper_identity without_slashes normalized_workspace
    help_candidate_summary is_codex_session is_helper_session is_available interaction_time
    waits_longer longest_waiting is_full recommended block spawn_or_block recommend_agent
    recommend_open agent_commons_help_recommendation
tries-lesson = refl

abbrev pub inbox : List PublicMessage
inbox = public_message (lesson_in candidate 1 (codes "1")) ∷ []

pub reads-inbox :
    agent_commons_inbox board_host
      (lesson_in candidate 1 (codes "1") ∷ [])
      (codes "codex-b")
      []
      false
      5
    ≡ ok inbox
unfolding text_eq includes is_digit is_lower is_upper is_hex is_space trim_start trim starts_with
    matches_id is_absolute newlines text collapse inline is_control is_digest valid_timestamp
    date_before lower_first lower_rest timestamp bounded_text normalized_text normalized_inline
    alphanumeric session_rest operation_rest actor_session_pattern message_id_pattern
    operation_id_pattern pane_id_pattern normalized_session normalized_message_id
    optional_message_id normalized_operation_id spaced default_label normalized_agent
    normalized_actor first_occurrences audience_of normalized_audience normalized_scope
    created_category created_supersedes normalized_create_input acknowledgement_key
    normalized_acknowledgement normalized_request_digest initial_state state_transitions is_state_of
    state_name allows is_closed audience_includes scope_includes owns can_agent_transition distinct
    normalized_acknowledgements fits_thread fits_supersession normalized_message
    normalized_operation message_by_id message_ids operation_ids thread_fits supersession_fits
    check_message check_operations validated_store check_header validate_agent_commons_store
    empty_agent_commons_store initialize public_message action_name operation_by_id replay_of
    appended applied mutate set_message fresh_id supersedable retire created_message create_change
    create_message is_addressed reply_to reply_change reply_message acknowledged acknowledge_change
    acknowledge_message moved_to transition_change transition_message roots_of open_attention
    counts_of latest_from last_activity public_snapshot last_by_id default_visible_threads
    viewer_threads is_hidden is_visible insert_newest sort_newest inbox_of agent_commons_inbox
    helper_of agent_commons_helper_identity without_slashes normalized_workspace
    help_candidate_summary is_codex_session is_helper_session is_available interaction_time
    waits_longer longest_waiting is_full recommended block spawn_or_block recommend_agent
    recommend_open agent_commons_help_recommendation
reads-inbox = refl

abbrev pub help_message : Message
help_message = record (lesson_in open_ 1 (codes "1")) {
  category = Category.help_request;
  author = operator;
}

abbrev pub options : HelpOptions
options = record {
  agents = [];
  busy_sessions = [];
  workspace = codes "/w/";
  gate_ok = true;
  gate_error = [];
  disk_used_percent = some 89;
  control_plane_ready = true;
}

abbrev pub locale_before : Text → Text → Bool
locale_before s t = false

abbrev pub advice : Recommendation
advice = record {
  message_id = codes "commons-aaaaaaaaaaaa";
  message_revision = 1;
  helper = record {
    name = codes "commons-helper-aaaaaaaaaaaa";
    session = codes "codex-commons-helper-aaaaaaaaaaaa";
  };
  workspace = codes "/w";
  kind = spawn;
  candidate = none;
  spawn_allowed = true;
  reason = codes "operator_approval_required";
}

pub advises-help :
    agent_commons_help_recommendation board_host locale_before help_message options ≡ ok advice
unfolding text_eq includes is_digit is_lower is_upper is_hex is_space trim_start trim starts_with
    matches_id is_absolute newlines text collapse inline is_control is_digest valid_timestamp
    date_before lower_first lower_rest timestamp bounded_text normalized_text normalized_inline
    alphanumeric session_rest operation_rest actor_session_pattern message_id_pattern
    operation_id_pattern pane_id_pattern normalized_session normalized_message_id
    optional_message_id normalized_operation_id spaced default_label normalized_agent
    normalized_actor first_occurrences audience_of normalized_audience normalized_scope
    created_category created_supersedes normalized_create_input acknowledgement_key
    normalized_acknowledgement normalized_request_digest initial_state state_transitions is_state_of
    state_name allows is_closed audience_includes scope_includes owns can_agent_transition distinct
    normalized_acknowledgements fits_thread fits_supersession normalized_message
    normalized_operation message_by_id message_ids operation_ids thread_fits supersession_fits
    check_message check_operations validated_store check_header validate_agent_commons_store
    empty_agent_commons_store initialize public_message action_name operation_by_id replay_of
    appended applied mutate set_message fresh_id supersedable retire created_message create_change
    create_message is_addressed reply_to reply_change reply_message acknowledged acknowledge_change
    acknowledge_message moved_to transition_change transition_message roots_of open_attention
    counts_of latest_from last_activity public_snapshot last_by_id default_visible_threads
    viewer_threads is_hidden is_visible insert_newest sort_newest inbox_of agent_commons_inbox
    helper_of agent_commons_helper_identity without_slashes normalized_workspace
    help_candidate_summary is_codex_session is_helper_session is_available interaction_time
    waits_longer longest_waiting is_full recommended block spawn_or_block recommend_agent
    recommend_open agent_commons_help_recommendation
advises-help = refl
