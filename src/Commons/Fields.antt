-- ===== src/Commons/Fields.antt =====
-- The field checks of agent-commons.js, lines 146 to 281 and 355 to 359.
use pane_fleet.Base.{
  ℕ, Bool, true, false, not, ◌&&◌, ◌||◌, List, [], ◌∷◌, map, leb, ◌==◌, length, some_of, every,
  Text, codes, includes, is_empty, is_digit, is_lower, is_upper, starts_with, behind, trim,
  matches_id, Result, ok, ◌>>=◌, ◌>>◌, guard, map_m, if◌then◌else◌, ◌++◌,
}
use pane_fleet.Delivery.Fields.{
  max_safe_integer, text, inline, is_control, is_digest, valid_timestamp, lower_first, lower_rest,
}
use pane_fleet.Commons.Types.{
  CommonsHost, CommonsError, invalid, Category, update, Actor, operator, agent, AgentActor,
  Audience, everyone, sessions, Acknowledgement, MessageInput,
}

unfoldable pub timestamp : CommonsHost → Text → Result CommonsError Text
timestamp host value = do
  guard (valid_timestamp host.platform value) (invalid (codes "now"))
  ok value

unfoldable pub bounded_text : Text → Text → ℕ → Bool → Result CommonsError Text
bounded_text result field maximum required = do
  guard
      (not (required && is_empty result)
        && leb (length result) maximum
        && not (some_of is_control result))
      (invalid field)
  ok result

unfoldable pub normalized_text : Text → Text → ℕ → Bool → Result CommonsError Text
normalized_text value field maximum required = bounded_text (text value) field maximum required

-- The same with `inline: true`.
unfoldable pub normalized_inline : Text → Text → ℕ → Bool → Result CommonsError Text
normalized_inline value field maximum required = bounded_text (inline value) field maximum required

unfoldable pub alphanumeric : ℕ → Bool
alphanumeric c = is_lower c || is_upper c || is_digit c

unfoldable pub session_rest : ℕ → Bool
session_rest c = alphanumeric c || c == b'_' || c == b'.' || c == b'-'

unfoldable pub operation_rest : ℕ → Bool
operation_rest c = alphanumeric c || c == b'.' || c == b'_' || c == b':' || c == b'-'

unfoldable pub actor_session_pattern : Text → Bool
actor_session_pattern s = matches_id [] alphanumeric session_rest 0 127 s

unfoldable pub message_id_pattern : Text → Bool
message_id_pattern s = matches_id (codes "commons-") lower_first lower_rest 11 63 s

unfoldable pub operation_id_pattern : Text → Bool
operation_id_pattern s = matches_id (codes "commons-op-") alphanumeric operation_rest 7 111 s

abbrev one_or_more : (ℕ → Bool) → Text → Bool
one_or_more f [] = false
one_or_more f (c ∷ s) = f c && every f s

unfoldable pub pane_id_pattern : Text → Bool
pane_id_pattern s = starts_with (codes "%") s && one_or_more is_digit (behind (codes "%") s)

unfoldable pub normalized_session : Text → Text → Result CommonsError Text
normalized_session value field = do
  result ← normalized_inline value field 128 true
  guard (actor_session_pattern result) (invalid field)
  ok result

unfoldable pub normalized_message_id : CommonsHost → Text → Text → Result CommonsError Text
normalized_message_id host value field =
    let result = host.platform.to_lower_case (trim value) in
    do guard (message_id_pattern result) (invalid field); ok result

-- The same with `optional: true`.
unfoldable pub optional_message_id : CommonsHost → Text → Text → Result CommonsError Text
optional_message_id host value field =
    if is_empty (host.platform.to_lower_case (trim value))
    then ok []
    else normalized_message_id host value field

unfoldable pub normalized_operation_id : Text → Result CommonsError Text
normalized_operation_id value = do
  guard (operation_id_pattern (trim value)) (invalid (codes "operation_id"))
  ok (trim value)

-- session.replace(/^codex-/, '').replaceAll('-', ' ')
unfoldable pub spaced : Text → Text
spaced s = map (λ c. if c == b'-' then b' ' else c) s

unfoldable pub default_label : Text → Text
default_label session =
    if starts_with (codes "codex-") session
    then spaced (behind (codes "codex-") session)
    else spaced session

unfoldable pub normalized_agent : CommonsHost → AgentActor → Result CommonsError AgentActor
normalized_agent host value = do
  session ← normalized_session value.session (codes "actor_session")
  pane_id ← normalized_inline value.pane_id (codes "actor_pane_id") 32 true
  guard (pane_id_pattern pane_id) (invalid (codes "actor_pane_id"))
  created_at ← normalized_inline value.session_created_at (codes "actor_session_created_at") 40 true
  guard (valid_timestamp host.platform created_at) (invalid (codes "actor_session_created_at"))
  guard (leb 1 value.pane_pid && leb value.pane_pid max_safe_integer)
      (invalid (codes "actor_pane_pid"))
  label ←
      normalized_inline (if is_empty value.label then default_label session else value.label)
        (codes "actor_label") 80 true
  ok (record {
    session = session;
    session_created_at = created_at;
    pane_id = pane_id;
    pane_pid = value.pane_pid;
    label = label;
  })

unfoldable pub normalized_actor : CommonsHost → Actor → Result CommonsError Actor
normalized_actor host operator = ok operator
normalized_actor host (agent value) = normalized_agent host value >>= λ a. ok (agent a)

-- [...new Set(values)]
unfoldable pub first_occurrences : List Text → List Text → List Text
first_occurrences seen [] = []
first_occurrences seen (x ∷ xs) =
    let skipped = first_occurrences seen xs in
    let kept = first_occurrences (x ∷ seen) xs in if includes seen x then skipped else x ∷ kept

unfoldable pub audience_of : List Text → Result CommonsError Audience
audience_of names = do
  guard (leb 1 (length names) && leb (length names) 24) (invalid (codes "audience"))
  ok (sessions names)

unfoldable pub normalized_audience : Audience → Result CommonsError Audience
normalized_audience everyone = ok everyone
normalized_audience (sessions values) = do
  names ← map_m (λ value. normalized_session value (codes "audience_session")) values
  audience_of (first_occurrences [] names)

-- value || 'global'
unfoldable pub normalized_scope : Text → Result CommonsError Text
normalized_scope value =
    normalized_inline (if is_empty value then codes "global" else value) (codes "scope") 512 true

abbrev pub is_decision : Category → Bool
is_decision Category.decision = true
is_decision _ = false

-- The category, the independence and the superseded lesson of a root message; a reply has none.
unfoldable pub created_category : Text → Category → Category
created_category parent_id category = if is_empty parent_id then category else update

unfoldable pub created_supersedes : CommonsHost → Text → Text → Result CommonsError Text
created_supersedes host parent_id supersedes_id =
    if is_empty parent_id
    then optional_message_id host supersedes_id (codes "supersedes_id")
    else ok []

unfoldable pub normalized_create_input :
    CommonsHost → MessageInput → Text → Result CommonsError MessageInput
normalized_create_input host value reply_to = do
  parent_id ←
      optional_message_id host (if is_empty reply_to then value.parent_id else reply_to)
        (codes "parent_id")
  let category = created_category parent_id value.category
  supersedes_id ← created_supersedes host parent_id value.supersedes_id
  audience ← normalized_audience value.audience
  scope ← normalized_scope value.scope
  body ← normalized_text value.body (codes "body") 6000 true
  evidence ← normalized_text value.evidence (codes "evidence") 3000 false
  ok (record {
    parent_id = parent_id;
    category = category;
    attention = value.attention;
    audience = audience;
    scope = scope;
    body = body;
    evidence = evidence;
    independent = is_empty parent_id && is_decision category && value.independent;
    supersedes_id = supersedes_id;
  })

-- acknowledgementKey
unfoldable pub acknowledgement_key : Actor → Text
acknowledgement_key operator = codes "operator"
acknowledgement_key (agent a) = codes "agent:" ++ a.session

unfoldable pub normalized_acknowledgement :
    CommonsHost → Acknowledgement → Result CommonsError Acknowledgement
normalized_acknowledgement host value = do
  actor ← normalized_actor host value.actor
  at ← timestamp host value.at
  ok (record { actor = actor; at = at })

unfoldable pub normalized_request_digest : CommonsHost → Text → Result CommonsError Text
normalized_request_digest host value =
    let result = host.platform.to_lower_case (trim value) in
    do guard (is_digest result) (invalid (codes "operation")); ok result
