-- ===== src/Commons/Inbox.antt =====
-- publicSnapshot and agentCommonsInbox of agent-commons.js, lines 447 to 530.
pub mod Shown
use mathlib.Core.List.{reverse}
use pane_fleet.Base.{
  ℕ, ◌-◌, Bool, true, false, not, ◌&&◌, ◌||◌, Option, none, some, List, [], ◌∷◌, map, filter, take,
  leb, length, Text, codes, text_eq, includes, is_empty, Result, ok, err, ◌>>=◌, ◌>>◌, guard, map_m,
  if◌then◌else◌,
}
use pane_fleet.Delivery.Fields.{date_before}
use pane_fleet.Commons.Types.{
  CommonsHost, CommonsError, invalid, Category, Attention, MessageState, Actor, operator, agent,
  Message, CommonsStore,
}
use pane_fleet.Commons.Fields.{normalized_session}
use pane_fleet.Commons.Lifecycle.{is_closed, state_name, audience_includes, scope_includes, owns}
use pane_fleet.Commons.Validate.{is_lesson, normalized_message}
use pane_fleet.Commons.Repository.{PublicMessage, public_message}

pub record Counts : Type 0 where
  pub threads : ℕ
  pub replies : ℕ
  pub attention : ℕ
  pub stop : ℕ
  pub coordination : ℕ
  pub help_requests : ℕ
  pub lessons : ℕ

-- The part `safety` of a snapshot is constant.
pub record BoardSnapshot : Type 0 where
  pub version : ℕ
  pub revision : ℕ
  pub messages : List PublicMessage
  pub counts : Counts
  pub last_activity_at : Option Text

abbrev asks_attention : Attention → Bool
asks_attention Attention.board = false
asks_attention _ = true

abbrev is_stop : Attention → Bool
is_stop Attention.stop = true
is_stop _ = false

-- ['wait', 'work_claim', 'help_request']
abbrev is_coordination : Category → Bool
is_coordination Category.wait = true
is_coordination Category.work_claim = true
is_coordination Category.help_request = true
is_coordination _ = false

abbrev pub is_help_request : Category → Bool
is_help_request Category.help_request = true
is_help_request _ = false

unfoldable pub roots_of : List Message → List Message
roots_of messages = filter (λ (m : Message). is_empty m.parent_id) messages

unfoldable pub open_attention : List Message → List Message
open_attention messages =
    filter (λ (m : Message). asks_attention m.attention && not (is_closed m.state)) messages

unfoldable pub counts_of : List Message → Counts
counts_of messages =
    let roots = roots_of messages in
    let attention = open_attention messages in
    record {
      threads = length roots;
      replies = length messages - length roots;
      attention = length attention;
      stop = length (filter (λ (m : Message). is_stop m.attention) attention);
      coordination = length (filter (λ (m : Message). is_coordination m.category) roots);
      help_requests = length (
          filter
            (λ (m : Message).
              is_help_request m.category && text_eq (state_name m.state) (codes "open"))
            roots);
      lessons = length (filter (λ (m : Message). is_lesson m.category) roots);
    }

-- The reduction of lines 467 to 469.
unfoldable pub latest_from : CommonsHost → Text → List Message → Text
latest_from host latest [] = latest
latest_from host latest (m ∷ messages) =
    latest_from host
      (if is_empty latest || date_before host.platform latest m.updated_at
        then m.updated_at
        else latest)
      messages

unfoldable pub last_activity : CommonsHost → List Message → Option Text
last_activity host messages =
    if is_empty (latest_from host [] messages) then none else some (latest_from host [] messages)

unfoldable pub public_snapshot : CommonsHost → CommonsStore → BoardSnapshot
public_snapshot host store = record {
  version = 1;
  revision = store.revision;
  messages = map public_message store.messages;
  counts = counts_of store.messages;
  last_activity_at = last_activity host store.messages;
}

-- byId.get(id), of a map where a later message replaces an earlier one of the same id.
unfoldable pub last_by_id : List Message → Text → Option Message
last_by_id [] id = none
last_by_id (m ∷ messages) id = elim (last_by_id messages id) [
  | some found ↦ some found
  | none ↦ if text_eq m.id id then some m else none
]

-- ['active', 'verified', 'supported']
abbrev stays_visible : MessageState → Bool
stays_visible MessageState.active = true
stays_visible MessageState.verified = true
stays_visible MessageState.supported = true
stays_visible _ = false

unfoldable pub default_visible_threads : List Message → List Text
default_visible_threads messages =
    map (λ (m : Message). m.thread_id)
      (filter (λ (m : Message). not (is_closed m.state) || stays_visible m.state) messages)

unfoldable pub viewer_threads : List Message → Text → List Text
viewer_threads messages viewer =
    map (λ (m : Message). m.thread_id)
      (filter (λ (m : Message). not (is_empty m.parent_id) && owns m.author viewer) messages)

abbrev pub is_other_agent : Actor → Text → Bool
is_other_agent operator viewer = false
is_other_agent (agent author) viewer = not (text_eq author.session viewer)

-- Lines 516 to 522: another agent's reply in an independent thread, before the viewer has replied.
unfoldable pub is_hidden : List Message → Text → Message → Message → Bool
is_hidden messages viewer root message =
    not (is_empty message.parent_id)
    && root.independent
    && is_other_agent message.author viewer
    && not (includes (viewer_threads messages viewer) root.id)

unfoldable pub is_visible : List Message → Text → Text → Bool → Message → Bool
is_visible messages viewer scope include_resolved message =
    elim (last_by_id messages message.thread_id) [
      | none ↦ false
      | some root ↦
          audience_includes root viewer
          && scope_includes root scope
          && (include_resolved || includes (default_visible_threads messages) root.id)
          && not (is_hidden messages viewer root message)
    ]

-- .sort((left, right) => Date.parse(right.createdAt) - Date.parse(left.createdAt)), which is stable.
unfoldable pub insert_newest : CommonsHost → Message → List Message → List Message
insert_newest host m [] = m ∷ []
insert_newest host m (next ∷ messages) =
    let rest = insert_newest host m messages in
    if date_before host.platform m.created_at next.created_at
    then next ∷ rest
    else m ∷ next ∷ messages

unfoldable pub sort_newest : CommonsHost → List Message → List Message
sort_newest host [] = []
sort_newest host (m ∷ messages) = insert_newest host m (sort_newest host messages)

unfoldable pub inbox_of : CommonsHost → List Message → Text → Text → Bool → ℕ → List PublicMessage
inbox_of host messages viewer scope include_resolved limit = map public_message (
    reverse (
      take limit
        (sort_newest host (filter (is_visible messages viewer scope include_resolved) messages))))

unfoldable pub agent_commons_inbox :
    CommonsHost → List Message → Text → Text → Bool → ℕ → Result CommonsError (List PublicMessage)
agent_commons_inbox host snapshot session scope include_resolved limit = do
  viewer ← normalized_session session (codes "viewer_session")
  guard (leb 1 limit && leb limit 200) (invalid (codes "inbox_limit"))
  messages ← map_m (normalized_message host) snapshot
  ok (inbox_of host messages viewer scope include_resolved limit)
