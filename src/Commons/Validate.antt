-- ===== src/Commons/Validate.antt =====
-- normalizedMessage, normalizedOperation and validateAgentCommonsStore of agent-commons.js, lines 283
-- to 438.
use pane_fleet.Base.{
  Bool, true, false, not, ◌&&◌, ◌||◌, Option, none, some, List, [], ◌∷◌, map, leb, ◌==◌, length,
  Text, codes, text_eq, includes, is_empty, find, Result, ok, ◌>>=◌, ◌>>◌, guard, for_each, map_m,
  if◌then◌else◌,
}
use pane_fleet.Delivery.Fields.{max_safe_integer, date_before}
use pane_fleet.Commons.Types.{
  CommonsHost, CommonsError, invalid, store_version_unsupported, message_duplicate, store_too_large,
  Category, Acknowledgement, Message, Operation, CommonsStore,
}
use pane_fleet.Commons.Fields.{
  timestamp, normalized_text, normalized_message_id, optional_message_id, normalized_operation_id,
  normalized_actor, normalized_audience, normalized_scope, is_decision, acknowledgement_key,
  normalized_acknowledgement, normalized_request_digest,
}
use pane_fleet.Commons.Lifecycle.{state_name, is_state_of}

-- new Set(keys).size === keys.length
unfoldable pub distinct : List Text → Bool
distinct [] = true
distinct (key ∷ keys) = not (includes keys key) && distinct keys

abbrev pub is_lesson : Category → Bool
is_lesson Category.lesson = true
is_lesson _ = false

unfoldable pub normalized_acknowledgements :
    CommonsHost → List Acknowledgement → Result CommonsError (List Acknowledgement)
normalized_acknowledgements host values = do
  acknowledgements ← map_m (normalized_acknowledgement host) values
  guard (leb (length acknowledgements) 64) (invalid (codes "acknowledgements"))
  guard (distinct (map (λ (a : Acknowledgement). acknowledgement_key a.actor) acknowledgements))
      (invalid (codes "acknowledgements"))
  ok acknowledgements

-- The thread of a message, lines 301 to 303.
unfoldable pub fits_thread : Text → Text → Text → Bool
fits_thread id parent_id thread_id =
    if is_empty parent_id then text_eq thread_id id else not (text_eq thread_id id)

-- Lines 326 to 328.
unfoldable pub fits_supersession : Text → Text → Category → Text → Bool
fits_supersession id parent_id category supersedes_id =
    is_empty supersedes_id
    || (is_lesson category && is_empty parent_id && not (text_eq supersedes_id id))

unfoldable pub normalized_message : CommonsHost → Message → Result CommonsError Message
normalized_message host value = do
  guard (value.version == 1) (invalid (codes "message_version"))
  id ← normalized_message_id host value.id (codes "message_id")
  parent_id ← optional_message_id host value.parent_id (codes "parent_id")
  thread_id ← normalized_message_id host value.thread_id (codes "thread_id")
  guard (fits_thread id parent_id thread_id) (invalid (codes "thread"))
  guard (leb 1 value.revision && leb value.revision max_safe_integer)
      (invalid (codes "message_revision"))
  acknowledgements ← normalized_acknowledgements host value.acknowledgements
  created_at ← timestamp host value.created_at
  updated_at ← timestamp host value.updated_at
  guard (not (date_before host.platform updated_at created_at))
      (invalid (codes "message_chronology"))
  guard (not value.independent || (is_decision value.category && is_empty parent_id))
      (invalid (codes "independent"))
  supersedes_id ← optional_message_id host value.supersedes_id (codes "supersedes_id")
  guard (fits_supersession id parent_id value.category supersedes_id)
      (invalid (codes "supersession"))
  author ← normalized_actor host value.author
  audience ← normalized_audience value.audience
  scope ← normalized_scope value.scope
  body ← normalized_text value.body (codes "body") 6000 true
  evidence ← normalized_text value.evidence (codes "evidence") 3000 false
  guard (is_state_of value.category value.state) (invalid (codes "state"))
  ok (record value {
    id = id;
    thread_id = thread_id;
    parent_id = parent_id;
    author = author;
    audience = audience;
    scope = scope;
    body = body;
    evidence = evidence;
    supersedes_id = supersedes_id;
    acknowledgements = acknowledgements;
    created_at = created_at;
    updated_at = updated_at;
  })

unfoldable pub normalized_operation : CommonsHost → Operation → Result CommonsError Operation
normalized_operation host value = do
  id ← normalized_operation_id value.id
  message_id ← normalized_message_id host value.message_id (codes "message_id")
  request_digest ← normalized_request_digest host value.request_digest
  at ← timestamp host value.at
  ok (record value { id = id; message_id = message_id; request_digest = request_digest; at = at })

-- byId.get(id)
unfoldable pub message_by_id : List Message → Text → Option Message
message_by_id messages id = find (λ (m : Message). text_eq m.id id) messages

unfoldable pub message_ids : List Message → List Text
message_ids messages = map (λ (m : Message). m.id) messages

unfoldable pub operation_ids : List Operation → List Text
operation_ids operations = map (λ (o : Operation). o.id) operations

-- Lines 405 to 411.
unfoldable pub thread_fits : List Message → Message → Bool
thread_fits messages message =
    is_empty message.parent_id || elim (message_by_id messages message.parent_id) [
      | none ↦ false
      | some parent ↦ elim (message_by_id messages message.thread_id) [
        | none ↦ false
        | some root ↦ is_empty root.parent_id && text_eq parent.thread_id message.thread_id
      ]
    ]

-- Lines 412 to 417.
unfoldable pub supersession_fits : List Message → Message → Bool
supersession_fits messages message =
    is_empty message.supersedes_id || elim (message_by_id messages message.supersedes_id) [
      | none ↦ false
      | some prior ↦ is_lesson prior.category && text_eq (state_name prior.state) (codes "retired")
    ]

unfoldable pub check_message : List Message → Message → Result CommonsError (Unit {0})
check_message messages message = do
  guard (thread_fits messages message) (invalid (codes "thread"))
  guard (supersession_fits messages message) (invalid (codes "supersession"))

-- The loop of lines 423 to 432, with operationIds and previousAt.
unfoldable pub check_operations :
    CommonsHost → List Text → List Text → Text → List Operation → Result CommonsError (Unit {0})
check_operations host ids seen previous_at [] = ok tt
check_operations host ids seen previous_at (operation ∷ operations) = do
  guard (not (includes seen operation.id) && includes ids operation.message_id)
      (invalid (codes "operation"))
  guard (is_empty previous_at || not (date_before host.platform operation.at previous_at))
      (invalid (codes "operation_chronology"))
  check_operations host ids (operation.id ∷ seen) operation.at operations

unfoldable pub validated_store : CommonsStore → List Message → List Operation → CommonsStore
validated_store value messages operations = record {
  version = 1;
  revision = value.revision;
  messages = messages;
  operations = operations;
}

unfoldable pub check_header : CommonsStore → Result CommonsError (Unit {0})
check_header value = do
  guard (value.version == 1) store_version_unsupported
  guard (leb value.revision max_safe_integer) (invalid (codes "store_revision"))
  guard (leb (length value.messages) 1000) (invalid (codes "messages"))
  guard (leb (length value.operations) 2000) (invalid (codes "operations"))
  guard (value.revision == length value.operations) (invalid (codes "store_revision"))

unfoldable pub validate_agent_commons_store :
    CommonsHost → CommonsStore → Result CommonsError CommonsStore
validate_agent_commons_store host value = do
  check_header value
  messages ← map_m (normalized_message host) value.messages
  guard (distinct (message_ids messages)) message_duplicate
  for_each (check_message messages) messages
  operations ← map_m (normalized_operation host) value.operations
  check_operations host (message_ids messages) [] [] operations
  let store = validated_store value messages operations
  guard (leb (host.store_bytes store) 16777216) store_too_large
  ok store
