-- ===== src/Commons/Repository.antt =====
-- createAgentCommonsRepository of agent-commons.js, lines 376 to 382 and 674 to 872. A call reads the
-- file and replaces it; the promise chain of the code runs one call after the other, so a call is a
-- function of the file. A failed write is not modelled.
pub mod Log
pub mod Recorded
pub mod Permission
pub mod Authority
use pane_fleet.Base.{
  ℕ, ◌+◌, Bool, true, false, not, ◌&&◌, ◌||◌, Option, none, some, List, [], ◌∷◌, ◌++◌, map, ltb,
  length, some_of, find, Text, codes, text_eq, is_empty, Result, ok, err, ◌>>=◌, ◌>>◌, guard,
  or_throw, if◌then◌else◌,
}
use pane_fleet.Commons.Types.{
  CommonsHost, CommonsError, invalid, message_duplicate, operation_conflict, capacity_reached,
  parent_not_found, reply_not_addressed, message_not_found, acknowledgement_not_addressed,
  transition_forbidden, Category, update, MessageState, open_, retired, Actor, operator, agent,
  Acknowledgement, Message, Action, message_create, message_reply, message_acknowledge,
  message_transition, Operation, CommonsStore, MessageInput, Request, create_request, reply_request,
  acknowledge_request, transition_request,
}
use pane_fleet.Commons.Fields.{
  timestamp, normalized_message_id, normalized_operation_id, normalized_actor,
  normalized_create_input, acknowledgement_key, normalized_request_digest,
}
use pane_fleet.Commons.Lifecycle.{
  initial_state, state_transitions, allows, state_name, audience_includes, can_agent_transition,
}
use pane_fleet.Commons.Validate.{is_lesson, message_by_id, validate_agent_commons_store}
use pane_fleet.Commons.Changes.{
  Mutation, acknowledge_change, acknowledged, create_change, created_message, fresh_id,
  is_addressed, moved_to, reply_change, reply_to, retire, set_message, supersedable,
  transition_change,
}

unfoldable pub empty_agent_commons_store : CommonsStore
empty_agent_commons_store = record { version = 1; revision = 0; messages = []; operations = [] }

-- A missing file is written with the empty store.
unfoldable pub initialize : CommonsHost → Option CommonsStore → Result CommonsError CommonsStore
initialize host none = ok empty_agent_commons_store
initialize host (some file) = validate_agent_commons_store host file

pub record PublicMessage : Type 0 where
  pub message : Message
  pub transitions : List MessageState

unfoldable pub public_message : Message → PublicMessage
public_message message = record {
  message = message;
  transitions = state_transitions message.category message.state;
}

pub record Reply : Type 0 where
  pub store : CommonsStore
  pub replayed : Bool
  pub revision : ℕ
  pub message : PublicMessage

unfoldable pub action_name : Action → Text
action_name message_create = codes "message.create"
action_name message_reply = codes "message.reply"
action_name message_acknowledge = codes "message.acknowledge"
action_name message_transition = codes "message.transition"

unfoldable pub operation_by_id : List Operation → Text → Option Operation
operation_by_id operations id = find (λ (o : Operation). text_eq o.id id) operations

-- Lines 705 to 710.
unfoldable pub replay_of : CommonsStore → Operation → Action → Text → Result CommonsError Reply
replay_of current replay action digest = do
  guard
      (text_eq (action_name replay.action) (action_name action)
        && text_eq replay.request_digest digest)
      operation_conflict
  message ←
      or_throw (message_by_id current.messages replay.message_id) (invalid (codes "operation"))
  ok (record {
    store = current;
    replayed = true;
    revision = current.revision;
    message = public_message message;
  })

-- The store that line 717 hands to the validation.
unfoldable pub appended :
    CommonsStore → List Message → Text → Action → Text → Text → Text → CommonsStore
appended current messages id action message_id digest at = record {
  version = 1;
  revision = current.revision + 1;
  messages = messages;
  operations =
      current.operations
      ++ record {
        id = id;
        action = action;
        message_id = message_id;
        request_digest = digest;
        at = at;
      }
        ∷ [];
}

-- Lines 712 to 731; the message of an id that the mutation has just put there.
unfoldable pub applied :
    CommonsHost
    → CommonsStore
    → Text
    → Action
    → Text
    → (CommonsStore → Text → Result CommonsError Mutation)
    → Result CommonsError Reply
applied host current id action digest mutation = do
  guard (ltb (length current.messages) 1000 && ltb (length current.operations) 2000)
      capacity_reached
  at ← timestamp host host.now
  change ← mutation current at
  next ←
      validate_agent_commons_store host
        (appended current change.messages id action change.message_id digest at)
  message ← or_throw (message_by_id next.messages change.message_id) (invalid (codes "operation"))
  ok (record {
    store = next;
    replayed = false;
    revision = next.revision;
    message = public_message message;
  })

unfoldable pub mutate :
    CommonsHost
    → Option CommonsStore
    → Text
    → Action
    → Text
    → (CommonsStore → Text → Result CommonsError Mutation)
    → Result CommonsError Reply
mutate host file operation_id action digest_value mutation = do
  id ← normalized_operation_id operation_id
  digest ← normalized_request_digest host digest_value
  current ← initialize host file
  elim (operation_by_id current.operations id) [
    | some replay ↦ replay_of current replay action digest
    | none ↦ applied host current id action digest mutation
  ]

unfoldable pub create_message :
    CommonsHost → Option CommonsStore → MessageInput → Actor → Text → Result CommonsError Reply
create_message host file input actor operation_id = do
  author ← normalized_actor host actor
  normalized ← normalized_create_input host input []
  mutate host file operation_id message_create
      (host.request_digest (create_request author normalized))
      (create_change host author normalized)

unfoldable pub reply_message :
    CommonsHost
    → Option CommonsStore
    → Text
    → MessageInput
    → Actor
    → Text
    → Result CommonsError Reply
reply_message host file parent_id_value input actor operation_id = do
  author ← normalized_actor host actor
  parent_id ← normalized_message_id host parent_id_value (codes "parent_id")
  normalized ← normalized_create_input host input parent_id
  mutate host file operation_id message_reply
      (host.request_digest (reply_request author parent_id normalized))
      (reply_change host author parent_id normalized)

unfoldable pub acknowledge_message :
    CommonsHost → Option CommonsStore → Text → Actor → Text → Result CommonsError Reply
acknowledge_message host file message_id_value actor_value operation_id = do
  actor ← normalized_actor host actor_value
  message_id ← normalized_message_id host message_id_value (codes "message_id")
  mutate host file operation_id message_acknowledge
      (host.request_digest (acknowledge_request actor message_id))
      (acknowledge_change actor message_id)

unfoldable pub transition_message :
    CommonsHost
    → Option CommonsStore
    → Text
    → MessageState
    → Actor
    → Text
    → Result CommonsError Reply
transition_message host file message_id_value next_state actor_value operation_id = do
  actor ← normalized_actor host actor_value
  message_id ← normalized_message_id host message_id_value (codes "message_id")
  mutate host file operation_id message_transition
      (host.request_digest (transition_request actor message_id next_state))
      (transition_change actor message_id next_state)
