-- ===== src/Commons/Changes.antt =====
-- The changes that the calls of agent-commons.js make to the messages, lines 738 to 860.
use pane_fleet.Base.{
  ◌+◌, Bool, true, false, not, ◌&&◌, ◌||◌, none, some, List, [], ◌∷◌, ◌++◌, map, some_of, Text,
  codes, text_eq, is_empty, Result, ok, ◌>>=◌, ◌>>◌, guard, or_throw, if◌then◌else◌,
}
use pane_fleet.Commons.Types.{
  CommonsHost, CommonsError, invalid, message_duplicate, parent_not_found, reply_not_addressed,
  message_not_found, acknowledgement_not_addressed, transition_forbidden, update, MessageState,
  open_, retired, Actor, operator, agent, Acknowledgement, Message, CommonsStore, MessageInput,
}
use pane_fleet.Commons.Fields.{normalized_message_id, acknowledgement_key}
use pane_fleet.Commons.Lifecycle.{
  initial_state, state_transitions, allows, state_name, audience_includes, can_agent_transition,
}
use pane_fleet.Commons.Validate.{is_lesson, message_by_id}

pub record Mutation : Type 0 where
  pub messages : List Message
  pub message_id : Text

-- messages.map((message) => message.id === id ? f(message) : message)
unfoldable pub set_message : Text → (Message → Message) → List Message → List Message
set_message id f messages = map (λ (m : Message). if text_eq m.id id then f m else m) messages

unfoldable pub fresh_id : CommonsHost → CommonsStore → Result CommonsError Text
fresh_id host store = do
  id ← normalized_message_id host host.create_id (codes "message_id")
  guard (not (some_of (λ (m : Message). text_eq m.id id) store.messages)) message_duplicate
  ok id

unfoldable pub supersedable : CommonsStore → Text → Bool
supersedable store id = is_empty id || elim (message_by_id store.messages id) [
  | none ↦ false
  | some prior ↦
      is_lesson prior.category
      && is_empty prior.parent_id
      && not (text_eq (state_name prior.state) (codes "retired"))
]

unfoldable pub retire : Text → Message → Message
retire at message = record message {
  revision = message.revision + 1;
  state = retired;
  updated_at = at;
}

unfoldable pub created_message : Actor → MessageInput → Text → Text → Message
created_message author input id at = record {
  version = 1;
  id = id;
  thread_id = id;
  parent_id = [];
  revision = 1;
  author = author;
  audience = input.audience;
  category = input.category;
  attention = input.attention;
  scope = input.scope;
  body = input.body;
  evidence = input.evidence;
  state = initial_state input.category;
  independent = input.independent;
  supersedes_id = input.supersedes_id;
  acknowledgements = [];
  created_at = at;
  updated_at = at;
}

unfoldable pub create_change :
    CommonsHost → Actor → MessageInput → CommonsStore → Text → Result CommonsError Mutation
create_change host author input store at = do
  id ← fresh_id host store
  guard (supersedable store input.supersedes_id) (invalid (codes "supersession"))
  ok (record {
    messages =
        (if is_empty input.supersedes_id
          then store.messages
          else set_message input.supersedes_id (retire at) store.messages)
        ++ created_message author input id at ∷ [];
    message_id = id;
  })

-- author.kind === 'agent' && !audienceIncludes(message, author.session)
unfoldable pub is_addressed : Message → Actor → Bool
is_addressed message operator = true
is_addressed message (agent a) = audience_includes message a.session

unfoldable pub reply_to : Actor → MessageInput → Message → Text → Text → Text → Message
reply_to author input root parent_id id at = record (created_message author input id at) {
  thread_id = root.id;
  parent_id = parent_id;
  audience = root.audience;
  category = update;
  scope = root.scope;
  state = open_;
  independent = false;
  supersedes_id = [];
}

unfoldable pub reply_change :
    CommonsHost → Actor → Text → MessageInput → CommonsStore → Text → Result CommonsError Mutation
reply_change host author parent_id input store at = do
  parent ← or_throw (message_by_id store.messages parent_id) parent_not_found
  root ← or_throw (message_by_id store.messages parent.thread_id) (invalid (codes "thread"))
  guard (is_addressed root author) reply_not_addressed
  id ← fresh_id host store
  ok (record {
    messages = store.messages ++ reply_to author input root parent_id id at ∷ [];
    message_id = id;
  })

unfoldable pub acknowledged : Actor → Text → Message → Message
acknowledged actor at message = record message {
  revision = message.revision + 1;
  acknowledgements =
      if some_of
        (λ (a : Acknowledgement). text_eq (acknowledgement_key a.actor) (acknowledgement_key actor))
        message.acknowledgements
      then message.acknowledgements
      else message.acknowledgements ++ record { actor = actor; at = at } ∷ [];
  updated_at = at;
}

unfoldable pub acknowledge_change :
    Actor → Text → CommonsStore → Text → Result CommonsError Mutation
acknowledge_change actor message_id store at = do
  current ← or_throw (message_by_id store.messages message_id) message_not_found
  guard (is_addressed current actor) acknowledgement_not_addressed
  ok (record {
    messages = set_message message_id (acknowledged actor at) store.messages;
    message_id = message_id;
  })

unfoldable pub moved_to : MessageState → Text → Message → Message
moved_to next_state at message = record message {
  revision = message.revision + 1;
  state = next_state;
  updated_at = at;
}

unfoldable pub transition_change :
    Actor → Text → MessageState → CommonsStore → Text → Result CommonsError Mutation
transition_change actor message_id next_state store at = do
  current ← or_throw (message_by_id store.messages message_id) message_not_found
  guard (allows (state_transitions current.category current.state) next_state)
      (invalid (codes "transition"))
  guard (can_agent_transition current actor next_state) transition_forbidden
  ok (record {
    messages = set_message message_id (moved_to next_state at) store.messages;
    message_id = message_id;
  })
