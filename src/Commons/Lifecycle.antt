-- ===== src/Commons/Lifecycle.antt =====
-- The states of the messages of agent-commons.js, lines 46 to 120, and who may change them, lines 479
-- to 485 and 646 to 657.
use pane_fleet.Base.{
  Bool, true, false, ◌&&◌, ◌||◌, List, [], ◌∷◌, Text, codes, text_eq, includes, is_empty,
}
use pane_fleet.Commons.Types.{
  Category, MessageState, open_, resolved, withdrawn, observation, verified, disputed, superseded,
  waiting, accepted, declined, satisfied, claimed, completed, released, candidate, tried, supported,
  active, retired, Actor, operator, agent, everyone, sessions, Message,
}

-- INITIAL_STATE
unfoldable pub initial_state : Category → MessageState
initial_state Category.update = open_
initial_state Category.question = open_
initial_state Category.claim = observation
initial_state Category.decision = open_
initial_state Category.wait = waiting
initial_state Category.work_claim = claimed
initial_state Category.help_request = open_
initial_state Category.lesson = candidate

-- The rows of STATE_TRANSITIONS that update, question and help_request share.
abbrev request_transitions : MessageState → List MessageState
request_transitions MessageState.open_ = resolved ∷ withdrawn ∷ []
request_transitions MessageState.resolved = open_ ∷ []
request_transitions _ = []

-- STATE_TRANSITIONS[category]?.[state] || []
unfoldable pub state_transitions : Category → MessageState → List MessageState
state_transitions Category.update state = request_transitions state
state_transitions Category.question state = request_transitions state
state_transitions Category.help_request state = request_transitions state
state_transitions Category.claim MessageState.observation = verified ∷ disputed ∷ superseded ∷ []
state_transitions Category.claim MessageState.verified = disputed ∷ superseded ∷ []
state_transitions Category.claim MessageState.disputed = observation ∷ verified ∷ superseded ∷ []
state_transitions Category.decision MessageState.open_ = resolved ∷ withdrawn ∷ []
state_transitions Category.decision MessageState.resolved = open_ ∷ superseded ∷ []
state_transitions Category.wait MessageState.waiting =
    accepted ∷ declined ∷ satisfied ∷ withdrawn ∷ []
state_transitions Category.wait MessageState.accepted = declined ∷ satisfied ∷ withdrawn ∷ []
state_transitions Category.wait MessageState.declined = waiting ∷ []
state_transitions Category.work_claim MessageState.claimed = completed ∷ released ∷ disputed ∷ []
state_transitions Category.work_claim MessageState.disputed = claimed ∷ completed ∷ released ∷ []
state_transitions Category.lesson MessageState.candidate = tried ∷ disputed ∷ retired ∷ []
state_transitions Category.lesson MessageState.tried = supported ∷ disputed ∷ retired ∷ []
state_transitions Category.lesson MessageState.supported = active ∷ disputed ∷ retired ∷ []
state_transitions Category.lesson MessageState.active = disputed ∷ retired ∷ []
state_transitions Category.lesson MessageState.disputed = tried ∷ supported ∷ active ∷ retired ∷ []
state_transitions _ _ = []

-- The final states, whose row is empty and stands in STATE_TRANSITIONS.
abbrev is_last : Category → MessageState → Bool
is_last Category.update MessageState.withdrawn = true
is_last Category.question MessageState.withdrawn = true
is_last Category.help_request MessageState.withdrawn = true
is_last Category.claim MessageState.superseded = true
is_last Category.decision MessageState.superseded = true
is_last Category.decision MessageState.withdrawn = true
is_last Category.wait MessageState.satisfied = true
is_last Category.wait MessageState.withdrawn = true
is_last Category.work_claim MessageState.completed = true
is_last Category.work_claim MessageState.released = true
is_last Category.lesson MessageState.retired = true
is_last _ _ = false

abbrev has_some : List MessageState → Bool
has_some [] = false
has_some (s ∷ states) = true

-- Object.hasOwn(STATE_TRANSITIONS[category] || {}, state)
unfoldable pub is_state_of : Category → MessageState → Bool
is_state_of category state = has_some (state_transitions category state) || is_last category state

-- The name of a state, by which the code compares states.
unfoldable pub state_name : MessageState → Text
state_name MessageState.open_ = codes "open"
state_name MessageState.resolved = codes "resolved"
state_name MessageState.withdrawn = codes "withdrawn"
state_name MessageState.observation = codes "observation"
state_name MessageState.verified = codes "verified"
state_name MessageState.disputed = codes "disputed"
state_name MessageState.superseded = codes "superseded"
state_name MessageState.waiting = codes "waiting"
state_name MessageState.accepted = codes "accepted"
state_name MessageState.declined = codes "declined"
state_name MessageState.satisfied = codes "satisfied"
state_name MessageState.claimed = codes "claimed"
state_name MessageState.completed = codes "completed"
state_name MessageState.released = codes "released"
state_name MessageState.candidate = codes "candidate"
state_name MessageState.tried = codes "tried"
state_name MessageState.supported = codes "supported"
state_name MessageState.active = codes "active"
state_name MessageState.retired = codes "retired"

-- transitions.includes(nextState)
unfoldable pub allows : List MessageState → MessageState → Bool
allows [] state = false
allows (next ∷ states) state = text_eq (state_name next) (state_name state) || allows states state

-- ATTENTION_CLOSED_STATES
unfoldable pub is_closed : MessageState → Bool
is_closed MessageState.resolved = true
is_closed MessageState.withdrawn = true
is_closed MessageState.verified = true
is_closed MessageState.superseded = true
is_closed MessageState.declined = true
is_closed MessageState.satisfied = true
is_closed MessageState.completed = true
is_closed MessageState.released = true
is_closed MessageState.supported = true
is_closed MessageState.active = true
is_closed MessageState.retired = true
is_closed _ = false

unfoldable pub audience_includes : Message → Text → Bool
audience_includes message session = elim message.audience [
  | everyone ↦ true
  | sessions names ↦ includes names session
]

unfoldable pub scope_includes : Message → Text → Bool
scope_includes message scope =
    text_eq message.scope (codes "global") || is_empty scope || text_eq message.scope scope

unfoldable pub owns : Actor → Text → Bool
owns operator session = false
owns (agent author) session = text_eq author.session session

-- ['tried', 'disputed', 'retired']
abbrev pub agent_may_mark : MessageState → Bool
agent_may_mark MessageState.tried = true
agent_may_mark MessageState.disputed = true
agent_may_mark MessageState.retired = true
agent_may_mark _ = false

-- The two cases of a message of category `wait`.
abbrev wait_transition : Bool → Bool → MessageState → Bool
wait_transition owned addressed MessageState.accepted = addressed
wait_transition owned addressed MessageState.declined = addressed
wait_transition owned addressed MessageState.satisfied = addressed
wait_transition owned addressed MessageState.withdrawn = owned
wait_transition owned addressed _ = false

abbrev pub category_transition : Category → Bool → Bool → MessageState → Bool
category_transition Category.lesson owned addressed next = owned && agent_may_mark next
category_transition Category.wait owned addressed next = wait_transition owned addressed next
category_transition _ owned addressed next = owned

unfoldable pub can_agent_transition : Message → Actor → MessageState → Bool
can_agent_transition message operator next_state = true
can_agent_transition message (agent actor) next_state =
    category_transition message.category (owns message.author actor.session)
      (audience_includes message actor.session) next_state
