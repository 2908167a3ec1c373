-- ===== src/Commons/Repository/Permission.antt =====
-- Which changes of state agent-commons.js leaves to an agent, described without its tables.
use pane_fleet.Base.{
  ◌≡◌, refl, inl, inr, ◌⊎◌, ap, Bool, true, false, not, ◌||◌, &&-eq-true, some_of, List, [], ◌∷◌,
  Text, text_eq, text_eq_sound, includes,
}
use pane_fleet.Commons.Types.{
  Category, MessageState, open_, resolved, withdrawn, observation, verified, disputed, superseded,
  waiting, accepted, declined, satisfied, claimed, completed, released, tried, supported, active,
  retired, Actor, operator, agent, AgentActor, Audience, everyone, sessions, Message,
}
use pane_fleet.Commons.Lifecycle.{
  state_transitions, state_name, agent_may_mark, allows, audience_includes, owns,
  category_transition, can_agent_transition,
}

-- The states that follow a state in the life of a request: open, resolved, withdrawn.
abbrev after_request : MessageState → List MessageState
after_request MessageState.open_ = resolved ∷ withdrawn ∷ []
after_request MessageState.resolved = open_ ∷ []
after_request _ = []

abbrev after_claim : MessageState → List MessageState
after_claim MessageState.observation = verified ∷ disputed ∷ superseded ∷ []
after_claim MessageState.verified = disputed ∷ superseded ∷ []
after_claim MessageState.disputed = observation ∷ verified ∷ superseded ∷ []
after_claim _ = []

abbrev after_decision : MessageState → List MessageState
after_decision MessageState.open_ = resolved ∷ withdrawn ∷ []
after_decision MessageState.resolved = open_ ∷ superseded ∷ []
after_decision _ = []

abbrev after_wait : MessageState → List MessageState
after_wait MessageState.waiting = accepted ∷ declined ∷ satisfied ∷ withdrawn ∷ []
after_wait MessageState.accepted = declined ∷ satisfied ∷ withdrawn ∷ []
after_wait MessageState.declined = waiting ∷ []
after_wait _ = []

abbrev after_work : MessageState → List MessageState
after_work MessageState.claimed = completed ∷ released ∷ disputed ∷ []
after_work MessageState.disputed = claimed ∷ completed ∷ released ∷ []
after_work _ = []

-- A lesson.
abbrev after_lesson : MessageState → List MessageState
after_lesson MessageState.candidate = tried ∷ disputed ∷ retired ∷ []
after_lesson MessageState.tried = supported ∷ disputed ∷ retired ∷ []
after_lesson MessageState.supported = active ∷ disputed ∷ retired ∷ []
after_lesson MessageState.active = disputed ∷ retired ∷ []
after_lesson MessageState.disputed = tried ∷ supported ∷ active ∷ retired ∷ []
after_lesson _ = []

abbrev pub following : Category → MessageState → List MessageState
following Category.claim = after_claim
following Category.decision = after_decision
following Category.wait = after_wait
following Category.work_claim = after_work
following Category.lesson = after_lesson
following Category.update = after_request
following Category.question = after_request
following Category.help_request = after_request

-- Whether a state with the name of `next` is listed.
abbrev pub is_among : MessageState → List MessageState → Bool
is_among next states = some_of (λ s. text_eq (state_name s) (state_name next)) states

-- The message is the session's own.
abbrev pub IsAuthor : Message → Text → Type 0
IsAuthor message session =
    (author : AgentActor) × (message.author ≡ agent author) × (author.session ≡ session)

-- The message is for all, or names the session.
abbrev pub IsAddressed : Message → Text → Type 0
IsAddressed message session =
    (message.audience ≡ everyone)
    ⊎ (names : List Text) × (message.audience ≡ sessions names) × (includes names session ≡ true)

-- The categories with rules of their own.
abbrev pub is_special : Category → Bool
is_special Category.lesson = true
is_special Category.wait = true
is_special _ = false

-- A change to `next` on a message of the category.
pub data IsPermitted (message : Message) (session : Text) (next : MessageState)
    : Category → Type 0 where
  own_lesson :
      IsAuthor message session
      → (next ≡ tried) ⊎ ((next ≡ disputed) ⊎ (next ≡ retired))
      → IsPermitted message session next Category.lesson
  own_wait :
      IsAuthor message session → next ≡ withdrawn → IsPermitted message session next Category.wait
  answered_wait :
      IsAddressed message session
      → (next ≡ accepted) ⊎ ((next ≡ declined) ⊎ (next ≡ satisfied))
      → IsPermitted message session next Category.wait
  own_message :
      {category : Category}
      → IsAuthor message session
      → not (is_special category) ≡ true
      → IsPermitted message session next category

update_transitions :
    (s : MessageState) → state_transitions Category.update s ≡ following Category.update s
unfolding state_transitions
update_transitions _ = refl

question_transitions :
    (s : MessageState) → state_transitions Category.question s ≡ following Category.question s
unfolding state_transitions
question_transitions _ = refl

claim_transitions :
    (s : MessageState) → state_transitions Category.claim s ≡ following Category.claim s
unfolding state_transitions
claim_transitions _ = refl

decision_transitions :
    (s : MessageState) → state_transitions Category.decision s ≡ following Category.decision s
unfolding state_transitions
decision_transitions _ = refl

wait_transitions :
    (s : MessageState) → state_transitions Category.wait s ≡ following Category.wait s
unfolding state_transitions
wait_transitions _ = refl

work_claim_transitions :
    (s : MessageState) → state_transitions Category.work_claim s ≡ following Category.work_claim s
unfolding state_transitions
work_claim_transitions _ = refl

help_request_transitions :
    (s : MessageState)
    → state_transitions Category.help_request s ≡ following Category.help_request s
unfolding state_transitions
help_request_transitions _ = refl

lesson_transitions :
    (s : MessageState) → state_transitions Category.lesson s ≡ following Category.lesson s
unfolding state_transitions
lesson_transitions _ = refl

pub state_transitions-following :
    (category : Category) (state : MessageState)
    → state_transitions category state ≡ following category state
state_transitions-following Category.update state = update_transitions state
state_transitions-following Category.question state = question_transitions state
state_transitions-following Category.claim state = claim_transitions state
state_transitions-following Category.decision state = decision_transitions state
state_transitions-following Category.wait state = wait_transitions state
state_transitions-following Category.work_claim state = work_claim_transitions state
state_transitions-following Category.help_request state = help_request_transitions state
state_transitions-following Category.lesson state = lesson_transitions state

pub allows-is_among :
    (states : List MessageState) (next : MessageState) → allows states next ≡ is_among next states
unfolding allows
allows-is_among [] next = refl
allows-is_among (s ∷ states) next =
    ap (λ b. text_eq (state_name s) (state_name next) || b) (allows-is_among states next)

owns-IsAuthor :
    (message : Message) (session : Text) (author : Actor)
    → message.author ≡ author
    → owns author session ≡ true
    → IsAuthor message session
unfolding owns
owns-IsAuthor message session operator e h = absurd (cc h)
owns-IsAuthor message session (agent a) e h = (a, e, text_eq_sound a.session session h)

audience-IsAddressed :
    (message : Message) (session : Text) (audience : Audience)
    → message.audience ≡ audience
    → audience_includes message session ≡ true
    → IsAddressed message session
unfolding audience_includes
audience-IsAddressed message session everyone e h = inl e
audience-IsAddressed message session (sessions names) e h =
    inr (names, e, rw (audience_includes, e) at h)

marked :
    (next : MessageState)
    → agent_may_mark next ≡ true
    → (next ≡ tried) ⊎ ((next ≡ disputed) ⊎ (next ≡ retired))
marked MessageState.tried h = inl refl
marked MessageState.disputed h = inr (inl refl)
marked MessageState.retired h = inr (inr refl)
marked _ h = absurd (cc h)

wait-IsPermitted :
    (message : Message) (session : Text) (next : MessageState)
    → category_transition Category.wait
        (owns message.author session)
        (audience_includes message session)
        next
      ≡ true
    → IsPermitted message session next Category.wait
wait-IsPermitted message session MessageState.accepted h =
    answered_wait (audience-IsAddressed message session message.audience refl h) (inl refl)
wait-IsPermitted message session MessageState.declined h =
    answered_wait (audience-IsAddressed message session message.audience refl h) (inr (inl refl))
wait-IsPermitted message session MessageState.satisfied h =
    answered_wait (audience-IsAddressed message session message.audience refl h) (inr (inr refl))
wait-IsPermitted message session MessageState.withdrawn h =
    own_wait (owns-IsAuthor message session message.author refl h) refl
wait-IsPermitted message session _ h = absurd (cc h)

category-IsPermitted :
    (message : Message) (session : Text) (next : MessageState) (category : Category)
    → category_transition category
        (owns message.author session)
        (audience_includes message session)
        next
      ≡ true
    → IsPermitted message session next category
category-IsPermitted message session next Category.lesson h =
    let (owned, marks) = &&-eq-true _ _ h in
    own_lesson (owns-IsAuthor message session message.author refl owned) (marked next marks)
category-IsPermitted message session next Category.wait h = wait-IsPermitted message session next h
category-IsPermitted message session next _ h =
    own_message (owns-IsAuthor message session message.author refl h) refl

pub can_agent_transition-IsPermitted :
    (message : Message) (actor : AgentActor) (next : MessageState)
    → can_agent_transition message (agent actor) next ≡ true
    → IsPermitted message actor.session next message.category
unfolding can_agent_transition
can_agent_transition-IsPermitted message actor next h =
    category-IsPermitted message actor.session next message.category h
