-- ===== src/Commons/Repository/Recorded.antt =====
-- What every call of the repository of agent-commons.js leaves.
use pane_fleet.Base.{
  ◌+◌, ◌≡◌, refl, arith, ◌⊎◌, inl, inr, true, false, Option, none, some, [], length, Text, codes,
  Result, ok, >>=-ok_cases,
}
use pane_fleet.Commons.Types.{
  CommonsHost, CommonsError, Actor, MessageState, MessageInput, Action, message_create,
  message_reply, message_acknowledge, message_transition, CommonsStore, create_request,
  reply_request, acknowledge_request, transition_request,
}
use pane_fleet.Commons.Fields.{normalized_message_id, normalized_actor, normalized_create_input}
use pane_fleet.Commons.Validate.{distinct, message_ids, operation_ids}
use pane_fleet.Commons.Consistent.{IsConsistent, validate-IsConsistent}
use pane_fleet.Commons.Changes.{
  Mutation, create_change, reply_change, acknowledge_change, transition_change,
}
use pane_fleet.Commons.Repository.{
  empty_agent_commons_store, initialize, Reply, create_message, reply_message, acknowledge_message,
  transition_message,
}
use pane_fleet.Commons.Repository.Log.{IsCall, mutate-IsCall}

-- A successful call of the repository.
pub data Call (host : CommonsHost) (file : Option CommonsStore) (reply : Reply) : Type 0 where
  creates :
      (input : MessageInput) (actor : Actor) (operation_id : Text)
      → create_message host file input actor operation_id ≡ ok reply
      → Call host file reply
  replies :
      (parent_id : Text) (input : MessageInput) (actor : Actor) (operation_id : Text)
      → reply_message host file parent_id input actor operation_id ≡ ok reply
      → Call host file reply
  acknowledges :
      (message_id : Text) (actor : Actor) (operation_id : Text)
      → acknowledge_message host file message_id actor operation_id ≡ ok reply
      → Call host file reply
  transits :
      (message_id : Text) (next_state : MessageState) (actor : Actor) (operation_id : Text)
      → transition_message host file message_id next_state actor operation_id ≡ ok reply
      → Call host file reply

-- What any call leaves: a consistent store, which is the one it read or has one operation more.
pub record IsRecorded (host : CommonsHost) (file : Option CommonsStore) (reply : Reply)
    : Type 0 where
  pub current : CommonsStore
  pub read : initialize host file ≡ ok current
  pub consistent : IsConsistent reply.store
  pub outcome :
      ((reply.replayed ≡ true) × (reply.store ≡ current))
      ⊎ ((reply.replayed ≡ false)
          × (reply.store.revision ≡ current.revision + 1)
          × (length reply.store.operations ≡ length current.operations + 1))

empty-IsConsistent : IsConsistent empty_agent_commons_store
unfolding empty_agent_commons_store distinct message_ids operation_ids
empty-IsConsistent = record {
  counted = refl;
  few_messages = ground arith;
  few_operations = ground arith;
  unique_messages = refl;
  unique_operations = refl;
  connected = tt;
}

store-inj : {a b : CommonsStore} → ◌≡◌ {A = Result CommonsError CommonsStore} (ok a) (ok b) → a ≡ b
store-inj h = cc h

initialize-IsConsistent :
    (host : CommonsHost) (file : Option CommonsStore) {current : CommonsStore}
    → initialize host file ≡ ok current
    → IsConsistent current
unfolding initialize
initialize-IsConsistent host none h = rw (← store-inj h) empty-IsConsistent
initialize-IsConsistent host (some file) h = (validate-IsConsistent host file h).0

call-IsRecorded :
    {host : CommonsHost} {file : Option CommonsStore} {operation_id : Text} {action : Action}
    {digest : Text} {mutation : CommonsStore → Text → Result CommonsError Mutation} {reply : Reply}
    → IsCall host file operation_id action digest mutation reply
    → IsRecorded host file reply
call-IsRecorded {host} {file} call = elim call.outcome [
  | inl r ↦ record {
    current = call.current;
    read = call.read;
    consistent = rw (r.unchanged) (initialize-IsConsistent host file call.read);
    outcome = inl (r.replayed, r.unchanged);
  }
  | inr f ↦ record {
    current = call.current;
    read = call.read;
    consistent = f.consistent;
    outcome = inr (f.replayed, f.counted, f.logged);
  }
]

-- A successful call of the repository leaves a consistent store: its revision counts its log, ids are
-- unique, threads and superseded lessons exist. The store is the one that was read, and the call a
-- replay of a logged operation, or it has one revision and one operation more.
pub Call-IsRecorded :
    (host : CommonsHost) (file : Option CommonsStore) (reply : Reply)
    → Call host file reply
    → IsRecorded host file reply
unfolding create_message reply_message acknowledge_message transition_message
Call-IsRecorded host file reply (creates input actor operation_id h) =
    >>=-ok_cases (normalized_actor host actor) _ h λ author _ h1.
      >>=-ok_cases (normalized_create_input host input []) _ h1 λ normalized _ h2. call-IsRecorded (
        mutate-IsCall host file operation_id message_create
          (host.request_digest (create_request author normalized))
          (create_change host author normalized) reply h2)
Call-IsRecorded host file reply (replies parent_id input actor operation_id h) =
    >>=-ok_cases (normalized_actor host actor) _ h λ author _ h1.
      >>=-ok_cases (normalized_message_id host parent_id (codes "parent_id")) _ h1 λ parent _ h2.
        >>=-ok_cases (normalized_create_input host input parent) _ h2 λ normalized _ h3.
          call-IsRecorded (
            mutate-IsCall host file operation_id message_reply
              (host.request_digest (reply_request author parent normalized))
              (reply_change host author parent normalized) reply h3)
Call-IsRecorded host file reply (acknowledges message_id actor operation_id h) =
    >>=-ok_cases (normalized_actor host actor) _ h λ author _ h1.
      >>=-ok_cases (normalized_message_id host message_id (codes "message_id")) _ h1 λ id _ h2.
        call-IsRecorded (
          mutate-IsCall host file operation_id message_acknowledge
            (host.request_digest (acknowledge_request author id)) (acknowledge_change author id)
            reply h2)
Call-IsRecorded host file reply (transits message_id next_state actor operation_id h) =
    >>=-ok_cases (normalized_actor host actor) _ h λ author _ h1.
      >>=-ok_cases (normalized_message_id host message_id (codes "message_id")) _ h1 λ id _ h2.
        call-IsRecorded (
          mutate-IsCall host file operation_id message_transition
            (host.request_digest (transition_request author id next_state))
            (transition_change author id next_state) reply h2)
