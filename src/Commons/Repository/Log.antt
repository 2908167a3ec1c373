-- ===== src/Commons/Repository/Log.antt =====
-- The calls of the repository of agent-commons.js and the log of operations.
use pane_fleet.Base.{
  ◌+◌, ◌≡◌, refl, sym, ap, ◌∙◌, ◌⊎◌, inl, inr, true, false, ◌&&◌, &&-eq-true, Option, none, some,
  length, length-append, Text, text_eq, text_eq_sound, ltb, Result, ok, or_throw, >>=-ok_cases,
  guard->>-eq-ok,
}
use pane_fleet.Commons.Types.{CommonsHost, CommonsError, Action, Operation, CommonsStore}
use pane_fleet.Commons.Fields.{timestamp, normalized_operation_id, normalized_request_digest}
use pane_fleet.Commons.Validate.{message_by_id, validate_agent_commons_store}
use pane_fleet.Commons.Consistent.{IsConsistent, validate-IsConsistent}
use pane_fleet.Commons.Changes.{Mutation}
use pane_fleet.Commons.Repository.{
  initialize, Reply, action_name, operation_by_id, replay_of, appended, applied, mutate,
}

-- A call that found its id in the log: the same action and digest, and nothing changes.
pub record IsReplay (current : CommonsStore) (id : Text) (action : Action) (digest : Text)
    (reply : Reply) : Type 0 where
  pub logged : Operation
  pub found : operation_by_id current.operations id ≡ some logged
  pub same_action : action_name logged.action ≡ action_name action
  pub same_digest : logged.request_digest ≡ digest
  pub unchanged : reply.store ≡ current
  pub replayed : reply.replayed ≡ true

-- A call with a new id: the change is made, and the log has one operation more.
pub record IsFresh (current : CommonsStore) (id : Text)
    (mutation : CommonsStore → Text → Result CommonsError Mutation) (reply : Reply) : Type 0 where
  pub new : operation_by_id current.operations id ≡ none
  pub at : Text
  pub change : Mutation
  pub changed : mutation current at ≡ ok change
  pub counted : reply.store.revision ≡ current.revision + 1
  pub logged : length reply.store.operations ≡ length current.operations + 1
  pub replayed : reply.replayed ≡ false
  pub consistent : IsConsistent reply.store

pub record IsCall (host : CommonsHost) (file : Option CommonsStore) (operation_id : Text)
    (action : Action) (digest_value : Text)
    (mutation : CommonsStore → Text → Result CommonsError Mutation) (reply : Reply) : Type 0 where
  pub current : CommonsStore
  pub read : initialize host file ≡ ok current
  pub id : Text
  pub id-eq : normalized_operation_id operation_id ≡ ok id
  pub digest : Text
  pub digest-eq : normalized_request_digest host digest_value ≡ ok digest
  pub outcome : IsReplay current id action digest reply ⊎ IsFresh current id mutation reply

reply-inj : {a b : Reply} → ◌≡◌ {A = Result CommonsError Reply} (ok a) (ok b) → a ≡ b
reply-inj h = cc h

replay_of-IsReplay :
    (current : CommonsStore) (id : Text) (logged : Operation) (action : Action) (digest : Text)
    (reply : Reply)
    → operation_by_id current.operations id ≡ some logged
    → replay_of current logged action digest ≡ ok reply
    → IsReplay current id action digest reply
unfolding replay_of
replay_of-IsReplay current id logged action digest reply found h =
    let (same, g) =
      guard->>-eq-ok
        (text_eq (action_name logged.action) (action_name action)
          && text_eq logged.request_digest digest)
        _ _ h in
    let (a, d) = &&-eq-true (text_eq (action_name logged.action) (action_name action)) _ same in
    >>=-ok_cases (or_throw (message_by_id current.messages logged.message_id) _) _ g λ message _ k.
      record {
        logged = logged;
        found = found;
        same_action = text_eq_sound _ _ a;
        same_digest = text_eq_sound _ _ d;
        unchanged = sym (ap (λ (r : Reply). r.store) (reply-inj k));
        replayed = sym (ap (λ (r : Reply). r.replayed) (reply-inj k));
      }

applied-IsFresh :
    (host : CommonsHost) (current : CommonsStore) (id : Text) (action : Action) (digest : Text)
    (mutation : CommonsStore → Text → Result CommonsError Mutation) (reply : Reply)
    → operation_by_id current.operations id ≡ none
    → applied host current id action digest mutation ≡ ok reply
    → IsFresh current id mutation reply
unfolding applied appended
applied-IsFresh host current id action digest mutation reply new h =
    let (_, h1) =
      guard->>-eq-ok (ltb (length current.messages) 1000 && ltb (length current.operations) 2000) _
        _ h in
    >>=-ok_cases (timestamp host host.now) _ h1 λ at _ h2.
      >>=-ok_cases (mutation current at) _ h2 λ change changed h3.
        >>=-ok_cases
          (validate_agent_commons_store host
            (appended current change.messages id action change.message_id digest at))
          _ h3
          λ next e4 h4.
            >>=-ok_cases (or_throw (message_by_id next.messages change.message_id) _) _ h4
              λ message _ h5.
                let (consistent, revision, size) =
                  validate-IsConsistent host
                    (appended current change.messages id action change.message_id digest at) e4 in
                let same : next ≡ reply.store = ap (λ (r : Reply). r.store) (reply-inj h5) in
                record {
                  new = new;
                  at = at;
                  change = change;
                  changed = changed;
                  counted = rw (← same) revision;
                  logged = rw (← same) (size ∙ length-append current.operations _);
                  replayed = sym (ap (λ (r : Reply). r.replayed) (reply-inj h5));
                  consistent = rw (← same) consistent;
                }

outcome-of :
    (host : CommonsHost) (current : CommonsStore) (id : Text) (action : Action) (digest : Text)
    (mutation : CommonsStore → Text → Result CommonsError Mutation) (reply : Reply)
    (found : Option Operation)
    → operation_by_id current.operations id ≡ found
    → (elim found [
      | some replay ↦ replay_of current replay action digest
      | none ↦ applied host current id action digest mutation
    ])
      ≡ ok reply
    → IsReplay current id action digest reply ⊎ IsFresh current id mutation reply
outcome-of host current id action digest mutation reply none e h =
    inr (applied-IsFresh host current id action digest mutation reply e h)
outcome-of host current id action digest mutation reply (some logged) e h =
    inl (replay_of-IsReplay current id logged action digest reply e h)

pub mutate-IsCall :
    (host : CommonsHost) (file : Option CommonsStore) (operation_id : Text) (action : Action)
    (digest_value : Text) (mutation : CommonsStore → Text → Result CommonsError Mutation)
    (reply : Reply)
    → mutate host file operation_id action digest_value mutation ≡ ok reply
    → IsCall host file operation_id action digest_value mutation reply
unfolding mutate
mutate-IsCall host file operation_id action digest_value mutation reply h =
    >>=-ok_cases (normalized_operation_id operation_id) _ h λ id e1 h1.
      >>=-ok_cases (normalized_request_digest host digest_value) _ h1 λ digest e2 h2.
        >>=-ok_cases (initialize host file) _ h2 λ current e3 h3.
          let outcome : IsReplay current id action digest reply
              ⊎ IsFresh current id mutation reply =
            outcome-of host current id action digest mutation reply
              (operation_by_id current.operations id) refl h3 in
          record {
            current = current;
            read = e3;
            id = id;
            id-eq = e1;
            digest = digest;
            digest-eq = e2;
            outcome = outcome;
          }
