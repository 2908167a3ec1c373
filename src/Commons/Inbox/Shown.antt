-- ===== src/Commons/Inbox/Shown.antt =====
-- Whom the inbox of agent-commons.js shows which message.
use mathlib.Core.List.{reverse}
use pane_fleet.Base.{
  ℕ, ◌≤◌, ◌≡◌, refl, arith, Bool, true, false, not, ◌&&◌, ◌||◌, Bool-cases, inl, inr, &&-eq-true,
  Option, none, some, List, [], ◌∷◌, map, filter, take, leb, leb→le, length, length-map,
  length-reverse, length-take-le, All, All-filter, All-take, All-reverse, Text, codes, includes,
  is_empty, Result, ok, map_m, >>=-ok_cases, guard->>-eq-ok,
}
use pane_fleet.Delivery.Fields.{date_before}
use pane_fleet.Commons.Types.{CommonsHost, CommonsError, Message}
use pane_fleet.Commons.Fields.{normalized_session}
use pane_fleet.Commons.Lifecycle.{audience_includes, scope_includes}
use pane_fleet.Commons.Validate.{normalized_message}
use pane_fleet.Commons.Repository.{PublicMessage, public_message}
use pane_fleet.Commons.Inbox.{
  last_by_id, default_visible_threads, viewer_threads, is_other_agent, is_hidden, is_visible,
  insert_newest, sort_newest, inbox_of, agent_commons_inbox,
}

-- The message's thread is addressed to the viewer, and if its replies are independent, the reply of
-- another agent is shown only after the viewer's own.
pub record IsShown (messages : List Message) (viewer : Text) (message : Message) : Type 0 where
  pub root : Message
  pub found : last_by_id messages message.thread_id ≡ some root
  pub addressed : audience_includes root viewer ≡ true
  pub independent :
      is_empty message.parent_id ≡ false
      → root.independent ≡ true
      → is_other_agent message.author viewer ≡ true
      → includes (viewer_threads messages viewer) root.id ≡ true

pub record IsInbox (host : CommonsHost) (snapshot : List Message) (session : Text) (limit : ℕ)
    (inbox : List PublicMessage) : Type 0 where
  pub viewer : Text
  pub viewer-eq : normalized_session session (codes "viewer_session") ≡ ok viewer
  pub messages : List Message
  pub messages-eq : map_m (normalized_message host) snapshot ≡ ok messages
  pub shown : All (λ (p : PublicMessage). IsShown messages viewer p.message) inbox
  pub bounded : length inbox ≤ limit
  pub few : limit ≤ 200

All-public :
    (P : Message → Type 0) (xs : List Message)
    → All P xs
    → All (λ (p : PublicMessage). P p.message) (map public_message xs)
unfolding public_message
All-public P [] a = tt
All-public P (x ∷ xs) (p, a) = (p, All-public P xs a)

All-insert_newest :
    (P : Message → Type 0) (host : CommonsHost) (m : Message) (messages : List Message)
    → P m
    → All P messages
    → All P (insert_newest host m messages)
unfolding insert_newest
All-insert_newest P host m [] p a = (p, tt)
All-insert_newest P host m (n ∷ messages) p (q, a) =
    elim (Bool-cases (date_before host.platform m.created_at n.created_at)) [
      | inl e ↦ rw (insert_newest, e) (q, All-insert_newest P host m messages p a)
      | inr e ↦ rw (insert_newest, e) (p, (q, a))
    ]

All-sort_newest :
    (P : Message → Type 0) (host : CommonsHost) (messages : List Message)
    → All P messages
    → All P (sort_newest host messages)
unfolding sort_newest
All-sort_newest P host [] a = tt
All-sort_newest P host (m ∷ messages) (p, a) =
    All-insert_newest P host m _ p (All-sort_newest P host messages a)

revealed :
    (reply independent other seen : Bool)
    → not (not reply && independent && other && not seen) ≡ true
    → reply ≡ false
    → independent ≡ true
    → other ≡ true
    → seen ≡ true
revealed reply independent other seen h a b c = ground arith

visible_root-IsShown :
    (messages : List Message) (viewer scope : Text) (include_resolved : Bool) (message : Message)
    (found : Option Message)
    → last_by_id messages message.thread_id ≡ found
    → (elim found [
      | none ↦ false
      | some root ↦
          audience_includes root viewer
          && scope_includes root scope
          && (include_resolved || includes (default_visible_threads messages) root.id)
          && not (is_hidden messages viewer root message)
    ])
      ≡ true
    → IsShown messages viewer message
unfolding is_hidden
visible_root-IsShown messages viewer scope include_resolved message none e h = cc
visible_root-IsShown messages viewer scope include_resolved message (some root) e h =
    let (first, free) = &&-eq-true _ (not (is_hidden messages viewer root message)) h in
    let (second, _) =
      &&-eq-true (audience_includes root viewer && scope_includes root scope) _ first in
    let (addressed, _) = &&-eq-true (audience_includes root viewer) _ second in
    record {
      root = root;
      found = e;
      addressed = addressed;
      independent =
          revealed (is_empty message.parent_id) root.independent
            (is_other_agent message.author viewer) _ free;
    }

visible-IsShown :
    (messages : List Message) (viewer scope : Text) (include_resolved : Bool) (message : Message)
    → is_visible messages viewer scope include_resolved message ≡ true
    → IsShown messages viewer message
unfolding is_visible is_hidden
visible-IsShown messages viewer scope include_resolved message h =
    visible_root-IsShown messages viewer scope include_resolved message
      (last_by_id messages message.thread_id) refl h

list-inj :
    {a b : List PublicMessage}
    → ◌≡◌ {A = Result CommonsError (List PublicMessage)} (ok a) (ok b)
    → a ≡ b
list-inj h = cc h

-- The inbox of a session has no more messages than its limit, which is at most 200. Every message in
-- it is of a thread that is addressed to the session; in a thread with independent replies it shows no
-- reply of another agent unless the session has replied there itself.
pub agent_commons_inbox-IsInbox :
    (host : CommonsHost) (snapshot : List Message) (session scope : Text) (include_resolved : Bool)
    (limit : ℕ) (inbox : List PublicMessage)
    → agent_commons_inbox host snapshot session scope include_resolved limit ≡ ok inbox
    → IsInbox host snapshot session limit inbox
unfolding agent_commons_inbox inbox_of
agent_commons_inbox-IsInbox host snapshot session scope include_resolved limit inbox h =
    >>=-ok_cases (normalized_session session (codes "viewer_session")) _ h λ viewer e1 h1.
      let (limits, h2) = guard->>-eq-ok (leb 1 limit && leb limit 200) _ _ h1 in
      let (_, few) = &&-eq-true (leb 1 limit) _ limits in
      >>=-ok_cases (map_m (normalized_message host) snapshot) _ h2 λ messages e3 h3.
        let same : inbox_of host messages viewer scope include_resolved limit ≡ inbox =
          list-inj h3 in
        let chosen = filter (is_visible messages viewer scope include_resolved) messages in
        let newest = take limit (sort_newest host chosen) in
        rw (← same) (record {
          viewer = viewer;
          viewer-eq = e1;
          messages = messages;
          messages-eq = e3;
          shown = All-public (IsShown messages viewer) (reverse newest) (
              All-reverse (IsShown messages viewer) newest (
                All-take (IsShown messages viewer) limit (sort_newest host chosen) (
                  All-sort_newest (IsShown messages viewer) host chosen (
                    All-filter (IsShown messages viewer)
                      (is_visible messages viewer scope include_resolved)
                      (visible-IsShown messages viewer scope include_resolved) messages))));
          bounded =
              rw (length-map public_message (reverse newest), length-reverse newest)
                (length-take-le limit (sort_newest host chosen));
          few = leb→le limit 200 few;
        })
