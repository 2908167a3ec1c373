-- ===== src/Commons/Repository/Authority.antt =====
-- Who may do what on the board of agent-commons.js.
use pane_fleet.Base.{◌≡◌, true, Option, some, Text, codes, ok}
use pane_fleet.Commons.Types.{CommonsHost, AgentActor, MessageState, Message, CommonsStore}
use pane_fleet.Commons.Fields.{normalized_message_id, normalized_agent}
use pane_fleet.Commons.Validate.{message_by_id}
use pane_fleet.Commons.Repository.{initialize}
use pane_fleet.Commons.Repository.Permission.{IsPermitted, is_among, following}

-- What a change of state by an agent rests on.
pub record IsAuthorized (host : CommonsHost) (file : Option CommonsStore) (message_id_value : Text)
    (next_state : MessageState) (actor : AgentActor) : Type 0 where
  pub current : CommonsStore
  pub read : initialize host file ≡ ok current
  pub session : AgentActor
  pub session-eq : normalized_agent host actor ≡ ok session
  pub message_id : Text
  pub id-eq : normalized_message_id host message_id_value (codes "message_id") ≡ ok message_id
  pub message : Message
  pub found : message_by_id current.messages message_id ≡ some message
  pub legal : is_among next_state (following message.category message.state) ≡ true
  pub permitted : IsPermitted message session.session next_state message.category
