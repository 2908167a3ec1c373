-- ===== src/Commons/Types.antt =====
-- The data of agent-commons.js. Categories, attentions and states are data types: a record stands for
-- an object whose enumerations are read and whose keys are the expected ones.
use pane_fleet.Base.{ℕ, Text, Bool, List}
use pane_fleet.Delivery.Types.{Platform}

-- `invalid` carries the name in `agent_commons_<name>_invalid`.
pub data CommonsError : Type 0 where
  invalid : Text → CommonsError
  store_version_unsupported message_duplicate store_too_large operation_conflict : CommonsError
  capacity_reached parent_not_found reply_not_addressed message_not_found : CommonsError
  acknowledgement_not_addressed transition_forbidden : CommonsError

-- AGENT_COMMONS_CATEGORIES
pub data Category : Type 0 where
  update question claim decision wait work_claim help_request lesson : Category

-- AGENT_COMMONS_ATTENTION
pub data Attention : Type 0 where
  board ping checkpoint stop : Attention

-- The states of STATE_TRANSITIONS.
pub data MessageState : Type 0 where
  open_ resolved withdrawn observation verified disputed superseded : MessageState
  waiting accepted declined satisfied claimed completed released : MessageState
  candidate tried supported active retired : MessageState

pub record AgentActor : Type 0 where
  pub session : Text
  pub session_created_at : Text
  pub pane_id : Text
  pub pane_pid : ℕ
  pub label : Text

pub data Actor : Type 0 where
  operator : Actor
  agent : AgentActor → Actor

pub data Audience : Type 0 where
  everyone : Audience
  sessions : List Text → Audience

pub record Acknowledgement : Type 0 where
  pub actor : Actor
  pub at : Text

pub record Message : Type 0 where
  pub version : ℕ
  pub id : Text
  pub thread_id : Text
  pub parent_id : Text
  pub revision : ℕ
  pub author : Actor
  pub audience : Audience
  pub category : Category
  pub attention : Attention
  pub scope : Text
  pub body : Text
  pub evidence : Text
  pub state : MessageState
  pub independent : Bool
  pub supersedes_id : Text
  pub acknowledgements : List Acknowledgement
  pub created_at : Text
  pub updated_at : Text

pub data Action : Type 0 where
  message_create message_reply message_acknowledge message_transition : Action

pub record Operation : Type 0 where
  pub id : Text
  pub action : Action
  pub message_id : Text
  pub request_digest : Text
  pub at : Text

pub record CommonsStore : Type 0 where
  pub version : ℕ
  pub revision : ℕ
  pub messages : List Message
  pub operations : List Operation

-- A message's content as it is sent. A missing text is empty; a missing category is `update`, a
-- missing attention `board` and a missing audience everyone.
pub record MessageInput : Type 0 where
  pub parent_id : Text
  pub category : Category
  pub attention : Attention
  pub audience : Audience
  pub scope : Text
  pub body : Text
  pub evidence : Text
  pub independent : Bool
  pub supersedes_id : Text

-- What requestDigest hashes.
pub data Request : Type 0 where
  create_request : Actor → MessageInput → Request
  reply_request : Actor → Text → MessageInput → Request
  acknowledge_request : Actor → Text → Request
  transition_request : Actor → Text → MessageState → Request

-- What the repository takes from outside: the platform of the delivery runs, the digest of a request's
-- JSON, the length of a store's JSON, and the id and the time that a call would draw.
pub record CommonsHost : Type 0 where
  pub platform : Platform
  pub request_digest : Request → Text
  pub store_bytes : CommonsStore → ℕ
  pub create_id : Text
  pub now : Text
