-- ===== src/Inbox/Rows.antt =====
-- The tables of sessions, names and messages, with the columns that the message operations use
-- (internal/core/store.go, the schema). Times are milliseconds.
use koinon.Base.{ℕ, Bool, List, GoString, str_eq, ◌&&◌}

-- Key
pub record Address : Type 0 where
  pub family : GoString
  pub id : GoString

unfoldable pub same_address : Address → Address → Bool
same_address a b = str_eq a.family b.family && str_eq a.id b.id

-- a row of sessions; `launched` says whether the row meets participantQualifier
pub record Session : Type 0 where
  pub key : Address
  pub repository : GoString
  pub role : GoString
  pub subagent : Bool
  pub launched : Bool
  pub retired_at : ℕ
  pub expires_at : ℕ
  pub revision : ℕ
  pub host_pid : ℕ
  pub host_start : ℕ
  pub last_seq : ℕ
  pub acked_through : ℕ
  pub acked_by : GoString
  pub read_through : ℕ

pub data NameKind : Type 0 where
  peer alias : NameKind

-- a row of names
pub record Name : Type 0 where
  pub name : GoString
  pub kind : NameKind
  pub family : GoString
  pub session_id : GoString
  pub repository : GoString
  pub holder_id : GoString
  pub role : GoString
  pub conflict : GoString

pub data Delivery : Type 0 where
  waiting notified uncertain failed : Delivery

-- a row of messages
pub record Message : Type 0 where
  pub id : ℕ
  pub recipient : Address
  pub seq : ℕ
  pub sender : Address
  pub sender_name : GoString
  pub body : GoString
  pub created_at : ℕ
  pub delivery_state : Delivery
  pub delivery_reason : GoString
  pub delivery_updated_at : ℕ
  pub maintainer_ack : Bool
  pub ack_session : GoString
  pub ack_via : GoString
  pub room_id : GoString
  pub room_event : GoString
  pub system_kind : GoString
  pub cycle_id : GoString

-- `issued` is the last message ID that the AUTOINCREMENT has given, and `inbox_version` the
-- counter of the maintainer's inbox
pub record Mail : Type 0 where
  pub sessions : List Session
  pub names : List Name
  pub messages : List Message
  pub issued : ℕ
  pub inbox_version : ℕ

-- what a send returns
pub record Outcome : Type 0 where
  pub id : ℕ
  pub recipient : GoString
  pub seq : ℕ
  pub updated_at : ℕ
