-- ===== src/Work/Rows.antt =====
-- The tables of work items (internal/core/work.go, workItem; internal/core/store.go, the schema).
-- Times are nanoseconds, as in Claims.Rows.
use koinon.Base.{ℕ, ◌*◌, Bool, Option, List, GoString, bytes}
use koinon.Resource.{Resource}
use koinon.Claims.Rows.{Db, second}
use koinon.Inbox.Rows.{Address, Mail}

-- WorkRole
pub record WorkRole : Type 0 where
  pub family : GoString
  pub role : GoString

pub data Lifecycle : Type 0 where
  open_ active blocked reported finished : Lifecycle

pub data WorkOutcome : Type 0 where
  completed withdrawn : WorkOutcome

pub data Verdict : Type 0 where
  accepted rejected : Verdict

-- workItem, with the store of its row
pub record Item : Type 0 where
  pub store : GoString
  pub work_id : GoString
  pub revision : ℕ
  pub lifecycle : Lifecycle
  pub title : GoString
  pub criteria : GoString
  pub non_goals : GoString
  pub proposed_assignee : Option GoString
  pub proposed_role : Option WorkRole
  pub created_at : ℕ
  pub created_consumer : GoString
  pub first_start_revision : Option ℕ
  pub scope_revision : ℕ
  pub progress_epoch : ℕ
  pub last_progress_at : Option ℕ
  pub progress_deadline : Option ℕ
  pub progress : GoString
  pub checkpoint : GoString
  pub next_artifact : GoString
  pub blocker : GoString
  pub last_writer : Option GoString
  pub last_generation : Option ℕ
  pub last_lease_expires : Option ℕ
  pub lease_expired : Bool
  pub outcome : Option WorkOutcome
  pub reason : GoString
  pub references : List GoString
  pub finished_at : Option ℕ
  pub expires_at : Option ℕ
  pub latest_seq : ℕ
  pub report_seq : Option ℕ
  pub report_consumer : Option GoString
  pub verdict : Option Verdict
  pub verdict_seq : Option ℕ
  pub report_actor : GoString
  pub verdict_credit : Bool

-- a row of work_scope_revisions
pub record Scope : Type 0 where
  pub store : GoString
  pub work_id : GoString
  pub revision : ℕ
  pub ts : ℕ
  pub consumer : GoString
  pub author : Option GoString
  pub title : GoString
  pub criteria : GoString
  pub non_goals : GoString

-- workReport, without the references that a read adds
pub record Report : Type 0 where
  pub summary : GoString
  pub scope_revision : ℕ
  pub claim_generation : ℕ
  pub participant_role : Option WorkRole

-- workClaimView; `native` stands for the ownership "native", else "legacy"
pub record ClaimView : Type 0 where
  pub consumer : GoString
  pub generation : ℕ
  pub revision : ℕ
  pub expires_at : ℕ
  pub resources : List Resource
  pub native : Bool

pub data RoleState : Type 0 where
  role_unheld role_held role_conflict : RoleState

-- WorkRoleResolution
pub record RoleResolution : Type 0 where
  pub state : RoleState
  pub address : GoString
  pub holder : GoString

-- WorkView; `verdict_report_seq` is the verdict's evidence
pub record View : Type 0 where
  pub item : Item
  pub observed_at : ℕ
  pub observed_lease_expires : Option ℕ
  pub current_claim : Option ClaimView
  pub lease_valid : Bool
  pub progress_overdue : Bool
  pub progress_unverified : Bool
  pub lease_reason : Bool
  pub scope_revisions : List ℕ
  pub criteria_changed_after_start : Bool
  pub role_resolution : Option RoleResolution
  pub report : Option Report
  pub verdict_report_seq : Option ℕ

pub data EventKind : Type 0 where
  created proposed edited started updated released was_finished was_reported was_accepted
        was_rejected :
      EventKind
  due_progress_overdue due_lease_expired : EventKind

-- a row of work_events
pub record Event : Type 0 where
  pub store : GoString
  pub seq : ℕ
  pub work_id : GoString
  pub revision : ℕ
  pub kind : EventKind
  pub payload : View
  pub actor : GoString

-- a row of memory_entries of the type work-event
pub record Entry : Type 0 where
  pub repository : GoString
  pub seq : ℕ
  pub ts : ℕ
  pub target : GoString
  pub author : Option GoString
  pub family : GoString
  pub name : GoString
  pub consumer : GoString
  pub revision : ℕ

-- what a mutation returns
pub record WorkResult : Type 0 where
  pub work_id : GoString
  pub revision : ℕ
  pub seq : Option ℕ
  pub duplicate : Bool
  pub claim : Option (ℕ × (ℕ × ℕ))
  pub message : Option ℕ

pub data Op : Type 0 where
  work_create work_propose work_edit work_start work_update work_release work_finish claim_renew :
      Op
  work_report work_accept work_reject : Op

-- a row of work_replays
pub record Replay : Type 0 where
  pub store : GoString
  pub consumer : GoString
  pub key : GoString
  pub operation : Op
  pub scheme : GoString
  pub fingerprint : GoString
  pub deadline : ℕ
  pub result : WorkResult
  pub native_actor : GoString

-- `claims` has the claim tables and the stores, `mail` the sessions, names and messages
pub record WorkDb : Type 0 where
  pub claims : Db
  pub mail : Mail
  pub items : List Item
  pub scopes : List Scope
  pub events : List Event
  pub entries : List Entry
  pub replays : List Replay

-- MemoryCaller
pub record Caller : Type 0 where
  pub repository : GoString
  pub family : GoString
  pub name : GoString
  pub consumer : GoString
  pub native : Address
  pub consumer_explicit : Bool

-- the limits of memoryLimits that the work operations read
pub record Limits : Type 0 where
  pub work_events : ℕ
  pub work_items : ℕ
  pub work_scopes_per_item : ℕ
  -- in nanoseconds
  pub idem_ttl : ℕ

-- fingerprintScheme
abbrev pub fingerprint_scheme : GoString
fingerprint_scheme = bytes "go1"

-- thirty days
abbrev pub work_retention : ℕ
work_retention = 30 * 86_400 * second
