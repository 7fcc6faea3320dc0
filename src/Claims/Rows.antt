-- ===== src/Claims/Rows.antt =====
-- The tables that the lease engine reads and writes (internal/core/store.go, the schema; and
-- internal/core/claims.go, heldBundle). Times are nanoseconds, for the source's float64 seconds;
-- the rounding of floats is not modelled.
use koinon.Base.{ℕ, ◌^◌, ◌-◌, Bool, List, GoString}
use koinon.Resource.{Resource}

-- math.MaxInt64
abbrev pub max_int64 : ℕ
max_int64 = 2 ^ 63 - 1

-- one second
abbrev pub second : ℕ
second = 1_000_000_000

abbrev pub max_bundles : ℕ
max_bundles = 16

abbrev pub max_daemon_bundles : ℕ
max_daemon_bundles = 32

abbrev pub default_lease : ℕ
default_lease = 900

-- a row of claim_bundles
pub record Bundle : Type 0 where
  pub store : GoString
  pub generation : ℕ
  pub work_id : GoString
  pub consumer : GoString
  pub native_actor : GoString
  pub revision : ℕ
  pub issued_at : ℕ
  pub renewed_at : ℕ
  pub expires_at : ℕ
  pub progress_epoch : ℕ
  pub overdue_recorded : Bool
  pub active : Bool
  pub overdue_credit : Bool
  pub end_credit : Bool

-- a row of claim_resources
pub record ResourceRow : Type 0 where
  pub store : GoString
  pub generation : ℕ
  pub ordinal : ℕ
  pub resource : Resource

-- the columns of memory_stores that the work operations use
pub record StoreRow : Type 0 where
  pub store_id : GoString
  pub repository : GoString
  pub head : ℕ
  pub floor : ℕ
  pub work_counter : ℕ
  pub claim_counter : ℕ

-- the columns of context_cycles that protect claims; cycle_deadline is in milliseconds
pub record CycleRow : Type 0 where
  pub cycle_id : GoString
  pub family : GoString
  pub session_id : GoString
  pub peer : GoString
  pub address : GoString
  pub held : Bool
  pub cycle_deadline : ℕ
  pub finished_at : ℕ

-- the columns of sessions that protect claims
pub record SessionRow : Type 0 where
  pub family : GoString
  pub id : GoString
  pub repository : GoString

pub record Db : Type 0 where
  pub bundles : List Bundle
  pub claim_resources : List ResourceRow
  pub memory_stores : List StoreRow
  pub context_cycles : List CycleRow
  pub sessions : List SessionRow

-- the result of an acquire or a renew
pub record Lease : Type 0 where
  pub generation : ℕ
  pub revision : ℕ
  pub expires_at : ℕ
