-- ===== src/Claims.antt =====
-- The advisory lease engine (internal/core/claims.go) and the protection of a session's claims
-- during its managed cycle (internal/core/context_cycle_claims.go). `Rows` has the tables,
-- `Queries` and `Engine` the operations, `Cycles` the protection; the other modules prove what
-- they promise.
pub mod Rows
pub mod Queries
pub mod Cycles
pub mod Engine
pub mod Invariant
pub mod Keys
pub mod Ownership
pub mod Renewal
pub mod Reclaim
pub mod Acquired
pub mod Exclusion
pub mod Steps
pub mod Updates
pub mod Capacity
pub mod Extension
pub mod Protection
