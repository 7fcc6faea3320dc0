-- ===== src/Trigger.antt =====
-- The context policy of a session and the selection of a managed cycle
-- (internal/core/context_policy.go), with the latch that selects a crossing once
-- (internal/core/context_cycle.go, admitContextCycle). Times are milliseconds.
pub mod Selection
pub mod Once
pub mod Stored
pub mod Policy
