-- ===== src/Work.antt =====
-- Work items (internal/core/work.go).
pub mod Rows
pub mod Requests
pub mod Views
pub mod Events
pub mod Apply
pub mod Closing
pub mod Recording
pub mod Stages
pub mod Leaves
pub mod Changes
pub mod Applied
pub mod Refinement
pub mod Lifecycles
pub mod Replaying
pub mod Retries
pub mod Keyed
pub mod Credits
pub mod Verdicts
pub mod Terminal
pub mod Maintenance
pub mod Reclaiming
pub mod Removed
pub mod Reconciled
