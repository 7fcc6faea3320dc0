-- ===== src/Lib.antt =====
-- Koinon is a daemon through which agent sessions of one machine send messages, share work and
-- keep their contexts within their limits. This library models parts of its core
-- (internal/core), on one SQLite database whose tables are lists of rows here. An operation
-- takes the tables that its caller's transaction sees and returns its result with the new
-- tables, or a refusal, after which the caller rolls back.
--
-- The parts and their files:
--
-- - Base and its children: tests on the native numbers, Go strings as lists of bytes, the SQL
--   statements on lists of rows, and the lemmas on them; Base.Pairs compares two tables row by
--   row. Failure: the refusals (WorkRefusal) and the chaining of steps that may refuse. Utf8:
--   Go's decoding of a string into code points. Int64: the arithmetic of int64 on its bit
--   patterns, which wraps at 2^64.
-- - Resource: claim keys, from internal/core/claims.go (checkText to claimBundle).
--   Resource.Paths reads a path key as its components, and Resource.Bundle describes the keys
--   of one claim.
-- - Claims: the lease engine of internal/core/claims.go. Claims.Rows has the tables,
--   Claims.Queries the queries, Claims.Engine the operations acquire, owner, renew, progress,
--   overdue, expire, release and reclaimOne, and Claims.Cycles the extension and the protection
--   of claims by a managed cycle, from internal/core/context_cycle_claims.go. Claims.Invariant
--   says what holds of the tables, Claims.Steps runs any sequence of operations,
--   Claims.Extension says which claims a cycle extends, and the other children prove what each
--   operation does.
-- - Trigger: the context trigger of internal/core/context_policy.go. Trigger.Policy has the
--   policies and SelectContextTrigger, Trigger.Selection says in plain arithmetic when it
--   selects, Trigger.Stored loads the stored policies, and Trigger.Once has the latches and the
--   observation of a session, from admitContextCycle in internal/core/context_cycle.go, and
--   rearm, which a new Enable, the end of a compaction that keeps its Enable and a read of an
--   awaited inbox call, in internal/core/context_cycle_controller.go. The latches are kept in
--   memory, so that a run of them is within one run of the daemon, which begins with none.
-- - Inbox: messages, from internal/core/messages.go. Inbox.Rows has the tables of sessions,
--   names and messages, Inbox.Callers the callers, holders and inboxes that names lead to,
--   Inbox.Sending send and sendTx, Inbox.Reading readMessages and markRead, and Inbox.Marks
--   ackIf, AckParticipant and SetDelivery. Inbox.Invariant says what holds of the inboxes,
--   Inbox.Steps runs any sequence of operations, Inbox.Facts, Inbox.Routes and Inbox.Senders
--   say what the queries answer of the rows, Inbox.Delivered is about send, Inbox.Recorded and
--   Inbox.Answered are about ackIf, Inbox.Pages about the page that a read returns,
--   Inbox.Outcomes has MessageOutcome, and the other children prove what each operation does.
-- - Storage: the storage boundary of internal/core/storage.go: begin (enter), Commit and
--   recoverLocked over the pages of the database and its page debt. Storage.Writes is about the
--   debt and the reserve, and Storage.Credits about the claims' part of the debt, which the
--   claim tables' credits make.
-- - Work: work items, from internal/core/work.go with work_role.go, work_verdict.go and
--   checkout_role.go beside it. Work.Rows has the tables, Work.Requests the request and
--   validate, Work.Views the roles, the callers and view, Work.Events event, scope and
--   storeReplay, Work.Apply and Work.Closing apply, one function for each operation, and
--   Work.Replaying replay. Work.Stages is the abstract item and its steps, Work.Recording,
--   Work.Leaves, Work.Changes, Work.Applied and Work.Refinement take a successful apply apart,
--   Work.Lifecycles says what it does, Work.Terminal is about finished items, Work.Retries is
--   about retries and Work.Verdicts, with Work.Keyed and Work.Credits, about pending verdicts.
--   Work.Maintenance has reconcile and reclaimInactive, Work.Reclaiming makeRoom and
--   reclaimFinished, and Work.Reconciled and Work.Removed are about them.
-- - Examples: runs on concrete inputs.
--
-- A claim's holder and its keys reach the lease engine through the work operations, whose
-- handoff notices are messages of Inbox; a managed cycle reaches it by protectCycleClaims at
-- its admission and by cycleProtects at a renewal. Every write of a part passes the storage
-- boundary. The lease engine and the cycles share the claim tables and the tables of cycles,
-- sessions and stores.
--
-- Times of claims are nanoseconds where the source has seconds in float64; the rounding of
-- floats is not modelled. The int64 values of the trigger are 64-bit patterns, negative ones
-- among them; the theorem on the selection asks that the times are not negative and that the
-- product of a count that is not negative does not wrap. The digest of a native actor, SHA-256
-- over JSON, is a parameter of the definitions that use it; so are the encoded lengths, the
-- fingerprint and the notice's text of a work operation (Codec), the start of a process, which
-- the refusal of a send names, and the admission of a write by the storage ceilings. Sequences
-- and message IDs do not overflow here, and a negative sequence is none. A step of the inboxes
-- deletes nothing: retention and the deletion of sessions are not modelled. No definition uses
-- fuel: every loop is over a list.
--
-- The int64 subtractions of the page ceilings are written as sums on the other side. The
-- answers of the SQLite engine and of the file system to the storage boundary are arguments.
--
-- Not modelled: errors of the database other than a refused constraint, the message texts of
-- refusals, the checks that admitContextCycle makes between the selection and the mark (an
-- observation has one Boolean for them), and all other parts of the repository, such as the
-- decoding of work requests and their reads, the order in which workMutation runs reconcile,
-- makeRoom and apply, and the ceilings that workWrite enforces after it, the stages of a
-- managed cycle, memory, rooms, decisions, the HTTP service, the dashboard, the adapters of
-- each agent family and the command line.
pub mod Base
pub mod Failure
pub mod Utf8
pub mod Int64
pub mod Resource
pub mod Claims
pub mod Trigger
pub mod Inbox
pub mod Storage
pub mod Work
pub mod Examples
