-- ===== src/Inbox.antt =====
-- Messages between sessions and participants (internal/core/messages.go).
pub mod Rows
pub mod Callers
pub mod Sending
pub mod Reading
pub mod Marks
pub mod Invariant
pub mod Facts
pub mod Changes
pub mod Sent
pub mod Sends
pub mod Acks
pub mod Acknowledged
pub mod Routes
pub mod Senders
pub mod Delivered
pub mod Recorded
pub mod Answered
pub mod Steps
pub mod Pages
pub mod Outcomes
