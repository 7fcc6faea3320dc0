-- ===== src/Examples.antt =====
-- Runs of the operations on concrete inputs.
mod Claims
mod Resources
mod Contexts
mod Inboxes
mod Disks
mod Works
mod Sweeps
mod Terminals
