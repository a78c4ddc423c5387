-- ===== src/Restore.antt =====
-- crates/octa-cache/src/restore.rs and crates/octa-cache/src/restore/journal.rs: the crash-recoverable
-- replacement of task outputs. The children below hold the execution on durable state, the state and
-- its elementary operations, the transaction, and the theorems.
pub mod Exec
pub mod State
pub mod Transaction
pub mod Roots
pub mod Revert
pub mod Kept
pub mod Recovery
pub mod Atomic
pub mod NewRoot
pub mod Whole
mod Endings
pub mod AllOrNothing
mod Examples
