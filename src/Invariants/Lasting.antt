-- ===== src/Invariants/Lasting.antt =====
-- What no request undoes: rows are never lost, and what is revoked, consumed, used or disabled
-- stays so.
pub mod Rows
pub mod Defs
pub mod Tables
pub mod Writes
pub mod Assignments
pub mod Requests
pub mod Consequences
pub mod SingleUse
