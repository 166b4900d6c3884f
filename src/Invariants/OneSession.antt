-- ===== src/Invariants/OneSession.antt =====
-- The one-session policy of services.py as an invariant of the stored rows.
pub mod Defs
pub mod Helpers
pub mod Revoke
pub mod Issue
pub mod Rotate
pub mod Requests
