-- ===== src/Invariants.antt =====
-- Invariants of the database, kept by every operation of the services.
pub mod Keeps
pub mod Leads
pub mod OneSession
pub mod OneChallenge
pub mod Mail
pub mod Security
pub mod Lasting
pub mod Steps
pub mod Closed
pub mod Distinct
