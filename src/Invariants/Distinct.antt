-- ===== src/Invariants/Distinct.antt =====
-- The unique columns by which the services look rows up stay unique, and what follows from it.
pub mod Keys
pub mod Defs
pub mod Writes
pub mod Reachable
pub mod Introspection
pub mod Rotation
pub mod States
