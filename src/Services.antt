-- ===== src/Services.antt =====
-- services.py, one module for each of its sections.
pub mod Helpers
pub mod Signup
pub mod Login
pub mod Sessions
pub mod Refresh
pub mod Challenge
pub mod Reset
pub mod OAuth
pub mod Google
pub mod Admin
