-- ===== src/Auth.antt =====
-- The authorization engine (src/auth/mod.rs, src/auth/user.rs). The rules stand in the modules
-- `Error` to `Check`, and the theorems in the others.
pub mod Error
pub mod State
pub mod Levels
pub mod Members
pub mod PowerLevels
pub mod Citations
pub mod Check
pub mod Accepted
pub mod Senders
pub mod Membership
pub mod Joins
pub mod Cited
pub mod Unverified
pub mod Escalation
