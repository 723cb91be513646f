-- ===== src/State.antt =====
-- States and what changes between them (src/state).
pub mod Delta
pub mod Checkpoints
