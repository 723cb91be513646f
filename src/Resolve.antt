-- ===== src/Resolve.antt =====
-- The resolution of a room's conflicted state (src/resolve, src/state/at.rs).
pub mod State
pub mod LocalAuth
pub mod Overlay
pub mod Power
pub mod Iterative
