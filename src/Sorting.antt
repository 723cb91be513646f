-- ===== src/Sorting.antt =====
-- Topological and mainline sorting (src/resolve/sorting.rs).
pub mod Priority
pub mod Kahn
pub mod Fallback
pub mod Order
pub mod Greedy
pub mod Mainline
pub mod BuildMainline
