-- ===== src/Basespec.antt =====
-- The Matrix data model of src/basespec/rezzy_types.rs, as the resolution engine reads it.
pub mod Version
pub mod Mxid
pub mod Event
