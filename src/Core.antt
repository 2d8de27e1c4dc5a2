-- ===== src/Core.antt =====
-- crates/core: the domain types that every other crate uses.
pub mod Context
pub mod Identity
