-- ===== src/Registry.antt =====
-- src/core_impl/register.rs and src/core_impl/types.rs: the global registry of loaded libraries.
pub mod Types
pub mod LinkContext
pub mod State
pub mod Lookup
pub mod Update
pub mod Loading
pub mod Consistent
pub mod Unload
pub mod Symbols
pub mod Destructors
