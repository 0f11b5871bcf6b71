-- ===== src/Resolve.antt =====
-- compiler/resolve: the conditions of `@cfg`.
pub mod Cfg
pub mod Conditions
pub mod WellFormed
mod Tests
