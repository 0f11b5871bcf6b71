-- ===== src/Check.antt =====
-- compiler/check: the checks of match expressions.
pub mod Patterns
pub mod Match
pub mod Admits
pub mod Exhaustive
pub mod Reachable
mod Tests
