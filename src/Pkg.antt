-- ===== src/Pkg.antt =====
-- compiler/pkg: versions, ranges and the choice of a version.
pub mod Version
pub mod Order
pub mod LessThan
pub mod Intersect
pub mod Select
pub mod Resolver
pub mod Grown
pub mod Resolved
pub mod Unselected
pub mod Depth
pub mod Restored
pub mod Parse
pub mod Parsed
pub mod Tests
