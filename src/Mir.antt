-- ===== src/Mir.antt =====
-- compiler/mir: the mid-level representation and its checks.
pub mod Types
pub mod Validate
pub mod Scoped
pub mod Stream
pub mod Consumed
pub mod UseAfterDrop
pub mod Builder
pub mod Methods
pub mod Step
pub mod Fresh
pub mod SingleAssignment
pub mod Ready
pub mod Lowered
pub mod Calls
pub mod Lowering
mod Tests
mod BuilderTests
