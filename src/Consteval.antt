-- ===== src/Consteval.antt =====
-- compiler/consteval: the values of constants and their evaluation.
pub mod Value
pub mod Words
pub mod Bounds
pub mod Readings
pub mod Exact
pub mod Casts
pub mod Syntax
pub mod Literals
pub mod State
pub mod Binding
pub mod Operators
pub mod Control
pub mod Paths
pub mod Eval
pub mod Sound
pub mod Evaluate
pub mod Evaluated
pub mod Decls
pub mod Layout
pub mod Padding
pub mod Aligned
pub mod Ranked
pub mod Tests
pub mod Layouts
