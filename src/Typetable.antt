-- ===== src/Typetable.antt =====
-- compiler/typetable: kinds, types, their keys and the table that interns them.
pub mod Kind
pub mod Keys
pub mod Names
pub mod Identity
pub mod SameKey
pub mod Table
pub mod Indexed
pub mod Interned
pub mod Checked
pub mod Primitives
pub mod Tests
