-- ===== src/Consteval/Decls.antt =====
-- compiler/consteval/intrinsic.go: the declarations of types, and the fields that layouts go through.
use fuse.Prelude.{ℕ, ◌==◌, Bool, List, [], ◌∷◌, ◌++◌, if◌then◌else◌, Option, none, some}

-- The parts of `StructDecl`, `Variant`, `EnumDecl` and `UnionDecl` that layouts read: a field is the
-- identifier of its type.
pub record StructDecl : Type 0 where
  pub type_id : ℕ
  pub fields : List ℕ
  pub tuple_fields : List ℕ

pub record VariantDecl : Type 0 where
  pub is_unit : Bool
  pub tuple_types : List ℕ
  pub field_types : List ℕ

pub record EnumTypeDecl : Type 0 where
  pub enum_id : ℕ
  pub variant_decls : List VariantDecl

pub record UnionDecl : Type 0 where
  pub union_id : ℕ
  pub union_fields : List ℕ

-- The declarations of a program, in the order of its modules and items.
pub record Decls : Type 0 where
  pub struct_decls : List StructDecl
  pub enum_decls : List EnumTypeDecl
  pub union_decls : List UnionDecl

-- `findStructDecl`, `findEnumDecl` and `findUnionDecl`.
unfoldable pub find_struct_decl : ℕ → List StructDecl → Option StructDecl
find_struct_decl t [] = none
find_struct_decl t (d ∷ ds) = if d.type_id == t then some d else find_struct_decl t ds

unfoldable pub find_enum_decl : ℕ → List EnumTypeDecl → Option EnumTypeDecl
find_enum_decl t [] = none
find_enum_decl t (d ∷ ds) = if d.enum_id == t then some d else find_enum_decl t ds

unfoldable pub find_union_decl : ℕ → List UnionDecl → Option UnionDecl
find_union_decl t [] = none
find_union_decl t (d ∷ ds) = if d.union_id == t then some d else find_union_decl t ds

-- `structFieldTypes`.
abbrev pub struct_field_types : StructDecl → List ℕ
struct_field_types d = d.fields ++ d.tuple_fields

-- The types that the loops over a variant's payload go through.
abbrev pub variant_types : VariantDecl → List ℕ
variant_types v = v.tuple_types ++ v.field_types
