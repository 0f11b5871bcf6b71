-- ===== src/Consteval/Layout.antt =====
-- compiler/consteval/intrinsic.go: the size and the alignment of a type, for size_of and align_of.
use Prim.Native.Nat.{bit_and}
use fuse.Prelude.{
  ℕ, zero, suc, ◌+◌, ◌-◌, ◌*◌, ◌^◌, ltb, List, [], ◌∷◌, if◌then◌else◌, Option, none, some,
}
use fuse.Typetable.Kind.{
  Kind, bool, i8, i16, i32, i64, isize, u8, u16, u32, u64, usize, f32, f64, char, unit, never,
  tuple, array, slice, ptr, ref, mutref, fn, trait_object, struct, enum, union, generic_param,
}
use fuse.Typetable.Keys.{Ty}
use fuse.Typetable.Table.{Table, get}
use fuse.Consteval.Value.{type_kind}
use fuse.Consteval.Words.{wrap}
use fuse.Consteval.Decls.{
  StructDecl, VariantDecl, EnumTypeDecl, UnionDecl, Decls, find_struct_decl, find_enum_decl,
  find_union_decl, struct_field_types, variant_types,
}

-- The errors, one constructor for each text.
pub data LayoutError : Type 0 where
  unresolved_length tuple_missing struct_missing size_of_generic align_of_generic no_size no_align :
      LayoutError

-- A result, an error, or a recursion deeper than the fuel.
pub data Laid (A : Type 0) : Type 0 where
  laid : A → Laid A
  refused : LayoutError → Laid A
  too_deep : Laid A

-- The check of `err` after a call.
abbrev pub lay : {A B : Type 0} → Laid A → (A → Laid B) → Laid B
lay (laid x) f = f x
lay (refused e) f = refused e
lay too_deep f = too_deep

-- `alignUp`.
unfoldable pub align_up : ℕ → ℕ → ℕ
align_up n zero = n
align_up n (suc a) = bit_and (wrap (n + a)) (2 ^ 64 - 1 - a)

-- `if n > widest { widest = n }`.
abbrev pub wider : ℕ → ℕ → ℕ
wider widest n = if ltb widest n then n else widest

-- The size behind a field that stands after the others, and that of a union.
abbrev pub grow_struct : ℕ → ℕ → ℕ → ℕ
grow_struct size f_size f_align = wrap (align_up size f_align + f_size)

abbrev pub grow_union : ℕ → ℕ → ℕ → ℕ
grow_union size f_size f_align = wider size f_size

-- `arrayInfo`.
abbrev pub first_elem : List ℕ → ℕ → Option (ℕ × ℕ)
first_elem [] n = none
first_elem (elem ∷ _) n = some (elem, n)

abbrev pub array_info : Option Ty → Option (ℕ × ℕ)
array_info none = none
array_info (some info) = elim info.kind [
  | array ↦ first_elem info.children info.array_length
  | _ ↦ none
]

-- A size that is filled up to the alignment.
abbrev pub padded : Laid (ℕ × ℕ) → Laid ℕ
padded r = lay r (λ p. laid (align_up p.0 p.1))

-- The tag, the widest payload and the padding.
abbrev pub tagged : ℕ → ℕ → ℕ
tagged max_payload max_align =
    let total = wrap (align_up 1 max_align + max_payload) in
    align_up (if ltb total 1 then 1 else total) max_align

-- The layouts of the types that a type is made of are functions here.
module _ (size_of align_of : ℕ → Laid ℕ) where
  -- The loops over fields: with the sizes and the alignments, and with the alignments alone.
  unfoldable pub walk : (ℕ → ℕ → ℕ → ℕ) → List ℕ → ℕ → ℕ → Laid (ℕ × ℕ)
  walk grow [] size max_align = laid (size, max_align)
  walk grow (t ∷ ts) size max_align =
      lay (size_of t)
        (λ s. lay (align_of t) (λ a. walk grow ts (grow size s a) (wider max_align a)))

  unfoldable pub widest_align : List ℕ → ℕ → Laid ℕ
  widest_align [] max_align = laid max_align
  widest_align (t ∷ ts) max_align = lay (align_of t) (λ a. widest_align ts (wider max_align a))

  -- `layoutTupleSize` and `layoutTupleAlign`.
  abbrev pub tuple_size : Option Ty → Laid ℕ
  tuple_size none = refused tuple_missing
  tuple_size (some info) = padded (walk grow_struct info.children 0 1)

  abbrev pub tuple_align : Option Ty → Laid ℕ
  tuple_align none = refused tuple_missing
  tuple_align (some info) = widest_align info.children 1

  -- `layoutStructSize` and `layoutStructAlign`.
  abbrev pub struct_size : Option StructDecl → Laid ℕ
  struct_size none = refused struct_missing
  struct_size (some d) = padded (walk grow_struct (struct_field_types d) 0 1)

  abbrev pub struct_align : Option StructDecl → Laid ℕ
  struct_align none = laid 1
  struct_align (some d) = widest_align (struct_field_types d) 1

  -- `variantLayout`.
  abbrev pub variant_layout : VariantDecl → Laid (ℕ × ℕ)
  variant_layout v =
      if v.is_unit
      then laid (0, 1)
      else lay (walk grow_struct (variant_types v) 0 1) (λ p. laid (align_up p.0 p.1, p.1))

  unfoldable pub walk_variants : List VariantDecl → ℕ → ℕ → Laid (ℕ × ℕ)
  walk_variants [] max_payload max_align = laid (max_payload, max_align)
  walk_variants (v ∷ vs) max_payload max_align =
      lay (variant_layout v) (λ p. walk_variants vs (wider max_payload p.0) (wider max_align p.1))

  unfoldable pub widest_variant : List VariantDecl → ℕ → Laid ℕ
  widest_variant [] max_align = laid max_align
  widest_variant (v ∷ vs) max_align =
      lay (variant_layout v) (λ p. widest_variant vs (wider max_align p.1))

  -- `layoutEnumSize` and `layoutEnumAlign`.
  abbrev pub enum_size : Option EnumTypeDecl → Laid ℕ
  enum_size none = laid 1
  enum_size (some d) = lay (walk_variants d.variant_decls 0 1) (λ p. laid (tagged p.0 p.1))

  abbrev pub enum_align : Option EnumTypeDecl → Laid ℕ
  enum_align none = laid 1
  enum_align (some d) = widest_variant d.variant_decls 1

  -- `layoutUnionSize` and `layoutUnionAlign`.
  abbrev pub union_size : Option UnionDecl → Laid ℕ
  union_size none = laid 1
  union_size (some d) = padded (walk grow_union d.union_fields 0 1)

  abbrev pub union_align : Option UnionDecl → Laid ℕ
  union_align none = laid 1
  union_align (some d) = widest_align d.union_fields 1

  abbrev pub array_size : Option (ℕ × ℕ) → Laid ℕ
  array_size none = refused unresolved_length
  array_size (some (elem, n)) = lay (size_of elem) (λ s. laid (wrap (s * n)))

  abbrev pub array_align : Option (ℕ × ℕ) → Laid ℕ
  array_align none = refused unresolved_length
  array_align (some (elem, n)) = align_of elem

  -- The cases of `layoutSize` and `layoutAlign`.
  abbrev pub size_of_kind : Decls → Option Ty → ℕ → Kind → Laid ℕ
  size_of_kind decls info t bool = laid 1
  size_of_kind decls info t i8 = laid 1
  size_of_kind decls info t u8 = laid 1
  size_of_kind decls info t i16 = laid 2
  size_of_kind decls info t u16 = laid 2
  size_of_kind decls info t i32 = laid 4
  size_of_kind decls info t u32 = laid 4
  size_of_kind decls info t f32 = laid 4
  size_of_kind decls info t char = laid 4
  size_of_kind decls info t i64 = laid 8
  size_of_kind decls info t u64 = laid 8
  size_of_kind decls info t f64 = laid 8
  size_of_kind decls info t isize = laid 8
  size_of_kind decls info t usize = laid 8
  size_of_kind decls info t ptr = laid 8
  size_of_kind decls info t ref = laid 8
  size_of_kind decls info t mutref = laid 8
  size_of_kind decls info t unit = laid 0
  size_of_kind decls info t never = laid 0
  size_of_kind decls info t array = array_size (array_info info)
  size_of_kind decls info t tuple = tuple_size info
  size_of_kind decls info t struct = struct_size (find_struct_decl t decls.struct_decls)
  size_of_kind decls info t enum = enum_size (find_enum_decl t decls.enum_decls)
  size_of_kind decls info t slice = laid 16
  size_of_kind decls info t trait_object = laid 16
  size_of_kind decls info t fn = laid 8
  size_of_kind decls info t union = union_size (find_union_decl t decls.union_decls)
  size_of_kind decls info t generic_param = refused size_of_generic
  size_of_kind decls info t _ = refused no_size

  abbrev pub align_of_kind : Decls → Option Ty → ℕ → Kind → Laid ℕ
  align_of_kind decls info t bool = laid 1
  align_of_kind decls info t i8 = laid 1
  align_of_kind decls info t u8 = laid 1
  align_of_kind decls info t unit = laid 1
  align_of_kind decls info t never = laid 1
  align_of_kind decls info t i16 = laid 2
  align_of_kind decls info t u16 = laid 2
  align_of_kind decls info t i32 = laid 4
  align_of_kind decls info t u32 = laid 4
  align_of_kind decls info t f32 = laid 4
  align_of_kind decls info t char = laid 4
  align_of_kind decls info t i64 = laid 8
  align_of_kind decls info t u64 = laid 8
  align_of_kind decls info t f64 = laid 8
  align_of_kind decls info t isize = laid 8
  align_of_kind decls info t usize = laid 8
  align_of_kind decls info t ptr = laid 8
  align_of_kind decls info t ref = laid 8
  align_of_kind decls info t mutref = laid 8
  align_of_kind decls info t slice = laid 8
  align_of_kind decls info t trait_object = laid 8
  align_of_kind decls info t fn = laid 8
  align_of_kind decls info t array = array_align (array_info info)
  align_of_kind decls info t tuple = tuple_align info
  align_of_kind decls info t struct = struct_align (find_struct_decl t decls.struct_decls)
  align_of_kind decls info t enum = enum_align (find_enum_decl t decls.enum_decls)
  align_of_kind decls info t union = union_align (find_union_decl t decls.union_decls)
  align_of_kind decls info t generic_param = refused align_of_generic
  align_of_kind decls info t _ = refused no_align

module _ (tab : Table) (decls : Decls) where
  unfoldable mutual
    -- `layoutSize` and `layoutAlign`. The number bounds the depth of the calls.
    pub layout_size : ℕ → ℕ → Laid ℕ
    layout_size zero t = too_deep
    layout_size (suc depth) t =
        size_of_kind (layout_size depth) (layout_align depth) decls (get tab t) t (type_kind tab t)

    pub layout_align : ℕ → ℕ → Laid ℕ
    layout_align zero t = too_deep
    layout_align (suc depth) t =
        align_of_kind (layout_size depth) (layout_align depth) decls (get tab t) t (type_kind tab t)
