-- ===== src/Typetable/Kind.antt =====
-- compiler/typetable/kind.go: the kinds of types.
use fuse.Prelude.{ℕ, Bool, true, false, String}

-- `Kind`, in the order of its constants.
pub data Kind : Type 0 where
  invalid bool i8 i16 i32 i64 isize u8 u16 u32 u64 usize f32 f64 char string cstr unit never tuple
        array slice ptr ref mutref fn trait_object struct enum union trait type_alias generic_param
        channel thread_handle infer :
      Kind

-- The constant's number.
unfoldable pub ordinal : Kind → ℕ
ordinal invalid = 0
ordinal bool = 1
ordinal i8 = 2
ordinal i16 = 3
ordinal i32 = 4
ordinal i64 = 5
ordinal isize = 6
ordinal u8 = 7
ordinal u16 = 8
ordinal u32 = 9
ordinal u64 = 10
ordinal usize = 11
ordinal f32 = 12
ordinal f64 = 13
ordinal char = 14
ordinal string = 15
ordinal cstr = 16
ordinal unit = 17
ordinal never = 18
ordinal tuple = 19
ordinal array = 20
ordinal slice = 21
ordinal ptr = 22
ordinal ref = 23
ordinal mutref = 24
ordinal fn = 25
ordinal trait_object = 26
ordinal struct = 27
ordinal enum = 28
ordinal union = 29
ordinal trait = 30
ordinal type_alias = 31
ordinal generic_param = 32
ordinal channel = 33
ordinal thread_handle = 34
ordinal infer = 35

-- `String` of `Kind`.
abbrev pub kind_text : Kind → String
kind_text invalid = "invalid"
kind_text bool = "Bool"
kind_text i8 = "I8"
kind_text i16 = "I16"
kind_text i32 = "I32"
kind_text i64 = "I64"
kind_text isize = "ISize"
kind_text u8 = "U8"
kind_text u16 = "U16"
kind_text u32 = "U32"
kind_text u64 = "U64"
kind_text usize = "USize"
kind_text f32 = "F32"
kind_text f64 = "F64"
kind_text char = "Char"
kind_text string = "String"
kind_text cstr = "CStr"
kind_text unit = "Unit"
kind_text never = "Never"
kind_text tuple = "Tuple"
kind_text array = "Array"
kind_text slice = "Slice"
kind_text ptr = "Ptr"
kind_text ref = "Ref"
kind_text mutref = "Mutref"
kind_text fn = "Fn"
kind_text trait_object = "TraitObject"
kind_text struct = "Struct"
kind_text enum = "Enum"
kind_text union = "Union"
kind_text trait = "Trait"
kind_text type_alias = "TypeAlias"
kind_text generic_param = "GenericParam"
kind_text channel = "Chan"
kind_text thread_handle = "ThreadHandle"
kind_text infer = "Infer"

-- `IsPrimitive`.
abbrev pub is_primitive : Kind → Bool
is_primitive invalid = false
is_primitive bool = true
is_primitive i8 = true
is_primitive i16 = true
is_primitive i32 = true
is_primitive i64 = true
is_primitive isize = true
is_primitive u8 = true
is_primitive u16 = true
is_primitive u32 = true
is_primitive u64 = true
is_primitive usize = true
is_primitive f32 = true
is_primitive f64 = true
is_primitive char = true
is_primitive string = true
is_primitive cstr = true
is_primitive unit = true
is_primitive never = true
is_primitive tuple = false
is_primitive array = false
is_primitive slice = false
is_primitive ptr = false
is_primitive ref = false
is_primitive mutref = false
is_primitive fn = false
is_primitive trait_object = false
is_primitive struct = false
is_primitive enum = false
is_primitive union = false
is_primitive trait = false
is_primitive type_alias = false
is_primitive generic_param = false
is_primitive channel = false
is_primitive thread_handle = false
is_primitive infer = false

-- `IsNominal`.
abbrev pub is_nominal : Kind → Bool
is_nominal invalid = false
is_nominal bool = false
is_nominal i8 = false
is_nominal i16 = false
is_nominal i32 = false
is_nominal i64 = false
is_nominal isize = false
is_nominal u8 = false
is_nominal u16 = false
is_nominal u32 = false
is_nominal u64 = false
is_nominal usize = false
is_nominal f32 = false
is_nominal f64 = false
is_nominal char = false
is_nominal string = false
is_nominal cstr = false
is_nominal unit = false
is_nominal never = false
is_nominal tuple = false
is_nominal array = false
is_nominal slice = false
is_nominal ptr = false
is_nominal ref = false
is_nominal mutref = false
is_nominal fn = false
is_nominal trait_object = false
is_nominal struct = true
is_nominal enum = true
is_nominal union = true
is_nominal trait = true
is_nominal type_alias = true
is_nominal generic_param = false
is_nominal channel = false
is_nominal thread_handle = false
is_nominal infer = false
