-- ===== src/Consteval/Value.antt =====
-- compiler/consteval/value.go: values, and what the type table says of an integer type.
use fuse.Prelude.{
  ℕ, ◌-◌, ◌%◌, ◌^◌, leb, Bool, true, false, List, [], ◌∷◌, ◌++◌, Bytes, codes, if◌then◌else◌,
  Option, none, some,
}
use fuse.Prelude.Maps.{Map, lookup}
use fuse.Prelude.Decimal.{decimal}
use fuse.Prelude.Int.{ℤ, pos, negsuc}
use fuse.Typetable.Kind.{Kind, invalid, i8, i16, i32, i64, isize, u8, u16, u32, u64, usize}
use fuse.Typetable.Keys.{Ty}
use fuse.Typetable.Table.{Table, get}

mutual
  -- `Value`, with a constructor for each `ValueKind` and the fields that it uses. The first
  -- argument is the identifier of the type.
  pub data Value : Type 0 where
    vk_invalid : Value
    vk_int : ℕ → ℕ → Value
    vk_bool : ℕ → Bool → Value
    vk_unit : ℕ → Value
    vk_tuple : ℕ → Values → Value
    vk_array : ℕ → Values → Value
    -- The order of the fields, and the map of their values.
    vk_struct : ℕ → List Bytes → FieldValues → Value
    vk_char : ℕ → ℕ → Value

  pub data Values : Type 0 where
    empty : Values
    elem : Value → Values → Values

  -- A map in which an earlier entry hides a later one.
  pub data FieldValues : Type 0 where
    no_fields : FieldValues
    field_value : Bytes → Value → FieldValues → FieldValues

-- `IsTruthy`.
abbrev pub is_truthy : Value → Bool
is_truthy (vk_bool ty b) = b
is_truthy _ = false

abbrev pub separator : List Bytes → Bytes
separator [] = []
separator (_ ∷ _) = codes ", "

-- The text of a field that is not there is that of the zero value.
abbrev pub text_or_invalid : Option Bytes → Bytes
text_or_invalid none = codes "<invalid>"
text_or_invalid (some text) = text

unfoldable pub fields_text : List Bytes → Map Bytes → Bytes
fields_text [] texts = []
fields_text (name ∷ order) texts =
    name
    ++ (codes ": "
        ++ (text_or_invalid (lookup name texts) ++ (separator order ++ fields_text order texts)))

unfoldable mutual
  -- `String`.
  pub value_text : Value → Bytes
  value_text vk_invalid = codes "<invalid>"
  value_text (vk_int ty n) = decimal n
  value_text (vk_bool ty b) = if b then codes "true" else codes "false"
  value_text (vk_unit ty) = codes "()"
  value_text (vk_char ty n) = codes "char(" ++ (decimal n ++ codes ")")
  value_text (vk_tuple ty vs) = codes "(" ++ (values_text vs ++ codes ")")
  value_text (vk_array ty vs) = codes "[" ++ (values_text vs ++ codes "]")
  value_text (vk_struct ty order fs) = codes "{" ++ (fields_text order (texts_of fs) ++ codes "}")

  pub values_text : Values → Bytes
  values_text empty = []
  values_text (elem v empty) = value_text v
  values_text (elem v (elem w vs)) = value_text v ++ (codes ", " ++ values_text (elem w vs))

  -- The texts of the fields of a map.
  pub texts_of : FieldValues → Map Bytes
  texts_of no_fields = []
  texts_of (field_value name v fs) = (name, value_text v) ∷ texts_of fs

-- `typeKind`.
abbrev pub kind_or_invalid : Option Ty → Kind
kind_or_invalid none = invalid
kind_or_invalid (some t) = t.kind

abbrev pub type_kind : Table → ℕ → Kind
type_kind tab id = kind_or_invalid (get tab id)

-- `integerBits`, of the kind of the type.
abbrev pub bits_of : Kind → ℕ
bits_of i8 = 8
bits_of u8 = 8
bits_of i16 = 16
bits_of u16 = 16
bits_of i32 = 32
bits_of u32 = 32
bits_of _ = 64

unfoldable pub integer_bits : Table → ℕ → ℕ
integer_bits tab id = bits_of (type_kind tab id)

-- `isSigned`.
abbrev pub signed_kind : Kind → Bool
signed_kind i8 = true
signed_kind i16 = true
signed_kind i32 = true
signed_kind i64 = true
signed_kind isize = true
signed_kind _ = false

unfoldable pub is_signed : Table → ℕ → Bool
is_signed tab id = signed_kind (type_kind tab id)

-- `isIntegerType`.
abbrev pub integer_kind : Kind → Bool
integer_kind u8 = true
integer_kind u16 = true
integer_kind u32 = true
integer_kind u64 = true
integer_kind usize = true
integer_kind k = signed_kind k

unfoldable pub is_integer_type : Table → ℕ → Bool
is_integer_type tab id = integer_kind (type_kind tab id)

-- `maskToWidth`: the low bits of a uint64.
abbrev pub mask_to_width : ℕ → ℕ → ℕ
mask_to_width v bits = if leb 64 bits then v else v % 2 ^ bits

-- A word of `w` bits as a two's-complement number.
abbrev pub two_complement : ℕ → ℕ → ℤ
two_complement w x = if leb (2 ^ (w - 1)) x then negsuc (2 ^ w - 1 - x) else pos x

-- `SignedInt`.
abbrev pub signed_int : ℕ → ℕ → ℤ
signed_int bits n = if leb 64 bits then two_complement 64 n else two_complement bits (n % 2 ^ bits)
