-- ===== src/Typetable/Keys.antt =====
-- compiler/typetable/type.go: types and the keys by which the table tells them apart.
use fuse.Prelude.{
  ℕ, zero, suc, ◌==◌, Bool, true, false, not, List, [], ◌∷◌, ◌++◌, Bytes, codes, length,
  if◌then◌else◌, ◌&&◌,
}
use fuse.Prelude.Decimal.{decimal}
use fuse.Typetable.Kind.{
  Kind, kind_text, is_primitive, invalid, tuple, array, slice, ptr, ref, mutref, fn, trait_object,
  struct, enum, union, trait, type_alias, generic_param, channel, thread_handle, infer,
}

-- `Type`. Identifiers of types and symbols are numbers, and 0 is `NoType`.
pub record Ty : Type 0 where
  pub kind : Kind
  pub children : List ℕ
  pub return : ℕ
  pub array_length : ℕ
  pub is_variadic : Bool
  pub symbol : ℕ
  pub module_path : Bytes
  pub name : Bytes
  pub type_args : List ℕ

abbrev pub zero_type : Ty
zero_type = record {
  kind = invalid;
  children = [];
  return = 0;
  array_length = 0;
  is_variadic = false;
  symbol = 0;
  module_path = [];
  name = [];
  type_args = [];
}

-- `childAt`.
abbrev pub child_at : List ℕ → ℕ → ℕ
child_at [] i = 0
child_at (c ∷ cs) zero = c
child_at (c ∷ cs) (suc i) = child_at cs i

-- The elements after the first, each behind a comma; `rest` is what is written next.
unfoldable pub write_more : List ℕ → Bytes → Bytes
write_more [] rest = rest
write_more (c ∷ cs) rest = 44 ∷ (decimal c ++ write_more cs rest)

-- The loop that writes identifiers, with a comma between two.
abbrev pub write_list : List ℕ → Bytes → Bytes
write_list [] rest = rest
write_list (c ∷ cs) rest = decimal c ++ write_more cs rest

-- `%t`.
abbrev pub write_bool : Bool → Bytes
write_bool b = if b then codes "true" else codes "false"

-- The generic arguments, where there are any.
abbrev pub write_args : List ℕ → Bytes → Bytes
write_args [] rest = rest
write_args (a ∷ cs) rest = codes ";args=[" ++ write_list (a ∷ cs) (93 ∷ rest)

abbrev pub has_bare_key : Kind → Bool
has_bare_key infer = true
has_bare_key k = is_primitive k

-- `%q` of Go's fmt is a parameter: a text in quotes, escaped.
module _ (quote : Bytes → Bytes) where
  abbrev pub write_nominal : Ty → Bytes → Bytes
  write_nominal t rest =
      codes "sym="
      ++ (decimal t.symbol
          ++ (codes ";mod=" ++ (quote t.module_path ++ (codes ";name=" ++ (quote t.name ++ rest)))))

  -- What stands in the braces of a key, by kind.
  abbrev pub write_body : Kind → Ty → Bytes → Bytes
  write_body array t rest =
      codes "len="
      ++ (decimal t.array_length ++ (codes ";elem=" ++ (decimal (child_at t.children 0) ++ rest)))
  write_body fn t rest =
      codes "params=["
      ++ write_list t.children (
          codes "];ret="
          ++ (decimal t.return ++ (codes ";var=" ++ (write_bool t.is_variadic ++ rest))))
  write_body tuple t rest = codes "children=[" ++ write_list t.children (93 ∷ rest)
  write_body trait_object t rest = codes "children=[" ++ write_list t.children (93 ∷ rest)
  write_body slice t rest = codes "elem=" ++ (decimal (child_at t.children 0) ++ rest)
  write_body ptr t rest = codes "elem=" ++ (decimal (child_at t.children 0) ++ rest)
  write_body ref t rest = codes "elem=" ++ (decimal (child_at t.children 0) ++ rest)
  write_body mutref t rest = codes "elem=" ++ (decimal (child_at t.children 0) ++ rest)
  write_body channel t rest = codes "elem=" ++ (decimal (child_at t.children 0) ++ rest)
  write_body thread_handle t rest = codes "elem=" ++ (decimal (child_at t.children 0) ++ rest)
  write_body struct t rest = write_nominal t (write_args t.type_args rest)
  write_body enum t rest = write_nominal t (write_args t.type_args rest)
  write_body union t rest = write_nominal t (write_args t.type_args rest)
  write_body trait t rest = write_nominal t (write_args t.type_args rest)
  write_body type_alias t rest = write_nominal t (write_args t.type_args rest)
  write_body generic_param t rest = write_nominal t rest
  write_body _ t rest = rest

  -- `key`.
  unfoldable pub key : Ty → Bytes
  key t =
      codes (kind_text t.kind)
      ++ (if has_bare_key t.kind then [] else 123 ∷ write_body t.kind t (codes "}"))

-- A symbol that is set and a name that is not empty.
abbrev pub has_symbol : Ty → Bool
has_symbol t = not (t.symbol == 0) && not (length t.name == 0)

-- `validate`: false where it panics.
abbrev pub is_valid : Kind → Ty → Bool
is_valid invalid t = false
is_valid array t = length t.children == 1
is_valid slice t = length t.children == 1
is_valid ptr t = length t.children == 1
is_valid ref t = length t.children == 1
is_valid mutref t = length t.children == 1
is_valid channel t = length t.children == 1
is_valid thread_handle t = length t.children == 1
is_valid fn t = not (t.return == 0)
is_valid struct t = has_symbol t
is_valid enum t = has_symbol t
is_valid union t = has_symbol t
is_valid trait t = has_symbol t
is_valid type_alias t = has_symbol t
is_valid generic_param t = has_symbol t
is_valid _ t = true
