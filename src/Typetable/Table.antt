-- ===== src/Typetable/Table.antt =====
-- compiler/typetable/table.go: the table that gives each type its identifier.
use fuse.Prelude.{
  ℕ, zero, suc, ◌-◌, ◌==◌, leb, Bool, List, [], ◌∷◌, ◌++◌, Bytes, length, if◌then◌else◌, Option,
  none, some, get_elem?,
}
use fuse.Prelude.Maps.{Map, lookup, put}
use fuse.Typetable.Kind.{
  Kind, is_nominal, ordinal, bool, i8, i16, i32, i64, isize, u8, u16, u32, u64, usize, f32, f64,
  char, string, cstr, unit, never, tuple, array, slice, ptr, ref, mutref, fn, trait_object,
  generic_param, channel, thread_handle, infer,
}
use fuse.Typetable.Keys.{Ty, zero_type, key, is_valid}

-- `Table`. The identifiers of the primitive kinds are a list in which a later entry hides an
-- earlier one.
pub record Table : Type 0 where
  pub types : List Ty
  pub by_key : Map ℕ
  pub primitive : List (Kind × ℕ)

abbrev pub of_kind : Kind → Ty
of_kind k = record zero_type { kind = k }

-- `Get`.
unfoldable pub get : Table → ℕ → Option Ty
get t zero = none
get t (suc i) = get_elem? t.types (suc i)

unfoldable pub find_primitive : Kind → List (Kind × ℕ) → ℕ
find_primitive k [] = 0
find_primitive k (e ∷ es) = if ordinal k == ordinal e.0 then e.1 else find_primitive k es

-- `Lookup`. `NoType` is 0.
abbrev pub look_up : Table → Kind → ℕ
look_up t k = find_primitive k t.primitive

-- `Len`.
abbrev pub len : Table → ℕ
len t = length t.types - 1

-- `primitiveOrder`.
abbrev pub primitive_order : List Kind
primitive_order =
    bool ∷ i8 ∷ i16 ∷ i32 ∷ i64 ∷ isize ∷ u8 ∷ u16 ∷ u32 ∷ u64 ∷ usize ∷ f32 ∷ f64 ∷ char ∷ string
    ∷ cstr ∷ unit ∷ never ∷ []

-- A table with the reserved slot alone.
abbrev pub reserved : Table
reserved = record { types = zero_type ∷ []; by_key = []; primitive = [] }

module _ (quote : Bytes → Bytes) where
  -- The part of `intern` after the map has been asked.
  abbrev pub intern_found : Ty → Table → Option ℕ → Table × ℕ
  intern_found typ t (some id) = (t, id)
  intern_found typ t none = (
    record t {
      types = t.types ++ (typ ∷ []);
      by_key = put (key quote typ) (length t.types) t.by_key;
    },
    length t.types,
  )

  -- `intern`, without the check.
  unfoldable pub intern_core : Ty → Table → Table × ℕ
  intern_core typ t = intern_found typ t (lookup (key quote typ) t.by_key)

  -- `Intern`: nothing where it panics.
  abbrev pub intern : Ty → Table → Option (Table × ℕ)
  intern typ t = if is_valid typ.kind typ then some (intern_core typ t) else none

  -- One turn of the loop of `New`.
  unfoldable pub intern_primitive : Kind → Table → Table
  intern_primitive k t =
      let (u, id) = intern_core (of_kind k) t in record u { primitive = (k, id) ∷ u.primitive }

  unfoldable pub intern_primitives : List Kind → Table → Table
  intern_primitives [] t = t
  intern_primitives (k ∷ ks) t = intern_primitives ks (intern_primitive k t)

  -- `New`.
  unfoldable pub new : Table
  new = intern_primitive infer (intern_primitives primitive_order reserved)

-- `sort.Slice` on the bounds of a trait object.
unfoldable pub insert_id : ℕ → List ℕ → List ℕ
insert_id i [] = i ∷ []
insert_id i (j ∷ js) = if leb i j then i ∷ (j ∷ js) else j ∷ insert_id i js

unfoldable pub sort_ids : List ℕ → List ℕ
sort_ids [] = []
sort_ids (i ∷ is) = insert_id i (sort_ids is)

-- `Tuple`, `Array`, `Slice`, `Ptr`, `Ref`, `Mutref`, `Fn`, `TraitObject`, `Channel`, `ThreadHandle`,
-- `Nominal` and `GenericParam`: what each interns.
abbrev pub tuple_of : List ℕ → Ty
tuple_of elems = record zero_type { kind = tuple; children = elems }

abbrev pub array_of : ℕ → ℕ → Ty
array_of elem n = record zero_type { kind = array; children = elem ∷ []; array_length = n }

abbrev pub slice_of : ℕ → Ty
slice_of elem = record zero_type { kind = slice; children = elem ∷ [] }

abbrev pub ptr_of : ℕ → Ty
ptr_of pointee = record zero_type { kind = ptr; children = pointee ∷ [] }

abbrev pub ref_of : ℕ → Ty
ref_of target = record zero_type { kind = ref; children = target ∷ [] }

abbrev pub mutref_of : ℕ → Ty
mutref_of target = record zero_type { kind = mutref; children = target ∷ [] }

abbrev pub fn_of : List ℕ → ℕ → Bool → Ty
fn_of params ret variadic = record zero_type {
  kind = fn;
  children = params;
  return = ret;
  is_variadic = variadic;
}

abbrev pub trait_object_of : List ℕ → Ty
trait_object_of traits = record zero_type { kind = trait_object; children = sort_ids traits }

abbrev pub channel_of : ℕ → Ty
channel_of elem = record zero_type { kind = channel; children = elem ∷ [] }

abbrev pub thread_handle_of : ℕ → Ty
thread_handle_of result = record zero_type { kind = thread_handle; children = result ∷ [] }

-- `Nominal` panics where the kind is not nominal.
abbrev pub nominal_of : Kind → ℕ → Bytes → Bytes → List ℕ → Option Ty
nominal_of k sym path text args =
    if is_nominal k
    then some (record zero_type {
      kind = k;
      symbol = sym;
      module_path = path;
      name = text;
      type_args = args;
    })
    else none

abbrev pub generic_param_of : ℕ → Bytes → Bytes → Ty
generic_param_of sym path text = record zero_type {
  kind = generic_param;
  symbol = sym;
  module_path = path;
  name = text;
}
