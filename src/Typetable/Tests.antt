-- ===== src/Typetable/Tests.antt =====
-- Small tables of compiler/typetable, and the theorems at concrete inputs.

use mathlib.Core.List.Permᴰ.{swap}
use Prim.Native.Nat.{ℕ}
use fuse.Prelude.{
  ◌==◌, ◌||◌, false, [], ◌∷◌, ◌++◌, Bytes, codes, if◌then◌else◌, some, ◌≡◌, ◌↔◌, refl, arith, equal,
}
use fuse.Prelude.Maps.{lookup}
use fuse.Prelude.Decimal.{digits_on}
use fuse.Typetable.Kind.{tuple, slice, struct}
use fuse.Typetable.Keys.{Ty, zero_type, key, write_more}
use fuse.Typetable.Table.{
  Table, get, intern_core, intern, intern_primitive, intern_primitives, new, find_primitive,
  slice_of, tuple_of, fn_of, trait_object_of,
}
use fuse.Typetable.Identity.{identity}
use fuse.Typetable.SameKey.{IsQuoting, key_lem}
use fuse.Typetable.Indexed.{IsIndexed}
use fuse.Typetable.Interned.{Reachable, fresh, interned, Reachable-IsIndexed, intern_lem}
use fuse.Typetable.Checked.{get-intern}
use fuse.Typetable.Primitives.{trait_object-Perm}

-- A quotation with a backslash before quotes and backslashes.
escaped : Bytes → Bytes
escaped [] = b'"' ∷ []
escaped (c ∷ cs) = if (c == b'"') || (c == b'\\') then b'\\' ∷ (c ∷ escaped cs) else c ∷ escaped cs

unfoldable quoted : Bytes → Bytes
quoted s = b'"' ∷ escaped s

escaped_split : (s t r u : Bytes) → escaped s ++ r ≡ escaped t ++ u → (s ≡ t) × (r ≡ u)
unfolding escaped
escaped_split [] [] r u e = ground arith
escaped_split [] (y ∷ t) r u e = absurd (ground arith)
escaped_split (x ∷ s) [] r u e = absurd (ground arith)
escaped_split (x ∷ s) (y ∷ t) r u e = ground (arith, escaped_split s t r u)

quoted-IsQuoting : IsQuoting quoted
unfolding quoted
quoted-IsQuoting s t r u e = escaped_split s t r u (ground arith)

abbrev bytes_slice : Ty
bytes_slice = slice_of 7

abbrev pair : Ty
pair = tuple_of (4 ∷ 7 ∷ [])

tuple_text : key quoted pair ≡ codes "Tuple{children=[4,7]}"
unfolding key write_more digits_on
tuple_text = refl

fn_text : key quoted (fn_of (4 ∷ []) 17 false) ≡ codes "Fn{params=[4];ret=17;var=false}"
unfolding key write_more digits_on
fn_text = refl

abbrev point : Ty
point = record zero_type {
  kind = struct;
  symbol = 12;
  module_path = codes "geo";
  name = codes "Point";
  type_args = 4 ∷ [];
}

struct_text : key quoted point ≡ codes "Struct{sym=12;mod=\"geo\";name=\"Point\";args=[4]}"
unfolding key write_more digits_on quoted escaped
struct_text = refl

key_lem_example :
    (key quoted point ≡ key quoted pair) ↔ (identity struct point ≡ identity tuple pair)
key_lem_example = key_lem quoted point pair quoted-IsQuoting refl refl

-- The first type after the primitives has the number 20.
abbrev first_table : Table
first_table = (intern_core quoted bytes_slice (new quoted)).0

abbrev second_table : Table
second_table = (intern_core quoted bytes_slice first_table).0

first : intern quoted bytes_slice (new quoted) ≡ some (first_table, 20)
unfolding new get intern_primitives intern_primitive intern_core find_primitive key lookup equal
    digits_on
first = refl

second : intern quoted bytes_slice first_table ≡ some (second_table, 20)
unfolding new get intern_primitives intern_primitive intern_core find_primitive key lookup equal
    digits_on
second = refl

first_Reachable : Reachable quoted first_table
first_Reachable = interned bytes_slice fresh first

Reachable-IsIndexed_example : IsIndexed quoted first_table
Reachable-IsIndexed_example = Reachable-IsIndexed quoted first_Reachable

intern_lem_example : (◌≡◌ {A = ℕ} 20 20) ↔ (identity slice bytes_slice ≡ identity slice bytes_slice)
intern_lem_example =
    intern_lem quoted bytes_slice bytes_slice (new quoted) first_table second_table 20 20
      quoted-IsQuoting fresh first second

get-intern_example :
    (c : Ty) × (get first_table 20 ≡ some c) × (identity c.kind c ≡ identity slice bytes_slice)
get-intern_example =
    get-intern quoted bytes_slice (new quoted) first_table 20 quoted-IsQuoting fresh first

trait_object-Perm_example :
    intern quoted (trait_object_of (21 ∷ 20 ∷ [])) first_table
    ≡ intern quoted (trait_object_of (20 ∷ 21 ∷ [])) first_table
trait_object-Perm_example =
    trait_object-Perm quoted (21 ∷ 20 ∷ []) (20 ∷ 21 ∷ []) first_table (swap refl refl)

-- The same symbol under another module path is another type for the table.
abbrev moved_point : Ty
moved_point = record point { module_path = codes "geometry" }

moved_key : equal (key quoted point) (key quoted moved_point) ≡ false
unfolding key write_more digits_on quoted escaped equal
moved_key = refl
