-- ===== src/Typetable/Names.antt =====
-- compiler/typetable/kind.go: the kinds by their names.
use fuse.Prelude.{
  false, List, [], ◌∷◌, ◌++◌, Bytes, codes, equal, if◌then◌else◌, ◌≡◌, refl, sym, ap, ◌∙◌, ◌==◌,
  arith, append_cancel,
}
use fuse.Typetable.Kind.{
  Kind, kind_text, invalid, bool, i8, i16, i32, i64, isize, u8, u16, u32, u64, usize, f32, f64,
  char, string, cstr, unit, never, tuple, array, slice, ptr, ref, mutref, fn, trait_object, struct,
  enum, union, trait, type_alias, generic_param, channel, thread_handle, infer,
}
use mathlib.Core.Path.{subst}
use fuse.Typetable.Keys.{has_bare_key}

-- The kinds in the order of their constants.
abbrev all_kinds : List Kind
all_kinds =
    invalid ∷ bool ∷ i8 ∷ i16 ∷ i32 ∷ i64 ∷ isize ∷ u8 ∷ u16 ∷ u32 ∷ u64 ∷ usize ∷ f32 ∷ f64 ∷ char
    ∷ string ∷ cstr ∷ unit ∷ never ∷ tuple ∷ array ∷ slice ∷ ptr ∷ ref ∷ mutref ∷ fn ∷ trait_object
    ∷ struct ∷ enum ∷ union ∷ trait ∷ type_alias ∷ generic_param ∷ channel ∷ thread_handle ∷ infer
    ∷ []

abbrev find_kind : List Kind → Bytes → Kind
find_kind [] s = invalid
find_kind (k ∷ ks) s = if equal (codes (kind_text k)) s then k else find_kind ks s

find_kind-kind_text : (k : Kind) → find_kind all_kinds (codes (kind_text k)) ≡ k
unfolding equal
find_kind-kind_text invalid = refl
find_kind-kind_text bool = refl
find_kind-kind_text i8 = refl
find_kind-kind_text i16 = refl
find_kind-kind_text i32 = refl
find_kind-kind_text i64 = refl
find_kind-kind_text isize = refl
find_kind-kind_text u8 = refl
find_kind-kind_text u16 = refl
find_kind-kind_text u32 = refl
find_kind-kind_text u64 = refl
find_kind-kind_text usize = refl
find_kind-kind_text f32 = refl
find_kind-kind_text f64 = refl
find_kind-kind_text char = refl
find_kind-kind_text string = refl
find_kind-kind_text cstr = refl
find_kind-kind_text unit = refl
find_kind-kind_text never = refl
find_kind-kind_text tuple = refl
find_kind-kind_text array = refl
find_kind-kind_text slice = refl
find_kind-kind_text ptr = refl
find_kind-kind_text ref = refl
find_kind-kind_text mutref = refl
find_kind-kind_text fn = refl
find_kind-kind_text trait_object = refl
find_kind-kind_text struct = refl
find_kind-kind_text enum = refl
find_kind-kind_text union = refl
find_kind-kind_text trait = refl
find_kind-kind_text type_alias = refl
find_kind-kind_text generic_param = refl
find_kind-kind_text channel = refl
find_kind-kind_text thread_handle = refl
find_kind-kind_text infer = refl

-- What stands before the first brace of a key.
abbrev before_brace : Bytes → Bytes
before_brace [] = []
before_brace (c ∷ cs) = if c == 123 then [] else c ∷ before_brace cs

abbrev pub with_body : Kind → Bytes → Bytes
with_body k w = codes (kind_text k) ++ (if has_bare_key k then [] else 123 ∷ w)

before_brace-with_body : (k : Kind) (w : Bytes) → before_brace (with_body k w) ≡ codes (kind_text k)
before_brace-with_body invalid w = refl
before_brace-with_body bool w = refl
before_brace-with_body i8 w = refl
before_brace-with_body i16 w = refl
before_brace-with_body i32 w = refl
before_brace-with_body i64 w = refl
before_brace-with_body isize w = refl
before_brace-with_body u8 w = refl
before_brace-with_body u16 w = refl
before_brace-with_body u32 w = refl
before_brace-with_body u64 w = refl
before_brace-with_body usize w = refl
before_brace-with_body f32 w = refl
before_brace-with_body f64 w = refl
before_brace-with_body char w = refl
before_brace-with_body string w = refl
before_brace-with_body cstr w = refl
before_brace-with_body unit w = refl
before_brace-with_body never w = refl
before_brace-with_body tuple w = refl
before_brace-with_body array w = refl
before_brace-with_body slice w = refl
before_brace-with_body ptr w = refl
before_brace-with_body ref w = refl
before_brace-with_body mutref w = refl
before_brace-with_body fn w = refl
before_brace-with_body trait_object w = refl
before_brace-with_body struct w = refl
before_brace-with_body enum w = refl
before_brace-with_body union w = refl
before_brace-with_body trait w = refl
before_brace-with_body type_alias w = refl
before_brace-with_body generic_param w = refl
before_brace-with_body channel w = refl
before_brace-with_body thread_handle w = refl
before_brace-with_body infer w = refl

pub after_name :
    (k : Kind) (v w : Bytes) → has_bare_key k ≡ false → with_body k v ≡ with_body k w → v ≡ w
after_name k v w h e =
    let p =
      subst
        (λ b.
          codes (kind_text k) ++ (if b then [] else 123 ∷ v)
          ≡ codes (kind_text k) ++ (if b then [] else 123 ∷ w))
        h e in
    let q = append_cancel (codes (kind_text k)) (123 ∷ v) (123 ∷ w) p in ground (arith, q)

-- The beginning of a key gives the kind.
pub kind_of_key : (j k : Kind) (v w : Bytes) → with_body j v ≡ with_body k w → j ≡ k
kind_of_key j k v w e =
    let p = sym (before_brace-with_body j v) ∙ ap before_brace e ∙ before_brace-with_body k w in
    sym (find_kind-kind_text j) ∙ ap (find_kind all_kinds) p ∙ find_kind-kind_text k
