-- ===== src/Consteval/Layouts.antt =====
-- compiler/consteval/intrinsic.go: layouts of some types.
use fuse.Prelude.{ℕ, zero, suc, ◌<◌, ◌==◌, true, false, [], ◌∷◌, if◌then◌else◌, ◌≡◌, refl, arith}
use fuse.Typetable.Kind.{u8, u32, struct, enum}
use fuse.Typetable.Keys.{zero_type}
use fuse.Typetable.Table.{Table, get, of_kind, array_of}
use fuse.Consteval.Value.{type_kind}
use fuse.Consteval.Decls.{Decls, find_struct_decl, find_enum_decl}
use fuse.Consteval.Layout.{
  laid, too_deep, layout_size, layout_align, align_up, walk, widest_align, walk_variants,
}
use fuse.Consteval.Ranked.{Parts, layout-Agree}
use fuse.Consteval.Aligned.{Agree}

-- `struct S { a: U8, b: U32 }`, which is type 3, `[S; 3]`, which is type 4, and
-- `enum E { A, B(S) }`, which is type 5.
abbrev table : Table
table = record {
  types = zero_type ∷ of_kind u8 ∷ of_kind u32 ∷ of_kind struct ∷ array_of 3 3 ∷ of_kind enum ∷ [];
  by_key = [];
  primitive = [];
}

abbrev decls : Decls
decls = record {
  struct_decls = (record { type_id = 3; fields = 1 ∷ 2 ∷ []; tuple_fields = [] }) ∷ [];
  enum_decls =
      (record {
        enum_id = 5;
        variant_decls =
            (record { is_unit = true; tuple_types = []; field_types = [] })
            ∷ (record { is_unit = false; tuple_types = 3 ∷ []; field_types = [] })
            ∷ [];
      })
      ∷ [];
  union_decls = [];
}

array_laid : layout_size table decls 3 4 ≡ laid 24
unfolding layout_size layout_align get walk find_struct_decl align_up
array_laid = refl

enum_laid : layout_size table decls 3 5 ≡ laid 12
unfolding layout_size layout_align get walk walk_variants find_struct_decl find_enum_decl align_up
    widest_align
enum_laid = refl

abbrev rank : ℕ → ℕ
rank t = if t == 3 then 1 else if t == 4 then 2 else if t == 5 then 2 else 0

ranked : (t : ℕ) → Parts (λ c. rank c < rank t) decls (get table t) t (type_kind table t)
unfolding get find_struct_decl find_enum_decl
ranked zero = tt
ranked (suc zero) = tt
ranked (suc (suc zero)) = tt
ranked (suc (suc (suc zero))) = (omega arith, (omega arith, tt))
ranked (suc (suc (suc (suc zero)))) = omega arith
ranked (suc (suc (suc (suc (suc zero))))) = (tt, ((omega arith, tt), tt))
ranked (suc (suc (suc (suc (suc (suc t)))))) = tt

layout-Agree_example : Agree (layout_size table decls 3 5) (layout_align table decls 3 5)
layout-Agree_example = layout-Agree table decls rank ranked 3 5 (omega arith)

-- `struct T { next: T }`, which is type 3: its layout goes deeper than any depth.
abbrev endless : Decls
endless = record {
  struct_decls = (record { type_id = 3; fields = 3 ∷ []; tuple_fields = [] }) ∷ [];
  enum_decls = [];
  union_decls = [];
}

endless_too_deep : (depth : ℕ) → layout_size table endless depth 3 ≡ too_deep
unfolding layout_size layout_align get walk find_struct_decl
endless_too_deep zero = refl
endless_too_deep (suc depth) = rw (endless_too_deep depth) refl
