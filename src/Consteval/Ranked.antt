-- ===== src/Consteval/Ranked.antt =====
-- compiler/consteval/intrinsic.go: the layouts of types that do not contain themselves.
use fuse.Prelude.{
  ℕ, zero, suc, ◌<◌, ◌%◌, ◌*◌, All, All-map, Option, none, some, ◌≡◌, refl, inl, inr, arith,
}
use fuse.Typetable.Kind.{
  Kind, invalid, bool, i8, i16, i32, i64, isize, u8, u16, u32, u64, usize, f32, f64, char, string,
  cstr, unit, never, tuple, array, slice, ptr, ref, mutref, fn, trait_object, struct, enum, union,
  trait, type_alias, generic_param, channel, thread_handle, infer,
}
use fuse.Typetable.Keys.{Ty}
use fuse.Typetable.Table.{Table, get}
use fuse.Consteval.Value.{type_kind}
use fuse.Consteval.Words.{wrap}
use fuse.Consteval.Decls.{
  EnumTypeDecl, StructDecl, UnionDecl, Decls, find_struct_decl, find_enum_decl, find_union_decl,
  struct_field_types, variant_types,
}
use fuse.Consteval.Layout.{
  Laid, laid, refused, too_deep, grow_struct, grow_union, array_info, struct_size, struct_align,
  enum_size, enum_align, union_size, union_align, array_size, array_align, size_of_kind,
  align_of_kind, layout_size, layout_align,
}
use fuse.Consteval.Padding.{IsAlignment, product_divides}
use fuse.Consteval.Aligned.{Settles, lay-Settles, Agree, Fits, fields-Agree, variants-Agree}

-- A predicate of what an option holds, if it holds anything.
abbrev pub OnSome : {A : Type 0} → (A → Type 0) → Option A → Type 0
OnSome P none = Unit
OnSome P (some x) = P x

OnSome-map :
    {A : Type 0} (P Q : A → Type 0) (o : Option A) → ((x : A) → P x → Q x) → OnSome P o → OnSome Q o
OnSome-map P Q none f h = tt
OnSome-map P Q (some x) f h = f x h

-- A predicate holds of the types that a value of a type contains: of all elements, fields and payloads.
abbrev pub Parts : (ℕ → Type 0) → Decls → Option Ty → ℕ → Kind → Type 0
Parts P decls info t array = OnSome (λ e. P e.0) (array_info info)
Parts P decls info t tuple = OnSome (λ i. All P i.children) info
Parts P decls info t struct =
    OnSome (λ d. All P (struct_field_types d)) (find_struct_decl t decls.struct_decls)
Parts P decls info t enum =
    OnSome (λ d. All (λ v. All P (variant_types v)) d.variant_decls)
      (find_enum_decl t decls.enum_decls)
Parts P decls info t union =
    OnSome (λ d. All P d.union_fields) (find_union_decl t decls.union_decls)
Parts P decls info t _ = Unit

Parts-map :
    (P Q : ℕ → Type 0) (decls : Decls) (info : Option Ty) (t : ℕ) (k : Kind)
    → ((c : ℕ) → P c → Q c)
    → Parts P decls info t k
    → Parts Q decls info t k
Parts-map P Q decls info t array f h =
    OnSome-map (λ e. P e.0) (λ e. Q e.0) (array_info info) (λ e k. f e.0 k) h
Parts-map P Q decls info t tuple f h =
    OnSome-map (λ i. All P i.children) (λ i. All Q i.children) info
      (λ i k. All-map P Q i.children f k) h
Parts-map P Q decls info t struct f h =
    OnSome-map (λ d. All P (struct_field_types d)) (λ d. All Q (struct_field_types d))
      (find_struct_decl t decls.struct_decls) (λ d k. All-map P Q (struct_field_types d) f k) h
Parts-map P Q decls info t enum f h =
    OnSome-map (λ d. All (λ v. All P (variant_types v)) d.variant_decls)
      (λ d. All (λ v. All Q (variant_types v)) d.variant_decls) (find_enum_decl t decls.enum_decls)
      (λ d k.
        All-map (λ v. All P (variant_types v)) (λ v. All Q (variant_types v)) d.variant_decls
          (λ v l. All-map P Q (variant_types v) f l) k)
      h
Parts-map P Q decls info t union f h =
    OnSome-map (λ d. All P d.union_fields) (λ d. All Q d.union_fields)
      (find_union_decl t decls.union_decls) (λ d k. All-map P Q d.union_fields f k) h
Parts-map P Q decls info t _ f h = tt

array_divides :
    (s n : ℕ) (r : Laid ℕ)
    → Settles IsAlignment r
    → Settles (λ a. s % a ≡ 0) r
    → Settles (λ a. wrap (s * n) % a ≡ 0) r
array_divides s n (laid a) i d = product_divides s n a i d
array_divides s n (refused e) i d = tt
array_divides s n too_deep i d = d

module _ (size_of align_of : ℕ → Laid ℕ) where
  array-Agree :
      (o : Option (ℕ × ℕ))
      → OnSome (λ e. Fits size_of align_of e.0) o
      → Agree (array_size size_of align_of o) (array_align size_of align_of o)
  array-Agree none h = (tt, tt)
  array-Agree (some (elem, n)) h = (
    h.0,
    lay-Settles (λ s. Settles (λ a. s % a ≡ 0) (align_of elem))
        (λ s. Settles (λ a. s % a ≡ 0) (align_of elem)) (size_of elem) (λ s. laid (wrap (s * n)))
        h.1 (λ s d. array_divides s n (align_of elem) h.0 d),
  )

  struct-Agree :
      (o : Option StructDecl)
      → OnSome (λ d. All (Fits size_of align_of) (struct_field_types d)) o
      → Agree (struct_size size_of align_of o) (struct_align size_of align_of o)
  struct-Agree none h = (inl refl, tt)
  struct-Agree (some d) h = fields-Agree size_of align_of grow_struct (struct_field_types d) h

  enum-Agree :
      (o : Option EnumTypeDecl)
      → OnSome (λ d. All (λ v. All (Fits size_of align_of) (variant_types v)) d.variant_decls) o
      → Agree (enum_size size_of align_of o) (enum_align size_of align_of o)
  enum-Agree none h = (inl refl, refl)
  enum-Agree (some d) h = variants-Agree size_of align_of d.variant_decls h

  union-Agree :
      (o : Option UnionDecl)
      → OnSome (λ d. All (Fits size_of align_of) d.union_fields) o
      → Agree (union_size size_of align_of o) (union_align size_of align_of o)
  union-Agree none h = (inl refl, refl)
  union-Agree (some d) h = fields-Agree size_of align_of grow_union d.union_fields h

  kind-Agree :
      (decls : Decls) (info : Option Ty) (t : ℕ) (k : Kind)
      → Parts (Fits size_of align_of) decls info t k
      → Agree
          (size_of_kind size_of align_of decls info t k)
          (align_of_kind size_of align_of decls info t k)
  kind-Agree decls info t bool h = (inl refl, refl)
  kind-Agree decls info t i8 h = (inl refl, refl)
  kind-Agree decls info t u8 h = (inl refl, refl)
  kind-Agree decls info t unit h = (inl refl, refl)
  kind-Agree decls info t never h = (inl refl, refl)
  kind-Agree decls info t i16 h = (inr (inl refl), refl)
  kind-Agree decls info t u16 h = (inr (inl refl), refl)
  kind-Agree decls info t i32 h = (inr (inr (inl refl)), refl)
  kind-Agree decls info t u32 h = (inr (inr (inl refl)), refl)
  kind-Agree decls info t f32 h = (inr (inr (inl refl)), refl)
  kind-Agree decls info t char h = (inr (inr (inl refl)), refl)
  kind-Agree decls info t i64 h = (inr (inr (inr refl)), refl)
  kind-Agree decls info t u64 h = (inr (inr (inr refl)), refl)
  kind-Agree decls info t f64 h = (inr (inr (inr refl)), refl)
  kind-Agree decls info t isize h = (inr (inr (inr refl)), refl)
  kind-Agree decls info t usize h = (inr (inr (inr refl)), refl)
  kind-Agree decls info t ptr h = (inr (inr (inr refl)), refl)
  kind-Agree decls info t ref h = (inr (inr (inr refl)), refl)
  kind-Agree decls info t mutref h = (inr (inr (inr refl)), refl)
  kind-Agree decls info t slice h = (inr (inr (inr refl)), refl)
  kind-Agree decls info t trait_object h = (inr (inr (inr refl)), refl)
  kind-Agree decls info t fn h = (inr (inr (inr refl)), refl)
  kind-Agree decls info t array h = array-Agree (array_info info) h
  kind-Agree decls none t tuple h = (tt, tt)
  kind-Agree decls (some i) t tuple h = fields-Agree size_of align_of grow_struct i.children h
  kind-Agree decls info t struct h = struct-Agree (find_struct_decl t decls.struct_decls) h
  kind-Agree decls info t enum h = enum-Agree (find_enum_decl t decls.enum_decls) h
  kind-Agree decls info t union h = union-Agree (find_union_decl t decls.union_decls) h
  kind-Agree decls info t invalid h = (tt, tt)
  kind-Agree decls info t string h = (tt, tt)
  kind-Agree decls info t cstr h = (tt, tt)
  kind-Agree decls info t trait h = (tt, tt)
  kind-Agree decls info t type_alias h = (tt, tt)
  kind-Agree decls info t generic_param h = (tt, tt)
  kind-Agree decls info t channel h = (tt, tt)
  kind-Agree decls info t thread_handle h = (tt, tt)
  kind-Agree decls info t infer h = (tt, tt)

-- If each type has a rank above the ranks of the types that its values contain, then for every
-- type layoutSize and layoutAlign end, on a depth above its rank, with a number or an error; the
-- alignment is 1, 2, 4 or 8, and the size is a multiple of it.
pub layout-Agree :
    (tab : Table) (decls : Decls) (rank : ℕ → ℕ)
    → ((t : ℕ) → Parts (λ c. rank c < rank t) decls (get tab t) t (type_kind tab t))
    → (depth t : ℕ) → rank t < depth
    → Agree (layout_size tab decls depth t) (layout_align tab decls depth t)
unfolding layout_size layout_align
layout-Agree tab decls rank parts zero t h = absurd (omega arith)
layout-Agree tab decls rank parts (suc depth) t h =
    kind-Agree (layout_size tab decls depth) (layout_align tab decls depth) decls (get tab t) t
      (type_kind tab t)
      (Parts-map (λ c. rank c < rank t)
        (Fits (layout_size tab decls depth) (layout_align tab decls depth)) decls (get tab t) t
        (type_kind tab t) (λ c k. layout-Agree tab decls rank parts depth c (omega arith))
        (parts t))
