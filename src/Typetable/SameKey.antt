-- ===== src/Typetable/SameKey.antt =====
-- compiler/typetable/type.go: equal keys, equal types.
use mathlib.Core.Path.{subst}
use fuse.Prelude.{
  true, false, ◌++◌, Bytes, codes, ◌≡◌, ◌↔◌, refl, sym, ap, ◌∙◌, arith, append_cancel, inl, inr,
  Bool-cases,
}
use fuse.Prelude.Decimal.{decimal_split}
use fuse.Typetable.Kind.{
  Kind, invalid, bool, i8, i16, i32, i64, isize, u8, u16, u32, u64, usize, f32, f64, char, string,
  cstr, unit, never, tuple, array, slice, ptr, ref, mutref, fn, trait_object, struct, enum, union,
  trait, type_alias, generic_param, channel, thread_handle, infer,
}
use fuse.Typetable.Keys.{
  Ty, zero_type, write_args, write_nominal, has_bare_key, write_body, key, is_valid,
}
use fuse.Typetable.Names.{with_body, kind_of_key, after_name}
use fuse.Typetable.Identity.{
  identity, nominal, closing, elem_split, children_split, array_split, fn_split, args_split,
}

-- `%q` writes a text in quotes, with the quotes in it escaped: where it ends can be told.
abbrev pub IsQuoting : (Bytes → Bytes) → Type 0
IsQuoting q = (s t r u : Bytes) → q s ++ r ≡ q t ++ u → (s ≡ t) × (r ≡ u)

bare_identity : (k : Kind) (t u : Ty) → has_bare_key k ≡ true → identity k t ≡ identity k u
bare_identity invalid t u h = absurd (ground arith)
bare_identity bool t u h = refl
bare_identity i8 t u h = refl
bare_identity i16 t u h = refl
bare_identity i32 t u h = refl
bare_identity i64 t u h = refl
bare_identity isize t u h = refl
bare_identity u8 t u h = refl
bare_identity u16 t u h = refl
bare_identity u32 t u h = refl
bare_identity u64 t u h = refl
bare_identity usize t u h = refl
bare_identity f32 t u h = refl
bare_identity f64 t u h = refl
bare_identity char t u h = refl
bare_identity string t u h = refl
bare_identity cstr t u h = refl
bare_identity unit t u h = refl
bare_identity never t u h = refl
bare_identity tuple t u h = absurd (ground arith)
bare_identity array t u h = absurd (ground arith)
bare_identity slice t u h = absurd (ground arith)
bare_identity ptr t u h = absurd (ground arith)
bare_identity ref t u h = absurd (ground arith)
bare_identity mutref t u h = absurd (ground arith)
bare_identity fn t u h = absurd (ground arith)
bare_identity trait_object t u h = absurd (ground arith)
bare_identity struct t u h = absurd (ground arith)
bare_identity enum t u h = absurd (ground arith)
bare_identity union t u h = absurd (ground arith)
bare_identity trait t u h = absurd (ground arith)
bare_identity type_alias t u h = absurd (ground arith)
bare_identity generic_param t u h = absurd (ground arith)
bare_identity channel t u h = absurd (ground arith)
bare_identity thread_handle t u h = absurd (ground arith)
bare_identity infer t u h = refl

module _ (quote : Bytes → Bytes) where
  nominal_split :
      (t u : Ty) (r s : Bytes)
      → IsQuoting quote
      → write_nominal quote t r ≡ write_nominal quote u s
      → (t.symbol ≡ u.symbol) × (t.module_path ≡ u.module_path) × (t.name ≡ u.name) × (r ≡ s)
  nominal_split t u r s hq e =
      let p = append_cancel (codes "sym=") _ _ e in
      let q = decimal_split t.symbol u.symbol _ _ (inr (omega arith)) (inr (omega arith)) p in
      let v = append_cancel (codes ";mod=") _ _ q.1 in
      let w = hq t.module_path u.module_path _ _ v in
      let x = append_cancel (codes ";name=") _ _ w.1 in
      let y = hq t.name u.name r s x in (q.0, w.0, y.0, y.1)

  nominal_same :
      (k : Kind) (t u : Ty)
      → IsQuoting quote
      → write_nominal quote t (write_args t.type_args closing)
        ≡ write_nominal quote u (write_args u.type_args closing)
      → nominal k t ≡ nominal k u
  nominal_same k t u hq e =
      let p = nominal_split t u _ _ hq e in
      let q = args_split t.type_args u.type_args p.3 in ground (arith, p.0, p.1, p.2, q)

  body_split :
      (k : Kind) (t u : Ty)
      → IsQuoting quote
      → has_bare_key k ≡ false
      → is_valid k t ≡ true
      → is_valid k u ≡ true
      → write_body quote k t closing ≡ write_body quote k u closing
      → identity k t ≡ identity k u
  body_split invalid t u hq hb ht hu e = absurd (ground arith)
  body_split bool t u hq hb ht hu e = absurd (ground arith)
  body_split i8 t u hq hb ht hu e = absurd (ground arith)
  body_split i16 t u hq hb ht hu e = absurd (ground arith)
  body_split i32 t u hq hb ht hu e = absurd (ground arith)
  body_split i64 t u hq hb ht hu e = absurd (ground arith)
  body_split isize t u hq hb ht hu e = absurd (ground arith)
  body_split u8 t u hq hb ht hu e = absurd (ground arith)
  body_split u16 t u hq hb ht hu e = absurd (ground arith)
  body_split u32 t u hq hb ht hu e = absurd (ground arith)
  body_split u64 t u hq hb ht hu e = absurd (ground arith)
  body_split usize t u hq hb ht hu e = absurd (ground arith)
  body_split f32 t u hq hb ht hu e = absurd (ground arith)
  body_split f64 t u hq hb ht hu e = absurd (ground arith)
  body_split char t u hq hb ht hu e = absurd (ground arith)
  body_split string t u hq hb ht hu e = absurd (ground arith)
  body_split cstr t u hq hb ht hu e = absurd (ground arith)
  body_split unit t u hq hb ht hu e = absurd (ground arith)
  body_split never t u hq hb ht hu e = absurd (ground arith)
  body_split tuple t u hq hb ht hu e =
      ap (λ c. record zero_type { kind = tuple; children = c })
        (children_split t.children u.children e)
  body_split array t u hq hb ht hu e = ground (arith, array_split t u ht hu e)
  body_split slice t u hq hb ht hu e =
      ap (λ c. record zero_type { kind = slice; children = c })
        (elem_split t.children u.children ht hu e)
  body_split ptr t u hq hb ht hu e =
      ap (λ c. record zero_type { kind = ptr; children = c })
        (elem_split t.children u.children ht hu e)
  body_split ref t u hq hb ht hu e =
      ap (λ c. record zero_type { kind = ref; children = c })
        (elem_split t.children u.children ht hu e)
  body_split mutref t u hq hb ht hu e =
      ap (λ c. record zero_type { kind = mutref; children = c })
        (elem_split t.children u.children ht hu e)
  body_split fn t u hq hb ht hu e = ground (arith, fn_split t u e)
  body_split trait_object t u hq hb ht hu e =
      ap (λ c. record zero_type { kind = trait_object; children = c })
        (children_split t.children u.children e)
  body_split struct t u hq hb ht hu e = nominal_same struct t u hq e
  body_split enum t u hq hb ht hu e = nominal_same enum t u hq e
  body_split union t u hq hb ht hu e = nominal_same union t u hq e
  body_split trait t u hq hb ht hu e = nominal_same trait t u hq e
  body_split type_alias t u hq hb ht hu e = nominal_same type_alias t u hq e
  body_split generic_param t u hq hb ht hu e =
      ground (arith, nominal_split t u closing closing hq e)
  body_split channel t u hq hb ht hu e =
      ap (λ c. record zero_type { kind = channel; children = c })
        (elem_split t.children u.children ht hu e)
  body_split thread_handle t u hq hb ht hu e =
      ap (λ c. record zero_type { kind = thread_handle; children = c })
        (elem_split t.children u.children ht hu e)
  body_split infer t u hq hb ht hu e = absurd (ground arith)

  with_body-identity :
      (k : Kind) (t : Ty) → key quote (identity k t) ≡ with_body k (write_body quote k t closing)
  unfolding key
  with_body-identity invalid t = refl
  with_body-identity bool t = refl
  with_body-identity i8 t = refl
  with_body-identity i16 t = refl
  with_body-identity i32 t = refl
  with_body-identity i64 t = refl
  with_body-identity isize t = refl
  with_body-identity u8 t = refl
  with_body-identity u16 t = refl
  with_body-identity u32 t = refl
  with_body-identity u64 t = refl
  with_body-identity usize t = refl
  with_body-identity f32 t = refl
  with_body-identity f64 t = refl
  with_body-identity char t = refl
  with_body-identity string t = refl
  with_body-identity cstr t = refl
  with_body-identity unit t = refl
  with_body-identity never t = refl
  with_body-identity tuple t = refl
  with_body-identity array t = refl
  with_body-identity slice t = refl
  with_body-identity ptr t = refl
  with_body-identity ref t = refl
  with_body-identity mutref t = refl
  with_body-identity fn t = refl
  with_body-identity trait_object t = refl
  with_body-identity struct t = refl
  with_body-identity enum t = refl
  with_body-identity union t = refl
  with_body-identity trait t = refl
  with_body-identity type_alias t = refl
  with_body-identity generic_param t = refl
  with_body-identity channel t = refl
  with_body-identity thread_handle t = refl
  with_body-identity infer t = refl

  -- The key of a type is that of its identity.
  key-identity : (t : Ty) → key quote (identity t.kind t) ≡ key quote t
  unfolding key
  key-identity t = with_body-identity t.kind t

  identity_of_body :
      (k : Kind) (t u : Ty)
      → IsQuoting quote
      → is_valid k t ≡ true
      → is_valid k u ≡ true
      → with_body k (write_body quote k t closing) ≡ with_body k (write_body quote k u closing)
      → identity k t ≡ identity k u
  identity_of_body k t u hq ht hu e = elim (Bool-cases (has_bare_key k)) [
    | inl b ↦ bare_identity k t u b
    | inr b ↦ body_split k t u hq b ht hu (after_name k _ _ b e)
  ]

  -- For valid types the keys are equal exactly where the types agree in every field that
  -- their kind uses, if what %q writes can be told from what follows it.
  pub key_lem :
      (t u : Ty)
      → IsQuoting quote
      → is_valid t.kind t ≡ true
      → is_valid u.kind u ≡ true
      → (key quote t ≡ key quote u) ↔ (identity t.kind t ≡ identity u.kind u)
  unfolding key
  key_lem t u hq ht hu = (
    λ e.
        let p = kind_of_key t.kind u.kind _ _ e in
        let hv = subst (λ k. is_valid k u ≡ true) (sym p) hu in
        let w = with_body t.kind (write_body quote t.kind t closing) in
        let f = subst (λ k. w ≡ with_body k (write_body quote k u closing)) (sym p) e in
        let r = identity_of_body t.kind t u hq ht hv f in
        subst (λ k. identity t.kind t ≡ identity k u) p r,
    λ e. sym (key-identity t) ∙ ap (key quote) e ∙ key-identity u,
  )
