-- ===== src/Typetable/Checked.antt =====
-- compiler/typetable/table.go: Get after Intern.
use mathlib.Core.Path.{subst}
use fuse.Prelude.{
  ℕ, zero, suc, true, List, [], ◌∷◌, ◌++◌, Bytes, length, some, ◌≡◌, refl, sym, ◌∙◌, arith, inl,
  inr, Option-cases, All, get_elem?-append_one,
}
use fuse.Prelude.Maps.{lookup}
use fuse.Typetable.Kind.{Kind, infer}
use fuse.Typetable.Keys.{Ty, key, is_valid}
use fuse.Typetable.Table.{
  Table, get, of_kind, reserved, primitive_order, intern_core, intern, intern_primitive,
  intern_primitives, new,
}
use fuse.Typetable.Identity.{identity}
use fuse.Typetable.SameKey.{IsQuoting, key_lem}
use fuse.Typetable.Interned.{
  Reachable, fresh, interned, Reachable-IsIndexed, intern-eq, intern-key, get_primitive,
}

abbrev IsChecked : Table → Type 0
IsChecked t = (id : ℕ) (u : Ty) → get t id ≡ some u → is_valid u.kind u ≡ true

module _ (quote : Bytes → Bytes) where
  intern_core-IsChecked :
      (a : Ty) (t : Table)
      → is_valid a.kind a ≡ true
      → IsChecked t
      → IsChecked (intern_core quote a t).0
  unfolding intern_core get
  intern_core-IsChecked a t v h = elim (Option-cases (lookup (key quote a) t.by_key)) [
    | inl n ↦ rw n added_checked
    | inr (j, f) ↦ rw f h
  ]
    where
      added_checked : IsChecked (record t {
        types = t.types ++ (a ∷ []);
        by_key = (key quote a, length t.types) ∷ t.by_key;
      })
      added_checked zero u g = absurd (ground arith)
      added_checked (suc i) u g = elim (get_elem?-append_one t.types a u (suc i) g) [
        | inl e ↦ h (suc i) u e
        | inr (p, q) ↦ subst (λ w. is_valid w.kind w ≡ true) q v
      ]

  intern_primitive-IsChecked :
      (k : Kind) (t : Table)
      → is_valid k (of_kind k) ≡ true
      → IsChecked t
      → IsChecked (intern_primitive quote k t)
  unfolding intern_primitive
  intern_primitive-IsChecked k t v h id u g =
      intern_core-IsChecked (of_kind k) t v h id u (sym (get_primitive quote _ _ id) ∙ g)

  intern_primitives-IsChecked :
      (ks : List Kind) (t : Table)
      → All (λ k. is_valid k (of_kind k) ≡ true) ks
      → IsChecked t
      → IsChecked (intern_primitives quote ks t)
  unfolding intern_primitives
  intern_primitives-IsChecked [] t v h = h
  intern_primitives-IsChecked (k ∷ ks) t v h =
      intern_primitives-IsChecked ks _ v.1 (intern_primitive-IsChecked k t v.0 h)

  reserved-IsChecked : IsChecked reserved
  unfolding get
  reserved-IsChecked zero u g = absurd (ground arith)
  reserved-IsChecked (suc id) u g = absurd (ground arith)

  Reachable-IsChecked : {t : Table} → Reachable quote t → IsChecked t
  unfolding new
  Reachable-IsChecked fresh =
      intern_primitive-IsChecked infer _ refl
        (intern_primitives-IsChecked primitive_order reserved (ground arith) reserved-IsChecked)
  Reachable-IsChecked (interned {t} {u} {id} a r e) =
      let p = intern-eq quote a t u id e in
      subst (λ w. IsChecked w.0) p.1 (intern_core-IsChecked a t p.0 (Reachable-IsChecked r))

  -- Get gives, for the identifier that Intern returned, a type that agrees with the interned
  -- one in every field that its kind uses.
  pub get-intern :
      (a : Ty) (t u : Table) (i : ℕ)
      → IsQuoting quote
      → Reachable quote t
      → intern quote a t ≡ some (u, i)
      → (c : Ty) × (get u i ≡ some c) × (identity c.kind c ≡ identity a.kind a)
  get-intern a t u i hq r e =
      let s = interned a r e in
      let (c, g, p) =
        (Reachable-IsIndexed quote s).1 (key quote a) i (intern-key quote a t u i e) in
      let v = Reachable-IsChecked s i c g in
      (c, g, (key_lem quote c a hq v (intern-eq quote a t u i e).0).0 p)
