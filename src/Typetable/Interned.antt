-- ===== src/Typetable/Interned.antt =====
-- compiler/typetable/table.go: tables as New and Intern make them, and the identity of types.
use mathlib.Core.Path.{subst}
use mathlib.Core.Option.{some-injective}
use fuse.Prelude.{
  ℕ, zero, suc, true, List, [], ◌∷◌, Bytes, some, ◌≡◌, ◌↔◌, refl, sym, ap, ◌∙◌, arith,
}
use fuse.Prelude.Maps.{lookup}
use fuse.Typetable.Kind.{Kind, infer}
use fuse.Typetable.Keys.{Ty, key, is_valid}
use fuse.Typetable.Table.{
  Table, get, of_kind, reserved, primitive_order, intern_core, intern, intern_primitive,
  intern_primitives, new,
}
use fuse.Typetable.Identity.{identity}
use fuse.Typetable.SameKey.{IsQuoting, key_lem}
use fuse.Typetable.Indexed.{
  IsIndexed, reserved-IsIndexed, intern_core-IsIndexed, intern_core-key, intern_core-lookup,
  intern_core-get,
}

module _ (quote : Bytes → Bytes) where
  pub get_primitive :
      (t : Table) (ps : List (Kind × ℕ)) (id : ℕ) → get (record t { primitive = ps }) id ≡ get t id
  unfolding get
  get_primitive t ps zero = refl
  get_primitive t ps (suc i) = refl

  with_primitive-IsIndexed :
      (t : Table) (ps : List (Kind × ℕ))
      → IsIndexed quote t
      → IsIndexed quote (record t { primitive = ps })
  with_primitive-IsIndexed t ps h = (
    h.0,
    λ k id e. let (u, g, r) = h.1 k id e in (u, get_primitive t ps id ∙ g, r),
    λ id u g. h.2 id u (sym (get_primitive t ps id) ∙ g),
  )

  intern_primitive-IsIndexed :
      (k : Kind) (t : Table) → IsIndexed quote t → IsIndexed quote (intern_primitive quote k t)
  unfolding intern_primitive
  intern_primitive-IsIndexed k t h =
      with_primitive-IsIndexed _ _ (intern_core-IsIndexed quote (of_kind k) t h)

  intern_primitives-IsIndexed :
      (ks : List Kind) (t : Table)
      → IsIndexed quote t
      → IsIndexed quote (intern_primitives quote ks t)
  unfolding intern_primitives
  intern_primitives-IsIndexed [] t h = h
  intern_primitives-IsIndexed (k ∷ ks) t h =
      intern_primitives-IsIndexed ks _ (intern_primitive-IsIndexed k t h)

  new-IsIndexed : IsIndexed quote (new quote)
  unfolding new
  new-IsIndexed =
      intern_primitive-IsIndexed infer _
        (intern_primitives-IsIndexed primitive_order reserved (reserved-IsIndexed quote))

  -- The tables that New and calls of Intern that do not panic make.
  pub data Reachable : Table → Type 0 where
    fresh : Reachable (new quote)
    interned :
        {t u : Table} {id : ℕ} (typ : Ty)
        → Reachable t
        → intern quote typ t ≡ some (u, id)
        → Reachable u

  pub intern-eq :
      (typ : Ty) (t u : Table) (id : ℕ)
      → intern quote typ t ≡ some (u, id)
      → (is_valid typ.kind typ ≡ true) × (intern_core quote typ t ≡ (u, id))
  intern-eq typ t u id h = ground (arith, h)

  -- Of every table that New and Intern make: each key of the map stands for the identifier of
  -- a type with that key, and the map gives the key of every type its identifier.
  pub Reachable-IsIndexed : {t : Table} → Reachable t → IsIndexed quote t
  Reachable-IsIndexed fresh = new-IsIndexed
  Reachable-IsIndexed (interned {t} {u} {id} typ r e) =
      subst (λ w. IsIndexed quote w.0) (intern-eq typ t u id e).1
        (intern_core-IsIndexed quote typ t (Reachable-IsIndexed r))

  same_id→same_key :
      (t : Table) (i : ℕ) (j k : Bytes)
      → IsIndexed quote t
      → lookup j t.by_key ≡ some i
      → lookup k t.by_key ≡ some i
      → j ≡ k
  same_id→same_key t i j k h e f =
      let (u, g, p) = h.1 j i e in
      let (v, d, q) = h.1 k i f in sym p ∙ ap (key quote) (some-injective u v (sym g ∙ d)) ∙ q

  pub intern-key :
      (a : Ty) (t u : Table) (i : ℕ)
      → intern quote a t ≡ some (u, i)
      → lookup (key quote a) u.by_key ≡ some i
  intern-key a t u i e =
      let p = (intern-eq a t u i e).1 in
      subst (λ w. lookup (key quote a) w.0.by_key ≡ some w.1) p (intern_core-key quote a t)

  -- Over a table that New and Intern made, two types that are interned one after the other
  -- have the same identifier exactly where they agree in every field that their kind uses, if
  -- what %q writes can be told from what follows it.
  pub intern_lem :
      (a b : Ty) (t u v : Table) (i j : ℕ)
      → IsQuoting quote
      → Reachable t
      → intern quote a t ≡ some (u, i)
      → intern quote b u ≡ some (v, j)
      → (i ≡ j) ↔ (identity a.kind a ≡ identity b.kind b)
  intern_lem a b t u v i j hq r e f =
      let h = Reachable-IsIndexed (interned b (interned a r e) f) in
      let p = intern-eq b u v j f in
      let kept = intern_core-lookup quote b u (key quote a) i (intern-key a t u i e) in
      let ka = subst (λ w. lookup (key quote a) w.0.by_key ≡ some i) p.1 kept in
      let kb = intern-key b u v j f in
      let m = key_lem quote a b hq (intern-eq a t u i e).0 p.0 in
      (
        λ q. m.0 (
            same_id→same_key v j _ _ h (subst (λ n. lookup (key quote a) v.by_key ≡ some n) q ka)
              kb),
        λ q. some-injective i j (sym ka ∙ ap (λ k. lookup k v.by_key) (m.1 q) ∙ kb),
      )

  -- A type that Intern adds or finds stays at its identifier, whatever is interned afterwards.
  pub intern-get :
      (b c : Ty) (u v : Table) (i j : ℕ)
      → get u i ≡ some c
      → intern quote b u ≡ some (v, j)
      → get v i ≡ some c
  intern-get b c u v i j g f =
      subst (λ w. get w.0 i ≡ some c) (intern-eq b u v j f).1 (intern_core-get quote b c u i g)
