-- ===== src/Typetable/Indexed.antt =====
-- compiler/typetable/table.go: the map of keys and the list of types agree.
use mathlib.Core.Path.{subst}
use fuse.Prelude.{
  ℕ, zero, suc, ◌<◌, [], ◌∷◌, Bytes, length, none, some, get_elem?, get_elem?-append,
  get_elem?-last, get_elem?-append_one, ◌≡◌, refl, sym, ap, ◌∙◌, arith, inl, inr, Bool-cases,
  Option-cases, equal, equal→eq, length-append,
}
use fuse.Prelude.Maps.{lookup, lookup-put, lookup-put_other, lookup-put_cases}
use fuse.Typetable.Keys.{Ty, key}
use fuse.Typetable.Table.{Table, get, reserved, intern_found, intern_core}

module _ (quote : Bytes → Bytes) where
  -- A key of the map stands for the identifier of a type with that key.
  abbrev pub IsSound : Table → Type 0
  IsSound t =
      (k : Bytes) (id : ℕ)
      → lookup k t.by_key ≡ some id
      → (u : Ty) × (get t id ≡ some u) × (key quote u ≡ k)

  -- The map knows every type of the table.
  abbrev pub IsComplete : Table → Type 0
  IsComplete t = (id : ℕ) (u : Ty) → get t id ≡ some u → lookup (key quote u) t.by_key ≡ some id

  abbrev pub IsIndexed : Table → Type 0
  IsIndexed t = (0 < length t.types) × IsSound t × IsComplete t

  pub reserved-IsIndexed : IsIndexed reserved
  unfolding get lookup
  reserved-IsIndexed = (omega arith, λ k id h. absurd (ground arith), only_reserved)
    where
      only_reserved : IsComplete reserved
      only_reserved zero u h = absurd (ground arith)
      only_reserved (suc id) u h = absurd (ground arith)

  get_nonzero : (t : Table) (id : ℕ) → 0 < id → get t id ≡ get_elem? t.types id
  unfolding get
  get_nonzero t zero h = absurd (omega arith)
  get_nonzero t (suc i) h = refl

  unfoldable pub added : Ty → Table → Table
  added u t = (intern_found quote u t none).0

  -- An old identifier keeps its type.
  get-added : (u v : Ty) (t : Table) (id : ℕ) → get t id ≡ some v → get (added u t) id ≡ some v
  unfolding get added
  get-added u v t zero h = absurd (ground arith)
  get-added u v t (suc i) h = get_elem?-append t.types (u ∷ []) (suc i) v h

  get-added_new :
      (u : Ty) (t : Table) → 0 < length t.types → get (added u t) (length t.types) ≡ some u
  unfolding get added
  get-added_new u t h = get_nonzero (added u t) (length t.types) h ∙ get_elem?-last t.types u

  added-IsSound : (u : Ty) (t : Table) → IsIndexed t → IsSound (added u t)
  unfolding added
  added-IsSound u t h k id e =
      elim (lookup-put_cases k (key quote u) id (length t.types) t.by_key e) [
        | inl (p, q) ↦ (u, subst (λ i. get (added u t) i ≡ some u) q (get-added_new u t h.0), sym p)
        | inr f ↦ let (v, g, r) = h.1 k id f in (v, get-added u v t id g, r)
      ]

  keeps_lookup :
      (u : Ty) (t : Table)
      → lookup (key quote u) t.by_key ≡ none
      → (k : Bytes) (id : ℕ) → lookup k t.by_key ≡ some id
      → lookup k (added u t).by_key ≡ some id
  unfolding added
  keeps_lookup u t n k id e = elim (Bool-cases (equal k (key quote u))) [
    | inl p ↦
        absurd (ground (arith, subst (λ x. lookup x t.by_key ≡ some id) (equal→eq k _ p) e, n))
    | inr p ↦ lookup-put_other k (key quote u) (length t.types) t.by_key p ∙ e
  ]

  added-IsComplete :
      (u : Ty) (t : Table)
      → lookup (key quote u) t.by_key ≡ none
      → IsIndexed t
      → IsComplete (added u t)
  unfolding added get
  added-IsComplete u t n h zero v g = absurd (ground arith)
  added-IsComplete u t n h (suc i) v g = elim (get_elem?-append_one t.types u v (suc i) g) [
    | inl f ↦ keeps_lookup u t n (key quote v) (suc i) (h.2 (suc i) v f)
    | inr (p, q) ↦
        subst (λ w. lookup (key quote w) (added u t).by_key ≡ some (suc i)) q
          (lookup-put (key quote u) (length t.types) t.by_key ∙ ap some (sym p))
  ]

  -- Interning changes no identifier that a key has.
  pub intern_core-lookup :
      (u : Ty) (t : Table) (k : Bytes) (id : ℕ)
      → lookup k t.by_key ≡ some id
      → lookup k (intern_core quote u t).0.by_key ≡ some id
  unfolding intern_core added
  intern_core-lookup u t k id e = elim (Option-cases (lookup (key quote u) t.by_key)) [
    | inl n ↦ rw n (keeps_lookup u t n k id e)
    | inr (j, f) ↦ rw f e
  ]

  -- Interning finds the key of its type afterwards.
  pub intern_core-key :
      (u : Ty) (t : Table)
      → lookup (key quote u) (intern_core quote u t).0.by_key ≡ some (intern_core quote u t).1
  unfolding intern_core
  intern_core-key u t = elim (Option-cases (lookup (key quote u) t.by_key)) [
    | inl n ↦ rw n (lookup-put (key quote u) (length t.types) t.by_key)
    | inr (j, f) ↦ rw f f
  ]

  pub intern_core-get :
      (u v : Ty) (t : Table) (id : ℕ)
      → get t id ≡ some v
      → get (intern_core quote u t).0 id ≡ some v
  unfolding intern_core added
  intern_core-get u v t id e = elim (Option-cases (lookup (key quote u) t.by_key)) [
    | inl n ↦ rw n (get-added u v t id e)
    | inr (j, f) ↦ rw f e
  ]

  pub intern_core-IsIndexed :
      (u : Ty) (t : Table) → IsIndexed t → IsIndexed (intern_core quote u t).0
  unfolding intern_core added
  intern_core-IsIndexed u t h = elim (Option-cases (lookup (key quote u) t.by_key)) [
    | inl n ↦ rw n (
      omega (arith, length-append t.types (u ∷ [])),
      added-IsSound u t h,
      added-IsComplete u t n h,
    )
    | inr (j, f) ↦ rw f h
  ]
