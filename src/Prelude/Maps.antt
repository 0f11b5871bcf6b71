-- ===== src/Prelude/Maps.antt =====
-- A Go map with string keys: an association list in which a later entry hides an earlier one.
use mathlib.Core.Path.{◌≡◌, refl, sym, ◌∙◌, subst}
use mathlib.Core.Logic.{◌⊎◌, inl, inr}
use mathlib.Core.Bool.{false}
use mathlib.Core.Option.{Option, none, some, some-injective}
use mathlib.Core.List.{List, [], ◌∷◌}
use fuse.Prelude.Tests.{if◌then◌else◌, Bool-cases}
use fuse.Prelude.Lists.{Bytes, equal, equal→eq, equal_refl}

abbrev pub Map {ℓ} : Type ℓ → Type ℓ
Map V = List (Bytes × V)

module _ {ℓ} {V : Type ℓ} where
  unfoldable pub lookup : Bytes → Map V → Option V
  lookup k [] = none
  lookup k (e ∷ m) = if equal k e.0 then some e.1 else lookup k m

  abbrev pub put : Bytes → V → Map V → Map V
  put k v m = (k, v) ∷ m

  pub lookup-put : (k : Bytes) (v : V) (m : Map V) → lookup k (put k v m) ≡ some v
  unfolding lookup
  lookup-put k v m = rw (equal_refl k) refl

  pub lookup-put_other :
      (j k : Bytes) (v : V) (m : Map V) → equal j k ≡ false → lookup j (put k v m) ≡ lookup j m
  unfolding lookup
  lookup-put_other j k v m h = rw h refl

  pub lookup-put_cases :
      (j k : Bytes) (u v : V) (m : Map V)
      → lookup j (put k v m) ≡ some u
      → ((j ≡ k) × (v ≡ u)) ⊎ (lookup j m ≡ some u)
  lookup-put_cases j k u v m h = elim (Bool-cases (equal j k)) [
    | inr e ↦ inr (sym (lookup-put_other j k v m e) ∙ h)
    | inl e ↦
        let p = equal→eq j k e in
        let q = subst (λ x. lookup x (put k v m) ≡ some u) p h in
        inl (p, some-injective v u (sym (lookup-put k v m) ∙ q))
  ]
