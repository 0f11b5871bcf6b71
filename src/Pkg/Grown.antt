-- ===== src/Pkg/Grown.antt =====
-- What a walk of compiler/pkg/resolver.go may change, as a relation on states.
use fuse.Prelude.{true, some, List, Bytes, All, All-map, ◌≡◌, ◌⊎◌, inl, inr, sym}
use mathlib.Core.Path.{subst}
use mathlib.Core.List.{Memᴰ}
use fuse.Prelude.Maps.{lookup}
use fuse.Pkg.Version.{Version, Range, contains}
use fuse.Pkg.Resolver.{DepConstraint, RegistryLookup, State, Outcome, ok, fail, out_of_fuel}

-- A version is selected for the name, and it is in the range.
pub record Chosen (st : State) (name : Bytes) (range : Range) : Type 0 where
  pub version : Version
  pub found : lookup name st.selected ≡ some version
  pub fits : contains range version ≡ true

-- The version is published, and each of its dependencies has a selected version in its range.
pub record Settled (reg : RegistryLookup) (st : State) (name : Bytes) (v : Version) : Type 0 where
  pub published : Memᴰ v (reg.available_versions name)
  pub deps : All (λ d. Chosen st d.name d.range) (reg.dependencies name v)

-- Selections stay, and the new ones are settled.
pub record Grown (reg : RegistryLookup) (st st' : State) : Type 0 where
  pub keeps :
      (name : Bytes) (v : Version)
      → lookup name st.selected ≡ some v
      → lookup name st'.selected ≡ some v
  pub settles :
      (name : Bytes) (v : Version)
      → lookup name st'.selected ≡ some v
      → (lookup name st.selected ≡ some v) ⊎ Settled reg st' name v

-- A predicate on the state of a result.
abbrev pub After : (State → Type 0) → Outcome → Type 0
After P (ok st) = P st
After P (fail e) = Unit
After P out_of_fuel = Unit

abbrev pub Keeps : State → State → Type 0
Keeps s t =
    (name : Bytes) (v : Version) → lookup name s.selected ≡ some v → lookup name t.selected ≡ some v

pub Chosen-keep : (s t : State) (n : Bytes) (r : Range) → Keeps s t → Chosen s n r → Chosen t n r
Chosen-keep s t n r k c = record {
  version = c.version;
  found = k n c.version c.found;
  fits = c.fits;
}

pub Settled-keep :
    (reg : RegistryLookup) (s t : State) (n : Bytes) (v : Version)
    → Keeps s t
    → Settled reg s n v
    → Settled reg t n v
Settled-keep reg s t n v k h = record {
  published = h.published;
  deps =
      All-map (λ d. Chosen s d.name d.range) (λ d. Chosen t d.name d.range) (reg.dependencies n v)
        (λ d c. Chosen-keep s t d.name d.range k c) h.deps;
}

pub Grown-refl : (reg : RegistryLookup) (s t : State) → s.selected ≡ t.selected → Grown reg s t
Grown-refl reg s t e = record {
  keeps = λ n v h. subst (λ m. lookup n m ≡ some v) e h;
  settles = λ n v h. inl (subst (λ m. lookup n m ≡ some v) (sym e) h);
}

pub Grown-trans :
    (reg : RegistryLookup) (s t u : State) → Grown reg s t → Grown reg t u → Grown reg s u
Grown-trans reg s t u g h = record {
  keeps = λ n v e. h.keeps n v (g.keeps n v e);
  settles = λ n v e. elim (h.settles n v e) [
    | inr d ↦ inr d
    | inl f ↦ elim (g.settles n v f) [
      | inl a ↦ inl a
      | inr d ↦ inr (Settled-keep reg t u n v h.keeps d)
    ]
  ];
}

-- The contract of `walk`.
abbrev pub Walker : RegistryLookup → (Bytes → Range → State → Outcome) → Type 0
Walker reg w =
    (name : Bytes) (cnst : Range) (st : State)
    → After (λ st'. Grown reg st st' × Chosen st' name cnst) (w name cnst st)

abbrev pub AllChosen : State → List DepConstraint → Type 0
AllChosen st ds = All (λ d. Chosen st d.name d.range) ds
