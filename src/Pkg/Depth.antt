-- ===== src/Pkg/Depth.antt =====
-- How deep the walk of compiler/pkg/resolver.go goes over a finite registry.
use fuse.Prelude.{
  ℕ, zero, suc, ◌<◌, Bool-cases, not, if◌then◌else◌, Option, none, some, List, [], ◌∷◌, Bytes, All,
  length, ◌≡◌, inl, inr, refl, arith,
}
use mathlib.Core.List.{Memᴰ}
use fuse.Prelude.Maps.{Map, lookup, lookup-put}
use fuse.Pkg.Version.{Version, Range, contains, select_latest}
use fuse.Pkg.Resolver.{
  DepConstraint, RegistryLookup, State, Outcome, ok, fail, out_of_fuel, enter, leave,
  record_constraint, tighten, walk_each, descend, choose, select, visit, walk, resolve, initial,
  is_visiting, unmatched, unknown, no_longer, conflicting, raw_of,
}
use fuse.Pkg.Grown.{After, Grown, Walker, Chosen}
use fuse.Pkg.Resolved.{entered, walk-Grown}
use fuse.Pkg.Unselected.{unselected, unselected_le, unselected_lt, unselected-length}

-- The outcome is a result or an error of the source.
abbrev pub Answers : Outcome → Type 0
Answers (ok st) = Unit
Answers (fail e) = Unit
Answers out_of_fuel = ⊥

-- Every dependency that the registry lists is a name of the universe.
abbrev pub Closed : RegistryLookup → List Bytes → Type 0
Closed reg names =
    (name : Bytes) (v : Version) → All (λ d. Memᴰ d.name names) (reg.dependencies name v)

module _ (reg : RegistryLookup) (names : List Bytes) (closed : Closed reg names) where
  -- `walk` answers where fewer than `n` names have no version.
  abbrev Fine : ℕ → (Bytes → Range → State → Outcome) → Type 0
  Fine n w =
      (name : Bytes) (cnst : Range) (st : State)
      → Memᴰ name names
      → unselected names st < n
      → Answers (w name cnst st)

  walk_each-Answers :
      (n : ℕ) (w : Bytes → Range → State → Outcome)
      → Walker reg w
      → Fine n w
      → (ds : List DepConstraint) → All (λ d. Memᴰ d.name names) ds
      → (st : State) → unselected names st < n
      → Answers (walk_each w ds st)
  unfolding walk_each
  walk_each-Answers n w good fine [] ms st h = tt
  walk_each-Answers n w good fine (d ∷ ds) ms st h =
      first (w d.name d.range st) (good d.name d.range st) (fine d.name d.range st ms.0 h)
        (walk_each-Answers n w good fine ds ms.1)
    where
      first :
          (o : Outcome)
          → After (λ t. Grown reg st t × Chosen t d.name d.range) o
          → Answers o
          → ((s : State) → unselected names s < n → Answers (walk_each w ds s))
          → Answers
              (elim o [ ok s ↦ walk_each w ds s | fail e ↦ fail e | out_of_fuel ↦ out_of_fuel ])
      first (ok s) g a rest = rest s (omega (arith, unselected_le names st s g.0.keeps))
      first (fail e) g a rest = tt
      first out_of_fuel g a rest = a

  entered_lt :
      (n : ℕ) (name : Bytes) (v : Version) (st : State)
      → lookup name st.selected ≡ none
      → Memᴰ name names
      → unselected names st < suc n
      → unselected names (enter reg name v st) < n
  unfolding enter
  entered_lt n name v st free m h = omega (
    arith,
    unselected_lt names st (enter reg name v st) name v (entered reg st name v free) free
        (lookup-put name v st.selected) m,
  )

  recorded_lt :
      (n : ℕ) (st : State) (name : Bytes) (joined : Range)
      → unselected names st < n
      → unselected names (record_constraint name joined st) < n
  unfolding record_constraint
  recorded_lt n st name joined h =
      omega (arith, unselected_le names st (record_constraint name joined st) (λ i v e. e))

  descend-Answers :
      (n : ℕ) (w : Bytes → Range → State → Outcome)
      → Walker reg w
      → Fine n w
      → (name : Bytes) (v : Version) (st : State) → lookup name st.selected ≡ none
      → Memᴰ name names
      → unselected names st < suc n
      → Answers (descend reg w name v st)
  unfolding descend
  descend-Answers n w good fine name v st free m h =
      leaving _ (walk_each w (reg.dependencies name v) (enter reg name v st)) (
        walk_each-Answers n w good fine (reg.dependencies name v) (closed name v)
          (enter reg name v st) (entered_lt n name v st free m h))
    where
      leaving :
          (names' : List Bytes) (o : Outcome)
          → Answers o
          → Answers (elim o [
            | ok t ↦ ok (leave name names' t)
            | fail e ↦ fail e
            | out_of_fuel ↦ out_of_fuel
          ])
      leaving names' (ok t) a = tt
      leaving names' (fail e) a = tt
      leaving names' out_of_fuel a = a

  select-Answers :
      (n : ℕ) (w : Bytes → Range → State → Outcome)
      → Walker reg w
      → Fine n w
      → (name : Bytes) (joined : Range) (st : State) → Memᴰ name names
      → unselected names st < suc n
      → Answers (select reg w name joined st)
  unfolding select choose
  select-Answers n w good fine name joined st m h = by_version (lookup name st.selected) refl
    where
      latest :
          lookup name st.selected ≡ none
          → (vs : List Version) (o : Option Version)
          → Answers (elim o [
            | none ↦ fail (unmatched name joined.raw vs)
            | some v ↦ descend reg w name v st
          ])
      latest e vs none = tt
      latest e vs (some v) = descend-Answers n w good fine name v st e m h

      among :
          lookup name st.selected ≡ none
          → (vs : List Version)
          → Answers (elim vs [
            | [] ↦ fail (unknown name)
            | v ∷ us ↦ elim (select_latest joined (v ∷ us)) [
              | none ↦ fail (unmatched name joined.raw (v ∷ us))
              | some c ↦ descend reg w name c st
            ]
          ])
      among e [] = tt
      among e (v ∷ us) = latest e (v ∷ us) (select_latest joined (v ∷ us))

      by_version :
          (o : Option Version)
          → lookup name st.selected ≡ o
          → Answers (elim o [
            | some v ↦ if not (contains joined v) then fail (no_longer name v joined.raw) else ok st
            | none ↦ choose reg w name joined st
          ])
      by_version none e = among e (reg.available_versions name)
      by_version (some u) e = elim (Bool-cases (contains joined u)) [
        | inr n ↦ rw n tt
        | inl y ↦ rw y tt
      ]

  visit-Answers :
      (n : ℕ) (w : Bytes → Range → State → Outcome)
      → Walker reg w
      → Fine n w
      → Fine (suc n) (visit reg w)
  unfolding visit
  visit-Answers n w good fine name cnst st m h = elim (Bool-cases (is_visiting name st)) [
    | inl e ↦ rw e tt
    | inr e ↦ rw e (by_range (tighten name cnst st))
  ]
    where
      by_range :
          (o : Option Range)
          → Answers (elim o [
            | none ↦ fail (conflicting name (raw_of name st) cnst.raw)
            | some joined ↦ select reg w name joined (record_constraint name joined st)
          ])
      by_range none = tt
      by_range (some joined) =
          select-Answers n w good fine name joined (record_constraint name joined st) m
            (recorded_lt (suc n) st name joined h)

  walk-Answers : (n : ℕ) → Fine n (walk reg n)
  unfolding walk
  walk-Answers zero name cnst st m h = absurd (omega arith)
  walk-Answers (suc n) name cnst st m h =
      visit-Answers n (walk reg n) (walk-Grown reg n) (walk-Answers n) name cnst st m h

-- Over a registry whose dependencies are among finitely many names, `Resolve` comes to a resolution
-- or to one of its errors: a depth of one more than the number of names is never exceeded.
pub resolve-Answers :
    (reg : RegistryLookup) (names : List Bytes) (roots : List DepConstraint)
    (constraints : Map Range)
    → Closed reg names
    → All (λ d. Memᴰ d.name names) roots
    → Answers (resolve reg (suc (length names)) roots constraints)
unfolding resolve
resolve-Answers reg names roots constraints closed ms =
    walk_each-Answers reg names closed (suc (length names)) (walk reg (suc (length names)))
      (walk-Grown reg (suc (length names))) (walk-Answers reg names closed (suc (length names)))
      roots ms (initial constraints) (omega (arith, unselected-length names (initial constraints)))
