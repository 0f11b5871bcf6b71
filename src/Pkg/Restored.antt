-- ===== src/Pkg/Restored.antt =====
-- The stack of the walk of compiler/pkg/resolver.go, and the names that it is visiting.
use fuse.Prelude.{
  ℕ, zero, suc, true, false, Bool-cases, not, if◌then◌else◌, Option, none, some, List, [], ◌∷◌,
  ◌++◌, Bytes, equal, equal→eq, ◌≡◌, inl, inr, refl, sym, ◌∙◌, ap,
}
use mathlib.Core.Path.{subst}
use fuse.Prelude.Maps.{lookup, put, lookup-put, lookup-put_other}
use fuse.Pkg.Version.{Version, Range, contains, select_latest}
use fuse.Pkg.Resolver.{
  DepConstraint, RegistryLookup, State, Outcome, ok, fail, out_of_fuel, without_last, enter, leave,
  record_constraint, tighten, walk_each, descend, choose, select, visit, walk, is_visiting, flag,
  unmatched, unknown, no_longer, conflicting, raw_of,
}
use fuse.Pkg.Grown.{After}

-- The stack is the same, and the same names are being visited.
pub record Restored (st t : State) : Type 0 where
  pub stack_same : t.stack ≡ st.stack
  pub visiting_same : (n : Bytes) → is_visiting n t ≡ is_visiting n st

abbrev Walk : Type 0
Walk = Bytes → Range → State → Outcome

abbrev Restores : Walk → Type 0
Restores w = (name : Bytes) (cnst : Range) (st : State) → After (Restored st) (w name cnst st)

Restored-trans : (s t u : State) → Restored s t → Restored t u → Restored s u
Restored-trans s t u g h = record {
  stack_same = h.stack_same ∙ g.stack_same;
  visiting_same = λ n. h.visiting_same n ∙ g.visiting_same n;
}

After-Restored :
    (s t : State) (o : Outcome) → Restored s t → After (Restored t) o → After (Restored s) o
After-Restored s t (ok u) g h = Restored-trans s t u g h
After-Restored s t (fail e) g h = tt
After-Restored s t out_of_fuel g h = tt

walk_each-Restores :
    (w : Walk)
    → Restores w
    → (ds : List DepConstraint) (st : State) → After (Restored st) (walk_each w ds st)
unfolding walk_each
walk_each-Restores w good [] st = record { stack_same = refl; visiting_same = λ n. refl }
walk_each-Restores w good (d ∷ ds) st =
    first (w d.name d.range st) (good d.name d.range st) (walk_each-Restores w good ds)
  where
    first :
        (o : Outcome)
        → After (Restored st) o
        → ((s : State) → After (Restored s) (walk_each w ds s))
        → After
            (Restored st)
            (elim o [ ok s ↦ walk_each w ds s | fail e ↦ fail e | out_of_fuel ↦ out_of_fuel ])
    first (ok s) h rest = After-Restored st s (walk_each w ds s) h (rest s)
    first (fail e) h rest = tt
    first out_of_fuel h rest = tt

without_last-append : (xs : List Bytes) (x : Bytes) → without_last (xs ++ (x ∷ [])) ≡ xs
without_last-append [] x = refl
without_last-append (y ∷ []) x = refl
without_last-append (y ∷ (z ∷ xs)) x = ap (λ l. y ∷ l) (without_last-append (z ∷ xs) x)

-- A name that is entered, and left after a walk that restores the state.
left :
    (reg : RegistryLookup) (name : Bytes) (v : Version) (names : List Bytes) (st t : State)
    → is_visiting name st ≡ false
    → Restored (enter reg name v st) t
    → Restored st (leave name names t)
unfolding enter leave is_visiting
left reg name v names st t free h = record {
  stack_same = ap without_last h.stack_same ∙ without_last-append st.stack name;
  visiting_same = λ n. elim (Bool-cases (equal n name)) [
    | inl e ↦
        subst (λ m. flag (lookup m (put name false t.visiting)) ≡ flag (lookup m st.visiting))
          (sym (equal→eq n name e)) (ap flag (lookup-put name false t.visiting) ∙ sym free)
    | inr e ↦
        ap flag (lookup-put_other n name false t.visiting e)
        ∙ (h.visiting_same n ∙ ap flag (lookup-put_other n name true st.visiting e))
  ];
}

record-visiting :
    (n name : Bytes) (joined : Range) (st : State)
    → is_visiting n (record_constraint name joined st) ≡ is_visiting n st
unfolding is_visiting record_constraint
record-visiting n name joined st = refl

module _ (reg : RegistryLookup) where
  descend-Restores :
      (w : Walk)
      → Restores w
      → (name : Bytes) (v : Version) (st : State) → is_visiting name st ≡ false
      → After (Restored st) (descend reg w name v st)
  unfolding descend
  descend-Restores w good name v st free =
      leaving _ (walk_each w (reg.dependencies name v) (enter reg name v st))
        (walk_each-Restores w good (reg.dependencies name v) (enter reg name v st))
    where
      leaving :
          (names : List Bytes) (o : Outcome)
          → After (Restored (enter reg name v st)) o
          → After (Restored st) (elim o [
            | ok t ↦ ok (leave name names t)
            | fail e ↦ fail e
            | out_of_fuel ↦ out_of_fuel
          ])
      leaving names (ok t) h = left reg name v names st t free h
      leaving names (fail e) h = tt
      leaving names out_of_fuel h = tt

  select-Restores :
      (w : Walk)
      → Restores w
      → (name : Bytes) (joined : Range) (st : State) → is_visiting name st ≡ false
      → After (Restored st) (select reg w name joined st)
  unfolding select choose
  select-Restores w good name joined st free = by_version (lookup name st.selected)
    where
      latest :
          (vs : List Version) (o : Option Version)
          → After (Restored st) (elim o [
            | none ↦ fail (unmatched name joined.raw vs)
            | some v ↦ descend reg w name v st
          ])
      latest vs none = tt
      latest vs (some v) = descend-Restores w good name v st free

      among :
          (vs : List Version)
          → After (Restored st) (elim vs [
            | [] ↦ fail (unknown name)
            | v ∷ us ↦ elim (select_latest joined (v ∷ us)) [
              | none ↦ fail (unmatched name joined.raw (v ∷ us))
              | some c ↦ descend reg w name c st
            ]
          ])
      among [] = tt
      among (v ∷ us) = latest (v ∷ us) (select_latest joined (v ∷ us))

      by_version :
          (o : Option Version)
          → After (Restored st) (elim o [
            | some v ↦ if not (contains joined v) then fail (no_longer name v joined.raw) else ok st
            | none ↦ choose reg w name joined st
          ])
      by_version none = among (reg.available_versions name)
      by_version (some u) = elim (Bool-cases (contains joined u)) [
        | inr n ↦ rw n tt
        | inl y ↦ rw y (record { stack_same = refl; visiting_same = λ n. refl })
      ]

  visit-Restores : (w : Walk) → Restores w → Restores (visit reg w)
  unfolding visit record_constraint
  visit-Restores w good name cnst st = elim (Bool-cases (is_visiting name st)) [
    | inl e ↦ rw e tt
    | inr e ↦ rw e (by_range e (tighten name cnst st))
  ]
    where
      by_range :
          is_visiting name st ≡ false
          → (o : Option Range)
          → After (Restored st) (elim o [
            | none ↦ fail (conflicting name (raw_of name st) cnst.raw)
            | some joined ↦ select reg w name joined (record_constraint name joined st)
          ])
      by_range e none = tt
      by_range e (some joined) =
          After-Restored st (record_constraint name joined st)
            (select reg w name joined (record_constraint name joined st))
            (record { stack_same = refl; visiting_same = λ n. record-visiting n name joined st })
            (select-Restores w good name joined (record_constraint name joined st)
              (record-visiting name name joined st ∙ e))

  -- A `walk` that returns without an error leaves the stack and the names being visited as they
  -- were, at any depth.
  pub walk-Restored :
      (fuel : ℕ) (name : Bytes) (cnst : Range) (st : State)
      → After (Restored st) (walk reg fuel name cnst st)
  unfolding walk
  walk-Restored zero name cnst st = tt
  walk-Restored (suc fuel) name cnst st =
      visit-Restores (walk reg fuel) (walk-Restored fuel) name cnst st
