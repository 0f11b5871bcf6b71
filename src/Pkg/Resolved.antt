-- ===== src/Pkg/Resolved.antt =====
-- What the walk of compiler/pkg/resolver.go leaves behind.
use fuse.Prelude.{
  ℕ, zero, suc, true, Bool-cases, not, if◌then◌else◌, Option, none, some, List, [], ◌∷◌, Bytes,
  equal, equal→eq, All, ◌≡◌, inl, inr, refl, sym, ◌∙◌, ap, arith,
}
use mathlib.Core.Path.{subst}
use mathlib.Core.List.{Memᴰ}
use mathlib.Core.Option.{some-injective}
use fuse.Prelude.Maps.{Map, lookup, lookup-put, lookup-put_other, lookup-put_cases}
use fuse.Pkg.Version.{Version, Range, contains, intersect, select_latest}
use fuse.Pkg.Intersect.{contains_some, intersect_lem}
use fuse.Pkg.Select.{select_latest-Tops, Within}
use fuse.Pkg.Resolver.{
  DepConstraint, RegistryLookup, State, Outcome, ok, fail, out_of_fuel, enter, leave,
  record_constraint, tighten, walk_each, descend, choose, visit, walk, select, resolve, initial,
  is_visiting, unmatched, unknown, no_longer, conflicting, raw_of,
}
use fuse.Pkg.Grown.{
  Chosen, Settled, Grown, After, Keeps, Chosen-keep, Settled-keep, Grown-refl, Grown-trans, Walker,
  AllChosen,
}

module _ (reg : RegistryLookup) where
  first-others :
      (st s : State) (d : DepConstraint) (ds : List DepConstraint)
      → Grown reg st s
      → Chosen s d.name d.range
      → (o : Outcome) → After (λ t. Grown reg s t × AllChosen t ds) o
      → After (λ t. Grown reg st t × AllChosen t (d ∷ ds)) o
  first-others st s d ds g c (ok t) k =
      (Grown-trans reg st s t g k.0, (Chosen-keep s t d.name d.range k.0.keeps c, k.1))
  first-others st s d ds g c (fail e) k = tt
  first-others st s d ds g c out_of_fuel k = tt

  -- The loop over dependencies meets its contract if `walk` does.
  pub walk_each-Grown :
      (w : Bytes → Range → State → Outcome)
      → Walker reg w
      → (ds : List DepConstraint) (st : State)
      → After (λ t. Grown reg st t × AllChosen t ds) (walk_each w ds st)
  unfolding walk_each
  walk_each-Grown w good [] st = (Grown-refl reg st st refl, tt)
  walk_each-Grown w good (d ∷ ds) st =
      first (w d.name d.range st) (good d.name d.range st) (walk_each-Grown w good ds)
    where
      first :
          (o : Outcome)
          → After (λ t. Grown reg st t × Chosen t d.name d.range) o
          → ((s : State) → After (λ t. Grown reg s t × AllChosen t ds) (walk_each w ds s))
          → After
              (λ t. Grown reg st t × AllChosen t (d ∷ ds))
              (elim o [ ok s ↦ walk_each w ds s | fail e ↦ fail e | out_of_fuel ↦ out_of_fuel ])
      first (ok s) h rest = first-others st s d ds h.0 h.1 (walk_each w ds s) (rest s)
      first (fail e) h rest = tt
      first out_of_fuel h rest = tt

  -- The version selected is the one that was entered, and the others are as before.
  pub entered :
      (st : State) (name : Bytes) (v : Version)
      → lookup name st.selected ≡ none
      → Keeps st (enter reg name v st)
  unfolding enter
  entered st name v free n u h = elim (Bool-cases (equal n name)) [
    | inl e ↦ let q = ap (λ k. lookup k st.selected) (equal→eq n name e) in ground arith
    | inr e ↦ lookup-put_other n name v st.selected e ∙ h
  ]

  leave-Grown :
      (st t : State) (name : Bytes) (v : Version) (names : List Bytes)
      → Grown reg (enter reg name v st) t
      → Keeps st (enter reg name v st)
      → Settled reg t name v
      → Grown reg st (leave name names t)
  unfolding leave enter
  leave-Grown st t name v names g k d = record {
    keeps = λ n u e. g.keeps n u (k n u e);
    settles = λ n u e. elim (g.settles n u e) [
      | inr s ↦ inr (Settled-keep reg t (leave name names t) n u (λ i w f. f) s)
      | inl f ↦ elim (lookup-put_cases n name u v st.selected f) [
        | inr o ↦ inl o
        | inl (p, q) ↦ inr (
            subst (λ w. Settled reg (leave name names t) n w) q
              (subst (λ i. Settled reg (leave name names t) i v) (sym p)
                (Settled-keep reg t (leave name names t) name v (λ i w f. f) d)))
      ]
    ];
  }

  -- `walk` from the choice of a version on, given its dependencies.
  descended :
      (st : State) (name : Bytes) (cnst : Range) (v : Version) (names : List Bytes)
      → lookup name st.selected ≡ none
      → Memᴰ v (reg.available_versions name)
      → contains cnst v ≡ true
      → (o : Outcome)
      → After (λ t. Grown reg (enter reg name v st) t × AllChosen t (reg.dependencies name v)) o
      → After
          (λ t. Grown reg st t × Chosen t name cnst)
          (elim o [ ok t ↦ ok (leave name names t) | fail e ↦ fail e | out_of_fuel ↦ out_of_fuel ])
  unfolding leave enter
  descended st name cnst v names free m c (ok t) h = (
    leave-Grown st t name v names h.0 (entered st name v free)
        (record { published = m; deps = h.1 }),
    record { version = v; found = h.0.keeps name v (lookup-put name v st.selected); fits = c },
  )
  descended st name cnst v names free m c (fail e) h = tt
  descended st name cnst v names free m c out_of_fuel h = tt

  pub descend-Grown :
      (w : Bytes → Range → State → Outcome)
      → Walker reg w
      → (name : Bytes) (cnst : Range) (v : Version) (st : State) → lookup name st.selected ≡ none
      → Memᴰ v (reg.available_versions name)
      → contains cnst v ≡ true
      → After (λ t. Grown reg st t × Chosen t name cnst) (descend reg w name v st)
  unfolding descend
  descend-Grown w good name cnst v st free m c =
      descended st name cnst v _ free m c
        (walk_each w (reg.dependencies name v) (enter reg name v st))
        (walk_each-Grown w good (reg.dependencies name v) (enter reg name v st))

  choose-Grown :
      (w : Bytes → Range → State → Outcome)
      → Walker reg w
      → (name : Bytes) (cnst joined : Range) (st : State) → lookup name st.selected ≡ none
      → ((v : Version) → contains joined v ≡ true → contains cnst v ≡ true)
      → After (λ t. Grown reg st t × Chosen t name cnst) (choose reg w name joined st)
  unfolding choose
  choose-Grown w good name cnst joined st free sub = among (reg.available_versions name) refl
    where
      latest :
          (o : Option Version) (vs : List Version)
          → Within (λ v. Memᴰ v (reg.available_versions name)) joined o
          → After
              (λ t. Grown reg st t × Chosen t name cnst)
              (elim o [
                | none ↦ fail (unmatched name joined.raw vs)
                | some v ↦ descend reg w name v st
              ])
      latest none vs h = tt
      latest (some v) vs h = descend-Grown w good name cnst v st free h.1 (sub v h.0)

      among :
          (vs : List Version)
          → reg.available_versions name ≡ vs
          → After
              (λ t. Grown reg st t × Chosen t name cnst)
              (elim vs [
                | [] ↦ fail (unknown name)
                | v ∷ us ↦ elim (select_latest joined (v ∷ us)) [
                  | none ↦ fail (unmatched name joined.raw (v ∷ us))
                  | some c ↦ descend reg w name c st
                ]
              ])
      among [] e = tt
      among (v ∷ us) e = latest (select_latest joined (v ∷ us)) (v ∷ us) (
          subst (λ l. Within (λ c. Memᴰ c l) joined (select_latest joined (v ∷ us))) (sym e)
            (select_latest-Tops joined (v ∷ us)).0)

  -- The range recorded is within the one that `walk` is called with.
  tighten-Within :
      (name : Bytes) (cnst joined : Range) (st : State)
      → tighten name cnst st ≡ some joined
      → (v : Version) → contains joined v ≡ true
      → contains cnst v ≡ true
  unfolding tighten
  tighten-Within name cnst joined st h v c = known (lookup name st.constraints) h
    where
      known :
          (o : Option Range)
          → (elim o [ none ↦ some cnst | some r ↦ intersect r cnst ]) ≡ some joined
          → contains cnst v ≡ true
      known none e = subst (λ r. contains r v ≡ true) (sym (some-injective cnst joined e)) c
      known (some r) e =
          let q = intersect_lem r cnst v in let p = ap (λ o. contains_some o v) e in ground arith

  recorded :
      (st : State) (name : Bytes) (joined cnst : Range) (o : Outcome)
      → After (λ t. Grown reg (record_constraint name joined st) t × Chosen t name cnst) o
      → After (λ t. Grown reg st t × Chosen t name cnst) o
  unfolding record_constraint
  recorded st name joined cnst (ok t) h =
      (Grown-trans reg st (record_constraint name joined st) t (Grown-refl reg st _ refl) h.0, h.1)
  recorded st name joined cnst (fail e) h = tt
  recorded st name joined cnst out_of_fuel h = tt

  select-Grown :
      (w : Bytes → Range → State → Outcome)
      → Walker reg w
      → (name : Bytes) (cnst joined : Range) (st : State)
      → ((v : Version) → contains joined v ≡ true → contains cnst v ≡ true)
      → After (λ t. Grown reg st t × Chosen t name cnst) (select reg w name joined st)
  unfolding select
  select-Grown w good name cnst joined st sub = by_version (lookup name st.selected) refl
    where
      by_version :
          (o : Option Version)
          → lookup name st.selected ≡ o
          → After
              (λ t. Grown reg st t × Chosen t name cnst)
              (elim o [
                | some v ↦
                    if not (contains joined v) then fail (no_longer name v joined.raw) else ok st
                | none ↦ choose reg w name joined st
              ])
      by_version none e = choose-Grown w good name cnst joined st e sub
      by_version (some u) e = elim (Bool-cases (contains joined u)) [
        | inr n ↦ rw n tt
        | inl y ↦
            rw y (Grown-refl reg st st refl, record { version = u; found = e; fits = sub u y })
      ]

  -- `walk` meets its contract if it does on the dependencies.
  visit-Grown : (w : Bytes → Range → State → Outcome) → Walker reg w → Walker reg (visit reg w)
  unfolding visit
  visit-Grown w good name cnst st = elim (Bool-cases (is_visiting name st)) [
    | inl e ↦ rw e tt
    | inr e ↦ rw e (by_range (tighten name cnst st) refl)
  ]
    where
      by_range :
          (o : Option Range)
          → tighten name cnst st ≡ o
          → After
              (λ t. Grown reg st t × Chosen t name cnst)
              (elim o [
                | none ↦ fail (conflicting name (raw_of name st) cnst.raw)
                | some joined ↦ select reg w name joined (record_constraint name joined st)
              ])
      by_range none e = tt
      by_range (some joined) e =
          recorded st name joined cnst (select reg w name joined (record_constraint name joined st))
            (select-Grown w good name cnst joined (record_constraint name joined st)
              (tighten-Within name cnst joined st e))

  pub walk-Grown : (fuel : ℕ) → Walker reg (walk reg fuel)
  unfolding walk
  walk-Grown zero name cnst st = tt
  walk-Grown (suc fuel) name cnst st = visit-Grown (walk reg fuel) (walk-Grown fuel) name cnst st

-- Where `Resolve` finds versions, each constraint of the manifest has a selected version in its range,
-- and each selected version is a published one and has, for each of its dependencies, a selected
-- version in its range.
pub resolve-Settled :
    (reg : RegistryLookup) (fuel : ℕ) (roots : List DepConstraint) (constraints : Map Range)
    (st : State)
    → resolve reg fuel roots constraints ≡ ok st
    → All (λ d. Chosen st d.name d.range) roots
      × ((name : Bytes) (v : Version) → lookup name st.selected ≡ some v → Settled reg st name v)
unfolding resolve lookup
resolve-Settled reg fuel roots constraints st h =
    let r =
      subst (After (λ t. Grown reg (initial constraints) t × AllChosen t roots)) h
        (walk_each-Grown reg (walk reg fuel) (walk-Grown reg fuel) roots (initial constraints)) in
    (r.1, λ name v f. elim (r.0.settles name v f) [ inl e ↦ ground arith | inr d ↦ d ])
