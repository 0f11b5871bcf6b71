-- ===== src/Pkg/Resolver.antt =====
-- `Resolve` of compiler/pkg/resolver.go: the walk over the dependencies.
use fuse.Prelude.{
  ℕ, zero, suc, Bool, true, false, Option, none, some, List, [], ◌∷◌, ◌++◌, map, not, Bytes,
  if◌then◌else◌,
}
use fuse.Prelude.Sort.{sort_strings}
use fuse.Prelude.Maps.{Map, lookup, put}
use fuse.Pkg.Version.{Version, Range, contains, intersect, select_latest}

-- `DepConstraint`.
pub record DepConstraint : Type 0 where
  pub name : Bytes
  pub range : Range

-- `RegistryLookup`: the registry is a parameter, with its four answers.
pub record RegistryLookup : Type 0 where
  pub available_versions : Bytes → List Version
  pub dependencies : Bytes → Version → List DepConstraint
  pub source : Bytes → Version → Bytes
  pub sha256 : Bytes → Version → Bytes

-- `ResolveError`: one constructor for each message, with what the message names.
pub data ResolveError : Type 0 where
  -- Kind "cycle": the name and the stack.
  cycle : Bytes → List Bytes → ResolveError
  -- Kind "no-match": two ranges without a version in common, as written.
  conflicting : Bytes → Bytes → Bytes → ResolveError
  -- Kind "no-match": the version selected before, and the range as written.
  no_longer : Bytes → Version → Bytes → ResolveError
  -- Kind "unknown".
  unknown : Bytes → ResolveError
  -- Kind "no-match": the range as written, and the published versions.
  unmatched : Bytes → Bytes → List Version → ResolveError

-- The variables that the closure `walk` shares with `Resolve`.
pub record State : Type 0 where
  pub constraints : Map Range
  pub selected : Map Version
  pub source_of : Map Bytes
  pub sha_of : Map Bytes
  pub transitive : Map (List Bytes)
  pub visiting : Map Bool
  pub stack : List Bytes

-- A result, an error, or no answer within the fuel.
pub data Outcome : Type 0 where
  ok : State → Outcome
  fail : ResolveError → Outcome
  out_of_fuel : Outcome

-- A missing key of a map[string]bool reads as false.
abbrev pub flag : Option Bool → Bool
flag none = false
flag (some b) = b

-- `visiting[name]`.
unfoldable pub is_visiting : Bytes → State → Bool
is_visiting name st = flag (lookup name st.visiting)

-- `stack[:len(stack)-1]`.
abbrev pub without_last : List Bytes → List Bytes
without_last [] = []
without_last (x ∷ []) = []
without_last (x ∷ (y ∷ ys)) = x ∷ without_last (y ∷ ys)

-- The lines of `walk` that record the constraint: the tightened range.
unfoldable pub tighten : Bytes → Range → State → Option Range
tighten name cnst st = elim (lookup name st.constraints) [
  | none ↦ some cnst
  | some existing ↦ intersect existing cnst
]

-- The range as written that the map holds before, for the message.
abbrev pub raw_of : Bytes → State → Bytes
raw_of name st = elim (lookup name st.constraints) [ none ↦ [] | some r ↦ r.raw ]

-- The assignments of `walk` for the version chosen, up to the loop over its dependencies.
unfoldable pub enter : RegistryLookup → Bytes → Version → State → State
enter reg name chosen st = record st {
  selected = put name chosen st.selected;
  source_of = put name (reg.source name chosen) st.source_of;
  sha_of = put name (reg.sha256 name chosen) st.sha_of;
  visiting = put name true st.visiting;
  stack = st.stack ++ (name ∷ []);
}

-- `transitive[name] = depNames` and the deferred function.
unfoldable pub leave : Bytes → List Bytes → State → State
leave name names st = record st {
  transitive = put name names st.transitive;
  visiting = put name false st.visiting;
  stack = without_last st.stack;
}

-- `constraints[name] = joined`.
unfoldable pub record_constraint : Bytes → Range → State → State
record_constraint name joined st = record st { constraints = put name joined st.constraints }

-- The loop over the dependencies, for a given `walk`.
unfoldable pub walk_each : (Bytes → Range → State → Outcome) → List DepConstraint → State → Outcome
walk_each walk [] st = ok st
walk_each walk (d ∷ ds) st = elim (walk d.name d.range st) [
  | ok st' ↦ walk_each walk ds st'
  | fail e ↦ fail e
  | out_of_fuel ↦ out_of_fuel
]

abbrev pub dep_names : List DepConstraint → List Bytes
dep_names ds = map (λ d. d.name) ds

-- `walk` from the choice of a version on.
unfoldable pub descend :
    RegistryLookup → (Bytes → Range → State → Outcome) → Bytes → Version → State → Outcome
descend reg walk name chosen st =
    elim (walk_each walk (reg.dependencies name chosen) (enter reg name chosen st)) [
      | ok st' ↦ ok (leave name (sort_strings (dep_names (reg.dependencies name chosen))) st')
      | fail e ↦ fail e
      | out_of_fuel ↦ out_of_fuel
    ]

-- `walk` from the lookup of the published versions on.
unfoldable pub choose :
    RegistryLookup → (Bytes → Range → State → Outcome) → Bytes → Range → State → Outcome
choose reg walk name joined st = elim (reg.available_versions name) [
  | [] ↦ fail (unknown name)
  | v ∷ vs ↦ elim (select_latest joined (v ∷ vs)) [
    | none ↦ fail (unmatched name joined.raw (v ∷ vs))
    | some chosen ↦ descend reg walk name chosen st
  ]
]

-- `walk` once the constraint is recorded: a name with a version is only checked.
unfoldable pub select :
    RegistryLookup → (Bytes → Range → State → Outcome) → Bytes → Range → State → Outcome
select reg walk name joined st = elim (lookup name st.selected) [
  | some v ↦ if not (contains joined v) then fail (no_longer name v joined.raw) else ok st
  | none ↦ choose reg walk name joined st
]

-- The body of `walk`, for a given `walk` of the dependencies.
unfoldable pub visit :
    RegistryLookup → (Bytes → Range → State → Outcome) → Bytes → Range → State → Outcome
visit reg walk name cnst st =
    if is_visiting name st then fail (cycle name st.stack) else elim (tighten name cnst st) [
      | none ↦ fail (conflicting name (raw_of name st) cnst.raw)
      | some joined ↦ select reg walk name joined (record_constraint name joined st)
    ]

-- `walk`. The fuel bounds the depth of the recursion.
unfoldable pub walk : RegistryLookup → ℕ → Bytes → Range → State → Outcome
walk reg zero name cnst st = out_of_fuel
walk reg (suc fuel) name cnst st = visit reg (walk reg fuel) name cnst st

-- The variables at the start, with the constraints of the manifest.
abbrev pub initial : Map Range → State
initial constraints = record {
  constraints = constraints;
  selected = [];
  source_of = [];
  sha_of = [];
  transitive = [];
  visiting = [];
  stack = [];
}

-- The loop of `Resolve` over a copy of the manifest's constraints, in the order `roots` in which Go
-- passes over the copy.
unfoldable pub resolve : RegistryLookup → ℕ → List DepConstraint → Map Range → Outcome
unfolding walk visit select choose descend walk_each enter leave record_constraint tighten
    is_visiting
resolve reg fuel roots constraints = walk_each (walk reg fuel) roots (initial constraints)
