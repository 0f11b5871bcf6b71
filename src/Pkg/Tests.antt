-- ===== src/Pkg/Tests.antt =====
-- Runs of compiler/pkg on small inputs.
use fuse.Prelude.{
  ℕ, suc, true, false, Option, some, List, [], ◌∷◌, Bytes, codes, ◌≡◌, refl, ◌&&◌, length, All,
  if◌then◌else◌, equal, Bool-cases, inl, inr, ◌↔◌, arith,
}
use mathlib.Core.List.{Memᴰ}
use mathlib.Core.List.Memᴰ.{head, tail}
use fuse.Prelude.Int.{pos}
use fuse.Prelude.Maps.{Map, lookup}
use fuse.Pkg.Parse.{
  version_text, parse_version, caret_range, parse_range, parse_compound_range, add_clauses,
  split_at, atoi, parse_decimal,
}
use fuse.Pkg.Parsed.{version, IsCompatible, IsTrim, parse_version-version_text, caret_range_lem}
use fuse.Pkg.Version.{
  Version, Range, compare, contains, intersect, select_latest, select_from, less_than, zero_version,
}
use fuse.Pkg.Order.{Means, compare-Means}
use fuse.Pkg.Intersect.{contains_some, intersect_lem}
use fuse.Pkg.Select.{Within, Tops, select_latest-Tops}
use fuse.Pkg.Resolver.{DepConstraint, RegistryLookup, State, Outcome, ok, fail, no_longer, resolve}
use fuse.Pkg.Resolver.{walk, initial}
use fuse.Pkg.Grown.{Chosen, Settled, After}
use fuse.Pkg.Restored.{Restored, walk-Restored}
use fuse.Pkg.Resolved.{resolve-Settled}
use fuse.Pkg.Depth.{Closed, Answers, resolve-Answers}

abbrev at : ℕ → ℕ → ℕ → Version
at x y z = record { major = pos x; minor = pos y; patch = pos z }

abbrev any : Range
any = record { lower = zero_version; upper = zero_version; unbounded = true; raw = codes "*" }

abbrev caret_one : Range
caret_one = record { lower = at 1 0 0; upper = at 2 0 0; unbounded = false; raw = codes "^1" }

abbrev tilde_one_two : Range
tilde_one_two = record { lower = at 1 2 0; upper = at 1 3 0; unbounded = false; raw = codes "~1.2" }

compare-Means_example : Means (at 1 2 9) (at 1 3 0) (compare (at 1 2 9) (at 1 3 0))
compare-Means_example = compare-Means (at 1 2 9) (at 1 3 0)

intersect_lem_example :
    contains_some (intersect caret_one tilde_one_two) (at 1 2 5)
    ≡ (contains caret_one (at 1 2 5) && contains tilde_one_two (at 1 2 5))
intersect_lem_example = intersect_lem caret_one tilde_one_two (at 1 2 5)

intersect_inside : contains_some (intersect caret_one tilde_one_two) (at 1 2 5) ≡ true
unfolding intersect contains less_than compare
intersect_inside = refl

abbrev published : List Version
published = at 2 0 0 ∷ at 1 4 0 ∷ at 1 2 0 ∷ []

select_latest-Tops_example :
    Within (λ v. Memᴰ v published) caret_one (select_latest caret_one published)
    × All (Tops caret_one (select_latest caret_one published)) published
select_latest-Tops_example = select_latest-Tops caret_one published

-- Package "a" needs any "b" and "c" needs "b" at ^1; "b" has the versions above.
abbrev dep : Bytes → Range → DepConstraint
dep n r = record { name = n; range = r }

unfoldable registry_deps : Bytes → List DepConstraint
registry_deps n =
    if equal n (codes "a")
    then dep (codes "b") any ∷ []
    else if equal n (codes "c")
    then dep (codes "b") caret_one ∷ []
    else []

unfoldable registry_versions : Bytes → List Version
registry_versions n = if equal n (codes "b") then published else at 1 0 0 ∷ []

abbrev registry : RegistryLookup
registry = record {
  available_versions = registry_versions;
  dependencies = λ n v. registry_deps n;
  source = λ n v. n;
  sha256 = λ n v. n;
}

abbrev names : List Bytes
names = codes "a" ∷ codes "b" ∷ codes "c" ∷ []

abbrev c_first : List DepConstraint
c_first = dep (codes "c") any ∷ dep (codes "a") any ∷ []

abbrev a_first : List DepConstraint
a_first = dep (codes "a") any ∷ dep (codes "c") any ∷ []

abbrev manifest : Map Range
manifest = (codes "a", any) ∷ (codes "c", any) ∷ []

abbrev run : List DepConstraint → Outcome
run roots = resolve registry (suc (length names)) roots manifest

abbrev state_of : Outcome → State
state_of (ok st) = st
state_of o = record {
  constraints = [];
  selected = [];
  source_of = [];
  sha_of = [];
  transitive = [];
  visiting = [];
  stack = [];
}

abbrev final : State
final = state_of (run c_first)

run-c_first : run c_first ≡ ok final
unfolding resolve registry_deps registry_versions equal lookup select_from contains less_than
    compare intersect
run-c_first = refl

abbrev c_first_version : Option Version
c_first_version = lookup (codes "b") final.selected

c_first_picks : c_first_version ≡ some (at 1 4 0)
unfolding resolve registry_deps registry_versions equal lookup select_from contains less_than
    compare intersect
c_first_picks = refl

-- The same manifest in the other order.
run-a_first : run a_first ≡ fail (no_longer (codes "b") (at 2 0 0) (codes "* & ^1"))
unfolding resolve registry_deps registry_versions equal lookup select_from contains less_than
    compare intersect
run-a_first = refl

resolve-Settled_example :
    All (λ d. Chosen final d.name d.range) c_first
    × ((name : Bytes) (v : Version)
        → lookup name final.selected ≡ some v
        → Settled registry final name v)
unfolding resolve registry_deps registry_versions equal lookup select_from contains less_than
    compare intersect
resolve-Settled_example =
    resolve-Settled registry (suc (length names)) c_first manifest final run-c_first

registry-Closed : Closed registry names
unfolding registry_deps
registry-Closed n v = elim (Bool-cases (equal n (codes "a"))) [
  | inl e ↦ rw e (tail (head refl), tt)
  | inr e ↦ rw e (elim (Bool-cases (equal n (codes "c"))) [
    | inl f ↦ rw f (tail (head refl), tt)
    | inr f ↦ rw f tt
  ])
]

resolve-Answers_example : Answers (run c_first)
resolve-Answers_example =
    resolve-Answers registry names c_first manifest registry-Closed
      (tail (tail (head refl)), (head refl, tt))

walk-Restored_example :
    After (Restored (initial manifest)) (walk registry 4 (codes "c") any (initial manifest))
walk-Restored_example = walk-Restored registry 4 (codes "c") any (initial manifest)

-- `TrimSpace` on texts without space.
untrimmed-IsTrim : IsTrim (λ s. s)
untrimmed-IsTrim s h = refl

parse_version-version_text_example :
    parse_version (λ s. s) (version_text (version 1 20 3)) ≡ some (version 1 20 3)
parse_version-version_text_example =
    parse_version-version_text (λ s. s) 1 20 3 untrimmed-IsTrim (omega arith) (omega arith)
      (omega arith)

caret_range_lem_example :
    (contains (caret_range (version 0 2 3) []) (version 0 2 9) ≡ true)
    ↔ ((less_than (version 0 2 9) (version 0 2 3) ≡ false) × IsCompatible 0 2 3 0 2 9)
caret_range_lem_example = caret_range_lem 0 2 3 0 2 9 [] (omega arith) (omega arith) (omega arith)

-- A later clause takes the place of an earlier one: the conjunction lets 1.5.0 through.
loose_conjunction :
    parse_range (λ s. s) (codes ">=2.0.0,>=1.0.0")
    ≡ some (record {
      lower = version 1 0 0;
      upper = version 0 0 0;
      unbounded = true;
      raw = codes ">=2.0.0,>=1.0.0";
    })
unfolding parse_range parse_compound_range add_clauses split_at parse_version atoi parse_decimal
    equal
loose_conjunction = refl
