-- ===== src/Check/Match.antt =====
-- compiler/check/match.go: exhaustiveness and unreachable arms.
use fuse.Prelude.{
  ℕ, ◌+◌, Bool, true, false, not, ◌&&◌, ◌||◌, ◌==◌, if◌then◌else◌, List, [], ◌∷◌, ◌++◌, Option,
  none, some, Bytes, codes, equal,
}
use fuse.Prelude.Sort.{sort_strings}
use fuse.Check.Patterns.{
  lit_bool, Pat, literal, bind, constructor, wildcard, alternatives, range, at_bind, Pats, nil,
  cons, Arm,
}

-- A map[string]bool whose keys are all true, as the list of them.
unfoldable pub mem : Bytes → List Bytes → Bool
mem x [] = false
mem x (y ∷ ys) = if equal x y then true else mem x ys

-- `out[name] = true`.
unfoldable pub add_name : Bytes → List Bytes → List Bytes
unfolding mem
add_name x xs = if mem x xs then xs else x ∷ xs

-- `x.Path[len(x.Path)-1]`, of a path that is not empty.
abbrev pub last_of : Bytes → List Bytes → Bytes
last_of x [] = x
last_of x (y ∷ ys) = last_of y ys

-- The variant that a constructor pattern names, if it names one.
abbrev pub variant_of : Bytes → List Bytes → Option Bytes
variant_of (c ∷ name) path = some (c ∷ name)
variant_of [] [] = none
variant_of [] (x ∷ path) = some (last_of x path)

abbrev pub add_variant : Option Bytes → List Bytes → List Bytes
add_variant none out = out
add_variant (some name) out = add_name name out

unfoldable mutual
  unfolding add_name

  -- `collectCoveredVariants`.
  pub collect_covered_variants : Pat → List Bytes → List Bytes
  collect_covered_variants (constructor t name path tuple fields rest) out =
      add_variant (variant_of name path) out
  collect_covered_variants (alternatives alts) out = collect_all alts out
  collect_covered_variants (literal k text b) out = out
  collect_covered_variants (bind name) out = out
  collect_covered_variants wildcard out = out
  collect_covered_variants (range i) out = out
  collect_covered_variants (at_bind name p) out = out

  pub collect_all : Pats → List Bytes → List Bytes
  collect_all nil out = out
  collect_all (cons p ps) out = collect_all ps (collect_covered_variants p out)

unfoldable mutual
  -- `patternIsTotal`.
  pub pattern_is_total : Pat → Bool
  pattern_is_total wildcard = true
  pattern_is_total (bind name) = true
  pattern_is_total (alternatives alts) = any_total alts
  pattern_is_total (literal k text b) = false
  pattern_is_total (constructor t name path tuple fields rest) = false
  pattern_is_total (range i) = false
  pattern_is_total (at_bind name p) = false

  pub any_total : Pats → Bool
  any_total nil = false
  any_total (cons p ps) = pattern_is_total p || any_total ps

-- The diagnostics, with what their texts tell. The index of an arm counts from 0.
pub data Report : Type 0 where
  -- The scrutinee's type needs a wildcard arm.
  needs_wildcard : Report
  missing_bool : List Bytes → Report
  -- The enum and the variants that are missing, in order.
  missing_variants : Bytes → List Bytes → Report
  -- A prior arm is a catch-all.
  behind_catch_all : ℕ → Report
  -- A variant that a prior arm covers.
  covered_before : ℕ → Bytes → Report

-- `armsContainWildcard`.
unfoldable pub arms_contain_wildcard : List Arm → Bool
unfolding pattern_is_total
arms_contain_wildcard [] = false
arms_contain_wildcard (a ∷ arms) =
    if pattern_is_total a.pattern_of then true else arms_contain_wildcard arms

-- Whether the pattern is the literal `b`.
abbrev pub is_bool : Bool → Pat → Bool
is_bool true (literal lit_bool text true) = true
is_bool false (literal lit_bool text false) = true
is_bool _ _ = false

abbrev pub any_bool : Bool → Pats → Bool
any_bool b nil = false
any_bool b (cons p ps) = is_bool b p || any_bool b ps

-- The literals of an arm that `checkExhaustiveBool` sees: the pattern itself, and the alternatives
-- of an or-pattern.
abbrev pub arm_bool : Bool → Pat → Bool
arm_bool b (alternatives alts) = any_bool b alts
arm_bool b p = is_bool b p

-- `coverTrue` and `coverFalse` after the loop over the arms.
unfoldable pub cover_bool : Bool → List Arm → Bool
cover_bool b [] = false
cover_bool b (a ∷ arms) = arm_bool b a.pattern_of || cover_bool b arms

-- `checkExhaustiveBool`.
unfoldable pub check_exhaustive_bool : List Arm → List Report
unfolding cover_bool
check_exhaustive_bool arms =
    if cover_bool true arms && cover_bool false arms
    then []
    else missing_bool (
        (if cover_bool true arms then [] else codes "true" ∷ [])
        ++ (if cover_bool false arms then [] else codes "false" ∷ []))
      ∷ []

-- The loop over the arms of `checkExhaustiveEnum`.
unfoldable pub covered_by : List Arm → List Bytes → List Bytes
unfolding collect_covered_variants
covered_by [] out = out
covered_by (a ∷ arms) out = covered_by arms (collect_covered_variants a.pattern_of out)

-- The loop over the variants.
unfoldable pub missing_of : List Bytes → List Bytes → List Bytes
unfolding mem
missing_of covered [] = []
missing_of covered (v ∷ variants) =
    if not (mem v covered) then v ∷ missing_of covered variants else missing_of covered variants

-- `EnumDecl`: the name, the type and the names of the variants.
pub record EnumDecl : Type 0 where
  pub name : Bytes
  pub type_id : ℕ
  pub variants : List Bytes

-- What the check reads of the checker: the kind of each interned type, if there is one, and the
-- enums of the program, in its order.
pub data Kind : Type 0 where
  kind_bool kind_enum kind_other : Kind

pub record Checker : Type 0 where
  pub kind_of : ℕ → Option Kind
  pub enums : List EnumDecl

-- `enumDeclForType`.
unfoldable pub enum_decl_for_type : ℕ → List EnumDecl → Option EnumDecl
enum_decl_for_type t [] = none
enum_decl_for_type t (e ∷ enums) = if e.type_id == t then some e else enum_decl_for_type t enums

abbrev pub report_missing : Bytes → List Bytes → List Report
report_missing name [] = []
report_missing name (v ∷ vs) = missing_variants name (sort_strings (v ∷ vs)) ∷ []

-- `checkExhaustiveEnum`.
unfoldable pub check_exhaustive_enum : Checker → List Arm → ℕ → List Report
unfolding enum_decl_for_type covered_by missing_of
check_exhaustive_enum c arms t = elim (enum_decl_for_type t c.enums) [
  | none ↦ []
  | some e ↦ report_missing e.name (missing_of (covered_by arms []) e.variants)
]

-- `checkExhaustive`.
unfoldable pub check_exhaustive : Checker → List Arm → ℕ → List Report
unfolding arms_contain_wildcard check_exhaustive_bool check_exhaustive_enum
check_exhaustive c arms t = if arms_contain_wildcard arms then [] else elim (c.kind_of t) [
  | none ↦ []
  | some kind_bool ↦ check_exhaustive_bool arms
  | some kind_enum ↦ check_exhaustive_enum c arms t
  | some kind_other ↦ needs_wildcard ∷ []
]

-- The reports of one arm: the variants that are in `seen`. Go ranges over the variants of the arm
-- in no fixed order: here it is the one of `names`.
unfoldable pub duplicates : ℕ → List Bytes → List Bytes → List Report
unfolding mem
duplicates i seen [] = []
duplicates i seen (x ∷ names) =
    if mem x seen then covered_before i x ∷ duplicates i seen names else duplicates i seen names

abbrev pub add_all : List Bytes → List Bytes → List Bytes
add_all [] seen = seen
add_all (x ∷ names) seen = add_all names (add_name x seen)

-- The loop of `checkUnreachableArms`, from the arm at index `i` on.
unfoldable pub unreachable_from : ℕ → Bool → List Bytes → List Arm → List Report
unfolding pattern_is_total collect_covered_variants duplicates
unreachable_from i total seen [] = []
unreachable_from i true seen (a ∷ arms) =
    behind_catch_all i ∷ unreachable_from (i + 1) true seen arms
unreachable_from i false seen (a ∷ arms) =
    let names = collect_covered_variants a.pattern_of [] in
    let stop = unreachable_from (i + 1) true seen arms in
    let on = unreachable_from (i + 1) false (add_all names seen) arms in
    if pattern_is_total a.pattern_of then stop else duplicates i seen names ++ on

-- `checkUnreachableArms`.
unfoldable pub check_unreachable_arms : List Arm → List Report
unfolding unreachable_from
check_unreachable_arms arms = unreachable_from 0 false [] arms

-- `CheckMatchExhaustiveness`.
unfoldable pub check_match_exhaustiveness : Checker → List Arm → ℕ → List Report
unfolding check_unreachable_arms check_exhaustive
check_match_exhaustiveness c arms t = check_unreachable_arms arms ++ check_exhaustive c arms t
