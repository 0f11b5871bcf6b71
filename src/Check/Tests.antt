-- ===== src/Check/Tests.antt =====
-- Small matches of compiler/check, and the theorems at concrete inputs.
use fuse.Prelude.{Bool, true, false, List, [], ◌∷◌, ◌++◌, some, Bytes, All, codes, equal, ◌≡◌, refl}
use mathlib.Core.List.Memᴰ.{head, tail}
use fuse.Check.Patterns.{Pat, bind, constructor, wildcard, Pats, nil, cons, end, Arm}
use fuse.Check.Match.{
  pattern_is_total, arms_contain_wildcard, EnumDecl, Checker, kind_enum, Report, behind_catch_all,
  covered_before, check_exhaustive, check_unreachable_arms, check_match_exhaustiveness,
  enum_decl_for_type,
}
use fuse.Prelude.Sort.{sort_strings}
use fuse.Check.Admits.{variant, plain}
use fuse.Check.Exhaustive.{Plain, some_arm, of_enum, check_exhaustive-some_arm}
use fuse.Check.Reachable.{
  without_guards, all_behind, check_match_exhaustiveness-without_guards,
  check_unreachable_arms-split,
}

abbrev arm : Pat → Bool → Arm
arm p guarded = record { pattern_of = p; guarded = guarded }

abbrev case : Bytes → Pats → Pat
case name tuple = constructor 7 name [] tuple end false

abbrev outcome : EnumDecl
outcome = record { name = codes "Result"; type_id = 7; variants = codes "Ok" ∷ codes "Err" ∷ [] }

abbrev checker : Checker
checker = record { kind_of = λ t. some kind_enum; enums = outcome ∷ [] }

-- `Ok(v)` and `Err(e)`.
abbrev both : List Arm
both =
    arm (case (codes "Ok") (cons (bind (codes "v")) nil)) false
    ∷ arm (case (codes "Err") (cons (bind (codes "e")) nil)) false
    ∷ []

both_exhaustive : check_exhaustive checker both 7 ≡ []
unfolding check_exhaustive equal
both_exhaustive = refl

both-Plain : All Plain both
unfolding plain
both-Plain = ((refl, refl), ((refl, refl), tt))

outcome_found : enum_decl_for_type 7 (outcome ∷ []) ≡ some outcome
unfolding enum_decl_for_type
outcome_found = refl

check_exhaustive-some_arm_example : some_arm (variant (codes "Err")) both ≡ true
check_exhaustive-some_arm_example =
    check_exhaustive-some_arm checker both 7 (variant (codes "Err")) both-Plain
      (of_enum outcome (codes "Err") refl outcome_found (tail (head refl))) both_exhaustive

-- `Ok(v)` alone.
one_missing :
    check_exhaustive checker (arm (case (codes "Ok") (cons wildcard nil)) false ∷ []) 7
    ≡ Report.missing_variants (codes "Result") (codes "Err" ∷ []) ∷ []
unfolding check_exhaustive equal sort_strings
one_missing = refl

-- `x if x < 0`, `x if x == 0` and `x`.
abbrev signs : List Arm
signs =
    arm (bind (codes "x")) true ∷ arm (bind (codes "x")) true ∷ arm (bind (codes "x")) false ∷ []

signs_reported :
    check_match_exhaustiveness checker signs 7 ≡ behind_catch_all 1 ∷ behind_catch_all 2 ∷ []
unfolding check_match_exhaustiveness
signs_reported = refl

-- `Ok(Some(v))`, `Ok(None)` and `Err(e)`.
abbrev nested : List Arm
nested =
    arm (case (codes "Ok") (cons (case (codes "Some") (cons (bind (codes "v")) nil)) nil)) false
    ∷ arm (case (codes "Ok") (cons (case (codes "None") nil) nil)) false
    ∷ arm (case (codes "Err") (cons (bind (codes "e")) nil)) false
    ∷ []

nested_reported : check_match_exhaustiveness checker nested 7 ≡ covered_before 1 (codes "Ok") ∷ []
unfolding check_match_exhaustiveness equal
nested_reported = refl

-- `Ok(Some(v))` and `Err(e)`: nothing takes `Ok(None)`.
abbrev partial : List Arm
partial =
    arm (case (codes "Ok") (cons (case (codes "Some") (cons (bind (codes "v")) nil)) nil)) false
    ∷ arm (case (codes "Err") (cons (bind (codes "e")) nil)) false
    ∷ []

partial_accepted : check_match_exhaustiveness checker partial 7 ≡ []
unfolding check_match_exhaustiveness equal
partial_accepted = refl

check_match_exhaustiveness-without_guards_example :
    check_match_exhaustiveness checker (without_guards signs) 7
    ≡ check_match_exhaustiveness checker signs 7
check_match_exhaustiveness-without_guards_example =
    check_match_exhaustiveness-without_guards checker signs 7

both_partial : arms_contain_wildcard both ≡ false
unfolding arms_contain_wildcard
both_partial = refl

wildcard_total : pattern_is_total wildcard ≡ true
unfolding pattern_is_total
wildcard_total = refl

check_unreachable_arms-split_example :
    check_unreachable_arms (both ++ (arm wildcard false ∷ both))
    ≡ check_unreachable_arms both ++ all_behind 3 both
check_unreachable_arms-split_example =
    check_unreachable_arms-split both both (arm wildcard false) both_partial wildcard_total
