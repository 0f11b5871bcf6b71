-- ===== src/Check/Reachable.antt =====
-- Which arms compiler/check/match.go reports as unreachable.
use fuse.Prelude.{
  ℕ, suc, ◌+◌, Bool, true, false, Bool-cases, if◌then◌else◌, List, [], ◌∷◌, ◌++◌, map, length,
  Bytes, Option, none, some, append_assoc, ◌≡◌, inl, inr, refl, ap, arith,
}
use fuse.Check.Patterns.{Arm}
use fuse.Check.Match.{
  collect_covered_variants, pattern_is_total, add_all, unreachable_from, check_unreachable_arms,
  Report, Checker, check_exhaustive, check_match_exhaustiveness, behind_catch_all,
  arms_contain_wildcard, cover_bool, check_exhaustive_bool, covered_by, check_exhaustive_enum,
  enum_decl_for_type, report_missing, missing_of, Kind, kind_bool, kind_enum, kind_other,
}

-- The arms without their guards.
abbrev pub without_guards : List Arm → List Arm
without_guards arms = map (λ (a : Arm). record a { guarded = false }) arms

unreachable_from-without_guards :
    (i : ℕ) (total : Bool) (seen : List Bytes) (arms : List Arm)
    → unreachable_from i total seen (without_guards arms) ≡ unreachable_from i total seen arms
unfolding unreachable_from
unreachable_from-without_guards i true seen [] = refl
unreachable_from-without_guards i false seen [] = refl
unreachable_from-without_guards i true seen (a ∷ arms) =
    rw (unreachable_from-without_guards (i + 1) true seen arms) refl
unreachable_from-without_guards i false seen (a ∷ arms) =
    rw
      (
        unreachable_from-without_guards (i + 1) true seen arms,
        unreachable_from-without_guards (i + 1) false
            (add_all (collect_covered_variants a.pattern_of []) seen) arms,
      )
      refl

wildcard-without_guards :
    (arms : List Arm) → arms_contain_wildcard (without_guards arms) ≡ arms_contain_wildcard arms
unfolding arms_contain_wildcard
wildcard-without_guards [] = refl
wildcard-without_guards (a ∷ arms) = rw (wildcard-without_guards arms) refl

cover_bool-without_guards :
    (b : Bool) (arms : List Arm) → cover_bool b (without_guards arms) ≡ cover_bool b arms
unfolding cover_bool
cover_bool-without_guards b [] = refl
cover_bool-without_guards b (a ∷ arms) = rw (cover_bool-without_guards b arms) refl

covered_by-without_guards :
    (arms : List Arm) (out : List Bytes)
    → covered_by (without_guards arms) out ≡ covered_by arms out
unfolding covered_by
covered_by-without_guards [] out = refl
covered_by-without_guards (a ∷ arms) out =
    covered_by-without_guards arms (collect_covered_variants a.pattern_of out)

bool-without_guards :
    (arms : List Arm) → check_exhaustive_bool (without_guards arms) ≡ check_exhaustive_bool arms
unfolding check_exhaustive_bool
bool-without_guards arms =
    rw (cover_bool-without_guards true arms, cover_bool-without_guards false arms) refl

enum-without_guards :
    (c : Checker) (arms : List Arm) (t : ℕ)
    → check_exhaustive_enum c (without_guards arms) t ≡ check_exhaustive_enum c arms t
unfolding check_exhaustive_enum
enum-without_guards c arms t =
    ap
      (λ covered. elim (enum_decl_for_type t c.enums) [
        | none ↦ []
        | some e ↦ report_missing e.name (missing_of covered e.variants)
      ])
      (covered_by-without_guards arms [])

check_exhaustive-without_guards :
    (c : Checker) (arms : List Arm) (t : ℕ)
    → check_exhaustive c (without_guards arms) t ≡ check_exhaustive c arms t
unfolding check_exhaustive
check_exhaustive-without_guards c arms t =
    rw (wildcard-without_guards arms)
      (ap (λ r. if arms_contain_wildcard arms then [] else r) (by_kind (c.kind_of t)))
  where
    by_kind :
        (o : Option Kind)
        → (elim o [
          | none ↦ []
          | some kind_bool ↦ check_exhaustive_bool (without_guards arms)
          | some kind_enum ↦ check_exhaustive_enum c (without_guards arms) t
          | some kind_other ↦ Report.needs_wildcard ∷ []
        ])
          ≡ (elim o [
            | none ↦ []
            | some kind_bool ↦ check_exhaustive_bool arms
            | some kind_enum ↦ check_exhaustive_enum c arms t
            | some kind_other ↦ Report.needs_wildcard ∷ []
          ])
    by_kind none = refl
    by_kind (some kind_bool) = bool-without_guards arms
    by_kind (some kind_enum) = enum-without_guards c arms t
    by_kind (some kind_other) = refl

-- The checks of a match report the same whether its arms have guards or not: an arm with a guard
-- counts as one that takes every value of its pattern.
pub check_match_exhaustiveness-without_guards :
    (c : Checker) (arms : List Arm) (t : ℕ)
    → check_match_exhaustiveness c (without_guards arms) t ≡ check_match_exhaustiveness c arms t
unfolding check_match_exhaustiveness check_unreachable_arms
check_match_exhaustiveness-without_guards c arms t =
    rw (unreachable_from-without_guards 0 false [] arms, check_exhaustive-without_guards c arms t)
      refl

-- Every arm from the index `i` on is reported.
abbrev pub all_behind : ℕ → List Arm → List Report
all_behind i [] = []
all_behind i (a ∷ arms) = behind_catch_all i ∷ all_behind (i + 1) arms

unreachable_from-behind :
    (i : ℕ) (seen : List Bytes) (arms : List Arm)
    → unreachable_from i true seen arms ≡ all_behind i arms
unfolding unreachable_from
unreachable_from-behind i seen [] = refl
unreachable_from-behind i seen (a ∷ arms) =
    ap (λ r. behind_catch_all i ∷ r) (unreachable_from-behind (i + 1) seen arms)

unreachable_from-split :
    (i j : ℕ) (seen : List Bytes) (before after : List Arm) (a : Arm)
    → arms_contain_wildcard before ≡ false
    → pattern_is_total a.pattern_of ≡ true
    → j ≡ suc (i + length before)
    → unreachable_from i false seen (before ++ (a ∷ after))
      ≡ unreachable_from i false seen before ++ all_behind j after
unfolding unreachable_from arms_contain_wildcard
unreachable_from-split i j seen [] after a n t h =
    let next : j ≡ i + 1 = omega arith in rw (t, next) (unreachable_from-behind (i + 1) seen after)
unreachable_from-split i j seen (b ∷ before) after a n t h =
    elim (Bool-cases (pattern_is_total b.pattern_of)) [
      | inl e ↦ let f = rw (e, arms_contain_wildcard) at n in ground arith
      | inr e ↦
          let names = collect_covered_variants b.pattern_of [] in
          let rest =
            unreachable_from-split (i + 1) j (add_all names seen) before after a
              (rw (e, arms_contain_wildcard) at n) t (omega arith) in
          rw (e, rest, append_assoc) refl
    ]

-- Behind the first catch-all arm every arm is reported as unreachable, whatever its pattern, and
-- the arms up to it are reported as they are without the others.
pub check_unreachable_arms-split :
    (before after : List Arm) (a : Arm)
    → arms_contain_wildcard before ≡ false
    → pattern_is_total a.pattern_of ≡ true
    → check_unreachable_arms (before ++ (a ∷ after))
      ≡ check_unreachable_arms before ++ all_behind (suc (length before)) after
unfolding check_unreachable_arms
check_unreachable_arms-split before after a n t =
    unreachable_from-split 0 (suc (length before)) [] before after a n t (omega arith)
