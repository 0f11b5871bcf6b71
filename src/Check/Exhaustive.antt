-- ===== src/Check/Exhaustive.antt =====
-- A match that compiler/check/match.go does not report covers its scrutinee.
use fuse.Prelude.{
  ℕ, Bool, true, false, Bool-cases, not, ◌&&◌, ◌||◌, List, [], ◌∷◌, none, some, Bytes, All, ◌≡◌,
  ◌⊎◌, inl, inr, refl, sym, arith,
}
use mathlib.Core.Path.{subst}
use mathlib.Core.List.{Memᴰ}
use mathlib.Core.List.Memᴰ.{head, tail}
use fuse.Check.Patterns.{
  Pat, literal, bind, constructor, wildcard, alternatives, range, at_bind, Pats, nil, cons, Arm,
}
use fuse.Check.Match.{
  mem, collect_covered_variants, pattern_is_total, is_bool, any_bool, arm_bool, cover_bool,
  arms_contain_wildcard, check_exhaustive_bool, covered_by, missing_of, report_missing, EnumDecl,
  Checker, kind_bool, kind_enum, kind_other, enum_decl_for_type, check_exhaustive_enum,
  check_exhaustive, Report,
}
use fuse.Check.Admits.{
  Shape, boolean, variant, admits, any_admits, plain, pattern_is_total-admits, collect-admits,
}

-- An arm takes every value of the shape that reaches it.
abbrev pub arm_admits : Shape → Arm → Bool
arm_admits s a = not a.guarded && admits a.pattern_of s

abbrev pub some_arm : Shape → List Arm → Bool
some_arm s [] = false
some_arm s (a ∷ arms) = arm_admits s a || some_arm s arms

-- An arm without a guard, whose constructors have irrefutable sub-patterns.
abbrev pub Plain : Arm → Type 0
Plain a = (a.guarded ≡ false) × (plain a.pattern_of ≡ true)

-- The values of the scrutinee's type, shape by shape.
pub data InDomain (c : Checker) (t : ℕ) : Shape → Type 0 where
  of_bool : (b : Bool) → c.kind_of t ≡ some kind_bool → InDomain c t (boolean b)
  of_enum :
      (e : EnumDecl) (v : Bytes)
      → c.kind_of t ≡ some kind_enum
      → enum_decl_for_type t c.enums ≡ some e
      → Memᴰ v e.variants
      → InDomain c t (variant v)

arms_contain_wildcard-some_arm :
    (s : Shape) (arms : List Arm)
    → All Plain arms
    → arms_contain_wildcard arms ≡ true
    → some_arm s arms ≡ true
unfolding arms_contain_wildcard
arms_contain_wildcard-some_arm s [] ps h = ground arith
arms_contain_wildcard-some_arm s (a ∷ arms) ps h =
    elim (Bool-cases (pattern_is_total a.pattern_of)) [
      | inl e ↦ rw (ps.0.0, pattern_is_total-admits a.pattern_of s e) refl
      | inr e ↦
          let rest =
            arms_contain_wildcard-some_arm s arms ps.1 (rw (e, arms_contain_wildcard) at h) in
          ground arith
    ]

is_bool-admits : (b : Bool) (p : Pat) → is_bool b p ≡ true → admits p (boolean b) ≡ true
unfolding admits
is_bool-admits b p h = ground arith

any_bool-admits : (b : Bool) (ps : Pats) → any_bool b ps ≡ true → any_admits ps (boolean b) ≡ true
unfolding admits
any_bool-admits b nil h = ground arith
any_bool-admits b (cons p ps) h = ground (arith, is_bool-admits b p, any_bool-admits b ps)

arm_bool-admits : (b : Bool) (p : Pat) → arm_bool b p ≡ true → admits p (boolean b) ≡ true
unfolding admits
arm_bool-admits b (alternatives alts) h = any_bool-admits b alts h
arm_bool-admits b (literal k text c) h = is_bool-admits b (literal k text c) h
arm_bool-admits b wildcard h = refl
arm_bool-admits b (bind name) h = refl
arm_bool-admits b (constructor t name path tuple fields rest) h = ground arith
arm_bool-admits b (range i) h = ground arith
arm_bool-admits b (at_bind name p) h = ground arith

cover_bool-some_arm :
    (b : Bool) (arms : List Arm)
    → All Plain arms
    → cover_bool b arms ≡ true
    → some_arm (boolean b) arms ≡ true
unfolding cover_bool
cover_bool-some_arm b [] ps h = ground arith
cover_bool-some_arm b (a ∷ arms) ps h =
    ground (arith, ps.0.0, arm_bool-admits b a.pattern_of, cover_bool-some_arm b arms ps.1)

covered_by-some_arm :
    (arms : List Arm) (out : List Bytes) (n : Bytes)
    → All Plain arms
    → mem n (covered_by arms out) ≡ true
    → (mem n out ≡ true) ⊎ (some_arm (variant n) arms ≡ true)
unfolding covered_by
covered_by-some_arm [] out n ps h = inl h
covered_by-some_arm (a ∷ arms) out n ps h =
    elim (covered_by-some_arm arms (collect_covered_variants a.pattern_of out) n ps.1 h) [
      | inr f ↦ inr (ground arith)
      | inl f ↦ elim (collect-admits a.pattern_of out n f ps.0.1) [
        | inl g ↦ inl g
        | inr g ↦ inr (rw (ps.0.0, g) refl)
      ]
    ]

missing_of-mem :
    (covered variants : List Bytes) (v : Bytes)
    → missing_of covered variants ≡ []
    → Memᴰ v variants
    → mem v covered ≡ true
unfolding missing_of
missing_of-mem covered [] v h m = elim m [ ]
missing_of-mem covered (x ∷ variants) v h m = elim (Bool-cases (mem x covered)) [
  | inr e ↦ let f = rw (e, missing_of) at h in ground arith
  | inl e ↦ elim m [
    | head q ↦ subst (λ y. mem y covered ≡ true) (sym q) e
    | tail n ↦ missing_of-mem covered variants v (rw (e, missing_of) at h) n
  ]
]

bool_of : (b : Bool) (arms : List Arm) → check_exhaustive_bool arms ≡ [] → cover_bool b arms ≡ true
unfolding check_exhaustive_bool
bool_of true arms h = ground arith
bool_of false arms h = ground arith

report_missing-nil : (name : Bytes) (vs : List Bytes) → report_missing name vs ≡ [] → vs ≡ []
report_missing-nil name [] h = refl
report_missing-nil name (v ∷ vs) h = ground arith

enum_of :
    (c : Checker) (t : ℕ) (e : EnumDecl) (v : Bytes) (arms : List Arm)
    → All Plain arms
    → enum_decl_for_type t c.enums ≡ some e
    → Memᴰ v e.variants
    → check_exhaustive_enum c arms t ≡ []
    → some_arm (variant v) arms ≡ true
unfolding check_exhaustive_enum mem
enum_of c t e v arms ps f m h =
    let none_missing =
      report_missing-nil e.name (missing_of (covered_by arms []) e.variants)
        (rw (f, check_exhaustive_enum) at h) in
    let covered = missing_of-mem (covered_by arms []) e.variants v none_missing m in
    elim (covered_by-some_arm arms [] v ps covered) [ inl g ↦ ground arith | inr g ↦ g ]

-- Where `checkExhaustive` reports nothing, no arm has a guard and the sub-patterns of constructors
-- are irrefutable, every value of the scrutinee's type, which is bool or an enum of the program, is
-- matched by some arm.
pub check_exhaustive-some_arm :
    (c : Checker) (arms : List Arm) (t : ℕ) (s : Shape)
    → All Plain arms
    → InDomain c t s
    → check_exhaustive c arms t ≡ []
    → some_arm s arms ≡ true
unfolding check_exhaustive
check_exhaustive-some_arm c arms t s ps d h = elim (Bool-cases (arms_contain_wildcard arms)) [
  | inl e ↦ arms_contain_wildcard-some_arm s arms ps e
  | inr e ↦ without_wildcard s d (rw (e, check_exhaustive) at h)
]
  where
    without_wildcard :
        (s : Shape)
        → InDomain c t s
        → (elim (c.kind_of t) [
          | none ↦ []
          | some kind_bool ↦ check_exhaustive_bool arms
          | some kind_enum ↦ check_exhaustive_enum c arms t
          | some kind_other ↦ Report.needs_wildcard ∷ []
        ])
          ≡ []
        → some_arm s arms ≡ true
    without_wildcard s (of_bool b k) h = cover_bool-some_arm b arms ps (bool_of b arms (rw k at h))
    without_wildcard s (of_enum e v k f m) h = enum_of c t e v arms ps f m (rw k at h)
