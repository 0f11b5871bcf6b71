-- ===== src/Check/Admits.antt =====
-- Which values a pattern of compiler/hir/pat.go matches, beside the sets that
-- compiler/check/match.go collects.
use fuse.Prelude.{
  Bool, true, false, not, ◌&&◌, ◌||◌, List, Option, none, some, Bytes, equal, ◌≡◌, ◌⊎◌, inl, inr,
  refl, arith,
}
use fuse.Check.Patterns.{
  LitKind, lit_bool, Pat, literal, bind, constructor, wildcard, alternatives, range, at_bind, Pats,
  nil, cons, FieldPats, end, field,
}
use fuse.Check.Match.{
  mem, add_name, variant_of, add_variant, collect_covered_variants, collect_all, pattern_is_total,
  any_total,
}

-- A truth value, or the values of one variant with any payload.
pub data Shape : Type 0 where
  boolean : Bool → Shape
  variant : Bytes → Shape

unfoldable mutual
  -- The pattern matches every value of its type.
  pub irrefutable : Pat → Bool
  irrefutable wildcard = true
  irrefutable (bind name) = true
  irrefutable (at_bind name p) = irrefutable p
  irrefutable (alternatives alts) = any_irrefutable alts
  irrefutable (literal k text b) = false
  irrefutable (constructor t name path tuple fields rest) = false
  irrefutable (range i) = false

  pub any_irrefutable : Pats → Bool
  any_irrefutable nil = false
  any_irrefutable (cons p ps) = irrefutable p || any_irrefutable ps

unfoldable pub all_irrefutable : Pats → Bool
unfolding irrefutable
all_irrefutable nil = true
all_irrefutable (cons p ps) = irrefutable p && all_irrefutable ps

unfoldable pub fields_irrefutable : FieldPats → Bool
unfolding irrefutable
fields_irrefutable end = true
fields_irrefutable (field name p fields) = irrefutable p && fields_irrefutable fields

abbrev pub same_truth : Bool → Bool → Bool
same_truth true b = b
same_truth false b = not b

abbrev pub names_variant : Option Bytes → Shape → Bool
names_variant (some name) (variant n) = equal n name
names_variant _ _ = false

abbrev pub literal_admits : LitKind → Bool → Shape → Bool
literal_admits lit_bool b (boolean c) = same_truth b c
literal_admits _ _ _ = false

unfoldable mutual
  unfolding all_irrefutable fields_irrefutable equal

  -- The pattern matches every value of the shape.
  pub admits : Pat → Shape → Bool
  admits wildcard s = true
  admits (bind name) s = true
  admits (at_bind name p) s = admits p s
  admits (alternatives alts) s = any_admits alts s
  admits (literal k text b) s = literal_admits k b s
  admits (range i) s = false
  admits (constructor t name path tuple fields rest) s =
      names_variant (variant_of name path) s && (all_irrefutable tuple && fields_irrefutable fields)

  pub any_admits : Pats → Shape → Bool
  any_admits nil s = false
  any_admits (cons p ps) s = admits p s || any_admits ps s

unfoldable mutual
  unfolding all_irrefutable fields_irrefutable

  -- The sub-patterns of a constructor match every payload.
  pub plain : Pat → Bool
  plain (constructor t name path tuple fields rest) =
      all_irrefutable tuple && fields_irrefutable fields
  plain (alternatives alts) = all_plain alts
  plain wildcard = true
  plain (bind name) = true
  plain (at_bind name p) = true
  plain (literal k text b) = true
  plain (range i) = true

  pub all_plain : Pats → Bool
  all_plain nil = true
  all_plain (cons p ps) = plain p && all_plain ps

mutual
  unfolding pattern_is_total admits

  pub pattern_is_total-admits :
      (p : Pat) (s : Shape) → pattern_is_total p ≡ true → admits p s ≡ true
  pattern_is_total-admits wildcard s h = refl
  pattern_is_total-admits (bind name) s h = refl
  pattern_is_total-admits (alternatives alts) s h = any_total-admits alts s h
  pattern_is_total-admits (literal k text b) s h = ground arith
  pattern_is_total-admits (constructor t name path tuple fields rest) s h = ground arith
  pattern_is_total-admits (range i) s h = ground arith
  pattern_is_total-admits (at_bind name p) s h = ground arith

  any_total-admits : (ps : Pats) (s : Shape) → any_total ps ≡ true → any_admits ps s ≡ true
  any_total-admits nil s h = ground arith
  any_total-admits (cons p ps) s h =
      ground (arith, pattern_is_total-admits p s, any_total-admits ps s)

mem-add_name :
    (n x : Bytes) (xs : List Bytes)
    → mem n (add_name x xs) ≡ true
    → (mem n xs ≡ true) ⊎ (equal n x ≡ true)
unfolding mem add_name
mem-add_name n x xs h = ground arith

mutual
  unfolding collect_covered_variants admits plain

  -- A variant that is collected was there before, or the pattern matches all its values.
  pub collect-admits :
      (p : Pat) (out : List Bytes) (n : Bytes)
      → mem n (collect_covered_variants p out) ≡ true
      → plain p ≡ true
      → (mem n out ≡ true) ⊎ (admits p (variant n) ≡ true)
  collect-admits (constructor t name path tuple fields rest) out n h k =
      named (variant_of name path) h
    where
      named :
          (o : Option Bytes)
          → mem n (add_variant o out) ≡ true
          → (mem n out ≡ true)
            ⊎ ((names_variant o (variant n) && (all_irrefutable tuple && fields_irrefutable fields))
                ≡ true)
      named none e = inl e
      named (some x) e = elim (mem-add_name n x out e) [
        | inl f ↦ inl f
        | inr f ↦ inr (rw (f, k) refl)
      ]
  collect-admits (alternatives alts) out n h k = collect_all-admits alts out n h k
  collect-admits wildcard out n h k = inl h
  collect-admits (bind name) out n h k = inl h
  collect-admits (literal l text b) out n h k = inl h
  collect-admits (range i) out n h k = inl h
  collect-admits (at_bind name p) out n h k = inl h

  collect_all-admits :
      (ps : Pats) (out : List Bytes) (n : Bytes)
      → mem n (collect_all ps out) ≡ true
      → all_plain ps ≡ true
      → (mem n out ≡ true) ⊎ (any_admits ps (variant n) ≡ true)
  collect_all-admits nil out n h k = inl h
  collect_all-admits (cons p ps) out n h k =
      elim (collect_all-admits ps (collect_covered_variants p out) n h (ground arith)) [
        | inr f ↦ inr (ground arith)
        | inl f ↦ elim (collect-admits p out n f (ground arith)) [
          | inl g ↦ inl g
          | inr g ↦ inr (rw g refl)
        ]
      ]
