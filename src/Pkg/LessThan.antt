-- ===== src/Pkg/LessThan.antt =====
-- `LessThan` of compiler/pkg/version.go as a strict order.
use fuse.Prelude.{true, false, Bool-cases, ◌≡◌, ◌⊎◌, inl, inr, refl, sym, ◌∙◌, arith}
use mathlib.Core.Path.{subst}
use fuse.Prelude.Int.{ℤ, ◌<ℤ◌}
use fuse.Pkg.Version.{Version, Sign, less, same, more, compare, less_than, is_less, is_more}
use fuse.Pkg.Order.{Before, by_major, by_minor, by_patch, Means, compare-Means}

lt_trans : (a b c : ℤ) → a <ℤ b → b <ℤ c → a <ℤ c
lt_trans a b c p q = omega arith

lt_irrefl : (a : ℤ) → ¬ (a <ℤ a)
lt_irrefl a p = omega arith

lt_eq : (a b c : ℤ) → a <ℤ b → b ≡ c → a <ℤ c
lt_eq a b c p e = subst (λ x. a <ℤ x) e p

eq_lt : (a b c : ℤ) → a ≡ b → b <ℤ c → a <ℤ c
eq_lt a b c e p = subst (λ x. x <ℤ c) (sym e) p

Before-trans : (u v w : Version) → Before u v → Before v w → Before u w
Before-trans u v w (by_major p) (by_major q) = by_major (lt_trans u.major v.major w.major p q)
Before-trans u v w (by_major p) (by_minor d q) = by_major (lt_eq u.major v.major w.major p d)
Before-trans u v w (by_major p) (by_patch d e q) = by_major (lt_eq u.major v.major w.major p d)
Before-trans u v w (by_minor a p) (by_major q) = by_major (eq_lt u.major v.major w.major a q)
Before-trans u v w (by_minor a p) (by_minor d q) =
    by_minor (a ∙ d) (lt_trans u.minor v.minor w.minor p q)
Before-trans u v w (by_minor a p) (by_patch d e q) =
    by_minor (a ∙ d) (lt_eq u.minor v.minor w.minor p e)
Before-trans u v w (by_patch a b p) (by_major q) = by_major (eq_lt u.major v.major w.major a q)
Before-trans u v w (by_patch a b p) (by_minor d q) =
    by_minor (a ∙ d) (eq_lt u.minor v.minor w.minor b q)
Before-trans u v w (by_patch a b p) (by_patch d e q) =
    by_patch (a ∙ d) (b ∙ e) (lt_trans u.patch v.patch w.patch p q)

Before-irrefl : (v : Version) → ¬ Before v v
Before-irrefl v (by_major p) = lt_irrefl v.major p
Before-irrefl v (by_minor a p) = lt_irrefl v.minor p
Before-irrefl v (by_patch a b p) = lt_irrefl v.patch p

of_less : (v o : Version) (s : Sign) → Means v o s → is_less s ≡ true → Before v o
of_less v o less m h = m
of_less v o same m h = ground arith
of_less v o more m h = ground arith

to_less : (v o : Version) (s : Sign) → Means v o s → Before v o → is_less s ≡ true
to_less v o less m b = refl
to_less v o same m b = elim (Before-irrefl o (subst (λ x. Before x o) m b)) [ ]
to_less v o more m b = elim (Before-irrefl v (Before-trans v o v b m)) [ ]

pub Before-of : (v o : Version) → less_than v o ≡ true → Before v o
unfolding less_than
Before-of v o h = of_less v o (compare v o) (compare-Means v o) h

pub to-less_than : (v o : Version) → Before v o → less_than v o ≡ true
unfolding less_than
to-less_than v o b = to_less v o (compare v o) (compare-Means v o) b

pub less_than_trans :
    (u v w : Version) → less_than u v ≡ true → less_than v w ≡ true → less_than u w ≡ true
less_than_trans u v w h k =
    to-less_than u w (Before-trans u v w (Before-of u v h) (Before-of v w k))

pub less_than_irrefl : (v : Version) → less_than v v ≡ false
less_than_irrefl v = elim (Bool-cases (less_than v v)) [
  | inl h ↦ elim (Before-irrefl v (Before-of v v h)) [ ]
  | inr h ↦ h
]

-- The case of a version at or above another.
above : (v o : Version) (s : Sign) → Means v o s → is_less s ≡ false → (v ≡ o) ⊎ Before o v
above v o less m h = ground arith
above v o same m h = inl m
above v o more m h = inr m

above_of : (v o : Version) → less_than v o ≡ false → (v ≡ o) ⊎ Before o v
unfolding less_than
above_of v o h = above v o (compare v o) (compare-Means v o) h

-- Being at or above is transitive.
pub not-less_than_trans :
    (u v w : Version) → less_than u v ≡ false → less_than v w ≡ false → less_than u w ≡ false
not-less_than_trans u v w h k = elim (above_of u v h) [
  | inl e ↦ subst (λ x. less_than x w ≡ false) (sym e) k
  | inr p ↦ elim (Bool-cases (less_than u w)) [
    | inl l ↦ let t = to-less_than v w (Before-trans v u w p (Before-of u w l)) in ground arith
    | inr l ↦ l
  ]
]

pub not-less_than : (v o : Version) → ¬ Before v o → less_than v o ≡ false
not-less_than v o n = elim (Bool-cases (less_than v o)) [
  | inl h ↦ elim (n (Before-of v o h)) [ ]
  | inr h ↦ h
]

more_of : (v o : Version) (s : Sign) → Means v o s → is_more s ≡ less_than o v
more_of v o less m = sym (not-less_than o v (λ b. Before-irrefl v (Before-trans v o v m b)))
more_of v o same m = sym (subst (λ x. less_than o x ≡ false) (sym m) (less_than_irrefl o))
more_of v o more m = sym (to-less_than o v m)

-- `Compare` is antisymmetric.
pub is_more-compare : (v o : Version) → is_more (compare v o) ≡ less_than o v
is_more-compare v o = more_of v o (compare v o) (compare-Means v o)
