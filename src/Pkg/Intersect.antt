-- ===== src/Pkg/Intersect.antt =====
-- `Intersect` and `SelectLatest` of compiler/pkg/version.go against what they are for.
use fuse.Prelude.{
  Bool, true, false, Bool-cases, ◌&&◌, ◌||◌, not, if◌then◌else◌, Option, none, some, Bytes, ◌≡◌,
  refl, inl, inr, arith,
}
use fuse.Pkg.Version.{
  Version, Range, less_than, is_less, compare, contains, tight_lower, tight_upper, intersect,
  zero_version,
}
use fuse.Pkg.LessThan.{less_than_trans, not-less_than_trans, is_more-compare}

-- The versions of the range that `Intersect` returns, none where it returns false.
abbrev pub contains_some : Option Range → Version → Bool
contains_some none v = false
contains_some (some r) v = contains r v

-- A version is below the larger of two exactly when it is below one of them.
less_than-max :
    (a b v : Version)
    → less_than v (if less_than a b then b else a) ≡ (less_than v a || less_than v b)
less_than-max a b v = elim (Bool-cases (less_than a b)) [
  | inl e ↦ rw e (elim (Bool-cases (less_than v a)) [
    | inl f ↦ let t = less_than_trans v a b f e in ground arith
    | inr f ↦ ground arith
  ])
  | inr e ↦ rw e (elim (Bool-cases (less_than v a)) [
    | inl f ↦ ground arith
    | inr f ↦ let t = not-less_than_trans v a b f e in ground arith
  ])
]

-- And below the smaller of two exactly when it is below both.
less_than-min :
    (a b v : Version)
    → less_than v (if less_than b a then b else a) ≡ (less_than v a && less_than v b)
less_than-min a b v = elim (Bool-cases (less_than b a)) [
  | inl e ↦ rw e (elim (Bool-cases (less_than v b)) [
    | inl f ↦ let t = less_than_trans v b a f e in ground arith
    | inr f ↦ ground arith
  ])
  | inr e ↦ rw e (elim (Bool-cases (less_than v b)) [
    | inl f ↦ ground arith
    | inr f ↦ let t = not-less_than_trans v b a f e in ground arith
  ])
]

-- Lower bounds: `Intersect` keeps the larger.
below_lower :
    (r s : Range) (v : Version)
    → less_than v (tight_lower r s) ≡ (less_than v r.lower || less_than v s.lower)
unfolding tight_lower
below_lower r s v = rw (is_more-compare s.lower r.lower) (less_than-max r.lower s.lower v)

-- No version lies in a range whose lower bound is not below its upper one.
no_room : (l u v : Version) → less_than l u ≡ false → less_than v l ≡ false → less_than v u ≡ false
no_room l u v h k = not-less_than_trans v l u k h

-- Upper bounds: `Intersect` keeps the smaller, where there is one.
below_upper :
    (x y : Bool) (a b v : Version)
    → (x && y) ≡ false
    → less_than v (if x then b else if y then a else if is_less (compare b a) then b else a)
      ≡ ((x || less_than v a) && (y || less_than v b))
unfolding less_than
below_upper true true a b v h = ground arith
below_upper true false a b v h = refl
below_upper false true a b v h = ground arith
below_upper false false a b v h = less_than-min a b v

bounded :
    (x y : Bool) (l u v : Version) (raw : Bytes) (ra rb sa sb : Bool)
    → less_than v l ≡ (ra || sa)
    → less_than v u ≡ ((x || rb) && (y || sb))
    → (x && y) ≡ false
    → contains_some
        (if not (less_than l u)
          then none
          else some (record { lower = l; upper = u; unbounded = false; raw = raw }))
        v
      ≡ ((if ra then false else if x then true else rb)
          && (if sa then false else if y then true else sb))
unfolding contains
bounded x y l u v raw ra rb sa sb h k n = elim (Bool-cases (less_than l u)) [
  | inl e ↦ rw (e, h, k) (ground arith)
  | inr e ↦ let t = no_room l u v e in rw e (ground arith)
]

-- The last three branches of `Intersect`, with `x` and `y` for the ranges that have no upper bound.
intersect_of :
    (x y : Bool) (l u v : Version) (raw : Bytes) (ra rb sa sb : Bool)
    → less_than v l ≡ (ra || sa)
    → ((x && y) ≡ false → less_than v u ≡ ((x || rb) && (y || sb)))
    → contains_some
        (if (if x then y else false)
          then some (record { lower = l; upper = zero_version; unbounded = true; raw = raw })
          else if not (less_than l u)
          then none
          else some (record { lower = l; upper = u; unbounded = false; raw = raw }))
        v
      ≡ ((if ra then false else if x then true else rb)
          && (if sa then false else if y then true else sb))
unfolding contains
intersect_of true true l u v raw ra rb sa sb h k = rw h (ground arith)
intersect_of true false l u v raw ra rb sa sb h k =
    bounded true false l u v raw ra rb sa sb h (k refl) refl
intersect_of false y l u v raw ra rb sa sb h k =
    bounded false y l u v raw ra rb sa sb h (k refl) refl

-- A version is in the intersection of two ranges, where `Intersect` returns one, exactly when it is
-- in both, and where it returns false, no version is in both.
pub intersect_lem :
    (r s : Range) (v : Version) → contains_some (intersect r s) v ≡ (contains r v && contains s v)
unfolding intersect contains tight_lower tight_upper
intersect_lem r s v =
    intersect_of r.unbounded s.unbounded (tight_lower r s) (tight_upper r s) v _
      (less_than v r.lower) (less_than v r.upper) (less_than v s.lower) (less_than v s.upper)
      (below_lower r s v) (below_upper r.unbounded s.unbounded r.upper s.upper v)
