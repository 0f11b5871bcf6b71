-- ===== src/Pkg/Version.antt =====
-- `Version` and `Range` of compiler/pkg/version.go.
use fuse.Prelude.{
  Bool, true, false, not, if◌then◌else◌, List, [], ◌∷◌, ◌++◌, Option, none, some, Bytes, codes,
}
use fuse.Prelude.Int.{ℤ, pos, ltb_ℤ, eqb_ℤ}

-- `Version`. A component is an int64.
pub record Version : Type 0 where
  pub major : ℤ
  pub minor : ℤ
  pub patch : ℤ

-- The results -1, 0 and +1 of `Compare`.
pub data Sign : Type 0 where
  less same more : Sign

-- `Compare`.
unfoldable pub compare : Version → Version → Sign
compare v o =
    if not (eqb_ℤ v.major o.major)
    then (if ltb_ℤ v.major o.major then less else more)
    else if not (eqb_ℤ v.minor o.minor)
    then (if ltb_ℤ v.minor o.minor then less else more)
    else if not (eqb_ℤ v.patch o.patch)
    then (if ltb_ℤ v.patch o.patch then less else more)
    else same

abbrev pub is_less : Sign → Bool
is_less less = true
is_less _ = false

abbrev pub is_more : Sign → Bool
is_more more = true
is_more _ = false

-- `LessThan`.
unfoldable pub less_than : Version → Version → Bool
less_than v o = is_less (compare v o)

-- `Version{}`.
abbrev pub zero_version : Version
zero_version = record { major = pos 0; minor = pos 0; patch = pos 0 }

-- `Range`.
pub record Range : Type 0 where
  pub lower : Version
  pub upper : Version
  pub unbounded : Bool
  pub raw : Bytes

-- `Contains`.
unfoldable pub contains : Range → Version → Bool
contains r v =
    if less_than v r.lower then false else if r.unbounded then true else less_than v r.upper

-- The larger lower bound.
unfoldable pub tight_lower : Range → Range → Version
tight_lower r other = if is_more (compare other.lower r.lower) then other.lower else r.lower

-- The smaller upper bound, where there is one.
unfoldable pub tight_upper : Range → Range → Version
tight_upper r other =
    if r.unbounded
    then other.upper
    else if other.unbounded
    then r.upper
    else if is_less (compare other.upper r.upper)
    then other.upper
    else r.upper

-- `Intersect`: none where the Go code returns false.
unfoldable pub intersect : Range → Range → Option Range
unfolding tight_lower tight_upper
intersect r other =
    let raw = r.raw ++ (codes " & " ++ other.raw) in
    if (if r.unbounded then other.unbounded else false)
    then some
        (record { lower = tight_lower r other; upper = zero_version; unbounded = true; raw = raw })
    else if not (less_than (tight_lower r other) (tight_upper r other))
    then none
    else some (record {
      lower = tight_lower r other;
      upper = tight_upper r other;
      unbounded = false;
      raw = raw;
    })

-- The loop of `SelectLatest`, with the best version so far, if there is one.
unfoldable pub select_from : Range → Option Version → List Version → Option Version
select_from r best [] = best
select_from r best (c ∷ candidates) =
    select_from r
      (if not (contains r c)
        then best
        else elim best [ none ↦ some c | some b ↦ if less_than b c then some c else some b ])
      candidates

-- `SelectLatest`.
abbrev pub select_latest : Range → List Version → Option Version
select_latest r candidates = select_from r none candidates
