-- ===== src/Pkg/Select.antt =====
-- `SelectLatest` of compiler/pkg/version.go against what it is for.
use fuse.Prelude.{
  true, false, Bool-cases, not, if◌then◌else◌, Option, none, some, List, [], ◌∷◌, ◌≡◌, inl, inr,
  arith, All, All-Mem,
}
use mathlib.Core.List.{Memᴰ}
use fuse.Pkg.Version.{Version, Range, less_than, contains, select_from, select_latest}
use fuse.Pkg.LessThan.{less_than_trans, less_than_irrefl}

-- What the choice `best` says of a version it was made with.
abbrev pub Tops : Range → Option Version → Version → Type 0
Tops r none c = contains r c ≡ false
Tops r (some b) c = contains r c ≡ true → less_than b c ≡ false

-- The choice is in the range, and `P` holds of it.
abbrev pub Within : (Version → Type 0) → Range → Option Version → Type 0
Within P r none = Unit
Within P r (some b) = (contains r b ≡ true) × P b

-- What the loop keeps after a candidate.
abbrev keep : Range → Version → Option Version → Option Version
keep r c best =
    if not (contains r c)
    then best
    else elim best [ none ↦ some c | some b ↦ if less_than b c then some c else some b ]

not-above : (b c d : Version) → less_than b c ≡ true → less_than b d ≡ false → less_than c d ≡ false
not-above b c d f h = elim (Bool-cases (less_than c d)) [
  | inl g ↦ let t = less_than_trans b c d f g in ground arith
  | inr g ↦ g
]

-- The new choice is no worse than the old one, and no worse than the candidate.
keep-Tops :
    (r : Range) (c : Version) (best : Option Version)
    → Tops r (keep r c best) c × ((d : Version) → Tops r best d → Tops r (keep r c best) d)
keep-Tops r c none = elim (Bool-cases (contains r c)) [
  | inl e ↦ rw e ((λ h. less_than_irrefl c), λ d h k. ground arith)
  | inr e ↦ rw e (e, λ d h. h)
]
keep-Tops r c (some b) = elim (Bool-cases (contains r c)) [
  | inr e ↦ rw e ((λ h. ground arith), λ d h. h)
  | inl e ↦ elim (Bool-cases (less_than b c)) [
    | inl f ↦ rw (e, f) ((λ h. less_than_irrefl c), λ d h k. not-above b c d f (h k))
    | inr f ↦ rw (e, f) ((λ h. f), λ d h. h)
  ]
]

select_from-Tops :
    (r : Range) (best : Option Version) (cs : List Version)
    → ((d : Version) → Tops r best d → Tops r (select_from r best cs) d)
      × All (Tops r (select_from r best cs)) cs
unfolding select_from
select_from-Tops r best [] = ((λ d h. h), tt)
select_from-Tops r best (c ∷ cs) =
    let k = keep-Tops r c best in
    let rest = select_from-Tops r (keep r c best) cs in
    ((λ d h. rest.0 d (k.1 d h)), (rest.0 c k.0, rest.1))

keep-Within :
    (P : Version → Type 0) (r : Range) (c : Version) (best : Option Version)
    → P c
    → Within P r best
    → Within P r (keep r c best)
keep-Within P r c none p h = elim (Bool-cases (contains r c)) [
  | inl e ↦ rw e (e, p)
  | inr e ↦ rw e tt
]
keep-Within P r c (some b) p h = elim (Bool-cases (contains r c)) [
  | inr e ↦ rw e h
  | inl e ↦ elim (Bool-cases (less_than b c)) [ inl f ↦ rw (e, f) (e, p) | inr f ↦ rw (e, f) h ]
]

select_from-Within :
    (P : Version → Type 0) (r : Range) (best : Option Version) (cs : List Version)
    → All P cs
    → Within P r best
    → Within P r (select_from r best cs)
unfolding select_from
select_from-Within P r best [] ps h = h
select_from-Within P r best (c ∷ cs) ps h =
    select_from-Within P r (keep r c best) cs ps.1 (keep-Within P r c best ps.0 h)

-- `SelectLatest` returns a candidate that is in the range and has no candidate of the range above
-- it, and returns no version only where no candidate is in the range.
pub select_latest-Tops :
    (r : Range) (cs : List Version)
    → Within (λ v. Memᴰ v cs) r (select_latest r cs) × All (Tops r (select_latest r cs)) cs
select_latest-Tops r cs =
    (select_from-Within (λ v. Memᴰ v cs) r none cs (All-Mem cs) tt, (select_from-Tops r none cs).1)
