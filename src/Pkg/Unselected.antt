-- ===== src/Pkg/Unselected.antt =====
-- How many of finitely many names have no version yet in a walk of compiler/pkg/resolver.go.
use fuse.Prelude.{
  ℕ, ◌+◌, ◌<◌, ◌≤◌, Option, none, some, List, [], ◌∷◌, Bytes, length, ◌≡◌, refl, arith,
}
use mathlib.Core.Path.{subst}
use mathlib.Core.List.{Memᴰ}
use mathlib.Core.List.Memᴰ.{head, tail}
use fuse.Prelude.Maps.{lookup}
use fuse.Pkg.Version.{Version}
use fuse.Pkg.Resolver.{State}
use fuse.Pkg.Grown.{Keeps}

abbrev one_if_none : Option Version → ℕ
one_if_none none = 1
one_if_none (some v) = 0

-- The names that have no version yet.
abbrev pub unselected : List Bytes → State → ℕ
unselected [] st = 0
unselected (n ∷ ns) st = one_if_none (lookup n st.selected) + unselected ns st

one_if_none_le :
    (s t : Option Version)
    → ((v : Version) → s ≡ some v → t ≡ some v)
    → one_if_none t ≤ one_if_none s
one_if_none_le none none k = omega arith
one_if_none_le none (some v) k = omega arith
one_if_none_le (some v) t k = rw (k v refl) (omega arith)

pub unselected_le :
    (names : List Bytes) (s t : State) → Keeps s t → unselected names t ≤ unselected names s
unselected_le [] s t k = omega arith
unselected_le (n ∷ ns) s t k = omega (
  arith,
  one_if_none_le (lookup n s.selected) (lookup n t.selected) (k n),
  unselected_le ns s t k,
)

pub unselected_lt :
    (names : List Bytes) (s t : State) (name : Bytes) (v : Version)
    → Keeps s t
    → lookup name s.selected ≡ none
    → lookup name t.selected ≡ some v
    → Memᴰ name names
    → unselected names t < unselected names s
unselected_lt [] s t name v k f g m = elim m [ ]
unselected_lt (n ∷ ns) s t name v k f g (head e) =
    let a = subst (λ x. lookup x s.selected ≡ none) e f in
    let b = subst (λ x. lookup x t.selected ≡ some v) e g in
    rw (a, b) (omega (arith, unselected_le ns s t k))
unselected_lt (n ∷ ns) s t name v k f g (tail m) = omega (
  arith,
  one_if_none_le (lookup n s.selected) (lookup n t.selected) (k n),
  unselected_lt ns s t name v k f g m,
)

pub unselected-length : (names : List Bytes) (st : State) → unselected names st ≤ length names
unselected-length [] st = omega arith
unselected-length (n ∷ ns) st =
    omega (arith, one_at_most (lookup n st.selected), unselected-length ns st)
  where
    one_at_most : (o : Option Version) → one_if_none o ≤ 1
    one_at_most none = omega arith
    one_at_most (some v) = omega arith
