-- ===== src/Pkg/Order.antt =====
-- The order of versions of compiler/pkg/version.go.
use fuse.Prelude.{true, false, Bool-cases, ◌≡◌, inl, inr, sym, arith}
use fuse.Prelude.Int.{ℤ, ltb_ℤ, eqb_ℤ, eqb_ℤ→eq, ◌<ℤ◌}
use fuse.Pkg.Version.{Version, Sign, less, same, more, compare}

-- Lexicographic order: the first component that differs decides.
pub data Before (v o : Version) : Type 0 where
  by_major : v.major <ℤ o.major → Before v o
  by_minor : v.major ≡ o.major → v.minor <ℤ o.minor → Before v o
  by_patch : v.major ≡ o.major → v.minor ≡ o.minor → v.patch <ℤ o.patch → Before v o

version-eq : (v o : Version) → v.major ≡ o.major → v.minor ≡ o.minor → v.patch ≡ o.patch → v ≡ o
version-eq v o p q r = λ i. record { major = p i; minor = q i; patch = r i }

-- What each result of `Compare` says.
abbrev pub Means : Version → Version → Sign → Type 0
Means v o less = Before v o
Means v o same = v ≡ o
Means v o more = Before o v

lt_of_tests : (a b : ℤ) → eqb_ℤ a b ≡ false → ltb_ℤ a b ≡ false → b <ℤ a
lt_of_tests a b h k = ground arith

lt_of_test : (a b : ℤ) → ltb_ℤ a b ≡ true → a <ℤ b
lt_of_test a b k = ground arith

-- `Compare` decides the lexicographic order of the components: on each of its results.
pub compare-Means : (v o : Version) → Means v o (compare v o)
unfolding compare
compare-Means v o = elim (Bool-cases (eqb_ℤ v.major o.major)) [
  | inr e ↦ elim (Bool-cases (ltb_ℤ v.major o.major)) [
    | inl f ↦ rw (e, f) (by_major (lt_of_test v.major o.major f))
    | inr f ↦ rw (e, f) (by_major (lt_of_tests v.major o.major e f))
  ]
  | inl e ↦ elim (Bool-cases (eqb_ℤ v.minor o.minor)) [
    | inr g ↦ elim (Bool-cases (ltb_ℤ v.minor o.minor)) [
      | inl f ↦ rw (e, g, f) (by_minor (eqb_ℤ→eq v.major o.major e) (lt_of_test v.minor o.minor f))
      | inr f ↦
          rw (e, g, f)
            (by_minor (sym (eqb_ℤ→eq v.major o.major e)) (lt_of_tests v.minor o.minor g f))
    ]
    | inl g ↦ elim (Bool-cases (eqb_ℤ v.patch o.patch)) [
      | inr h ↦ elim (Bool-cases (ltb_ℤ v.patch o.patch)) [
        | inl f ↦
            rw (e, g, h, f)
              (by_patch (eqb_ℤ→eq v.major o.major e) (eqb_ℤ→eq v.minor o.minor g)
                (lt_of_test v.patch o.patch f))
        | inr f ↦
            rw (e, g, h, f)
              (by_patch (sym (eqb_ℤ→eq v.major o.major e)) (sym (eqb_ℤ→eq v.minor o.minor g))
                (lt_of_tests v.patch o.patch h f))
      ]
      | inl h ↦
          rw (e, g, h)
            (version-eq v o (eqb_ℤ→eq v.major o.major e) (eqb_ℤ→eq v.minor o.minor g)
              (eqb_ℤ→eq v.patch o.patch h))
    ]
  ]
]
