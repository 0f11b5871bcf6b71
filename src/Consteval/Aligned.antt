-- ===== src/Consteval/Aligned.antt =====
-- compiler/consteval/intrinsic.go: sizes and alignments fit together.

use mathlib.Core.Path.{subst}
use fuse.Prelude.{
  ℕ, ◌+◌, ◌%◌, ltb, if◌then◌else◌, true, false, List, [], ◌∷◌, if◌then◌else◌, All, ◌≡◌, refl, sym,
  ap, ◌∙◌, inl,
}
use fuse.Consteval.Words.{wrap}
use fuse.Consteval.Padding.{IsAlignment, align_up_divides, wider-IsAlignment}
use fuse.Consteval.Decls.{VariantDecl, variant_types}
use fuse.Consteval.Layout.{
  Laid, laid, refused, too_deep, lay, align_up, wider, grow_struct, walk, widest_align, padded,
  tagged, variant_layout, walk_variants, widest_variant,
}

-- Whether a result is one that a predicate holds of, or an error, and not too deep.
abbrev pub Settles : {A : Type 0} → (A → Type 0) → Laid A → Type 0
Settles P (laid x) = P x
Settles P (refused e) = Unit
Settles P too_deep = ⊥

module _ {A : Type 0} where
  pub lay-Settles :
      {B : Type 0} (P : A → Type 0) (Q : B → Type 0) (r : Laid A) (f : A → Laid B)
      → Settles P r
      → ((x : A) → P x → Settles Q (f x))
      → Settles Q (lay r f)
  lay-Settles P Q (laid x) f h k = k x h
  lay-Settles P Q (refused e) f h k = tt
  lay-Settles P Q too_deep f h k = elim h [ ]

  pub Settles-map :
      (P Q : A → Type 0) (r : Laid A) → Settles P r → ((x : A) → P x → Q x) → Settles Q r
  Settles-map P Q (laid x) h k = k x h
  Settles-map P Q (refused e) h k = tt
  Settles-map P Q too_deep h k = elim h [ ]

  -- The result itself may be named.
  pub with_result :
      (P : A → Type 0) (r : Laid A) → Settles P r → Settles (λ x. P x × (r ≡ laid x)) r
  with_result P (laid x) h = (h, refl)
  with_result P (refused e) h = tt
  with_result P too_deep h = elim h [ ]

-- The alignment is one of four, and divides the size.
abbrev pub Agree : Laid ℕ → Laid ℕ → Type 0
Agree size align = Settles IsAlignment align × Settles (λ s. Settles (λ a. s % a ≡ 0) align) size

module _ (size_of align_of : ℕ → Laid ℕ) where
  abbrev pub Fits : ℕ → Type 0
  Fits t = Agree (size_of t) (align_of t)

  widest_align-Settles :
      (ts : List ℕ) (m : ℕ)
      → All Fits ts
      → IsAlignment m
      → Settles IsAlignment (widest_align size_of align_of ts m)
  unfolding widest_align
  widest_align-Settles [] m h i = i
  widest_align-Settles (t ∷ ts) m h i =
      lay-Settles IsAlignment IsAlignment (align_of t)
        (λ a. widest_align size_of align_of ts (wider m a)) h.0.0
        (λ a k. widest_align-Settles ts (wider m a) h.1 (wider-IsAlignment m a i k))

  -- The two loops agree on the alignment.
  abbrev Walked : List ℕ → ℕ → ℕ × ℕ → Type 0
  Walked ts m p = IsAlignment p.1 × (widest_align size_of align_of ts m ≡ laid p.1)

  walk-Settles :
      (grow : ℕ → ℕ → ℕ → ℕ) (ts : List ℕ) (n m : ℕ)
      → All Fits ts
      → IsAlignment m
      → Settles (Walked ts m) (walk size_of align_of grow ts n m)
  unfolding walk widest_align
  walk-Settles grow [] n m h i = (i, refl)
  walk-Settles grow (t ∷ ts) n m h i =
      lay-Settles (λ s. Unit) (Walked (t ∷ ts) m) (size_of t)
        (λ s. lay (align_of t) (λ a. walk size_of align_of grow ts (grow n s a) (wider m a)))
        (Settles-map (λ s. Settles (λ a. s % a ≡ 0) (align_of t)) (λ s. Unit) (size_of t) h.0.1
          (λ s k. tt))
        (λ s k.
          lay-Settles (λ a. IsAlignment a × (align_of t ≡ laid a)) (Walked (t ∷ ts) m) (align_of t)
            (λ a. walk size_of align_of grow ts (grow n s a) (wider m a))
            (with_result IsAlignment (align_of t) h.0.0)
            (λ a l.
              Settles-map (Walked ts (wider m a)) (Walked (t ∷ ts) m)
                (walk size_of align_of grow ts (grow n s a) (wider m a))
                (walk-Settles grow ts (grow n s a) (wider m a) h.1 (wider-IsAlignment m a i l.0))
                (λ p w. (
                  w.0,
                  ap (λ r. lay r (λ b. widest_align size_of align_of ts (wider m b))) l.1 ∙ w.1,
                ))))

  pub fields-Agree :
      (grow : ℕ → ℕ → ℕ → ℕ) (ts : List ℕ)
      → All Fits ts
      → Agree (padded (walk size_of align_of grow ts 0 1)) (widest_align size_of align_of ts 1)
  fields-Agree grow ts h = (
    widest_align-Settles ts 1 h (inl refl),
    lay-Settles (Walked ts 1) (λ s. Settles (λ a. s % a ≡ 0) (widest_align size_of align_of ts 1))
        (walk size_of align_of grow ts 0 1) (λ p. laid (align_up p.0 p.1))
        (walk-Settles grow ts 0 1 h (inl refl))
        (λ p w.
          subst (λ r. Settles (λ a. align_up p.0 p.1 % a ≡ 0) r) (sym w.1)
            (align_up_divides p.0 p.1 w.0)),
  )

  variant_layout-Settles :
      (v : VariantDecl)
      → All Fits (variant_types v)
      → Settles (λ (q : ℕ × ℕ). IsAlignment q.1) (variant_layout size_of align_of v)
  variant_layout-Settles v h =
      elim v.is_unit
        as (λ c.
          Settles (λ (q : ℕ × ℕ). IsAlignment q.1)
            (if c
              then laid (0, 1)
              else lay (walk size_of align_of grow_struct (variant_types v) 0 1)
                  (λ p. laid (align_up p.0 p.1, p.1)))) [
                    | true ↦ inl refl
                    | false ↦
                        lay-Settles (Walked (variant_types v) 1) (λ (q : ℕ × ℕ). IsAlignment q.1)
                          (walk size_of align_of grow_struct (variant_types v) 0 1)
                          (λ p. laid (align_up p.0 p.1, p.1))
                          (walk-Settles grow_struct (variant_types v) 0 1 h (inl refl)) (λ p w. w.0)
                  ]

  abbrev AllFit : List VariantDecl → Type 0
  AllFit vs = All (λ v. All Fits (variant_types v)) vs

  widest_variant-Settles :
      (vs : List VariantDecl) (m : ℕ)
      → AllFit vs
      → IsAlignment m
      → Settles IsAlignment (widest_variant size_of align_of vs m)
  unfolding widest_variant
  widest_variant-Settles [] m h i = i
  widest_variant-Settles (v ∷ vs) m h i =
      lay-Settles (λ (q : ℕ × ℕ). IsAlignment q.1) IsAlignment (variant_layout size_of align_of v)
        (λ q. widest_variant size_of align_of vs (wider m q.1)) (variant_layout-Settles v h.0)
        (λ q k. widest_variant-Settles vs (wider m q.1) h.1 (wider-IsAlignment m q.1 i k))

  abbrev Chosen : List VariantDecl → ℕ → ℕ × ℕ → Type 0
  Chosen vs m p = IsAlignment p.1 × (widest_variant size_of align_of vs m ≡ laid p.1)

  walk_variants-Settles :
      (vs : List VariantDecl) (n m : ℕ)
      → AllFit vs
      → IsAlignment m
      → Settles (Chosen vs m) (walk_variants size_of align_of vs n m)
  unfolding walk_variants widest_variant
  walk_variants-Settles [] n m h i = (i, refl)
  walk_variants-Settles (v ∷ vs) n m h i =
      lay-Settles (λ (q : ℕ × ℕ). IsAlignment q.1 × (variant_layout size_of align_of v ≡ laid q))
        (Chosen (v ∷ vs) m) (variant_layout size_of align_of v)
        (λ q. walk_variants size_of align_of vs (wider n q.0) (wider m q.1))
        (with_result (λ (q : ℕ × ℕ). IsAlignment q.1) (variant_layout size_of align_of v)
          (variant_layout-Settles v h.0))
        (λ q k.
          Settles-map (Chosen vs (wider m q.1)) (Chosen (v ∷ vs) m)
            (walk_variants size_of align_of vs (wider n q.0) (wider m q.1))
            (walk_variants-Settles vs (wider n q.0) (wider m q.1) h.1
              (wider-IsAlignment m q.1 i k.0))
            (λ p w. (
              w.0,
              ap (λ r. lay r (λ b. widest_variant size_of align_of vs (wider m b.1))) k.1 ∙ w.1,
            )))

  pub variants-Agree :
      (vs : List VariantDecl)
      → AllFit vs
      → Agree
          (lay (walk_variants size_of align_of vs 0 1) (λ p. laid (tagged p.0 p.1)))
          (widest_variant size_of align_of vs 1)
  variants-Agree vs h = (
    widest_variant-Settles vs 1 h (inl refl),
    lay-Settles (Chosen vs 1) (λ s. Settles (λ a. s % a ≡ 0) (widest_variant size_of align_of vs 1))
        (walk_variants size_of align_of vs 0 1) (λ p. laid (tagged p.0 p.1))
        (walk_variants-Settles vs 0 1 h (inl refl))
        (λ p w.
          subst (λ r. Settles (λ a. tagged p.0 p.1 % a ≡ 0) r) (sym w.1)
            (align_up_divides
              (if ltb (wrap (align_up 1 p.1 + p.0)) 1 then 1 else wrap (align_up 1 p.1 + p.0)) p.1
              w.0)),
  )
