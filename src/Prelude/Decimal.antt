-- ===== src/Prelude/Decimal.antt =====
-- Decimal numbers: `%d` of Go's fmt on numbers that are not negative, and the number of a text.
use Prim.Native.Nat.{ℕ, zero, suc, ◌+◌, ◌-◌, ◌*◌, ◌/◌, ◌%◌, ◌≤◌, ◌<◌}
use mathlib.Core.Path.{◌≡◌, refl, ◌∙◌, ap, subst}
use mathlib.Core.Bool.{true, false}
use mathlib.Core.List.{[], ◌∷◌, ◌++◌}
use mathlib.Core.Logic.{◌≢◌, ◌⊎◌, inl, inr}
use native.Mathlib.Omega.{arith}
use fuse.Prelude.Tests.{ltb, Bool-cases}
use fuse.Prelude.Lists.{Bytes, All, All-append, List-cases}

-- At most `f + 1` digits.
unfoldable pub digits_on : ℕ → ℕ → Bytes
digits_on zero n = (48 + n % 10) ∷ []
digits_on (suc f) n = elim (ltb n 10) [
  | true ↦ (48 + n) ∷ []
  | false ↦ digits_on f (n / 10) ++ ((48 + n % 10) ∷ [])
]

abbrev pub decimal : ℕ → Bytes
decimal n = digits_on n n

abbrev pub IsDigit : ℕ → Type 0
IsDigit c = (48 ≤ c) × (c ≤ 57)

unfoldable pub number_from : ℕ → Bytes → ℕ
number_from acc [] = acc
number_from acc (c ∷ cs) = number_from (acc * 10 + (c - 48)) cs

number_from-append :
    (acc : ℕ) (xs ys : Bytes) → number_from acc (xs ++ ys) ≡ number_from (number_from acc xs) ys
unfolding number_from
number_from-append acc [] ys = refl
number_from-append acc (x ∷ xs) ys = number_from-append (acc * 10 + (x - 48)) xs ys

pub number_from-digits_on : (f n : ℕ) → n ≤ f → number_from 0 (digits_on f n) ≡ n
unfolding number_from digits_on
number_from-digits_on zero n h = omega arith
number_from-digits_on (suc f) n h = elim (Bool-cases (ltb n 10)) [
  | inl e ↦ ground arith
  | inr e ↦
      rw (e, digits_on)
        (number_from-append 0 (digits_on f (n / 10)) ((48 + n % 10) ∷ [])
          ∙ ground (arith, number_from-digits_on f (n / 10)))
]

pub digits_on-IsDigit : (f n : ℕ) → All IsDigit (digits_on f n)
unfolding digits_on
digits_on-IsDigit zero n = (omega arith, tt)
digits_on-IsDigit (suc f) n = elim (Bool-cases (ltb n 10)) [
  | inl e ↦ ground arith
  | inr e ↦
      rw (e, digits_on)
        (All-append IsDigit (digits_on f (n / 10)) _ (digits_on-IsDigit f (n / 10))
          (omega arith, tt))
]

-- A number and what follows it are read back from a text, where no digit follows.
pub digits_split :
    (xs ys : Bytes) (c d : ℕ) (r s : Bytes)
    → All IsDigit xs
    → All IsDigit ys
    → (c < 48) ⊎ (57 < c)
    → (d < 48) ⊎ (57 < d)
    → xs ++ (c ∷ r) ≡ ys ++ (d ∷ s)
    → (xs ≡ ys) × (c ∷ r ≡ d ∷ s)
digits_split [] [] c d r s hx hy hc hd e = (refl, e)
digits_split [] (y ∷ ys) c d r s hx hy hc hd e = ground arith
digits_split (x ∷ xs) [] c d r s hx hy hc hd e = ground arith
digits_split (x ∷ xs) (y ∷ ys) c d r s hx hy hc hd e = ground (arith, digits_split xs ys c d r s)

-- A text that begins with something else than a digit.
abbrev pub IsEnded : Bytes → Type 0
IsEnded [] = 1 ≤ 0
IsEnded (c ∷ r) = (c < 48) ⊎ (57 < c)

pub decimal_split :
    (m n : ℕ) (r s : Bytes)
    → IsEnded r
    → IsEnded s
    → decimal m ++ r ≡ decimal n ++ s
    → (m ≡ n) × (r ≡ s)
decimal_split m n [] s hr hs e = absurd (omega arith)
decimal_split m n (c ∷ r) [] hr hs e = absurd (omega arith)
decimal_split m n (c ∷ r) (d ∷ s) hr hs e =
    let hm = digits_on-IsDigit m m in
    let hn = digits_on-IsDigit n n in
    let p = digits_split (decimal m) (decimal n) c d r s hm hn hr hs e in
    let q = ap (number_from 0) p.0 in
    let rm = number_from-digits_on m m (omega arith) in
    let rn = number_from-digits_on n n (omega arith) in (omega (arith, q, rm, rn), p.1)

append-one_ne : (xs : Bytes) (c : ℕ) → xs ++ (c ∷ []) ≢ []
append-one_ne [] c h = ground arith
append-one_ne (x ∷ xs) c h = ground arith

pub digits_on-ne : (f n : ℕ) → digits_on f n ≢ []
unfolding digits_on
digits_on-ne zero n h = ground arith
digits_on-ne (suc f) n h = elim (Bool-cases (ltb n 10)) [
  | inl e ↦ absurd (ground arith)
  | inr e ↦ absurd (append-one_ne (digits_on f (n / 10)) (48 + n % 10) (rw (e, digits_on) at h))
]

-- A number begins with a digit.
pub decimal_begins : (n : ℕ) (c : ℕ) (r s : Bytes) → IsEnded (c ∷ s) → decimal n ++ r ≢ c ∷ s
decimal_begins n c r s h e = elim (List-cases (decimal n)) [
  | inl p ↦ absurd (digits_on-ne n n p)
  | inr (y, ys, p) ↦
      let d = subst (All IsDigit) p (digits_on-IsDigit n n) in
      let q = subst (λ x. x ++ r ≡ c ∷ s) p e in absurd (ground arith)
]
