-- ===== src/Pkg/Parsed.antt =====
-- compiler/pkg/version.go: what parsing gives.
use mathlib.Core.Path.{subst}
use fuse.Prelude.{
  ℕ, ◌+◌, ◌-◌, ◌*◌, ◌^◌, ◌<◌, ◌≤◌, true, false, [], ◌∷◌, ◌++◌, Bytes, some, ◌≡◌, ◌↔◌, ◌⊎◌, refl,
  sym, ap, ◌∙◌, arith, inl, inr, All, All-append, All-map, List-cases,
}
use fuse.Prelude.Int.{pos}
use fuse.Prelude.Decimal.{
  decimal, IsDigit, number_from, number_from-digits_on, digits_on-IsDigit, digits_on-ne,
}
use fuse.Pkg.Version.{Version, contains, less_than, compare}
use fuse.Pkg.Parse.{
  version_text, split_at, parse_decimal, as_positive, atoi, parse_parts, parse_version, caret_range,
}

abbrev pub version : ℕ → ℕ → ℕ → Version
version a b c = record { major = pos a; minor = pos b; patch = pos c }

parse_decimal-number_from :
    (acc : ℕ) (xs : Bytes) → All IsDigit xs → parse_decimal acc xs ≡ some (number_from acc xs)
unfolding parse_decimal number_from
parse_decimal-number_from acc [] h = refl
parse_decimal-number_from acc (x ∷ xs) h =
    ground (arith, h, parse_decimal-number_from (acc * 10 + (x - 48)) xs h.1)

atoi_digits :
    (x : ℕ) (xs : Bytes)
    → All IsDigit (x ∷ xs)
    → atoi (x ∷ xs) ≡ as_positive (parse_decimal 0 (x ∷ xs))
unfolding atoi
atoi_digits x xs h = ground (arith, h)

split_at-digits :
    (xs r : Bytes) → All IsDigit xs → split_at b'.' (xs ++ (b'.' ∷ r)) ≡ xs ∷ split_at b'.' r
unfolding split_at
split_at-digits [] r h = refl
split_at-digits (x ∷ xs) r h = ground (arith, h, split_at-digits xs r h.1)

split_at-one : (xs : Bytes) → All IsDigit xs → split_at b'.' xs ≡ xs ∷ []
unfolding split_at
split_at-one [] h = refl
split_at-one (x ∷ xs) h = ground (arith, h, split_at-one xs h.1)

-- The components agree up to the first of `a` and `b` that is not zero, or all three.
abbrev pub IsCompatible : ℕ → ℕ → ℕ → ℕ → ℕ → ℕ → Type 0
IsCompatible a b c x y z = (x ≡ a) × ((0 < a) ⊎ ((y ≡ b) × ((0 < b) ⊎ (z ≡ c))))

-- The caret range of a version whose components are below 2^63 - 1 contains exactly the versions
-- that are not before it and have the same components up to the first that is not zero (major or
-- minor), or all three the same.
pub caret_range_lem :
    (a b c x y z : ℕ) (raw : Bytes)
    → a < 2 ^ 63 - 1
    → b < 2 ^ 63 - 1
    → c < 2 ^ 63 - 1
    → (contains (caret_range (version a b c) raw) (version x y z) ≡ true)
      ↔ ((less_than (version x y z) (version a b c) ≡ false) × IsCompatible a b c x y z)
unfolding contains less_than compare
caret_range_lem a b c x y z raw ha hb hc = (λ h. ground arith, λ h. ground arith)

-- The texts whose bytes are visible ASCII characters.
abbrev pub IsPlain : Bytes → Type 0
IsPlain s = All (λ c. (33 ≤ c) × (c ≤ 126)) s

-- `strings.TrimSpace` leaves alone a text without space.
abbrev pub IsTrim : (Bytes → Bytes) → Type 0
IsTrim trim = (s : Bytes) → IsPlain s → trim s ≡ s

atoi-decimal : (n : ℕ) → n < 2 ^ 63 → atoi (decimal n) ≡ some (pos n)
atoi-decimal n h = elim (List-cases (decimal n)) [
  | inl p ↦ absurd (digits_on-ne n n p)
  | inr (x, xs, p) ↦
      let w = subst (All IsDigit) p (digits_on-IsDigit n n) in
      let q = ap (number_from 0) (sym p) ∙ number_from-digits_on n n (omega arith) in
      let r = ap as_positive (parse_decimal-number_from 0 (x ∷ xs) w) in
      let last = subst (λ m. as_positive (some m) ≡ some (pos n)) (sym q) (ground (arith, h)) in
      ap atoi p ∙ atoi_digits x xs w ∙ r ∙ last
]

decimal-IsPlain : (n : ℕ) → IsPlain (decimal n)
decimal-IsPlain n =
    All-map IsDigit _ (decimal n) (λ c h. (omega (arith, h), omega (arith, h)))
      (digits_on-IsDigit n n)

with_dot : (xs ys : Bytes) → IsPlain xs → IsPlain ys → IsPlain (xs ++ (b'.' ∷ ys))
with_dot xs ys h k =
    All-append (λ c. (33 ≤ c) × (c ≤ 126)) xs (b'.' ∷ ys) h ((omega arith, omega arith), k)

version_text-IsPlain : (a b c : ℕ) → IsPlain (version_text (version a b c))
version_text-IsPlain a b c =
    with_dot (decimal a) _ (decimal-IsPlain a)
      (with_dot (decimal b) (decimal c) (decimal-IsPlain b) (decimal-IsPlain c))

three_parts :
    {a b c : ℕ}
    → atoi (decimal a) ≡ some (pos a)
    → atoi (decimal b) ≡ some (pos b)
    → atoi (decimal c) ≡ some (pos c)
    → parse_parts (decimal a ∷ decimal b ∷ decimal c ∷ []) ≡ some (version a b c)
three_parts {a} {b} {c} p q r = rw p (rw q (rw r refl))

-- The text of a version whose components are not negative is parsed to that version, if
-- TrimSpace leaves a text without space alone.
pub parse_version-version_text :
    (trim : Bytes → Bytes) (a b c : ℕ)
    → IsTrim trim
    → a < 2 ^ 63
    → b < 2 ^ 63
    → c < 2 ^ 63
    → parse_version trim (version_text (version a b c)) ≡ some (version a b c)
unfolding parse_version
parse_version-version_text trim a b c t ha hb hc =
    let text = decimal b ++ (b'.' ∷ decimal c) in
    let last = split_at-one (decimal c) (digits_on-IsDigit c c) in
    let rest = split_at-digits (decimal b) (decimal c) (digits_on-IsDigit b b) in
    let whole = split_at-digits (decimal a) text (digits_on-IsDigit a a) in
    let parts = whole ∙ ap (λ ps. decimal a ∷ ps) (rest ∙ ap (λ ps. decimal b ∷ ps) last) in
    ap (λ x. parse_parts (split_at b'.' x)) (t _ (version_text-IsPlain a b c))
    ∙ ap parse_parts parts
    ∙ three_parts (atoi-decimal a ha) (atoi-decimal b hb) (atoi-decimal c hc)
