-- ===== src/Pkg/Parse.antt =====
-- compiler/pkg/version.go: the texts of versions and ranges.
use fuse.Prelude.{
  ℕ, zero, suc, ◌+◌, ◌-◌, ◌*◌, ◌^◌, ltb, leb, ◌==◌, Bool, true, false, ◌&&◌, ◌||◌, List, [], ◌∷◌,
  ◌++◌, Bytes, codes, if◌then◌else◌, Option, none, some, equal,
}
use fuse.Prelude.Int.{ℤ, pos, negsuc, is_negative, eqb_ℤ}
use fuse.Prelude.Decimal.{decimal}
use fuse.Pkg.Version.{Version, Range, zero_version}

-- `%d` of an int.
abbrev pub int_text : ℤ → Bytes
int_text (pos n) = decimal n
int_text (negsuc n) = b'-' ∷ decimal (suc n)

-- `String` of `Version`.
abbrev pub version_text : Version → Bytes
version_text v = int_text v.major ++ (b'.' ∷ (int_text v.minor ++ (b'.' ∷ int_text v.patch)))

-- `strings.Split` at a byte.
abbrev pub onto_first : ℕ → List Bytes → List Bytes
onto_first c [] = (c ∷ []) ∷ []
onto_first c (p ∷ ps) = (c ∷ p) ∷ ps

unfoldable pub split_at : ℕ → Bytes → List Bytes
split_at d [] = [] ∷ []
split_at d (c ∷ cs) = if c == d then [] ∷ split_at d cs else onto_first c (split_at d cs)

-- `strconv.Atoi`: nothing where it returns an error.
unfoldable pub parse_decimal : ℕ → Bytes → Option ℕ
parse_decimal acc [] = some acc
parse_decimal acc (c ∷ cs) =
    if leb b'0' c && leb c b'9' then parse_decimal (acc * 10 + (c - b'0')) cs else none

abbrev pub parse_nonempty : Bytes → Option ℕ
parse_nonempty [] = none
parse_nonempty (c ∷ cs) = parse_decimal 0 (c ∷ cs)

abbrev pub as_positive : Option ℕ → Option ℤ
as_positive none = none
as_positive (some n) = if ltb n (2 ^ 63) then some (pos n) else none

abbrev pub negative : ℕ → ℤ
negative zero = pos 0
negative (suc n) = negsuc n

abbrev pub as_negative : Option ℕ → Option ℤ
as_negative none = none
as_negative (some n) = if leb n (2 ^ 63) then some (negative n) else none

unfoldable pub atoi : Bytes → Option ℤ
atoi [] = none
atoi (c ∷ cs) =
    if c == b'-'
    then as_negative (parse_nonempty cs)
    else if c == b'+'
    then as_positive (parse_nonempty cs)
    else as_positive (parse_decimal 0 (c ∷ cs))

abbrev pub non_negative : Option Version → Option Version
non_negative none = none
non_negative (some v) =
    if is_negative v.major || (is_negative v.minor || is_negative v.patch) then none else some v

abbrev pub version_of : Option ℤ → Option ℤ → Option ℤ → Option Version
version_of (some a) (some b) (some c) = some (record { major = a; minor = b; patch = c })
version_of _ _ _ = none

-- The parts of a version, with zeros for those that are not there.
abbrev pub parse_parts : List Bytes → Option Version
parse_parts (a ∷ []) = non_negative (version_of (atoi a) (some (pos 0)) (some (pos 0)))
parse_parts (a ∷ b ∷ []) = non_negative (version_of (atoi a) (atoi b) (some (pos 0)))
parse_parts (a ∷ b ∷ c ∷ []) = non_negative (version_of (atoi a) (atoi b) (atoi c))
parse_parts _ = none

-- An int that is one more wraps around.
abbrev pub next_int : ℤ → ℤ
next_int (pos n) = if n == 2 ^ 63 - 1 then negsuc (2 ^ 63 - 1) else pos (suc n)
next_int (negsuc zero) = pos 0
next_int (negsuc (suc n)) = negsuc n

abbrev pub patch_after : Version → Version
patch_after v = record v { patch = next_int v.patch }

abbrev pub minor_after : Version → Version
minor_after v = record zero_version { major = v.major; minor = next_int v.minor }

abbrev pub bounded : Version → Version → Bytes → Range
bounded lower upper raw = record { lower = lower; upper = upper; unbounded = false; raw = raw }

-- The upper bound of `^`.
abbrev pub caret_upper : Version → Version
caret_upper v =
    if eqb_ℤ v.major (pos 0)
    then (if eqb_ℤ v.minor (pos 0)
        then record zero_version { patch = next_int v.patch }
        else record zero_version { minor = next_int v.minor })
    else record zero_version { major = next_int v.major }

abbrev pub caret_range : Version → Bytes → Range
caret_range v raw = bounded v (caret_upper v) raw

abbrev pub tilde_range : Version → Bytes → Range
tilde_range v raw = bounded v (minor_after v) raw

abbrev pub exact_range : Version → Bytes → Range
exact_range v raw = bounded v (patch_after v) raw

abbrev pub option_map {ℓ κ} : {A : Type ℓ} {B : Type κ} → (A → B) → Option A → Option B
option_map f none = none
option_map f (some a) = some (f a)

-- `strings.HasPrefix` and what follows the prefix.
abbrev pub after_prefix : Bytes → Bytes → Option Bytes
after_prefix [] s = some s
after_prefix (p ∷ ps) [] = none
after_prefix (p ∷ ps) (c ∷ cs) = if c == p then after_prefix ps cs else none

-- A byte of a text, as `strings.Contains` finds it.
abbrev pub has_byte : ℕ → Bytes → Bool
has_byte d [] = false
has_byte d (c ∷ cs) = if c == d then true else has_byte d cs

abbrev pub is_compound : Bytes → Bool
is_compound [] = false
is_compound (c ∷ cs) = has_byte b',' (c ∷ cs) || ((c == b'>') || ((c == b'<') || (c == b'=')))

-- `strings.TrimSpace` is a parameter.
module _ (trim : Bytes → Bytes) where
  -- `ParseVersion`: nothing where it returns an error.
  unfoldable pub parse_version : Bytes → Option Version
  parse_version s = parse_parts (split_at b'.' (trim s))

  -- A clause of `parseCompoundRange`. Whether there was a lower bound makes no difference: the
  -- range begins at the zero version.
  abbrev pub with_lower : Range → Version → Range
  with_lower r v = record r { lower = v }

  abbrev pub with_upper : Range → Version → Range
  with_upper r v = record r { upper = v; unbounded = false }

  abbrev pub with_exact : Range → Version → Range
  with_exact r v = record r { lower = v; upper = patch_after v; unbounded = false }

  abbrev pub equals_clause : Range → Option Bytes → Option Range
  equals_clause r none = none
  equals_clause r (some text) = option_map (λ v. with_exact r v) (parse_version text)

  abbrev pub less_clause : Range → Bytes → Option Bytes → Option Range
  less_clause r c none = equals_clause r (after_prefix (codes "=") c)
  less_clause r c (some text) = option_map (λ v. with_upper r v) (parse_version text)

  abbrev pub at_least_clause : Range → Bytes → Option Bytes → Option Range
  at_least_clause r c none = less_clause r c (after_prefix (codes "<") c)
  at_least_clause r c (some text) = option_map (λ v. with_lower r v) (parse_version text)

  abbrev pub add_clause : Range → Bytes → Option Range
  add_clause r c = at_least_clause r c (after_prefix (codes ">=") c)

  unfoldable pub add_clauses : Option Range → List Bytes → Option Range
  add_clauses none cs = none
  add_clauses (some r) [] = some r
  add_clauses (some r) (c ∷ cs) = add_clauses (add_clause r (trim c)) cs

  -- `parseCompoundRange`.
  unfoldable pub parse_compound_range : Bytes → Option Range
  parse_compound_range s =
      add_clauses
        (some (record { lower = zero_version; upper = zero_version; unbounded = true; raw = s }))
        (split_at b',' s)

  -- `ParseRange` of a text without spaces at its ends; `spec` is the text as it was given.
  abbrev pub range_of : Bytes → Bytes → Option Range
  range_of spec [] = none
  range_of spec (c ∷ cs) =
      if equal (c ∷ cs) (codes "*")
      then some
          (record { lower = zero_version; upper = zero_version; unbounded = true; raw = spec })
      else if c == b'^'
      then option_map (λ v. caret_range v spec) (parse_version cs)
      else if c == b'~'
      then option_map (λ v. tilde_range v spec) (parse_version cs)
      else if is_compound (c ∷ cs)
      then parse_compound_range (c ∷ cs)
      else option_map (λ v. exact_range v spec) (parse_version (c ∷ cs))

  -- `ParseRange`: nothing where it returns an error.
  unfoldable pub parse_range : Bytes → Option Range
  parse_range spec = range_of spec (trim spec)
