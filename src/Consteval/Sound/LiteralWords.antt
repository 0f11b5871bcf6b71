-- ===== src/Consteval/Sound/LiteralWords.antt =====
-- compiler/consteval/eval.go: a literal gives a word of 64 bits.

use fuse.Prelude.{
  ℕ, ◌^◌, ◌<◌, ◌==◌, Bool, true, false, [], ◌∷◌, Bytes, length, take, drop, leb, ◌&&◌, ◌-◌,
  if◌then◌else◌, Option, none, some, arith,
}
use fuse.Consteval.Literals.{
  parse_integer_literal, parse_char_literal, parse_digits, parse_prefixed, parse_uint, parse_clean,
  negated_word, add_digit, digit_of, char_body, lower, is_quote, strip_int_suffix,
  without_underscores,
}

-- A number that a literal may give.
abbrev pub IsWord : Option ℕ → Type 0
IsWord none = Unit
IsWord (some n) = n < 2 ^ 64

add_digit-IsWord : (base acc : ℕ) (d : Option ℕ) → IsWord (add_digit base acc d)
add_digit-IsWord base acc none = tt
add_digit-IsWord base acc (some d) = ground arith

parse_digits-IsWord :
    (base : ℕ) (o : Option ℕ) (s : Bytes) → IsWord o → IsWord (parse_digits base o s)
unfolding parse_digits
parse_digits-IsWord base none s h = tt
parse_digits-IsWord base (some n) [] h = h
parse_digits-IsWord base (some n) (c ∷ cs) h =
    parse_digits-IsWord base (add_digit base n (digit_of c)) cs
      (add_digit-IsWord base n (digit_of c))

from_zero : (base : ℕ) (s : Bytes) → IsWord (parse_digits base (some 0) s)
from_zero base s = parse_digits-IsWord base (some 0) s (omega arith)

chosen-IsWord : (b : Bool) (o p : Option ℕ) → IsWord o → IsWord p → IsWord (if b then o else p)
chosen-IsWord true o p h k = h
chosen-IsWord false o p h k = k

prefixed-IsWord : (c d : ℕ) (cs : Bytes) → IsWord (parse_prefixed (c ∷ d ∷ cs))
prefixed-IsWord c d cs =
    let whole = from_zero 8 (c ∷ d ∷ cs) in
    let hex = chosen-IsWord (lower c == b'x') _ _ (from_zero 16 (d ∷ cs)) whole in
    let octal = chosen-IsWord (lower c == b'o') _ _ (from_zero 8 (d ∷ cs)) hex in
    chosen-IsWord (lower c == b'b') _ _ (from_zero 2 (d ∷ cs)) octal

parse_prefixed-IsWord : (s : Bytes) → IsWord (parse_prefixed s)
parse_prefixed-IsWord [] = omega arith
parse_prefixed-IsWord (c ∷ []) = from_zero 8 (c ∷ [])
parse_prefixed-IsWord (c ∷ d ∷ cs) = prefixed-IsWord c d cs

parse_uint-IsWord : (s : Bytes) → IsWord (parse_uint s)
parse_uint-IsWord [] = tt
parse_uint-IsWord (c ∷ cs) =
    chosen-IsWord (c == b'0') _ _ (parse_prefixed-IsWord cs) (from_zero 10 (c ∷ cs))

negated_word-IsWord : (o : Option ℕ) → IsWord (negated_word o)
negated_word-IsWord none = tt
negated_word-IsWord (some n) = ground arith

parse_clean-IsWord : (s : Bytes) → IsWord (parse_clean s)
parse_clean-IsWord [] = tt
parse_clean-IsWord (c ∷ cs) =
    chosen-IsWord (c == b'-') _ _ (negated_word-IsWord (parse_uint cs)) (parse_uint-IsWord (c ∷ cs))

pub parse_integer_literal-IsWord : (s : Bytes) → IsWord (parse_integer_literal s)
unfolding parse_integer_literal
parse_integer_literal-IsWord s = parse_clean-IsWord (strip_int_suffix (without_underscores s))

-- A number that a character literal may give.
abbrev pub IsByte : Option ℕ → Type 0
IsByte none = Unit
IsByte (some n) = n < 2 ^ 8

char_body-IsByte : (s : Bytes) → IsByte (char_body s)
char_body-IsByte [] = tt
char_body-IsByte (c ∷ []) = omega arith
char_body-IsByte (c ∷ d ∷ cs) = ground arith

chosen-IsByte : (b : Bool) (o : Option ℕ) → IsByte o → IsByte (if b then o else none)
chosen-IsByte true o h = h
chosen-IsByte false o h = tt

pub parse_char_literal-IsByte : (s : Bytes) → IsByte (parse_char_literal s)
unfolding parse_char_literal
parse_char_literal-IsByte s =
    let n = length s in
    let b = leb 3 n && (is_quote (take 1 s) && is_quote (drop (n - 1) s)) in
    chosen-IsByte b _ (char_body-IsByte (drop 1 (take (n - 1) s)))
