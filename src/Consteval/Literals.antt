-- ===== src/Consteval/Literals.antt =====
-- compiler/consteval/eval.go: the values of integer and character literals.
use fuse.Prelude.{
  ℕ, ◌+◌, ◌-◌, ◌*◌, ◌%◌, ◌^◌, ltb, leb, ◌==◌, Bool, false, ◌&&◌, List, [], ◌∷◌, Bytes, codes, equal,
  length, take, drop, if◌then◌else◌, Option, none, some,
}

-- `strings.ReplaceAll(text, "_", "")`.
abbrev pub without_underscores : Bytes → Bytes
without_underscores [] = []
without_underscores (c ∷ cs) =
    if c == b'_' then without_underscores cs else c ∷ without_underscores cs

-- `strings.HasSuffix`.
abbrev pub has_suffix : Bytes → Bytes → Bool
has_suffix s suffix =
    leb (length suffix) (length s) && equal (drop (length s - length suffix) s) suffix

abbrev pub suffixes : List Bytes
suffixes =
    codes "isize"
    ∷ codes "usize"
    ∷ codes "i8"
    ∷ codes "i16"
    ∷ codes "i32"
    ∷ codes "i64"
    ∷ codes "u8"
    ∷ codes "u16"
    ∷ codes "u32"
    ∷ codes "u64"
    ∷ codes "f32"
    ∷ codes "f64"
    ∷ []

-- `stripIntSuffix`: the first suffix of the list that the text has.
abbrev pub strip_first : List Bytes → Bytes → Bytes
strip_first [] s = s
strip_first (x ∷ xs) s = if has_suffix s x then take (length s - length x) s else strip_first xs s

abbrev pub strip_int_suffix : Bytes → Bytes
strip_int_suffix s = strip_first suffixes s

-- `strconv.ParseUint(s, 0, 64)`: the base is that of the prefix.
abbrev pub lower : ℕ → ℕ
lower c = if leb b'A' c && leb c b'Z' then c + 32 else c

abbrev pub digit_of : ℕ → Option ℕ
digit_of c =
    if leb b'0' c && leb c b'9'
    then some (c - b'0')
    else if leb b'a' (lower c) && leb (lower c) b'z'
    then some (lower c - b'a' + 10)
    else none

abbrev pub add_digit : ℕ → ℕ → Option ℕ → Option ℕ
add_digit base acc none = none
add_digit base acc (some d) =
    if ltb d base && ltb (acc * base + d) (2 ^ 64) then some (acc * base + d) else none

unfoldable pub parse_digits : ℕ → Option ℕ → Bytes → Option ℕ
parse_digits base none s = none
parse_digits base (some acc) [] = some acc
parse_digits base (some acc) (c ∷ cs) = parse_digits base (add_digit base acc (digit_of c)) cs

-- The digits after a zero.
abbrev pub parse_prefixed : Bytes → Option ℕ
parse_prefixed [] = some 0
parse_prefixed (c ∷ []) = parse_digits 8 (some 0) (c ∷ [])
parse_prefixed (c ∷ d ∷ cs) =
    if lower c == b'b'
    then parse_digits 2 (some 0) (d ∷ cs)
    else if lower c == b'o'
    then parse_digits 8 (some 0) (d ∷ cs)
    else if lower c == b'x'
    then parse_digits 16 (some 0) (d ∷ cs)
    else parse_digits 8 (some 0) (c ∷ d ∷ cs)

abbrev pub parse_uint : Bytes → Option ℕ
parse_uint [] = none
parse_uint (c ∷ cs) = if c == b'0' then parse_prefixed cs else parse_digits 10 (some 0) (c ∷ cs)

-- `strconv.ParseInt` of a text behind a minus sign, as a uint64.
abbrev pub negated_word : Option ℕ → Option ℕ
negated_word none = none
negated_word (some n) =
    if n == 0 then some 0 else if leb n (2 ^ 63) then some (2 ^ 64 - n) else none

abbrev pub parse_clean : Bytes → Option ℕ
parse_clean [] = parse_uint []
parse_clean (c ∷ cs) = if c == b'-' then negated_word (parse_uint cs) else parse_uint (c ∷ cs)

-- `parseIntegerLiteral`: nothing where it returns an error.
unfoldable pub parse_integer_literal : Bytes → Option ℕ
parse_integer_literal text = parse_clean (strip_int_suffix (without_underscores text))

abbrev pub escape : ℕ → Option ℕ
escape c =
    if c == b'n'
    then some 10
    else if c == b't'
    then some 9
    else if c == b'r'
    then some 13
    else if c == b'\\'
    then some 92
    else if c == b'\''
    then some 39
    else if c == b'"'
    then some 34
    else if c == b'0'
    then some 0
    else none

-- An element of a string is a byte.
abbrev pub char_body : Bytes → Option ℕ
char_body [] = none
char_body (c ∷ []) = some (c % 256)
char_body (c ∷ d ∷ cs) = if c == b'\\' then escape d else none

abbrev pub is_quote : Bytes → Bool
is_quote (c ∷ []) = c == b'\''
is_quote _ = false

-- `parseCharLiteral`: nothing where it returns an error.
unfoldable pub parse_char_literal : Bytes → Option ℕ
parse_char_literal text =
    let n = length text in
    if leb 3 n && (is_quote (take 1 text) && is_quote (drop (n - 1) text))
    then char_body (drop 1 (take (n - 1) text))
    else none
