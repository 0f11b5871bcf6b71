-- ===== src/Lex/Literals.antt =====
-- Identifiers, keywords and literals of compiler/lex/scanner.go.
use fuse.Prelude.{
  ℕ, zero, suc, Bool, true, false, ◌&&◌, ◌||◌, not, ◌==◌, if◌then◌else◌, Option, none, some, [],
  ◌∷◌, length, Bytes,
}
use fuse.Lex.Token.{TokenKind, int, float, string, raw_string, c_string, char, ident, is_keyword}
use fuse.Lex.Utf8.{
  Unicode, is_ident_start, is_ident_continue, is_dec_digit, is_hex_digit, is_oct_digit,
  is_bin_digit, decode_rune,
}
use fuse.Lex.Cursor.{
  Position, Cursor, pos, advance_byte, advance_rune, peek_byte, advance_while, at_byte,
  advance_bytes,
}
use fuse.Lex.Scanner.{
  Scanner, slice, move, emit, report, stop, malformed_raw, unterminated_string, bad_char,
  unterminated_raw,
}

-- `hashesMatchAt`, on the bytes from the index on.
unfoldable pub hashes_match : ℕ → Bytes → Bool
hashes_match zero rest = true
hashes_match (suc n) [] = false
hashes_match (suc n) (b ∷ rest) = b == b'#' && hashes_match n rest

-- The `"` and the hashes that close a raw string.
unfoldable pub closes_raw : ℕ → Bytes → Bool
unfolding hashes_match
closes_raw n [] = false
closes_raw n (b ∷ rest) = b == b'"' && hashes_match n rest

-- `isRawStringOpener` behind its `r`: hashes, then a quote.
raw_opener_tail : Bytes → Bool
raw_opener_tail [] = false
raw_opener_tail (b ∷ rest) = if b == b'#' then raw_opener_tail rest else b == b'"'

unfoldable pub is_raw_string_opener : Bytes → Bool
unfolding raw_opener_tail
is_raw_string_opener [] = false
is_raw_string_opener (b ∷ rest) = b == b'r' && raw_opener_tail rest

-- A byte of a raw string's body: not the end, and no closer.
unfoldable pub in_raw : ℕ → Bytes → Bool
unfolding closes_raw
in_raw n [] = false
in_raw n (b ∷ rest) = not (closes_raw n (b ∷ rest))

-- The number of hashes that an opening run has.
unfoldable pub count_hashes : Bytes → ℕ
count_hashes [] = 0
count_hashes (b ∷ rest) = let more = count_hashes rest in if b == b'#' then suc more else 0

unfoldable pub close_raw : Position → ℕ → Scanner → Bytes → Scanner
close_raw start n s [] = stop (report start (unterminated_raw n) s)
close_raw start n s (b ∷ rest) = emit start raw_string (move (advance_bytes (suc n)) s)

-- The loop of `scanRawString`, behind the opening quote.
unfoldable pub raw_body : Position → ℕ → Scanner → Scanner
raw_body start n s =
    let t = move (λ c. advance_while (length c.rest) (in_raw n) advance_byte c) s in
    close_raw start n t t.cur.rest

-- `scanRawString`: the `r`, the hashes, the quote, the body.
unfoldable pub scan_raw_string : Scanner → Scanner
unfolding raw_body close_raw in_raw count_hashes
scan_raw_string s =
    let c = advance_byte s.cur in
    let n = count_hashes c.rest in
    let t = record s { cur = advance_bytes n c } in
    if at_byte (λ b. b == b'"') t.cur.rest
    then raw_body (pos s.cur) n (move advance_byte t)
    else stop (report (pos s.cur) malformed_raw t)

-- One round of the loop of `consumeStringBody`. At the end `advance_byte` does nothing, which is
-- the guard behind the backslash.
unfoldable pub string_move : Cursor → Cursor
string_move c =
    if at_byte (λ b. b == b'\\') c.rest then advance_byte (advance_byte c) else advance_byte c

unfoldable pub close_string : Position → TokenKind → Scanner → Bytes → Scanner
close_string start kind s [] = stop (report start unterminated_string s)
close_string start kind s (b ∷ rest) = emit start kind (move advance_byte s)

-- `consumeStringBody`.
unfoldable pub consume_string_body : Position → TokenKind → Scanner → Scanner
unfolding close_string string_move
consume_string_body start kind s =
    let t =
      move (λ c. advance_while (length c.rest) (at_byte (λ b. not (b == b'"'))) string_move c) s in
    close_string start kind t t.cur.rest

-- `scanString`.
unfoldable pub scan_string : Scanner → Scanner
unfolding consume_string_body
scan_string s = consume_string_body (pos s.cur) string (move advance_byte s)

-- `scanCString`.
unfoldable pub scan_c_string : Scanner → Scanner
unfolding consume_string_body
scan_c_string s = consume_string_body (pos s.cur) c_string (move (advance_bytes 2) s)

-- An identifier goes on with the rune at hand.
unfoldable pub ident_goes_on : Unicode → Bytes → Bool
unfolding is_ident_continue decode_rune
ident_goes_on u [] = false
ident_goes_on u (b ∷ rest) = is_ident_continue u (decode_rune (b ∷ rest)).value

-- The loop over the runes of an identifier.
unfoldable pub consume_ident : Unicode → Cursor → Cursor
unfolding ident_goes_on advance_while advance_rune
consume_ident u c = advance_while (length c.rest) (ident_goes_on u) advance_rune c

-- A word that is not reserved is an identifier.
unfoldable pub word_kind : Bytes → TokenKind
unfolding is_keyword
word_kind text = elim (is_keyword text) [ none ↦ ident | some kind ↦ kind ]

unfoldable pub emit_word : Position → Scanner → Scanner
unfolding word_kind
emit_word start s = emit start (word_kind (slice s.src start.offset s.cur.off)) s

-- `scanIdentOrKeyword`.
unfoldable pub scan_ident_or_keyword : Unicode → Scanner → Scanner
unfolding emit_word scan_raw_string scan_c_string consume_ident is_raw_string_opener
scan_ident_or_keyword u s =
    if is_raw_string_opener s.cur.rest
    then scan_raw_string s
    else if at_byte (λ b. b == b'c') s.cur.rest && peek_byte 1 s.cur.rest == b'"'
    then scan_c_string s
    else emit_word (pos s.cur) (move (consume_ident u) s)

-- `charError`.
abbrev char_error : Position → Scanner → Scanner
char_error start s = stop (report start bad_char s)

-- `\u{…}` through the closing brace.
unfoldable pub unicode_escape : Cursor → Cursor
unicode_escape c = advance_byte (
    let inside = advance_byte c in
    advance_while (length inside.rest) (at_byte (λ b. not (b == b'}'))) advance_byte inside)

-- Behind the backslash, which is not at the end: the escape letter and what it takes along.
unfoldable pub escape_letter : ℕ → Cursor → Cursor
escape_letter esc c =
    let after = advance_byte c in
    if esc == b'u' && at_byte (λ b. b == b'{') after.rest then unicode_escape after else after

-- The closing quote.
unfoldable pub close_char : Position → Scanner → Bytes → Scanner
close_char start s [] = char_error start s
close_char start s (b ∷ rest) =
    if b == b'\'' then emit start char (move advance_byte s) else char_error start s

unfoldable pub escaped_char : Position → Scanner → Bytes → Scanner
escaped_char start s [] = char_error start s
escaped_char start s (esc ∷ _) = let t = move (escape_letter esc) s in close_char start t t.cur.rest

-- Behind the opening quote.
unfoldable pub char_body : Position → Scanner → Bytes → Scanner
char_body start s [] = char_error start s
char_body start s (b ∷ _) =
    let t = move advance_byte s in
    let v = move advance_rune s in
    if b == b'\\' then escaped_char start t t.cur.rest else close_char start v v.cur.rest

-- `scanChar`.
unfoldable pub scan_char : Scanner → Scanner
unfolding char_body escaped_char close_char escape_letter unicode_escape
scan_char s = let t = move advance_byte s in char_body (pos s.cur) t t.cur.rest

-- `consumeDigitRun`.
unfoldable pub consume_digit_run : (ℕ → Bool) → Cursor → Cursor
unfolding advance_while is_dec_digit is_hex_digit is_oct_digit is_bin_digit
consume_digit_run valid c =
    advance_while (length c.rest) (at_byte (λ b. b == b'_' || valid b)) advance_byte c

-- A suffix begins with the rune at hand.
unfoldable pub suffix_starts : Unicode → Bytes → Bool
suffix_starts u [] = false
suffix_starts u (b ∷ rest) = is_ident_start u (decode_rune (b ∷ rest)).value

-- `consumeSuffix`.
unfoldable pub consume_suffix : Unicode → Cursor → Cursor
unfolding suffix_starts is_ident_start consume_ident
consume_suffix u c = if suffix_starts u c.rest then consume_ident u c else c

-- The digits of the base that follows a leading `0`.
base_digits : ℕ → Option (ℕ → Bool)
base_digits b =
    if b == b'x' || b == b'X'
    then some is_hex_digit
    else if b == b'o' || b == b'O'
    then some is_oct_digit
    else if b == b'b' || b == b'B'
    then some is_bin_digit
    else none

unfoldable pub number_base : Bytes → Option (ℕ → Bool)
unfolding base_digits
number_base (a ∷ b ∷ _) = if a == b'0' then base_digits b else none
number_base _ = none

-- A `.` and the digits behind it, if a digit follows it.
unfoldable pub has_fraction : Bytes → Bool
has_fraction rest = at_byte (λ b. b == b'.') rest && is_dec_digit (peek_byte 1 rest)

unfoldable pub fraction : Cursor → Cursor
fraction c = if has_fraction c.rest then consume_digit_run is_dec_digit (advance_byte c) else c

unfoldable pub has_exponent : Bytes → Bool
has_exponent rest = at_byte (λ b. b == b'e' || b == b'E') rest

unfoldable pub sign : Cursor → Cursor
sign c = if at_byte (λ b. b == b'+' || b == b'-') c.rest then advance_byte c else c

unfoldable pub exponent : Cursor → Cursor
exponent c =
    if has_exponent c.rest then consume_digit_run is_dec_digit (sign (advance_byte c)) else c

unfoldable pub decimal : Unicode → Scanner → Scanner
decimal u s =
    let whole = consume_digit_run is_dec_digit s.cur in
    let mantissa = fraction whole in
    emit (pos s.cur) (if has_fraction whole.rest || has_exponent mantissa.rest then float else int)
      (record s { cur = consume_suffix u (exponent mantissa) })

unfoldable pub based : Unicode → Scanner → Option (ℕ → Bool) → Scanner
based u s none = decimal u s
based u s (some valid) =
    emit (pos s.cur) int
      (move (λ c. consume_suffix u (consume_digit_run valid (advance_bytes 2 c))) s)

-- `scanNumber`; its last step, `emitNumber`, is `emit`.
unfoldable pub scan_number : Unicode → Scanner → Scanner
unfolding based decimal number_base base_digits fraction exponent sign has_fraction has_exponent
    consume_digit_run consume_suffix
scan_number u s = based u s (number_base s.cur.rest)
