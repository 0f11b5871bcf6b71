-- ===== src/Lex/Punct.antt =====
-- `scanPunct` of compiler/lex/scanner.go: operators and punctuation, the longest first.
use fuse.Prelude.{ℕ, ◌&&◌, ◌==◌, if◌then◌else◌, Option, none, some, Bytes}
use fuse.Lex.Token.{
  TokenKind, l_paren, r_paren, l_bracket, r_bracket, l_brace, r_brace, comma, semi, at, hash, tilde,
  colon_colon, colon, dot_dot_eq, dot_dot, dot, question_dot, question, arrow, minus_eq, minus,
  eq_eq, fat_arrow, eq, bang_eq, bang, shl_eq, shl, le, lt, shr_eq, shr, ge, gt, plus_eq, plus,
  star_eq, star, slash_eq, slash, percent_eq, percent, amp_amp, amp_eq, amp, pipe_pipe, pipe_eq,
  pipe, caret_eq, caret,
}
use fuse.Lex.Utf8.{decode_rune}
use fuse.Lex.Cursor.{pos, advance_bytes, advance_rune, peek_byte}
use fuse.Lex.Scanner.{Scanner, move, emit, report, unexpected_char}

-- A token's length in bytes and its kind.
pub record Punct : Type 0 where
  pub size : ℕ
  pub kind : TokenKind

abbrev punct : ℕ → TokenKind → Option Punct
punct n k = some (record { size = n; kind = k })

-- The first switch: what begins no longer token.
unfoldable pub single_punct : ℕ → Option Punct
single_punct b =
    if b == b'('
    then punct 1 l_paren
    else if b == b')'
    then punct 1 r_paren
    else if b == b'['
    then punct 1 l_bracket
    else if b == b']'
    then punct 1 r_bracket
    else if b == b'{'
    then punct 1 l_brace
    else if b == b'}'
    then punct 1 r_brace
    else if b == b','
    then punct 1 comma
    else if b == b';'
    then punct 1 semi
    else if b == b'@'
    then punct 1 at
    else if b == b'#'
    then punct 1 hash
    else if b == b'~'
    then punct 1 tilde
    else none

-- The second switch: the byte at hand and the next two.
unfoldable pub multi_punct : ℕ → ℕ → ℕ → Option Punct
multi_punct b b1 b2 =
    if b == b':'
    then (if b1 == b':' then punct 2 colon_colon else punct 1 colon)
    else if b == b'.'
    then (if b1 == b'.' && b2 == b'='
        then punct 3 dot_dot_eq
        else if b1 == b'.'
        then punct 2 dot_dot
        else punct 1 dot)
    else if b == b'?'
    then (if b1 == b'.' then punct 2 question_dot else punct 1 question)
    else if b == b'-'
    then (if b1 == b'>'
        then punct 2 arrow
        else if b1 == b'='
        then punct 2 minus_eq
        else punct 1 minus)
    else if b == b'='
    then (if b1 == b'='
        then punct 2 eq_eq
        else if b1 == b'>'
        then punct 2 fat_arrow
        else punct 1 eq)
    else if b == b'!'
    then (if b1 == b'=' then punct 2 bang_eq else punct 1 bang)
    else if b == b'<'
    then (if b1 == b'<' && b2 == b'='
        then punct 3 shl_eq
        else if b1 == b'<'
        then punct 2 shl
        else if b1 == b'='
        then punct 2 le
        else punct 1 lt)
    else if b == b'>'
    then (if b1 == b'>' && b2 == b'='
        then punct 3 shr_eq
        else if b1 == b'>'
        then punct 2 shr
        else if b1 == b'='
        then punct 2 ge
        else punct 1 gt)
    else if b == b'+'
    then (if b1 == b'=' then punct 2 plus_eq else punct 1 plus)
    else if b == b'*'
    then (if b1 == b'=' then punct 2 star_eq else punct 1 star)
    else if b == b'/'
    then (if b1 == b'=' then punct 2 slash_eq else punct 1 slash)
    else if b == b'%'
    then (if b1 == b'=' then punct 2 percent_eq else punct 1 percent)
    else if b == b'&'
    then (if b1 == b'&'
        then punct 2 amp_amp
        else if b1 == b'='
        then punct 2 amp_eq
        else punct 1 amp)
    else if b == b'|'
    then (if b1 == b'|'
        then punct 2 pipe_pipe
        else if b1 == b'='
        then punct 2 pipe_eq
        else punct 1 pipe)
    else if b == b'^'
    then (if b1 == b'=' then punct 2 caret_eq else punct 1 caret)
    else none

unfoldable pub punct_at : Bytes → Option Punct
unfolding single_punct multi_punct peek_byte
punct_at rest = elim (single_punct (peek_byte 0 rest)) [
  | none ↦ multi_punct (peek_byte 0 rest) (peek_byte 1 rest) (peek_byte 2 rest)
  | some p ↦ some p
]

-- `errInvalidRune`: the rune is skipped, and scanning goes on.
unfoldable pub err_invalid_rune : ℕ → Scanner → Scanner
err_invalid_rune r s = report (pos s.cur) (unexpected_char r) (move advance_rune s)

-- `single` and `multi`.
abbrev pub emit_punct : Punct → Scanner → Scanner
emit_punct p s = emit (pos s.cur) p.kind (move (advance_bytes p.size) s)

-- `scanPunct`.
unfoldable pub scan_punct : Scanner → Scanner
unfolding punct_at err_invalid_rune decode_rune
scan_punct s = elim (punct_at s.cur.rest) [
  | none ↦ err_invalid_rune (decode_rune s.cur.rest).value s
  | some p ↦ emit_punct p s
]
