-- ===== src/Lex/Scanner.antt =====
-- The state of `Scanner` in compiler/lex/scanner.go, its diagnostics and the trivia between tokens.
use fuse.Prelude.{
  ℕ, zero, suc, ◌-◌, Bool, true, false, ◌&&◌, ◌||◌, not, ◌==◌, if◌then◌else◌, List, [], ◌∷◌, ◌++◌,
  length, take, drop, Bytes,
}
use fuse.Lex.Token.{TokenKind, eof}
use fuse.Lex.Cursor.{
  Position, Cursor, pos, advance_byte, peek_byte, advance_while, at_byte, advance_bytes,
}

-- `Span`, without the file, which is the scanner's in every span.
pub record Span : Type 0 where
  pub start : Position
  pub end : Position

-- `Token`.
pub record Token : Type 0 where
  pub kind : TokenKind
  pub text : Bytes
  pub span : Span

-- What a diagnostic says: its message, with the values that the message and the hint show.
pub data Problem : Type 0 where
  byte_order_mark unterminated_comment malformed_raw unterminated_string bad_char : Problem
  unterminated_raw : ℕ → Problem
  unexpected_char : ℕ → Problem

-- `Diagnostic`.
pub record Diagnostic : Type 0 where
  pub span : Span
  pub problem : Problem

-- `Scanner`. The file name is left out: nothing but spans holds it.
pub record Scanner : Type 0 where
  pub src : Bytes
  pub cur : Cursor
  pub tokens : List Token
  pub errs : List Diagnostic
  pub stopped : Bool

-- `src[from:to]`.
abbrev pub slice : Bytes → ℕ → ℕ → Bytes
slice src from to = take (to - from) (drop from src)

abbrev pub move : (Cursor → Cursor) → Scanner → Scanner
move f s = record s { cur = f s.cur }

-- A token from `start` to the cursor, with the text between them.
abbrev pub emit : Position → TokenKind → Scanner → Scanner
emit start kind s = record s {
  tokens =
      s.tokens
      ++ record {
        kind = kind;
        text = slice s.src start.offset s.cur.off;
        span = record { start = start; end = pos s.cur };
      }
        ∷ [];
}

-- A diagnostic from `start` to the cursor.
abbrev pub report : Position → Problem → Scanner → Scanner
report start problem s = record s {
  errs =
      s.errs ++ record { span = record { start = start; end = pos s.cur }; problem = problem } ∷ [];
}

abbrev pub stop : Scanner → Scanner
stop s = record s { stopped = true }

-- `emitEOF`: the text is empty.
unfoldable pub emit_eof : Scanner → Scanner
emit_eof s = record s {
  tokens =
      s.tokens
      ++ record { kind = eof; text = []; span = record { start = pos s.cur; end = pos s.cur } }
        ∷ [];
}

starts_with_bom : Bytes → Bool
starts_with_bom (a ∷ b ∷ c ∷ _) = a == 0xef && (b == 0xbb && c == 0xbf)
starts_with_bom _ = false

-- `checkBOM`, whose result is `stopped` of the new state.
unfoldable pub check_bom : Scanner → Scanner
unfolding starts_with_bom advance_bytes
check_bom s =
    if starts_with_bom s.src
    then stop (report (pos s.cur) byte_order_mark (move (advance_bytes 3) s))
    else s

-- What stands at the cursor inside a block comment.
pub data Mark : Type 0 where
  at_end opens closes plain : Mark

unfoldable pub comment_mark : Bytes → Mark
unfolding peek_byte
comment_mark [] = at_end
comment_mark (b ∷ rest) =
    if b == b'/' && peek_byte 0 rest == b'*'
    then opens
    else if b == b'*' && peek_byte 0 rest == b'/'
    then closes
    else plain

-- The loop of `skipBlockComment`: the depth at which it ends, and where.
unfoldable pub block_loop : ℕ → ℕ → Cursor → ℕ × Cursor
unfolding comment_mark
block_loop zero depth c = (depth, c)
block_loop (suc fuel) zero c = (zero, c)
block_loop (suc fuel) (suc depth) c = elim (comment_mark c.rest) [
  | at_end ↦ (suc depth, c)
  | opens ↦ block_loop fuel (suc (suc depth)) (advance_byte (advance_byte c))
  | closes ↦ block_loop fuel depth (advance_byte (advance_byte c))
  | plain ↦ block_loop fuel (suc depth) (advance_byte c)
]

-- The end of `skipBlockComment`: a comment still open is reported, and stops the scanner.
abbrev pub close_block : Position → Scanner → ℕ → Scanner
close_block start s zero = s
close_block start s (suc depth) = stop (report start unterminated_comment s)

-- `skipBlockComment`.
unfoldable pub skip_block_comment : Scanner → Scanner
unfolding block_loop
skip_block_comment s =
    let inside = advance_bytes 2 s.cur in
    let (depth, c) = block_loop (length inside.rest) 1 inside in
    close_block (pos s.cur) (record s { cur = c }) depth

-- The loop over a `//` comment.
unfoldable pub skip_line_comment : Cursor → Cursor
unfolding advance_while
skip_line_comment c = advance_while (length c.rest) (at_byte (λ b. not (b == b'\n'))) advance_byte c

-- What `skipTrivia` finds at the cursor.
pub data Trivia : Type 0 where
  ends blank line_comment block_comment token : Trivia

unfoldable pub trivia_at : Bytes → Trivia
unfolding peek_byte
trivia_at [] = ends
trivia_at (b ∷ rest) =
    if b == b' ' || (b == b'\t' || (b == b'\n' || b == b'\r'))
    then blank
    else if b == b'/' && peek_byte 0 rest == b'/'
    then line_comment
    else if b == b'/' && peek_byte 0 rest == b'*'
    then block_comment
    else token

unfoldable pub trivia_step : (Scanner → Scanner) → Scanner → Trivia → Scanner
trivia_step next s ends = s
trivia_step next s blank = next (move advance_byte s)
trivia_step next s line_comment = next (move skip_line_comment s)
trivia_step next s block_comment = next (skip_block_comment s)
trivia_step next s token = s

-- `skipTrivia`.
unfoldable pub skip_trivia : ℕ → Scanner → Scanner
unfolding trivia_step trivia_at skip_line_comment skip_block_comment
skip_trivia zero s = s
skip_trivia (suc fuel) s = elim s.stopped [
  | true ↦ s
  | false ↦ trivia_step (skip_trivia fuel) s (trivia_at s.cur.rest)
]
