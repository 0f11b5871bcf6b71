-- ===== src/Lex/Cursor.antt =====
-- The position of the scanner of compiler/lex/scanner.go, and the loops that move it.
-- A cursor keeps `src[off:]` beside `off`, so `s.src[s.off]` is the head of `rest` and
-- `s.off < len(s.src)` says that `rest` is not empty.
use fuse.Prelude.{
  ℕ, zero, suc, ◌+◌, Bool, true, false, ◌&&◌, leb, ◌==◌, if◌then◌else◌, [], ◌∷◌, drop, Bytes,
}
use fuse.Lex.Utf8.{Rune, rune_error, decode_rune}

-- `Position`.
pub record Position : Type 0 where
  pub offset : ℕ
  pub line : ℕ
  pub column : ℕ

-- `off`, `line` and `col` of `Scanner`, with what is left of the source.
pub record Cursor : Type 0 where
  pub rest : Bytes
  pub off : ℕ
  pub line : ℕ
  pub col : ℕ

-- `pos`.
abbrev pub pos : Cursor → Position
pos c = record { offset = c.off; line = c.line; column = c.col }

-- A line ends at offset `off`.
abbrev pub new_line : Bytes → ℕ → Cursor → Cursor
new_line rest off c = record { rest = rest; off = off; line = c.line + 1; col = 1 }

-- Behind a CR of width `w`: the next byte, if it is an LF, belongs to the same line end.
unfoldable pub carriage_return : ℕ → Bytes → Cursor → Cursor
carriage_return w [] c = new_line [] (c.off + w) c
carriage_return w (b ∷ rest) c =
    if b == b'\n' then new_line rest (c.off + w + 1) c else new_line (b ∷ rest) (c.off + w) c

advance_over : Bytes → Cursor → Cursor
advance_over [] c = c
advance_over (b ∷ rest) c =
    if b == b'\n'
    then new_line rest (c.off + 1) c
    else if b == b'\r'
    then carriage_return 1 rest c
    else record { rest = rest; off = c.off + 1; line = c.line; col = c.col + 1 }

-- `advanceByte`.
unfoldable pub advance_byte : Cursor → Cursor
unfolding advance_over carriage_return
advance_byte c = advance_over c.rest c

unfoldable pub advance_decoded : Rune → Cursor → Cursor
unfolding advance_byte carriage_return
advance_decoded r c =
    if r.value == rune_error && leb r.width 1
    then advance_byte c
    else if r.value == b'\n'
    then new_line (drop r.width c.rest) (c.off + r.width) c
    else if r.value == b'\r'
    then carriage_return r.width (drop r.width c.rest) c
    else record {
      rest = drop r.width c.rest;
      off = c.off + r.width;
      line = c.line;
      col = c.col + r.width;
    }

unfoldable pub advance_rune_over : Bytes → Cursor → Cursor
unfolding advance_decoded decode_rune
advance_rune_over [] c = c
advance_rune_over _ c = advance_decoded (decode_rune c.rest) c

-- `advanceRune`, whose results every caller discards.
unfoldable pub advance_rune : Cursor → Cursor
unfolding advance_rune_over
advance_rune c = advance_rune_over c.rest c

-- `peekByte`: 0 past the end.
unfoldable pub peek_byte : ℕ → Bytes → ℕ
peek_byte k [] = 0
peek_byte zero (b ∷ rest) = b
peek_byte (suc k) (b ∷ rest) = peek_byte k rest

-- The loop `for off < len(src) && test { move }` on fuel; the test is false at the end of the source.
unfoldable pub advance_while : ℕ → (Bytes → Bool) → (Cursor → Cursor) → Cursor → Cursor
advance_while zero test move c = c
advance_while (suc fuel) test move c = elim (test c.rest) [
  | true ↦ advance_while fuel test move (move c)
  | false ↦ c
]

-- A test of the byte at hand, false at the end.
abbrev pub at_byte : (ℕ → Bool) → Bytes → Bool
at_byte p [] = false
at_byte p (b ∷ _) = p b

-- `for i := 0; i < n; i++ { s.advanceByte() }`.
unfoldable pub advance_bytes : ℕ → Cursor → Cursor
advance_bytes zero c = c
advance_bytes (suc n) c = advance_bytes n (advance_byte c)
