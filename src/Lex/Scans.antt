-- ===== src/Lex/Scans.antt =====
-- One call of `scanOne` of compiler/lex/scanner.go, as a relation between scanner states.
pub mod Words
pub mod Numbers
pub mod One
use fuse.Prelude.{
  ℕ, zero, suc, ◌+◌, ◌≤◌, ◌<◌, Bool, true, false, Bool-cases, ◌==◌, ◌&&◌, ◌||◌, not, leb, ltb,
  if◌then◌else◌, Option, none, some, List, [], ◌∷◌, length, Bytes, ◌≡◌, refl, sym, ◌≢◌, List-cases,
  inl, inr, arith,
}
use fuse.Lex.Token.{TokenKind, int, string, c_string, char, raw_string}
use fuse.Lex.Utf8.{Unicode, is_ident_start, is_ident_continue, is_dec_digit, decode_rune}
use fuse.Lex.Cursor.{Cursor, pos, advance_byte, advance_rune, advance_while, at_byte, advance_bytes}
use fuse.Lex.Scanner.{
  Scanner, Problem, unterminated_string, unterminated_raw, malformed_raw, bad_char, unexpected_char,
  emit, report, slice,
}
use fuse.Lex.Literals.{
  close_raw, raw_body, in_raw, scan_raw_string, count_hashes, string_move, close_string,
  consume_string_body, scan_string, scan_c_string, ident_goes_on, consume_ident, emit_word,
  word_kind, scan_ident_or_keyword, is_raw_string_opener, unicode_escape, escape_letter, close_char,
  escaped_char, char_body, scan_char, consume_digit_run, suffix_starts, consume_suffix, number_base,
  has_fraction, fraction, has_exponent, sign, exponent, decimal, based, scan_number,
}
use fuse.Lex.Punct.{Punct, punct_at, single_punct, multi_punct, err_invalid_rune, scan_punct}
use fuse.Lex.Run.{scan_byte, scan_over, scan_one}
use fuse.Lex.Moves.{
  Moves, Advances, Moves-refl, Moves-trans, Advances-Moves, Moves-Advances, advance_byte-Moves,
  advance_byte-Advances, advance_rune-Moves, advance_rune-Advances, advance_bytes-Moves,
  advance_bytes-Advances, advance_while-Moves, advance_while-Advances,
}

-- From a state to the next one: the cursor advances, and the bytes that it goes over become one
-- token, or one diagnostic, which may stop the scanner.
pub data Scans (s : Scanner) : Scanner → Type 0 where
  token :
      {t : Scanner} (c : Cursor) (kind : TokenKind)
      → Advances s.cur c
      → t ≡ emit (pos s.cur) kind (record s { cur = c })
      → Scans s t
  problem :
      {t : Scanner} (c : Cursor) (p : Problem) (halts : Bool)
      → Advances s.cur c
      → t ≡ record (report (pos s.cur) p (record s { cur = c })) { stopped = halts }
      → Scans s t

module _ (s : Scanner) where
  pub Scans-if :
      (b : Bool) {x y : Scanner}
      → (b ≡ true → Scans s x)
      → (b ≡ false → Scans s y)
      → Scans s (if b then x else y)
  Scans-if true h k = h refl
  Scans-if false h k = k refl

  close_string-Scans :
      (kind : TokenKind) (c : Cursor) (rest : Bytes)
      → Advances s.cur c
      → Scans s (close_string (pos s.cur) kind (record s { cur = c }) rest)
  unfolding close_string
  close_string-Scans kind c [] a = problem c unterminated_string true a refl
  close_string-Scans kind c (b ∷ rest) a =
      token (advance_byte c) kind (Advances-Moves a (advance_byte-Moves c)) refl

  string_move-Moves : (c : Cursor) → Moves c (string_move c)
  unfolding string_move
  string_move-Moves c = elim (Bool-cases (at_byte (λ b. b == b'\\') c.rest)) [
    | inl e ↦ rw e (Moves-trans (advance_byte-Moves c) (advance_byte-Moves (advance_byte c)))
    | inr e ↦ rw e (advance_byte-Moves c)
  ]

  consume_string_body-Scans :
      (kind : TokenKind) (c : Cursor)
      → Advances s.cur c
      → Scans s (consume_string_body (pos s.cur) kind (record s { cur = c }))
  unfolding consume_string_body
  consume_string_body-Scans kind c a =
      close_string-Scans kind _ _
        (Advances-Moves a (advance_while-Moves _ string_move string_move-Moves (length c.rest) c))

  close_raw-Scans :
      (n : ℕ) (c : Cursor) (rest : Bytes)
      → Advances s.cur c
      → Scans s (close_raw (pos s.cur) n (record s { cur = c }) rest)
  unfolding close_raw
  close_raw-Scans n c [] a = problem c (unterminated_raw n) true a refl
  close_raw-Scans n c (b ∷ rest) a =
      token (advance_bytes (suc n) c) raw_string (Advances-Moves a (advance_bytes-Moves (suc n) c))
        refl

  raw_body-Scans :
      (n : ℕ) (c : Cursor)
      → Advances s.cur c
      → Scans s (raw_body (pos s.cur) n (record s { cur = c }))
  unfolding raw_body
  raw_body-Scans n c a =
      close_raw-Scans n _ _
        (Advances-Moves a (advance_while-Moves _ advance_byte advance_byte-Moves (length c.rest) c))

  pub scan_raw_string-Scans : s.cur.rest ≢ [] → Scans s (scan_raw_string s)
  unfolding scan_raw_string
  scan_raw_string-Scans h =
      let c = advance_byte s.cur in
      let n = count_hashes c.rest in
      let a = Advances-Moves (advance_byte-Advances s.cur h) (advance_bytes-Moves n c) in
      Scans-if _
        (λ _. raw_body-Scans n _ (Advances-Moves a (advance_byte-Moves (advance_bytes n c))))
        (λ _. problem _ malformed_raw true a refl)

  pub scan_string-Scans : s.cur.rest ≢ [] → Scans s (scan_string s)
  unfolding scan_string
  scan_string-Scans h = consume_string_body-Scans string _ (advance_byte-Advances s.cur h)

  pub scan_c_string-Scans : s.cur.rest ≢ [] → Scans s (scan_c_string s)
  unfolding scan_c_string
  scan_c_string-Scans h = consume_string_body-Scans c_string _ (advance_bytes-Advances 1 s.cur h)
