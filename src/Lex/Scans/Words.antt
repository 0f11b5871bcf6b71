-- ===== src/Lex/Scans/Words.antt =====
-- `scanIdentOrKeyword` and `scanChar` of compiler/lex/scanner.go, as steps of `Scans`.
use fuse.Prelude.{
  ℕ, ◌<◌, true, Bool-cases, ◌==◌, ◌&&◌, not, [], ◌∷◌, length, Bytes, ◌≡◌, refl, ◌≢◌, List-cases,
  inl, inr, arith,
}
use fuse.Lex.Token.{char}
use fuse.Lex.Utf8.{Unicode}
use fuse.Lex.Cursor.{Cursor, pos, advance_byte, advance_rune, at_byte, peek_byte}
use fuse.Lex.Scanner.{Scanner, bad_char}
use fuse.Lex.Literals.{
  ident_goes_on, consume_ident, is_raw_string_opener, emit_word, scan_ident_or_keyword,
  unicode_escape, escape_letter, close_char, escaped_char, char_body, scan_char,
}
use fuse.Lex.Moves.{
  Moves, Advances, Moves-trans, Advances-Moves, advance_byte-Moves, advance_byte-Advances,
  advance_rune-Moves, advance_rune-Advances, advance_while-Moves, advance_while-Advances,
}
use fuse.Lex.Scans.{Scans, token, problem, Scans-if, scan_raw_string-Scans, scan_c_string-Scans}

pub length-pos : {xs : Bytes} → xs ≢ [] → 0 < length xs
length-pos {xs} h = elim (List-cases xs) [
  | inl e ↦ absurd (h e)
  | inr (y, ys, e) ↦ rw e (omega arith)
]

pub consume_ident-Moves : (u : Unicode) (c : Cursor) → Moves c (consume_ident u c)
unfolding consume_ident
consume_ident-Moves u c =
    advance_while-Moves (ident_goes_on u) advance_rune advance_rune-Moves (length c.rest) c

pub consume_ident-Advances :
    (u : Unicode) (c : Cursor)
    → c.rest ≢ []
    → ident_goes_on u c.rest ≡ true
    → Advances c (consume_ident u c)
unfolding consume_ident
consume_ident-Advances u c h e =
    advance_while-Advances (ident_goes_on u) advance_rune advance_rune-Moves (length c.rest) c
      (length-pos h) e (advance_rune-Advances c h)

module _ (u : Unicode) (s : Scanner) where
  pub scan_ident_or_keyword-Scans :
      s.cur.rest ≢ [] → ident_goes_on u s.cur.rest ≡ true → Scans s (scan_ident_or_keyword u s)
  unfolding scan_ident_or_keyword emit_word
  scan_ident_or_keyword-Scans h e =
      Scans-if s (is_raw_string_opener s.cur.rest) (λ _. scan_raw_string-Scans s h)
        (λ _.
          Scans-if s (at_byte (λ b. b == b'c') s.cur.rest && peek_byte 1 s.cur.rest == b'"')
            (λ _. scan_c_string-Scans s h)
            (λ _. token (consume_ident u s.cur) _ (consume_ident-Advances u s.cur h e) refl))

unicode_escape-Moves : (c : Cursor) → Moves c (unicode_escape c)
unfolding unicode_escape
unicode_escape-Moves c = Moves-trans (advance_byte-Moves c) (
    Moves-trans
      (advance_while-Moves (at_byte (λ b. not (b == b'}'))) advance_byte advance_byte-Moves _
        (advance_byte c))
      (advance_byte-Moves _))

escape_letter-Moves : (esc : ℕ) (c : Cursor) → Moves c (escape_letter esc c)
unfolding escape_letter
escape_letter-Moves esc c =
    elim (Bool-cases (esc == b'u' && at_byte (λ b. b == b'{') (advance_byte c).rest)) [
      | inl e ↦ rw e (Moves-trans (advance_byte-Moves c) (unicode_escape-Moves (advance_byte c)))
      | inr e ↦ rw e (advance_byte-Moves c)
    ]

module _ (s : Scanner) where
  close_char-Scans :
      (c : Cursor) (rest : Bytes)
      → Advances s.cur c
      → Scans s (close_char (pos s.cur) (record s { cur = c }) rest)
  unfolding close_char
  close_char-Scans c [] a = problem c bad_char true a refl
  close_char-Scans c (b ∷ rest) a =
      Scans-if s _ (λ _. token (advance_byte c) char (Advances-Moves a (advance_byte-Moves c)) refl)
        (λ _. problem c bad_char true a refl)

  escaped_char-Scans :
      (c : Cursor) (rest : Bytes)
      → Advances s.cur c
      → Scans s (escaped_char (pos s.cur) (record s { cur = c }) rest)
  unfolding escaped_char
  escaped_char-Scans c [] a = problem c bad_char true a refl
  escaped_char-Scans c (esc ∷ rest) a =
      close_char-Scans _ _ (Advances-Moves a (escape_letter-Moves esc c))

  char_body-Scans :
      (c : Cursor) (rest : Bytes)
      → Advances s.cur c
      → Scans s (char_body (pos s.cur) (record s { cur = c }) rest)
  unfolding char_body
  char_body-Scans c [] a = problem c bad_char true a refl
  char_body-Scans c (b ∷ rest) a =
      Scans-if s (b == b'\\')
        (λ _. escaped_char-Scans _ _ (Advances-Moves a (advance_byte-Moves c)))
        (λ _. close_char-Scans _ _ (Advances-Moves a (advance_rune-Moves c)))

  pub scan_char-Scans : s.cur.rest ≢ [] → Scans s (scan_char s)
  unfolding scan_char
  scan_char-Scans h = char_body-Scans _ (advance_byte s.cur).rest (advance_byte-Advances s.cur h)
