-- ===== src/Lex/Scans/Numbers.antt =====
-- `scanNumber` of compiler/lex/scanner.go, as a step of `Scans`.
use fuse.Prelude.{
  ℕ, Bool, true, false, ◌==◌, ◌||◌, if◌then◌else◌, Option, none, some, [], length, ◌≡◌, refl, ◌≢◌,
  arith,
}
use fuse.Lex.Token.{int}
use fuse.Lex.Utf8.{Unicode, is_dec_digit}
use fuse.Lex.Cursor.{Cursor, advance_byte, at_byte}
use fuse.Lex.Scanner.{Scanner}
use fuse.Lex.Literals.{
  consume_digit_run, consume_suffix, number_base, fraction, sign, exponent, decimal, based,
  scan_number,
}
use fuse.Lex.Moves.{
  Moves, Advances, Moves-refl, Moves-trans, Advances-Moves, advance_byte-Moves,
  advance_byte-Advances, advance_bytes-Advances, advance_while-Moves, advance_while-Advances,
}
use fuse.Lex.Scans.{Scans, token}
use fuse.Lex.Scans.Words.{consume_ident-Moves, length-pos}

Moves-if :
    (b : Bool) (c : Cursor) {d e : Cursor} → Moves c d → Moves c e → Moves c (if b then d else e)
Moves-if true c m n = m
Moves-if false c m n = n

consume_digit_run-Moves : (valid : ℕ → Bool) (c : Cursor) → Moves c (consume_digit_run valid c)
unfolding consume_digit_run
consume_digit_run-Moves valid c =
    advance_while-Moves _ advance_byte advance_byte-Moves (length c.rest) c

consume_suffix-Moves : (u : Unicode) (c : Cursor) → Moves c (consume_suffix u c)
unfolding consume_suffix
consume_suffix-Moves u c = Moves-if _ c (consume_ident-Moves u c) (Moves-refl c)

fraction-Moves : (c : Cursor) → Moves c (fraction c)
unfolding fraction
fraction-Moves c =
    Moves-if _ c
      (Moves-trans (advance_byte-Moves c) (consume_digit_run-Moves is_dec_digit (advance_byte c)))
      (Moves-refl c)

sign-Moves : (c : Cursor) → Moves c (sign c)
unfolding sign
sign-Moves c = Moves-if _ c (advance_byte-Moves c) (Moves-refl c)

exponent-Moves : (c : Cursor) → Moves c (exponent c)
unfolding exponent
exponent-Moves c =
    Moves-if _ c
      (Moves-trans (advance_byte-Moves c)
        (Moves-trans (sign-Moves (advance_byte c)) (consume_digit_run-Moves is_dec_digit _)))
      (Moves-refl c)

module _ (u : Unicode) (s : Scanner) (h : s.cur.rest ≢ [])
    (digit : at_byte is_dec_digit s.cur.rest ≡ true) where
  first_digit : at_byte (λ b. b == b'_' || is_dec_digit b) s.cur.rest ≡ true
  first_digit = ground arith

  decimal-Scans : Scans s (decimal u s)
  unfolding decimal
  decimal-Scans =
      token _ _
        (Advances-Moves whole (
          Moves-trans (fraction-Moves _)
            (Moves-trans (exponent-Moves _) (consume_suffix-Moves u _))))
        refl
    where
      whole : Advances s.cur (consume_digit_run is_dec_digit s.cur)
      whole =
          unfold consume_digit_run in
          advance_while-Advances _ advance_byte advance_byte-Moves (length s.cur.rest) s.cur
            (length-pos h) first_digit (advance_byte-Advances s.cur h)

  based-Scans : (base : Option (ℕ → Bool)) → Scans s (based u s base)
  unfolding based
  based-Scans none = decimal-Scans
  based-Scans (some valid) =
      token _ int
        (Advances-Moves (advance_bytes-Advances 1 s.cur h)
          (Moves-trans (consume_digit_run-Moves valid _) (consume_suffix-Moves u _)))
        refl

  pub scan_number-Scans : Scans s (scan_number u s)
  unfolding scan_number
  scan_number-Scans = based-Scans (number_base s.cur.rest)
