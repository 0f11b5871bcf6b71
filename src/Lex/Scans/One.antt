-- ===== src/Lex/Scans/One.antt =====
-- `scanPunct`, `errInvalidRune` and `scanOne` of compiler/lex/scanner.go, as steps of `Scans`.
use fuse.Prelude.{
  ℕ, zero, suc, ◌<◌, true, ◌==◌, ◌&&◌, leb, ltb, Option, none, some, [], ◌∷◌, Bytes, ◌≡◌, refl, ◌≢◌,
  Option-cases, ◌∙◌, inl, inr, arith,
}
use fuse.Lex.Utf8.{Unicode, within, is_ident_start, is_ident_continue, is_dec_digit, decode_rune}
use fuse.Lex.Cursor.{advance_rune, advance_bytes, peek_byte}
use fuse.Lex.Scanner.{Scanner, unexpected_char}
use fuse.Lex.Literals.{ident_goes_on}
use fuse.Lex.Punct.{Punct, punct_at, single_punct, multi_punct, err_invalid_rune, scan_punct}
use fuse.Lex.Run.{scan_byte, scan_over, scan_one}
use fuse.Lex.Moves.{Advances, advance_rune-Advances, advance_bytes-Advances}
use fuse.Lex.Scans.{Scans, token, problem, Scans-if, scan_string-Scans}
use fuse.Lex.Scans.Words.{scan_ident_or_keyword-Scans, scan_char-Scans}
use fuse.Lex.Scans.Numbers.{scan_number-Scans}

is_ident_start→continue :
    (u : Unicode) (r : ℕ) → is_ident_start u r ≡ true → is_ident_continue u r ≡ true
unfolding is_ident_start is_ident_continue
is_ident_start→continue u r h = ground arith

decode_rune_ascii : (b : ℕ) (r : Bytes) → ltb b 128 ≡ true → (decode_rune (b ∷ r)).value ≡ b
unfolding decode_rune
decode_rune_ascii b r h = rw h

starts→goes_on :
    (u : Unicode) (rest : Bytes) (b : ℕ) (r : Bytes)
    → rest ≡ b ∷ r
    → is_ident_start u (decode_rune rest).value ≡ true
    → ident_goes_on u rest ≡ true
unfolding ident_goes_on
starts→goes_on u [] b r e h = cc
starts→goes_on u (a ∷ q) b r e h = is_ident_start→continue u _ h

single_punct-size : (b : ℕ) {p : Punct} → single_punct b ≡ some p → p.size ≡ 1
unfolding single_punct
single_punct-size b h = ground arith

multi_punct-size : (b b1 b2 : ℕ) {p : Punct} → multi_punct b b1 b2 ≡ some p → 0 < p.size
unfolding multi_punct
multi_punct-size b b1 b2 h = ground arith

punct_at-size : (rest : Bytes) {p : Punct} → punct_at rest ≡ some p → 0 < p.size
unfolding punct_at
punct_at-size rest {p} e = elim (Option-cases (single_punct (peek_byte 0 rest))) [
  | inl n ↦
      multi_punct-size (peek_byte 0 rest) (peek_byte 1 rest) (peek_byte 2 rest)
        (rw (n, punct_at) at e)
  | inr (q, n) ↦
      omega (arith, single_punct-size (peek_byte 0 rest) {p = p} (n ∙ (rw (n, punct_at) at e)))
]

module _ (s : Scanner) (h : s.cur.rest ≢ []) where
  err_invalid_rune-Scans : (r : ℕ) → Scans s (err_invalid_rune r s)
  unfolding err_invalid_rune
  err_invalid_rune-Scans r =
      problem (advance_rune s.cur) (unexpected_char r) s.stopped (advance_rune-Advances s.cur h)
        refl

  punct-Scans : (p : Option Punct) → punct_at s.cur.rest ≡ p → Scans s (scan_punct s)
  unfolding scan_punct
  punct-Scans none e = rw (e, scan_punct) (err_invalid_rune-Scans _)
  punct-Scans (some p) e =
      rw (e, scan_punct)
        (token (advance_bytes p.size s.cur) p.kind (by_size p.size (punct_at-size s.cur.rest e))
          refl)
    where
      by_size : (n : ℕ) → 0 < n → Advances s.cur (advance_bytes n s.cur)
      by_size zero k = absurd (omega arith)
      by_size (suc n) k = advance_bytes-Advances n s.cur h

  module _ (u : Unicode) where
    scan_byte-Scans : (b : ℕ) (r : Bytes) → s.cur.rest ≡ b ∷ r → Scans s (scan_byte u b s)
    unfolding scan_byte
    scan_byte-Scans b r e =
        Scans-if s (is_ident_start u b && ltb b 0x80)
          (λ t. scan_ident_or_keyword-Scans u s h (
            starts→goes_on u s.cur.rest b r e
              (rw (e, decode_rune_ascii b r (ground arith)) (ground arith))))
          (λ _.
            Scans-if s (leb 0x80 b)
              (λ _.
                Scans-if s (is_ident_start u (decode_rune s.cur.rest).value)
                  (λ t. scan_ident_or_keyword-Scans u s h (starts→goes_on u s.cur.rest b r e t))
                  (λ _. err_invalid_rune-Scans _))
              (λ _.
                Scans-if s (within b'0' b'9' b)
                  (λ t. scan_number-Scans u s h (rw e (unfold is_dec_digit in t)))
                  (λ _.
                    Scans-if s (b == b'"') (λ _. scan_string-Scans s h)
                      (λ _.
                        Scans-if s (b == b'\'') (λ _. scan_char-Scans s h)
                          (λ _. punct-Scans (punct_at s.cur.rest) refl)))))

    scan_over-Scans : (rest : Bytes) → s.cur.rest ≡ rest → Scans s (scan_over u rest s)
    unfolding scan_over
    scan_over-Scans [] e = absurd (h e)
    scan_over-Scans (b ∷ r) e = scan_byte-Scans b r e

-- Called with a byte at the cursor, `scanOne` advances the cursor over at least one byte and adds
-- exactly one token, from the old position to the new one with the text between them, or exactly one
-- diagnostic, from the old position to the new one.
pub scan_one-Scans : (u : Unicode) (s : Scanner) → s.cur.rest ≢ [] → Scans s (scan_one u s)
unfolding scan_one
scan_one-Scans u s h = scan_over-Scans s h u s.cur.rest refl
