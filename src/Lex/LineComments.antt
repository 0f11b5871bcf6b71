-- ===== src/Lex/LineComments.antt =====
-- A source of compiler/lex/scanner.go that begins with a line comment, with CR LF line ends.
use fuse.Prelude.{
  ℕ, zero, suc, true, false, Bool-cases, [], ◌∷◌, length, Bytes, ◌≡◌, refl, ap, ◌∙◌, inl, inr,
  arith,
}
use fuse.Lex.Utf8.{Unicode}
use fuse.Lex.Scanner.{
  Scanner, move, skip_line_comment, skip_trivia, trivia_step, trivia_at, line_comment, emit_eof,
  check_bom,
}
use fuse.Lex.Run.{run, scanned, run_loop, finished, new_scanner}
use fuse.Lex.Tokenized.{finished_nil}
use fuse.Lex.Comments.{CrlfLines, nil, byte, crlf, skip_line_comment-CrlfLines}

skip_trivia-line :
    (fuel : ℕ) (s : Scanner)
    → s.stopped ≡ false
    → trivia_at s.cur.rest ≡ line_comment
    → skip_trivia (suc fuel) s ≡ skip_trivia fuel (move skip_line_comment s)
unfolding skip_trivia trivia_step
skip_trivia-line fuel s h e = simp (h, e, skip_trivia, trivia_step)

skip_trivia_end : (fuel : ℕ) (s : Scanner) → s.cur.rest ≡ [] → skip_trivia fuel s ≡ s
unfolding skip_trivia trivia_step trivia_at
skip_trivia_end zero s e = refl
skip_trivia_end (suc fuel) s e = elim (Bool-cases s.stopped) [
  | inl h ↦ simp (h, skip_trivia)
  | inr h ↦ simp (h, e, skip_trivia, trivia_step, trivia_at)
]

run_loop_skips :
    (u : Unicode) (fuel : ℕ) (s : Scanner)
    → finished s ≡ false
    → finished (skip_trivia (length s.cur.rest) s) ≡ true
    → run_loop u (suc fuel) s ≡ skip_trivia (length s.cur.rest) s
unfolding run_loop
run_loop_skips u fuel s e f = simp (e, f, run_loop)

abbrev commented : Bytes → Bytes
commented w = b'/' ∷ b'/' ∷ w

commented-CrlfLines : {w : Bytes} → CrlfLines w → CrlfLines (commented w)
commented-CrlfLines l = byte (omega arith) (omega arith) (byte (omega arith) (omega arith) l)

check_bom_none :
    {w : Bytes} → CrlfLines w → check_bom (new_scanner (commented w)) ≡ new_scanner (commented w)
unfolding check_bom
check_bom_none nil = refl
check_bom_none (byte n m l) = refl
check_bom_none (crlf l) = refl

module _ (u : Unicode) (w : Bytes) (l : CrlfLines w) where
  first : Scanner
  first = new_scanner (commented w)

  behind : (move skip_line_comment first).cur.rest ≡ []
  unfolding first
  behind = skip_line_comment-CrlfLines first.cur (commented-CrlfLines l)

  skipped : skip_trivia (length first.cur.rest) first ≡ move skip_line_comment first
  unfolding first trivia_at
  skipped =
      skip_trivia-line (suc (length w)) first refl refl
      ∙ skip_trivia_end (suc (length w)) (move skip_line_comment first) behind

  unfinished : finished first ≡ false
  unfolding first finished
  unfinished = refl

  loop_done : run_loop u (length first.cur.rest) first ≡ move skip_line_comment first
  unfolding first
  loop_done =
      run_loop_skips u (suc (length w)) first unfinished
        (ap finished skipped ∙ finished_nil (move skip_line_comment first) behind)
      ∙ skipped

  scanned_done : scanned u (commented w) ≡ move skip_line_comment first
  unfolding first scanned
  scanned_done = ap (run_loop u (length (commented w))) (check_bom_none l) ∙ loop_done

  -- A source that begins with `//` and whose lines all end in CR LF has no token but the end token,
  -- whatever stands on its later lines, and nothing is reported.
  pub run-CrlfLines : (length (run u (commented w)).tokens ≡ 1) × ((run u (commented w)).errs ≡ [])
  unfolding run emit_eof first
  run-CrlfLines = (
    ap (λ (s : Scanner). length (emit_eof s).tokens) scanned_done,
    ap (λ (s : Scanner). (emit_eof s).errs) scanned_done,
  )
