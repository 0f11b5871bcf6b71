-- ===== src/Lex/Tests.antt =====
-- Runs of the scanner of compiler/lex on small sources, and the theorems at concrete inputs.
use fuse.Prelude.{◌≤◌, List, [], ◌∷◌, length, map, codes, ◌≡◌, refl, false, some, arith}
use fuse.Lex.Token.{
  TokenKind, eof, ident, int, float, dot_dot, kw_fn, string, raw_string, shl_eq, shl, minus,
}
use fuse.Lex.TokenNames.{kind_name-injective}
use fuse.Lex.Utf8.{Unicode}
use fuse.Lex.Cursor.{Cursor}
use fuse.Lex.Scanner.{Scanner, Token, skip_trivia, skip_line_comment}
use fuse.Lex.Punct.{Punct, punct_at}
use fuse.Lex.Run.{run, scan_one, new_scanner}
use fuse.Lex.Scans.{Scans}
use fuse.Lex.Scans.One.{scan_one-Scans}
use fuse.Lex.Tokenized.{Tokenized, run-Tokenized}
use fuse.Lex.Comments.{Line, CrlfLines, skip_line_comment-Line}
use fuse.Lex.LineComments.{run-CrlfLines}
use fuse.Lex.Longest.{Spells, punct_at_longest}

-- No letters or digits outside ASCII.
abbrev ascii : Unicode
ascii = record { letter = λ _. false; digit = λ _. false }

kinds : Scanner → List TokenKind
kinds s = map (λ (t : Token). t.kind) s.tokens

kinds_of_line :
    kinds (
      run ascii (codes "fn x1 /* a /* b */ */ 0x1f_u8 <<= 1..2 1.5e-3 // y\n -\"a\\\"b\" r#\"q\"#"))
    ≡ kw_fn ∷ ident ∷ int ∷ shl_eq ∷ int ∷ dot_dot ∷ int ∷ float ∷ minus ∷ string ∷ raw_string ∷ eof
      ∷ []
unfolding kinds run skip_trivia scan_one
kinds_of_line = refl

-- A `//` comment that ends in CR LF goes on over the next line.
crlf_comment : kinds (run ascii (codes "// y\r\nx\r\n")) ≡ eof ∷ []
unfolding kinds run skip_trivia scan_one
crlf_comment = refl

-- The same source with bare LFs has its identifier.
lf_comment : kinds (run ascii (codes "// y\nx\n")) ≡ ident ∷ eof ∷ []
unfolding kinds run skip_trivia scan_one
lf_comment = refl

run-Tokenized_example : Tokenized (codes "let x = 1;") (run ascii (codes "let x = 1;"))
run-Tokenized_example = run-Tokenized ascii (codes "let x = 1;")

scan_one-Scans_example :
    Scans (new_scanner (codes "x1 <<")) (scan_one ascii (new_scanner (codes "x1 <<")))
scan_one-Scans_example = scan_one-Scans ascii (new_scanner (codes "x1 <<")) (λ e. cc)

abbrev at_comment : Cursor
at_comment = record { rest = codes "// a\nb"; off = 0; line = 1; col = 1 }

one-Line : Line (codes "// a")
one-Line = Line.byte (omega arith) (omega arith) (
    Line.byte (omega arith) (omega arith)
      (Line.byte (omega arith) (omega arith) (Line.byte (omega arith) (omega arith) Line.nil)))

skip_line_comment-Line_example : (skip_line_comment at_comment).rest ≡ codes "\nb"
skip_line_comment-Line_example = skip_line_comment-Line at_comment (codes "b") one-Line refl

two_lines-CrlfLines : CrlfLines (codes "a\r\nb")
two_lines-CrlfLines =
    CrlfLines.byte (omega arith) (omega arith)
      (CrlfLines.crlf (CrlfLines.byte (omega arith) (omega arith) CrlfLines.nil))

run-CrlfLines_example :
    (length (run ascii (codes "//a\r\nb")).tokens ≡ 1) × ((run ascii (codes "//a\r\nb")).errs ≡ [])
run-CrlfLines_example = run-CrlfLines ascii (codes "a\r\nb") two_lines-CrlfLines

punct_at_longest_example :
    (p : Punct) × (punct_at (codes "<<=1") ≡ some p)
    × (length (codes "<<") ≤ p.size)
    × Spells (codes "<<=1") p
punct_at_longest_example = punct_at_longest shl (codes "<<") (codes "=1") refl

kind_name-injective_example : ◌≡◌ {A = TokenKind} shl shl
kind_name-injective_example = kind_name-injective shl shl refl
