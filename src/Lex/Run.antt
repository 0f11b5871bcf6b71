-- ===== src/Lex/Run.antt =====
-- `scanOne`, `NewScanner` and `Run` of compiler/lex/scanner.go.
use fuse.Prelude.{
  ℕ, zero, suc, Bool, true, false, ◌&&◌, ltb, leb, ◌==◌, if◌then◌else◌, [], ◌∷◌, length, Bytes,
}
use fuse.Lex.Utf8.{Unicode, within, is_ident_start, decode_rune}
use fuse.Lex.Scanner.{Scanner, emit_eof, check_bom, skip_trivia}
use fuse.Lex.Literals.{scan_ident_or_keyword, scan_number, scan_string, scan_char}
use fuse.Lex.Punct.{scan_punct, err_invalid_rune}

-- The dispatch on the byte `b` at the cursor.
unfoldable pub scan_byte : Unicode → ℕ → Scanner → Scanner
scan_byte u b s =
    if is_ident_start u b && ltb b 0x80
    then scan_ident_or_keyword u s
    else if leb 0x80 b
    then (if is_ident_start u (decode_rune s.cur.rest).value
        then scan_ident_or_keyword u s
        else err_invalid_rune (decode_rune s.cur.rest).value s)
    else if within b'0' b'9' b
    then scan_number u s
    else if b == b'"'
    then scan_string s
    else if b == b'\''
    then scan_char s
    else scan_punct s

unfoldable pub scan_over : Unicode → Bytes → Scanner → Scanner
scan_over u [] s = s
scan_over u (b ∷ _) s = scan_byte u b s

-- `scanOne`. It is called with a byte at the cursor.
unfoldable pub scan_one : Unicode → Scanner → Scanner
unfolding scan_over scan_byte is_ident_start scan_ident_or_keyword scan_number scan_string scan_char
    scan_punct
scan_one u s = scan_over u s.cur.rest s

-- Nothing more is scanned: the scanner has stopped or is at the end.
unfoldable pub finished : Scanner → Bool
finished s = if s.stopped then true else elim s.cur.rest [ [] ↦ true | _ ∷ _ ↦ false ]

-- The loop of `Run`, on fuel.
unfoldable pub run_loop : Unicode → ℕ → Scanner → Scanner
unfolding finished
run_loop u zero s = s
run_loop u (suc fuel) s = elim (finished s) [
  | true ↦ s
  | false ↦
      let t = skip_trivia (length s.cur.rest) s in
      elim (finished t) [ true ↦ t | false ↦ run_loop u fuel (scan_one u t) ]
]

-- `NewScanner`, and the state that `Run` sets at its start.
abbrev pub new_scanner : Bytes → Scanner
new_scanner src = record {
  src = src;
  cur = record { rest = src; off = 0; line = 1; col = 1 };
  tokens = [];
  errs = [];
  stopped = false;
}

-- The state of `Run` before it appends the end token.
unfoldable pub scanned : Unicode → Bytes → Scanner
unfolding check_bom run_loop
scanned u src = run_loop u (length src) (check_bom (new_scanner src))

-- `Run`. Where `checkBOM` has stopped the scanner the loop does nothing.
unfoldable pub run : Unicode → Bytes → Scanner
unfolding scanned emit_eof
run u src = emit_eof (scanned u src)
