-- ===== src/Lex/Comments.antt =====
-- Comments of compiler/lex/scanner.go: which bytes `skipTrivia` takes for a comment.

use fuse.Prelude.{
  ℕ, zero, suc, ◌≤◌, Bool, true, false, ◌==◌, not, [], ◌∷◌, ◌++◌, length, length-append, Bytes, ◌≡◌,
  refl, ap, ◌∙◌, ◌≢◌, arith,
}
use fuse.Lex.Cursor.{Cursor, advance_byte, advance_while, at_byte}
use fuse.Lex.Scanner.{skip_line_comment}

-- What is left behind one byte that is no CR.
pub advance_byte-rest :
    (c : Cursor) (b : ℕ) (r : Bytes) → c.rest ≡ b ∷ r → b ≢ b'\r' → (advance_byte c).rest ≡ r
advance_byte-rest c b r e ne = over c.rest c.off c.line c.col e
  where
    over :
        (rest : Bytes) (off line col : ℕ)
        → rest ≡ b ∷ r
        → (advance_byte (record { rest = rest; off = off; line = line; col = col })).rest ≡ r
    over [] off line col h = cc
    over (a ∷ q) off line col h = unfold advance_byte in ground arith

-- A CR and the LF behind it go together.
advance_byte-crlf :
    (c : Cursor) (r : Bytes) → c.rest ≡ b'\r' ∷ b'\n' ∷ r → (advance_byte c).rest ≡ r
advance_byte-crlf c r e = over c.rest c.off c.line c.col e
  where
    over :
        (rest : Bytes) (off line col : ℕ)
        → rest ≡ b'\r' ∷ b'\n' ∷ r
        → (advance_byte (record { rest = rest; off = off; line = line; col = col })).rest ≡ r
    over [] off line col h = cc
    over (a ∷ []) off line col h = absurd (omega (arith, ap length h))
    over (a ∷ b ∷ q) off line col h = unfold advance_byte in ground arith

-- Bytes of one line: no LF and no CR.
pub data Line : Bytes → Type 0 where
  nil : Line []
  byte : {b : ℕ} {w : Bytes} → b ≢ b'\n' → b ≢ b'\r' → Line w → Line (b ∷ w)

-- Lines that end in CR LF.
pub data CrlfLines : Bytes → Type 0 where
  nil : CrlfLines []
  byte : {b : ℕ} {w : Bytes} → b ≢ b'\n' → b ≢ b'\r' → CrlfLines w → CrlfLines (b ∷ w)
  crlf : {w : Bytes} → CrlfLines w → CrlfLines (b'\r' ∷ b'\n' ∷ w)

abbrev no_lf : Bytes → Bool
no_lf = at_byte (λ b. not (b == b'\n'))

no_lf-true : (c : Cursor) (b : ℕ) (r : Bytes) → c.rest ≡ b ∷ r → b ≢ b'\n' → no_lf c.rest ≡ true
no_lf-true c b r e ne = rw e (ground arith)

line_loop : ℕ → Cursor → Cursor
line_loop fuel c = advance_while fuel no_lf advance_byte c

line_loop_step :
    (fuel : ℕ) (c : Cursor)
    → no_lf c.rest ≡ true
    → line_loop (suc fuel) c ≡ line_loop fuel (advance_byte c)
unfolding line_loop advance_while
line_loop_step fuel c e = simp (e, advance_while)

line_loop_end : (fuel : ℕ) (c : Cursor) → no_lf c.rest ≡ false → line_loop fuel c ≡ c
unfolding line_loop advance_while
line_loop_end zero c e = refl
line_loop_end (suc fuel) c e = simp (e, advance_while)

line_loop-Line :
    {w : Bytes} (fuel : ℕ) (c : Cursor) (r : Bytes)
    → Line w
    → c.rest ≡ w ++ (b'\n' ∷ r)
    → length w ≤ fuel
    → (line_loop fuel c).rest ≡ b'\n' ∷ r
line_loop-Line fuel c r nil e h = ap (λ (d : Cursor). d.rest) (line_loop_end fuel c (rw e refl)) ∙ e
line_loop-Line zero c r (byte n m l) e h = absurd (omega arith)
line_loop-Line (suc fuel) c r (byte {b} {w} n m l) e h =
    ap (λ (d : Cursor). d.rest) (line_loop_step fuel c (no_lf-true c b _ e n))
    ∙ line_loop-Line fuel (advance_byte c) r l (advance_byte-rest c b _ e m) (omega arith)

line_loop-CrlfLines :
    {w : Bytes} (fuel : ℕ) (c : Cursor)
    → CrlfLines w
    → c.rest ≡ w
    → length w ≤ fuel
    → (line_loop fuel c).rest ≡ []
line_loop-CrlfLines fuel c nil e h =
    ap (λ (d : Cursor). d.rest) (line_loop_end fuel c (rw e refl)) ∙ e
line_loop-CrlfLines zero c (byte n m l) e h = absurd (omega arith)
line_loop-CrlfLines zero c (crlf l) e h = absurd (omega arith)
line_loop-CrlfLines (suc fuel) c (byte {b} {w} n m l) e h =
    ap (λ (d : Cursor). d.rest) (line_loop_step fuel c (no_lf-true c b _ e n))
    ∙ line_loop-CrlfLines fuel (advance_byte c) l (advance_byte-rest c b _ e m) (omega arith)
line_loop-CrlfLines (suc fuel) c (crlf l) e h =
    ap (λ (d : Cursor). d.rest) (line_loop_step fuel c (rw e refl))
    ∙ line_loop-CrlfLines fuel (advance_byte c) l (advance_byte-crlf c _ e) (omega arith)

-- A line comment that ends in a bare LF stops before that LF.
pub skip_line_comment-Line :
    {w : Bytes} (c : Cursor) (r : Bytes)
    → Line w
    → c.rest ≡ w ++ (b'\n' ∷ r)
    → (skip_line_comment c).rest ≡ b'\n' ∷ r
unfolding skip_line_comment
skip_line_comment-Line {w} c r l e =
    unfold line_loop in
    line_loop-Line (length c.rest) c r l e (omega (arith, ap length e, length-append w (b'\n' ∷ r)))

-- Where lines end in CR LF a line comment does not end: it takes all lines behind it, to the end of
-- the source.
pub skip_line_comment-CrlfLines : (c : Cursor) → CrlfLines c.rest → (skip_line_comment c).rest ≡ []
unfolding skip_line_comment
skip_line_comment-CrlfLines c l =
    unfold line_loop in line_loop-CrlfLines (length c.rest) c l refl (omega arith)
