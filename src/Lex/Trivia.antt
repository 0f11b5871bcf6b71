-- ===== src/Lex/Trivia.antt =====
-- `skipTrivia` of compiler/lex/scanner.go, as one step over the source.
use mathlib.Core.Path.{subst}
use fuse.Prelude.{
  ℕ, zero, suc, true, false, Bool-cases, length, ◌≡◌, refl, sym, ap, ◌∙◌, ◌⊎◌, inl, inr,
}
use fuse.Lex.Cursor.{Cursor, pos, advance_byte, advance_bytes}
use fuse.Lex.Scanner.{
  Scanner, unterminated_comment, report, stop, Mark, at_end, opens, closes, plain, comment_mark,
  block_loop, close_block, skip_block_comment, skip_line_comment, Trivia, ends, blank, line_comment,
  block_comment, token, trivia_at, trivia_step, skip_trivia,
}
use fuse.Lex.Moves.{
  Moves, Moves-refl, Moves-trans, advance_byte-Moves, advance_bytes-Moves, advance_while-Moves,
}

-- Trivia is gone over without a token. A comment that does not end is reported and stops the scanner.
pub data Skips (s : Scanner) : Scanner → Type 0 where
  over : {t : Scanner} (c : Cursor) → Moves s.cur c → t ≡ record s { cur = c } → Skips s t
  open_comment :
      {t : Scanner} (c d : Cursor)
      → Moves s.cur c
      → Moves c d
      → t ≡ stop (report (pos c) unterminated_comment (record s { cur = d }))
      → Skips s t

Mark-cases : (m : Mark) → (m ≡ at_end) ⊎ (m ≡ opens) ⊎ (m ≡ closes) ⊎ (m ≡ plain)
Mark-cases at_end = inl refl
Mark-cases opens = inr (inl refl)
Mark-cases closes = inr (inr (inl refl))
Mark-cases plain = inr (inr (inr refl))

advance_twice : (c : Cursor) → Moves c (advance_byte (advance_byte c))
advance_twice c = Moves-trans (advance_byte-Moves c) (advance_byte-Moves (advance_byte c))

pub block_loop-Moves : (fuel depth : ℕ) (c : Cursor) → Moves c (block_loop fuel depth c).1
unfolding block_loop
block_loop-Moves zero depth c = Moves-refl c
block_loop-Moves (suc fuel) zero c = Moves-refl c
block_loop-Moves (suc fuel) (suc depth) c = elim (Mark-cases (comment_mark c.rest)) [
  | inl e ↦ rw (e, block_loop) (Moves-refl c)
  | inr (inl e) ↦
      rw (e, block_loop)
        (Moves-trans (advance_twice c)
          (block_loop-Moves fuel (suc (suc depth)) (advance_byte (advance_byte c))))
  | inr (inr (inl e)) ↦
      rw (e, block_loop)
        (Moves-trans (advance_twice c)
          (block_loop-Moves fuel depth (advance_byte (advance_byte c))))
  | inr (inr (inr e)) ↦
      rw (e, block_loop)
        (Moves-trans (advance_byte-Moves c) (block_loop-Moves fuel (suc depth) (advance_byte c)))
]

close_block-Skips :
    (s : Scanner) (d : Cursor) (depth : ℕ)
    → Moves s.cur d
    → Skips s (close_block (pos s.cur) (record s { cur = d }) depth)
close_block-Skips s d zero m = over d m refl
close_block-Skips s d (suc depth) m = open_comment s.cur d (Moves-refl s.cur) m refl

pub skip_block_comment-Skips : (s : Scanner) → Skips s (skip_block_comment s)
unfolding skip_block_comment
skip_block_comment-Skips s = close_block-Skips s _ _ (
    Moves-trans (advance_bytes-Moves 2 s.cur)
      (block_loop-Moves (length (advance_bytes 2 s.cur).rest) 1 (advance_bytes 2 s.cur)))

skip_line_comment-Moves : (c : Cursor) → Moves c (skip_line_comment c)
unfolding skip_line_comment
skip_line_comment-Moves c = advance_while-Moves _ advance_byte advance_byte-Moves (length c.rest) c

Skips-after :
    {s t : Scanner} (c : Cursor) → Moves s.cur c → Skips (record s { cur = c }) t → Skips s t
Skips-after c m (over d n e) = over d (Moves-trans m n) e
Skips-after c m (open_comment d f n o e) = open_comment d f (Moves-trans m n) o e

-- A stopped scanner is left alone.
skip_trivia_stopped : (fuel : ℕ) (s : Scanner) → s.stopped ≡ true → skip_trivia fuel s ≡ s
unfolding skip_trivia
skip_trivia_stopped zero s h = refl
skip_trivia_stopped (suc fuel) s h = simp (h, skip_trivia)

Skips-trivia :
    (fuel : ℕ) {s t : Scanner}
    → ((r : Scanner) → Skips r (skip_trivia fuel r))
    → Skips s t
    → Skips s (skip_trivia fuel t)
Skips-trivia fuel {s} all (over c m e) =
    subst (λ t. Skips s (skip_trivia fuel t)) (sym e) (Skips-after c m (all (record s { cur = c })))
Skips-trivia fuel {s} {t} all (open_comment c d m n e) =
    open_comment c d m n (skip_trivia_stopped fuel t (ap (λ (r : Scanner). r.stopped) e) ∙ e)

trivia_step-Skips :
    (fuel : ℕ) (s : Scanner) (k : Trivia)
    → ((r : Scanner) → Skips r (skip_trivia fuel r))
    → Skips s (trivia_step (skip_trivia fuel) s k)
unfolding trivia_step
trivia_step-Skips fuel s ends all = over s.cur (Moves-refl s.cur) refl
trivia_step-Skips fuel s blank all =
    Skips-after (advance_byte s.cur) (advance_byte-Moves s.cur) (all _)
trivia_step-Skips fuel s line_comment all =
    Skips-after (skip_line_comment s.cur) (skip_line_comment-Moves s.cur) (all _)
trivia_step-Skips fuel s block_comment all = Skips-trivia fuel all (skip_block_comment-Skips s)
trivia_step-Skips fuel s token all = over s.cur (Moves-refl s.cur) refl

pub skip_trivia-Skips : (fuel : ℕ) (s : Scanner) → Skips s (skip_trivia fuel s)
unfolding skip_trivia
skip_trivia-Skips zero s = over s.cur (Moves-refl s.cur) refl
skip_trivia-Skips (suc fuel) s = elim (Bool-cases s.stopped) [
  | inl e ↦ over s.cur (Moves-refl s.cur) (skip_trivia_stopped (suc fuel) s e)
  | inr e ↦
      subst (Skips s) (sym (step e))
        (trivia_step-Skips fuel s (trivia_at s.cur.rest) (skip_trivia-Skips fuel))
]
  where
    step :
        s.stopped ≡ false
        → skip_trivia (suc fuel) s ≡ trivia_step (skip_trivia fuel) s (trivia_at s.cur.rest)
    step e = simp (e, skip_trivia)
