-- ===== src/Lex/Nested.antt =====
-- Nested block comments of compiler/lex/scanner.go.

use fuse.Prelude.{ℕ, suc, ◌≤◌, [], ◌∷◌, ◌++◌, length, Bytes, ◌≡◌, ◌≢◌}
use fuse.Lex.Cursor.{Cursor}
use fuse.Lex.Scanner.{Scanner, block_loop}

-- The inside of a block comment: slashes and stars stand only in the marks of nested comments.
pub data Inside : Bytes → Type 0 where
  empty : Inside []
  text : {b : ℕ} {w : Bytes} → b ≢ b'/' → b ≢ b'*' → b ≢ b'\r' → Inside w → Inside (b ∷ w)
  nested :
      {v w x : Bytes} → Inside v → Inside w → x ≡ b'/' ∷ b'*' ∷ (v ++ (b'*' ∷ b'/' ∷ w)) → Inside x

-- The loop has come to `r` at the depth at which it began, with fuel for what is left.
record Reaches (fuel depth : ℕ) (c : Cursor) (r : Bytes) : Type 0 where
  fuel' : ℕ
  at : Cursor
  same : block_loop fuel (suc depth) c ≡ block_loop fuel' (suc depth) at
  left : at.rest ≡ r
  enough : length r ≤ fuel'
