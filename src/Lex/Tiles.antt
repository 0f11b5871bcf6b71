-- ===== src/Lex/Tiles.antt =====
-- The order of tokens over the source, for `Run` of compiler/lex/scanner.go.
use mathlib.Core.Path.{subst}
use fuse.Prelude.{
  ℕ, ◌+◌, ◌-◌, ◌≤◌, ◌<◌, List, [], ◌∷◌, ◌++◌, length, take, drop, Bytes, ◌≡◌, refl, sym, ap, ◌∙◌,
  arith,
}
use fuse.Lex.Token.{TokenKind}
use fuse.Lex.Cursor.{Cursor, pos}
use fuse.Lex.Scanner.{Token, slice}
use fuse.Lex.Moves.{Moves, Advances}

-- The text of a token is the part of the source that its span covers.
pub record IsAt (src : Bytes) (t : Token) : Type 0 where
  pub before : Bytes
  pub after : Bytes
  pub split : src ≡ before ++ (t.text ++ after)
  pub starts : t.span.start.offset ≡ length before
  pub ends : t.span.end.offset ≡ length before + length t.text

-- The tokens stand in order between the offsets `lo` and `hi`: none is empty, none begins before
-- the last one has ended, and each has the text that it covers.
abbrev pub Tiles : Bytes → ℕ → List Token → ℕ → Type 0
Tiles src lo [] hi = lo ≤ hi
Tiles src lo (t ∷ ts) hi =
    (lo ≤ t.span.start.offset)
    × (t.span.start.offset < t.span.end.offset)
    × IsAt src t
    × Tiles src t.span.end.offset ts hi

pub Tiles-append :
    (src : Bytes) (lo mid hi : ℕ) (ts us : List Token)
    → Tiles src lo ts mid
    → Tiles src mid us hi
    → Tiles src lo (ts ++ us) hi
Tiles-append src lo mid hi [] [] h k = omega arith
Tiles-append src lo mid hi [] (u ∷ us) h (a, b, c, d) = (omega arith, b, c, d)
Tiles-append src lo mid hi (t ∷ ts) us (a, b, c, d) k =
    (a, b, c, Tiles-append src _ mid hi ts us d k)

drop-append : (p r : Bytes) → drop (length p) (p ++ r) ≡ r
drop-append [] r = refl
drop-append (x ∷ p) r = drop-append p r

take-append : (q r : Bytes) → take (length q) (q ++ r) ≡ q
take-append [] r = refl
take-append (x ∷ q) r = ap (λ t. x ∷ t) (take-append q r)

slice-append :
    (p q r : Bytes) (from to : ℕ)
    → from ≡ length p
    → to ≡ length p + length q
    → slice (p ++ (q ++ r)) from to ≡ q
slice-append p q r from to h k =
    rw (h, drop-append p (q ++ r))
      (let e : to - length p ≡ length q = omega arith in rw e (take-append q r))

module _ (src : Bytes) (start : Cursor) (c d : Cursor) (whole : start.rest ≡ src)
    (zero_off : start.off ≡ 0) (m : Moves start c) (a : Advances c d) where
  split_at : src ≡ m.pre ++ (a.moves.pre ++ d.rest)
  split_at = sym whole ∙ m.split ∙ ap (λ r. m.pre ++ r) a.moves.split

  text_at : slice src c.off d.off ≡ a.moves.pre
  text_at =
      subst (λ s. slice s c.off d.off ≡ a.moves.pre) (sym split_at)
        (slice-append m.pre a.moves.pre d.rest c.off d.off (omega arith) (omega arith))

  -- A token that covers what the cursor goes over.
  pub covered :
      (kind : TokenKind)
      → IsAt src (record {
        kind = kind;
        text = slice src c.off d.off;
        span = record { start = pos c; end = pos d };
      })
  covered kind = record {
    before = m.pre;
    after = d.rest;
    split = split_at ∙ ap (λ t. m.pre ++ (t ++ d.rest)) (sym text_at);
    starts = omega arith;
    ends = omega (arith, ap length text_at);
  }
